-- ===== src/Scoring.antt =====
-- eval/scoring/metrics.go: the verdict on a pair of answers, and the summary of all pairs.
use acgc_project.Common.{
  ℕ, ◌+◌, ◌-◌, Str, List, [], ◌∷◌, Bool, ◌&&◌, Option, if◌then◌else◌, is_empty, length, ltb, leb,
  ◌==◌,
}
use acgc_project.Domain.{Floats}
pub mod Strategies
pub mod Counts
pub mod Compared
pub mod Probes
pub mod Abstained

-- A string in the code; these are the values that `ClassifyVerdict` makes, and no other is modelled.
pub data Verdict : Type 0 where
  acgc_win acgc_win_star tie acgc_loss baseline_win : Verdict

-- `harness.ProbeResult`, the fields that are read here
pub record ProbeResult : Type 0 where
  pub prompt_tokens : ℕ
  pub output_tokens : ℕ
  pub latency_ms : ℕ

module _ (fl : Floats) where
  -- `Score`, the fields that are read here
  pub record Score : Type 0 where
    pub value : fl.F
    pub method : Str
    pub detail : Str

  pub record PairResult : Type 0 where
    pub scenario_id : Str
    pub probe_id : Str
    pub strategy : Str
    pub reference : Str
    pub score_baseline : fl.F
    pub score_acgc : fl.F
    pub tokens_baseline : ℕ
    pub tokens_acgc : ℕ
    pub ipt_baseline : fl.F
    pub ipt_acgc : fl.F
    pub ipt_delta : fl.F
    pub ipt_delta_pct : fl.F
    pub quality_delta : fl.F
    pub token_reduction_pct : fl.F
    pub verdict : Verdict
    pub scoring_method : Str
    pub detail_baseline : Str
    pub detail_acgc : Str

  pub record Aggregate : Type 0 where
    pub total_pairs : ℕ
    pub acgc_wins : ℕ
    pub acgc_wins_star : ℕ
    pub ties : ℕ
    pub acgc_losses : ℕ
    pub baseline_wins : ℕ
    pub avg_quality_baseline : fl.F
    pub avg_quality_acgc : fl.F
    pub avg_quality_delta : fl.F
    pub avg_token_reduction_pct : fl.F
    pub avg_ipt_baseline : fl.F
    pub avg_ipt_acgc : fl.F
    pub avg_ipt_delta_pct : fl.F
    pub regression_count : ℕ

  abbrev zero : fl.F
  zero = fl.literal 0 0

  -- `(a - b) / b * 100`
  unfoldable pub percent_of : fl.F → fl.F → fl.F
  percent_of a b = fl.fmul (fl.fdiv a b) (fl.literal 100 0)

  -- `float64(a - b)` of integers
  unfoldable pub of_difference : ℕ → ℕ → fl.F
  of_difference a b = if leb b a then fl.of_int (a - b) else fl.fsub zero (fl.of_int (b - a))

  unfoldable pub compute_ipt : fl.F → ℕ → fl.F
  compute_ipt score tokens =
      if tokens == 0 then zero else fl.fdiv score (fl.fdiv (fl.of_int tokens) (fl.literal 1000 0))

  -- `-x` for a constant
  unfoldable pub negative : fl.F → fl.F
  negative x = fl.fsub zero x

  unfoldable pub classify_verdict : fl.F → fl.F → fl.F → fl.F → Verdict
  unfolding negative
  classify_verdict quality_baseline quality_acgc ipt_baseline ipt_acgc =
      let q = fl.fsub quality_acgc quality_baseline in
      let half = fl.literal 5 1 in
      if fl.le (negative half) q && fl.lt ipt_baseline ipt_acgc
      then Verdict.acgc_win
      else if fl.lt q (negative half) && fl.lt ipt_baseline ipt_acgc
      then Verdict.acgc_win_star
      else if fl.lt half q && fl.lt ipt_acgc ipt_baseline
      then Verdict.baseline_win
      else if fl.lt q (negative (fl.literal 10 1))
      then Verdict.acgc_loss
      else Verdict.tie

  unfoldable pub build_pair :
      Str → Str → Str → Str → ProbeResult → ProbeResult → Score → Score → PairResult
  unfolding compute_ipt classify_verdict percent_of of_difference
  build_pair scenario_id probe_id reference candidate baseline acgc score_baseline score_acgc =
      let ipt_b = compute_ipt score_baseline.value baseline.prompt_tokens in
      let ipt_a = compute_ipt score_acgc.value acgc.prompt_tokens in
      record {
        scenario_id = scenario_id;
        probe_id = probe_id;
        strategy = candidate;
        reference = reference;
        score_baseline = score_baseline.value;
        score_acgc = score_acgc.value;
        tokens_baseline = baseline.prompt_tokens;
        tokens_acgc = acgc.prompt_tokens;
        ipt_baseline = ipt_b;
        ipt_acgc = ipt_a;
        ipt_delta = fl.fsub ipt_a ipt_b;
        ipt_delta_pct = if fl.lt zero ipt_b then percent_of (fl.fsub ipt_a ipt_b) ipt_b else zero;
        quality_delta = fl.fsub score_acgc.value score_baseline.value;
        token_reduction_pct =
            if ltb 0 baseline.prompt_tokens
            then percent_of (of_difference baseline.prompt_tokens acgc.prompt_tokens)
                (fl.of_int baseline.prompt_tokens)
            else zero;
        verdict = classify_verdict score_baseline.value score_acgc.value ipt_b ipt_a;
        scoring_method = score_baseline.method;
        detail_baseline = score_baseline.detail;
        detail_acgc = score_acgc.detail;
      }

  unfoldable pub count_verdict : Verdict → Aggregate → Aggregate
  count_verdict Verdict.acgc_win agg = record agg { acgc_wins = agg.acgc_wins + 1 }
  count_verdict Verdict.acgc_win_star agg = record agg { acgc_wins_star = agg.acgc_wins_star + 1 }
  count_verdict Verdict.tie agg = record agg { ties = agg.ties + 1 }
  count_verdict Verdict.acgc_loss agg = record agg { acgc_losses = agg.acgc_losses + 1 }
  count_verdict Verdict.baseline_win agg = record agg { baseline_wins = agg.baseline_wins + 1 }

  -- one round of the loop over the pairs
  unfoldable pub add_pair : PairResult → Aggregate → Aggregate
  unfolding count_verdict negative
  add_pair p agg =
      let counted = count_verdict p.verdict agg in
      record counted {
        avg_quality_baseline = fl.fadd counted.avg_quality_baseline p.score_baseline;
        avg_quality_acgc = fl.fadd counted.avg_quality_acgc p.score_acgc;
        avg_token_reduction_pct = fl.fadd counted.avg_token_reduction_pct p.token_reduction_pct;
        avg_ipt_baseline = fl.fadd counted.avg_ipt_baseline p.ipt_baseline;
        avg_ipt_acgc = fl.fadd counted.avg_ipt_acgc p.ipt_acgc;
        regression_count =
            if fl.lt p.quality_delta (negative (fl.literal 10 1))
            then counted.regression_count + 1
            else counted.regression_count;
      }

  unfoldable pub add_pairs : List PairResult → Aggregate → Aggregate
  unfolding add_pair
  add_pairs [] agg = agg
  add_pairs (p ∷ pairs) agg = add_pairs pairs (add_pair p agg)

  unfoldable pub no_pairs : ℕ → Aggregate
  no_pairs total = record {
    total_pairs = total;
    acgc_wins = 0;
    acgc_wins_star = 0;
    ties = 0;
    acgc_losses = 0;
    baseline_wins = 0;
    avg_quality_baseline = zero;
    avg_quality_acgc = zero;
    avg_quality_delta = zero;
    avg_token_reduction_pct = zero;
    avg_ipt_baseline = zero;
    avg_ipt_acgc = zero;
    avg_ipt_delta_pct = zero;
    regression_count = 0;
  }

  -- the averages of the sums
  unfoldable pub average : fl.F → Aggregate → Aggregate
  unfolding percent_of
  average n agg =
      let quality_b = fl.fdiv agg.avg_quality_baseline n in
      let quality_a = fl.fdiv agg.avg_quality_acgc n in
      let ipt_b = fl.fdiv agg.avg_ipt_baseline n in
      let ipt_a = fl.fdiv agg.avg_ipt_acgc n in
      record agg {
        avg_quality_baseline = quality_b;
        avg_quality_acgc = quality_a;
        avg_quality_delta = fl.fsub quality_a quality_b;
        avg_token_reduction_pct = fl.fdiv agg.avg_token_reduction_pct n;
        avg_ipt_baseline = ipt_b;
        avg_ipt_acgc = ipt_a;
        avg_ipt_delta_pct =
            if fl.lt zero ipt_b
            then percent_of (fl.fsub ipt_a ipt_b) ipt_b
            else agg.avg_ipt_delta_pct;
      }

  unfoldable pub aggregate_pairs : List PairResult → Aggregate
  unfolding no_pairs add_pairs average
  aggregate_pairs pairs =
      let agg = no_pairs (length pairs) in
      if is_empty pairs then agg else average (fl.of_int (length pairs)) (add_pairs pairs agg)
