-- ===== src/Scoring/Strategies.antt =====
-- eval/scoring/strategy.go: the summary of each strategy, and its distance to the reference.
use acgc_project.Common.{
  ℕ, ◌+◌, Str, List, [], ◌∷◌, Bool, Option, none, some, if◌then◌else◌, Map, get, put, str_eq, ◌==◌,
}
use acgc_project.Domain.{Floats}
use acgc_project.Scoring.{ProbeResult, Score, compute_ipt, percent_of}

module _ (fl : Floats) where
  pub record StrategyMetric : Type 0 where
    pub scenario_id : Str
    pub probe_id : Str
    pub strategy : Str
    pub score : fl.F
    pub prompt_tokens : ℕ
    pub output_tokens : ℕ
    pub latency_ms : ℕ
    pub ipt : fl.F
    pub method : Str
    pub detail : Str

  unfoldable pub new_strategy_metric : Str → Str → Str → ProbeResult → Score fl → StrategyMetric
  unfolding compute_ipt
  new_strategy_metric scenario_id probe_id strategy res score = record {
    scenario_id = scenario_id;
    probe_id = probe_id;
    strategy = strategy;
    score = score.value;
    prompt_tokens = res.prompt_tokens;
    output_tokens = res.output_tokens;
    latency_ms = res.latency_ms;
    ipt = compute_ipt fl score.value res.prompt_tokens;
    method = score.method;
    detail = score.detail;
  }

  pub record StrategyAggregate : Type 0 where
    pub strategy : Str
    pub is_reference : Bool
    pub probes : ℕ
    pub avg_quality : fl.F
    pub avg_prompt_tokens : fl.F
    pub avg_output_tokens : fl.F
    pub avg_latency_ms : fl.F
    pub avg_ipt : fl.F
    pub token_reduction_pct_vs_ref : fl.F
    pub quality_delta_vs_ref : fl.F
    pub ipt_delta_pct_vs_ref : fl.F

  unfoldable pub new_aggregate : Str → Str → StrategyAggregate
  new_aggregate reference k =
      let zero = fl.literal 0 0 in
      record {
        strategy = k;
        is_reference = str_eq k reference;
        probes = 0;
        avg_quality = zero;
        avg_prompt_tokens = zero;
        avg_output_tokens = zero;
        avg_latency_ms = zero;
        avg_ipt = zero;
        token_reduction_pct_vs_ref = zero;
        quality_delta_vs_ref = zero;
        ipt_delta_pct_vs_ref = zero;
      }

  unfoldable pub start_sums : Str → List Str → Map StrategyAggregate → Map StrategyAggregate
  unfolding new_aggregate
  start_sums reference [] sums = sums
  start_sums reference (k ∷ order) sums =
      start_sums reference order (put k (new_aggregate reference k) sums)

  unfoldable pub add_metric : StrategyMetric → StrategyAggregate → StrategyAggregate
  add_metric m agg = record agg {
    probes = agg.probes + 1;
    avg_quality = fl.fadd agg.avg_quality m.score;
    avg_prompt_tokens = fl.fadd agg.avg_prompt_tokens (fl.of_int m.prompt_tokens);
    avg_output_tokens = fl.fadd agg.avg_output_tokens (fl.of_int m.output_tokens);
    avg_latency_ms = fl.fadd agg.avg_latency_ms (fl.of_int m.latency_ms);
    avg_ipt = fl.fadd agg.avg_ipt m.ipt;
  }

  -- one round of the loop over the metrics
  unfoldable pub sum_metric : Str → StrategyMetric → Map StrategyAggregate → Map StrategyAggregate
  unfolding new_aggregate add_metric
  sum_metric reference m sums = elim (get m.strategy sums) [
    | none ↦ put m.strategy (add_metric m (new_aggregate reference m.strategy)) sums
    | some agg ↦ put m.strategy (add_metric m agg) sums
  ]

  unfoldable pub sum_metrics :
      Str → List StrategyMetric → Map StrategyAggregate → Map StrategyAggregate
  unfolding sum_metric
  sum_metrics reference [] sums = sums
  sum_metrics reference (m ∷ metrics) sums =
      sum_metrics reference metrics (sum_metric reference m sums)

  unfoldable pub mean : StrategyAggregate → StrategyAggregate
  mean agg =
      let n = fl.of_int agg.probes in
      if agg.probes == 0 then agg else record agg {
        avg_quality = fl.fdiv agg.avg_quality n;
        avg_prompt_tokens = fl.fdiv agg.avg_prompt_tokens n;
        avg_output_tokens = fl.fdiv agg.avg_output_tokens n;
        avg_latency_ms = fl.fdiv agg.avg_latency_ms n;
        avg_ipt = fl.fdiv agg.avg_ipt n;
      }

  -- the loop over the sums, whose rounds do not meet
  unfoldable pub means : Map StrategyAggregate → Map StrategyAggregate
  unfolding mean
  means [] = []
  means ((k, agg) ∷ sums) = (k, mean agg) ∷ means sums

  -- the deltas to the reference, if there is one and this is another strategy
  unfoldable pub compare_to : Option StrategyAggregate → StrategyAggregate → StrategyAggregate
  unfolding percent_of
  compare_to none agg = agg
  compare_to (some ref) agg =
      let zero = fl.literal 0 0 in
      if agg.is_reference then agg else record agg {
        quality_delta_vs_ref = fl.fsub agg.avg_quality ref.avg_quality;
        token_reduction_pct_vs_ref =
            if fl.lt zero ref.avg_prompt_tokens
            then percent_of fl (fl.fsub ref.avg_prompt_tokens agg.avg_prompt_tokens)
                ref.avg_prompt_tokens
            else agg.token_reduction_pct_vs_ref;
        ipt_delta_pct_vs_ref =
            if fl.lt zero ref.avg_ipt
            then percent_of fl (fl.fsub agg.avg_ipt ref.avg_ipt) ref.avg_ipt
            else agg.ipt_delta_pct_vs_ref;
      }

  unfoldable pub select_order :
      Map StrategyAggregate → Option StrategyAggregate → List Str → List StrategyAggregate
  unfolding compare_to
  select_order sums ref [] = []
  select_order sums ref (k ∷ order) =
      let rest = select_order sums ref order in
      elim (get k sums) [ none ↦ rest | some agg ↦ compare_to ref agg ∷ rest ]

  unfoldable pub aggregate_strategies :
      List StrategyMetric → List Str → Str → List StrategyAggregate
  unfolding start_sums sum_metrics means select_order
  aggregate_strategies metrics order reference =
      let sums = means (sum_metrics reference metrics (start_sums reference order [])) in
      select_order sums (get reference sums) order
