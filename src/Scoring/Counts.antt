-- ===== src/Scoring/Counts.antt =====
-- eval/scoring/metrics.go: what the counts of `AggregatePairs` count, and who wins.
use acgc_project.Common.{
  ℕ, ◌+◌, List, [], ◌∷◌, Bool, true, if◌then◌else◌, length, select, ◌==◌, ◌≡◌, refl, ◌∙◌, arith,
}
use acgc_project.Domain.{Floats}
use acgc_project.Scoring.{
  Verdict, PairResult, Aggregate, negative, count_verdict, add_pair, add_pairs, no_pairs, average,
  aggregate_pairs, classify_verdict,
}

abbrev rank : Verdict → ℕ
rank Verdict.acgc_win = 0
rank Verdict.acgc_win_star = 1
rank Verdict.tie = 2
rank Verdict.acgc_loss = 3
rank Verdict.baseline_win = 4

abbrev pub same_verdict : Verdict → Verdict → Bool
same_verdict v w = rank v == rank w

module _ (fl : Floats) where
  -- the pairs with the verdict
  abbrev pub number_of : Verdict → List (PairResult fl) → ℕ
  number_of v pairs = length (select (λ p. same_verdict v p.verdict) pairs)

  -- the pairs whose quality dropped by more than 1
  abbrev pub regressions : List (PairResult fl) → ℕ
  regressions pairs =
      length (select (λ p. fl.lt p.quality_delta (negative fl (fl.literal 10 1))) pairs)

  -- the count that a summary has for the verdict
  abbrev pub count_of : Verdict → Aggregate fl → ℕ
  count_of Verdict.acgc_win a = a.acgc_wins
  count_of Verdict.acgc_win_star a = a.acgc_wins_star
  count_of Verdict.tie a = a.ties
  count_of Verdict.acgc_loss a = a.acgc_losses
  count_of Verdict.baseline_win a = a.baseline_wins

  count_of-count_verdict :
      (v w : Verdict) (a : Aggregate fl)
      → count_of v (count_verdict fl w a) ≡ count_of v a + (if same_verdict v w then 1 else 0)
  unfolding count_verdict
  count_of-count_verdict v w a = ground arith

  count_of-add_pair :
      (v : Verdict) (p : PairResult fl) (a : Aggregate fl)
      → count_of v (add_pair fl p a) ≡ count_of v a + (if same_verdict v p.verdict then 1 else 0)
  unfolding add_pair
  count_of-add_pair Verdict.acgc_win p a = count_of-count_verdict Verdict.acgc_win p.verdict a
  count_of-add_pair Verdict.acgc_win_star p a =
      count_of-count_verdict Verdict.acgc_win_star p.verdict a
  count_of-add_pair Verdict.tie p a = count_of-count_verdict Verdict.tie p.verdict a
  count_of-add_pair Verdict.acgc_loss p a = count_of-count_verdict Verdict.acgc_loss p.verdict a
  count_of-add_pair Verdict.baseline_win p a =
      count_of-count_verdict Verdict.baseline_win p.verdict a

  regression_count-count_verdict :
      (v : Verdict) (a : Aggregate fl)
      → (count_verdict fl v a).regression_count ≡ a.regression_count
  unfolding count_verdict
  regression_count-count_verdict v a = ground arith

  regression_count-add_pair :
      (p : PairResult fl) (a : Aggregate fl)
      → (add_pair fl p a).regression_count
        ≡ a.regression_count
          + (if fl.lt p.quality_delta (negative fl (fl.literal 10 1)) then 1 else 0)
  unfolding add_pair
  regression_count-add_pair p a = ground (arith, regression_count-count_verdict p.verdict a)

  count_of-add_pairs :
      (v : Verdict) (pairs : List (PairResult fl)) (a : Aggregate fl)
      → count_of v (add_pairs fl pairs a) ≡ count_of v a + number_of v pairs
  unfolding add_pairs
  count_of-add_pairs v [] a = ground arith
  count_of-add_pairs v (p ∷ pairs) a =
      ground (arith, count_of-add_pairs v pairs (add_pair fl p a), count_of-add_pair v p a)

  regression_count-add_pairs :
      (pairs : List (PairResult fl)) (a : Aggregate fl)
      → (add_pairs fl pairs a).regression_count ≡ a.regression_count + regressions pairs
  unfolding add_pairs
  regression_count-add_pairs [] a = omega arith
  regression_count-add_pairs (p ∷ pairs) a =
      ground
        (arith, regression_count-add_pairs pairs (add_pair fl p a), regression_count-add_pair p a)

  total_pairs-add_pairs :
      (pairs : List (PairResult fl)) (a : Aggregate fl)
      → (add_pairs fl pairs a).total_pairs ≡ a.total_pairs
  unfolding add_pairs add_pair count_verdict
  total_pairs-add_pairs [] a = refl
  total_pairs-add_pairs (p ∷ pairs) a = total_pairs-add_pairs pairs (add_pair fl p a) ∙ ground arith

  number_of_all :
      (pairs : List (PairResult fl))
      → number_of Verdict.acgc_win pairs
          + number_of Verdict.acgc_win_star pairs
          + number_of Verdict.tie pairs
          + number_of Verdict.acgc_loss pairs
          + number_of Verdict.baseline_win pairs
        ≡ length pairs
  number_of_all [] = refl
  number_of_all (p ∷ pairs) = ground (arith, number_of_all pairs)

  count_of-average :
      (v : Verdict) (n : fl.F) (a : Aggregate fl) → count_of v (average fl n a) ≡ count_of v a
  unfolding average
  count_of-average v n a = ground arith

  nothing :
      (v : Verdict) (pairs : List (PairResult fl))
      → count_of v (no_pairs fl (length pairs)) + number_of v pairs ≡ number_of v pairs
  unfolding no_pairs
  nothing v pairs = ground arith

  -- In the summary of `AggregatePairs` the count of each verdict is the number of the pairs that have it,
  -- the five counts add up to the number of pairs, and the regressions are the pairs whose quality
  -- dropped by more than 1.
  pub aggregate_pairs_lem :
      (pairs : List (PairResult fl))
      → let a = aggregate_pairs fl pairs in
        ((v : Verdict) → count_of v a ≡ number_of v pairs)
        × (a.total_pairs ≡ length pairs)
        × (a.acgc_wins + a.acgc_wins_star + a.ties + a.acgc_losses + a.baseline_wins
            ≡ a.total_pairs)
        × (a.regression_count ≡ regressions pairs)
  unfolding aggregate_pairs no_pairs average
  aggregate_pairs_lem [] = (λ v. ground arith, refl, refl, refl)
  aggregate_pairs_lem (p ∷ pairs) =
      let start = no_pairs fl (length (p ∷ pairs)) in
      let counts = λ (v : Verdict).
        count_of-average v (fl.of_int (length (p ∷ pairs))) (add_pairs fl (p ∷ pairs) start)
        ∙ count_of-add_pairs v (p ∷ pairs) start
        ∙ nothing v (p ∷ pairs) in
      let total = total_pairs-add_pairs (p ∷ pairs) start in
      (
        counts,
        total,
        omega (
          arith,
          counts Verdict.acgc_win,
          counts Verdict.acgc_win_star,
          counts Verdict.tie,
          counts Verdict.acgc_loss,
          counts Verdict.baseline_win,
          number_of_all (p ∷ pairs),
          total,
        ),
        regression_count-add_pairs (p ∷ pairs) start ∙ omega arith,
      )

  -- `ClassifyVerdict` lets the baseline win only where the candidate's quality is better by more than
  -- 0.5, at the lower score per token.
  pub classify_verdict-baseline_win :
      (quality_baseline quality_acgc ipt_baseline ipt_acgc : fl.F)
      → classify_verdict fl quality_baseline quality_acgc ipt_baseline ipt_acgc
        ≡ Verdict.baseline_win
      → (fl.lt (fl.literal 5 1) (fl.fsub quality_acgc quality_baseline) ≡ true)
        × (fl.lt ipt_acgc ipt_baseline ≡ true)
  unfolding classify_verdict negative
  classify_verdict-baseline_win quality_baseline quality_acgc ipt_baseline ipt_acgc e = ground arith
