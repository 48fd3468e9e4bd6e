-- ===== src/Scoring/Compared.antt =====
-- eval/scoring/strategy.go: which strategies `AggregateStrategies` lists, and with how many probes.
use acgc_project.Common.{
  some_injective, ℕ, ◌+◌, Str, List, [], ◌∷◌, Bool, true, Option, none, some, if◌then◌else◌, Map,
  get, put, map, map_option, any, length, select, ◌==◌, str_eq, str_eq_iff, str_eq_refl, get-put,
  All, ◌≡◌, refl, sym, ap, ◌∙◌, arith, Option-cases, inl, inr, if_both,
}
use acgc_project.Domain.{Floats}
use acgc_project.Scoring.Strategies.{
  StrategyMetric, StrategyAggregate, new_aggregate, start_sums, add_metric, sum_metric, sum_metrics,
  mean, means, compare_to, select_order, aggregate_strategies,
}

module _ (fl : Floats) where
  -- the strategy of a summary, and its number of probes
  abbrev label : StrategyAggregate fl → Str × ℕ
  label a = (a.strategy, a.probes)

  -- the probes of a strategy
  abbrev pub probes_of : Str → List (StrategyMetric fl) → ℕ
  probes_of k metrics = length (select (λ m. str_eq m.strategy k) metrics)

  label-mean : (a : StrategyAggregate fl) → label (mean fl a) ≡ label a
  unfolding mean
  label-mean a = if_both (λ (b : StrategyAggregate fl). label b ≡ label a) (a.probes == 0) refl refl

  label-compare_to :
      (ref : Option (StrategyAggregate fl)) (a : StrategyAggregate fl)
      → label (compare_to fl ref a) ≡ label a
  unfolding compare_to
  label-compare_to none a = refl
  label-compare_to (some ref) a =
      if_both (λ (b : StrategyAggregate fl). label b ≡ label a) a.is_reference refl refl

  -- the label under a name
  abbrev label_at : Str → Map (StrategyAggregate fl) → Option (Str × ℕ)
  label_at k sums = map_option label (get k sums)

  label_at-start_sums :
      (reference : Str) (order : List Str) (sums : Map (StrategyAggregate fl)) (k : Str)
      → label_at k (start_sums fl reference order sums)
        ≡ (if any (λ j. str_eq j k) order then some (k, 0) else label_at k sums)
  unfolding start_sums new_aggregate
  label_at-start_sums reference [] sums k = refl
  label_at-start_sums reference (j ∷ order) sums k = ground (
    arith,
    label_at-start_sums reference order (put j (new_aggregate fl reference j) sums) k,
    get-put j k (new_aggregate fl reference j) sums,
    str_eq_iff j k,
  )

  label_at-sum_metric :
      (reference k : Str) (n : ℕ) (m : StrategyMetric fl) (sums : Map (StrategyAggregate fl))
      → label_at k sums ≡ some (k, n)
      → label_at k (sum_metric fl reference m sums)
        ≡ some (k, (if str_eq m.strategy k then 1 else 0) + n)
  unfolding sum_metric add_metric
  label_at-sum_metric reference k n m sums e = elim (Option-cases (get m.strategy sums)) [
    | inl o ↦
        rw (o, sum_metric)
          (ground (
            arith,
            o,
            e,
            get-put m.strategy k (add_metric fl m (new_aggregate fl reference m.strategy)) sums,
            str_eq_iff m.strategy k,
          ))
    | inr (a, o) ↦
        rw (o, sum_metric)
          (ground
            (arith, o, e, get-put m.strategy k (add_metric fl m a) sums, str_eq_iff m.strategy k))
  ]

  label_at-sum_metrics :
      (reference k : Str) (n : ℕ) (metrics : List (StrategyMetric fl))
      (sums : Map (StrategyAggregate fl))
      → label_at k sums ≡ some (k, n)
      → label_at k (sum_metrics fl reference metrics sums) ≡ some (k, n + probes_of k metrics)
  unfolding sum_metrics
  label_at-sum_metrics reference k n [] sums e = e ∙ ap (λ (i : ℕ). some (k, i)) (omega arith)
  label_at-sum_metrics reference k n (m ∷ metrics) sums e =
      label_at-sum_metrics reference k ((if str_eq m.strategy k then 1 else 0) + n) metrics
        (sum_metric fl reference m sums) (label_at-sum_metric reference k n m sums e)
      ∙ ap (λ (i : ℕ). some (k, i)) (ground arith)

  label_at-means :
      (k : Str) (sums : Map (StrategyAggregate fl)) → label_at k (means fl sums) ≡ label_at k sums
  unfolding means get
  label_at-means k [] = refl
  label_at-means k ((j, a) ∷ sums) = ground (arith, label-mean a, label_at-means k sums)

  label-select_order :
      (sums : Map (StrategyAggregate fl)) (ref : Option (StrategyAggregate fl)) (f : Str → ℕ)
      (order : List Str)
      → All (λ k. label_at k sums ≡ some (k, f k)) order
      → map label (select_order fl sums ref order) ≡ map {B = Str × ℕ} (λ k. (k, f k)) order
  unfolding select_order
  label-select_order sums ref f [] h = refl
  label-select_order sums ref f (k ∷ order) h = elim (Option-cases (get k sums)) [
    | inl e ↦ absurd (ground (arith, e, h.0))
    | inr (a, e) ↦
        rw (e, select_order)
          (ap (λ (x : Str × ℕ). x ∷ map label (select_order fl sums ref order))
              (label-compare_to ref a ∙ some_injective (sym (ap (map_option label) e) ∙ h.0))
            ∙ ap (λ (l : List (Str × ℕ)). (k, f k) ∷ l) (label-select_order sums ref f order h.1))
  ]

  within :
      (order seen : List Str) (P : Str → Type 0)
      → ((k : Str) → any (λ j. str_eq j k) order ≡ true → P k)
      → All P order
  within [] seen P h = _
  within (k ∷ order) seen P h =
      (h k (ground (arith, str_eq_refl k)), within order seen P (λ j e. h j (ground (arith, e))))

  -- `AggregateStrategies` lists the strategies in the order that is asked for, each with the number of
  -- its metrics.
  pub aggregate_strategies_lem :
      (metrics : List (StrategyMetric fl)) (order : List Str) (reference : Str)
      → map {B = Str × ℕ}
          (λ (a : StrategyAggregate fl). (a.strategy, a.probes))
          (aggregate_strategies fl metrics order reference)
        ≡ map {B = Str × ℕ} (λ k. (k, probes_of k metrics)) order
  unfolding aggregate_strategies
  aggregate_strategies_lem metrics order reference =
      let start = start_sums fl reference order [] in
      let sums = means fl (sum_metrics fl reference metrics start) in
      label-select_order sums (get reference sums) (λ k. probes_of k metrics) order
        (within order [] (λ k. label_at k sums ≡ some (k, probes_of k metrics))
          (λ k e.
            label_at-means k (sum_metrics fl reference metrics start)
            ∙ label_at-sum_metrics reference k 0 metrics start (
                label_at-start_sums reference order [] k
                ∙ ap (λ (b : Bool). if b then some (k, 0) else label_at k []) e)
            ∙ ap (λ (i : ℕ). some (k, i)) (omega arith)))
