-- ===== src/Scorer/Range.antt =====
-- internal/scorer: the range of the retention scores.
use acgc_project.Common.{ℕ, ◌≡◌, List, false, inl, inr, Bool-cases, Map}
use acgc_project.Domain.{Floats, StateNode}
use acgc_project.Scorer.{Scorer, clamp, score_node}

module _ (fl : Floats) where
  clamp_range :
      (v low high : fl.F)
      → ((x : fl.F) → fl.lt x x ≡ false)
      → fl.lt high low ≡ false
      → (fl.lt (clamp fl v low high) low ≡ false) × (fl.lt high (clamp fl v low high) ≡ false)
  unfolding clamp
  clamp_range v low high irrefl order = elim (Bool-cases (fl.lt v low)) [
    | inl e ↦ rw e (irrefl low, order)
    | inr o ↦ elim (Bool-cases (fl.lt high v)) [
      | inl e ↦ rw (o, e) (order, irrefl high)
      | inr p ↦ rw (o, p) (o, p)
    ]
  ]

  -- A retention score is never below 0 and never above 1, as comparisons tell, for an order of
  -- float64 that is irreflexive and has 0 before 1; it may still be no number.
  pub score_node_range :
      (s : Scorer fl) (node : StateNode fl) (current : ℕ) (nodes : List (StateNode fl))
      (titles : Map ℕ) (query : List fl.F32)
      → ((x : fl.F) → fl.lt x x ≡ false)
      → fl.lt (fl.literal 1 0) (fl.literal 0 0) ≡ false
      → let score = (score_node fl s node current nodes titles query).retention_score in
        (fl.lt score (fl.literal 0 0) ≡ false) × (fl.lt (fl.literal 1 0) score ≡ false)
  unfolding score_node
  score_node_range s node current nodes titles query irrefl order =
      clamp_range _ (fl.literal 0 0) (fl.literal 1 0) irrefl order
