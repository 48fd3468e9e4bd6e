-- ===== src/Compiler/Budget.antt =====
-- internal/compiler/compiler.go: `selectWithinBudget`.
use acgc_project.Common.{
  ℕ, ◌+◌, ◌≤◌, ◌<◌, ◌≡◌, sym, ◌∙◌, List, [], ◌∷◌, ◌++◌, arith, inl, inr, Bool-cases, leb, sum_by,
  All, append-nil, append_assoc,
}
use acgc_project.Domain.{Floats, StateNode}
use acgc_project.Compiler.{Compiler, Selection, node_cost, select_loop, select_within_budget}

-- A list dealt out to two, each in its order.
pub data Splits {ℓ} {A : Type ℓ} : List A → List A → List A → Type ℓ where
  done : Splits [] [] []
  left : (x : A) {xs ys zs : List A} → Splits xs ys zs → Splits (x ∷ xs) (x ∷ ys) zs
  right : (x : A) {xs ys zs : List A} → Splits xs ys zs → Splits (x ∷ xs) ys (x ∷ zs)

module _ {fl : Floats} (c : Compiler) (budget : ℕ) where
  record Dealt (s r : Selection fl) (nodes : List (StateNode fl)) : Type 0 where
    kept : List (StateNode fl)
    dropped : List (StateNode fl)
    splits : Splits nodes kept dropped
    selected : r.selected ≡ s.selected ++ kept
    excluded : r.excluded ≡ s.excluded ++ dropped
    used : r.tokens_used ≡ s.tokens_used + sum_by (node_cost c) kept
    within : s.tokens_used ≤ budget → r.tokens_used ≤ budget
    too_big : All (λ n. budget < r.tokens_used + node_cost c n) dropped

  select_loop-Dealt :
      (s : Selection fl) (nodes : List (StateNode fl))
      → Dealt s (select_loop c budget s nodes) nodes
  unfolding select_loop
  select_loop-Dealt s [] = record {
    kept = [];
    dropped = [];
    splits = Splits.done;
    selected = sym (append-nil s.selected);
    excluded = sym (append-nil s.excluded);
    used = omega arith;
    within = λ h. h;
    too_big = tt;
  }
  select_loop-Dealt s (n ∷ nodes) = elim (Bool-cases (leb (s.tokens_used + node_cost c n) budget)) [
    | inl fits ↦
        let next : Selection fl = record s {
          selected = s.selected ++ n ∷ [];
          tokens_used = s.tokens_used + node_cost c n;
        } in
        let d = select_loop-Dealt next nodes in
        rw fits (record {
          kept = n ∷ d.kept;
          dropped = d.dropped;
          splits = Splits.left n d.splits;
          selected = d.selected ∙ append_assoc s.selected (n ∷ []) d.kept;
          excluded = d.excluded;
          used = omega (arith, d.used);
          within = λ h. d.within (ground (arith, fits));
          too_big = d.too_big;
        })
    | inr full ↦
        let next : Selection fl = record s { excluded = s.excluded ++ n ∷ [] } in
        let d = select_loop-Dealt next nodes in
        rw full (record {
          kept = d.kept;
          dropped = n ∷ d.dropped;
          splits = Splits.right n d.splits;
          selected = d.selected;
          excluded = d.excluded ∙ append_assoc s.excluded (n ∷ []) d.dropped;
          used = d.used;
          within = d.within;
          too_big = (ground (arith, full, d.used), d.too_big);
        })
  ]

  -- `selectWithinBudget`: each node is selected or excluded, in order; the tokens used are the
  -- costs of the selected nodes, and within the budget; and an excluded node would not fit in
  -- what is left of the budget.
  pub select_within_budget_greedy :
      (nodes : List (StateNode fl))
      → let r = select_within_budget c nodes budget in
        Splits nodes r.selected r.excluded
        × (r.tokens_used ≡ sum_by (node_cost c) r.selected)
        × (r.tokens_used ≤ budget)
        × All (λ n. budget < r.tokens_used + node_cost c n) r.excluded
  unfolding select_within_budget
  select_within_budget_greedy nodes =
      let start : Selection fl = record { selected = []; excluded = []; tokens_used = 0 } in
      let d = select_loop-Dealt start nodes in
      rw (d.selected, d.excluded)
        (d.splits, omega (arith, d.used), d.within (omega arith), d.too_big)
