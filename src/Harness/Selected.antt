-- ===== src/Harness/Selected.antt =====
-- eval/harness: what the naive strategy and the sliding window keep.
use mathlib.Core.List.{Sublistᴰ}
use acgc_project.Common.{
  ℕ, ◌+◌, ◌≤◌, List, [], ◌∷◌, ◌++◌, false, length, length-append, sum_by, sum_by-append, ltb, ◌≡◌,
  refl, sym, ap, arith, if_split, subst,
}
use acgc_project.Domain.{Floats, StateNode}
use acgc_project.Harness.{Selection, take_node, newest_loop, chronological}

room : (budget n : ℕ) → ltb budget n ≡ false → n ≤ budget
room budget n e = ground (arith, e)

module _ {fl : Floats} where
  -- The nodes kept fit the budget, and with the excluded ones they are all.
  pub record IsWithin (budget : ℕ) (seen : List (StateNode fl)) (s : Selection fl) : Type 0 where
    pub fits : s.used ≤ budget
    pub costs : sum_by (λ n. n.token_count) s.included ≡ s.used
    pub all : length s.included + s.excluded ≡ length seen
    pub kept : Sublistᴰ (chronological s.included) seen

  chronological-append :
      (xs : List (StateNode fl)) (n : StateNode fl)
      → chronological (xs ++ n ∷ []) ≡ n ∷ chronological xs
  unfolding chronological
  chronological-append [] n = refl
  chronological-append (x ∷ xs) n =
      ap (λ (l : List (StateNode fl)). l ++ x ∷ []) (chronological-append xs n)

  newest_loop-IsWithin :
      (budget : ℕ) (nodes : List (StateNode fl)) → IsWithin budget nodes (newest_loop budget nodes)
  unfolding newest_loop chronological take_node
  newest_loop-IsWithin budget [] = record {
    fits = omega arith;
    costs = refl;
    all = refl;
    kept = Sublistᴰ.slnil;
  }
  newest_loop-IsWithin budget (n ∷ nodes) =
      let s = newest_loop budget nodes in
      let h = newest_loop-IsWithin budget nodes in
      if_split (IsWithin budget (n ∷ nodes)) (ltb budget (s.used + n.token_count))
        (λ e. record {
          fits = h.fits;
          costs = h.costs;
          all = omega (arith, h.all);
          kept = Sublistᴰ.cons h.kept;
        })
        (λ e. record {
          fits = room budget (s.used + n.token_count) e;
          costs = omega (
            arith,
            sum_by-append (λ (k : StateNode fl). k.token_count) s.included (n ∷ []),
            h.costs,
          );
          all = omega (arith, length-append s.included (n ∷ []), h.all);
          kept =
              subst (λ l. Sublistᴰ l (n ∷ nodes)) (sym (chronological-append s.included n))
                (Sublistᴰ.cons-cons refl h.kept);
        })

  -- The sliding window keeps nodes in the order of the conversation, whose costs fit the budget, and
  -- with the number of those that it excludes they are all.
  pub sliding_window_within :
      (budget : ℕ) (nodes : List (StateNode fl))
      → let s = newest_loop budget nodes in
        (sum_by (λ (n : StateNode fl). n.token_count) s.included ≤ budget)
        × (length s.included + s.excluded ≡ length nodes)
        × Sublistᴰ (chronological s.included) nodes
  sliding_window_within budget nodes =
      let h = newest_loop-IsWithin budget nodes in (omega (arith, h.fits, h.costs), h.all, h.kept)
