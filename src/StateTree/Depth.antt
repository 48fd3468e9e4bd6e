-- ===== src/StateTree/Depth.antt =====
-- internal/statetree/tree.go: `depthFrom`.
use mathlib.Core.List.{Memᴰ}
use acgc_project.Common.{
  ℕ, zero, suc, ◌+◌, ◌≤◌, ◌<◌, ◌-◌, ◌≡◌, refl, sym, ap, subst, ◌⊎◌, Bool-cases, ◌∙◌, Str, List, [],
  ◌∷◌, Option, some, arith, inl, inr, Option-cases, Map, get, All, All-get, All-mem, All-mono, ltb,
  if◌then◌else◌,
}
use acgc_project.Domain.{Floats, StateNode}
use acgc_project.StateTree.{deepest, depth_from}
use acgc_project.StateTree.Invariant.{Ranking, Rises}

deepest_total :
    (below : Str → Option ℕ) (top best : ℕ) (cs : List Str)
    → best ≤ top
    → All (λ c. (d : ℕ) × (below c ≡ some d) × (d ≤ top)) cs
    → (d : ℕ) × (deepest below best cs ≡ some d) × (best ≤ d) × (d ≤ top)
unfolding deepest
deepest_total below top best [] h a = (best, refl, omega arith, h)
deepest_total below top best (c ∷ cs) h ((d, e, le), a) =
    let (x, e', lo, hi) =
      deepest_total below top (if ltb best d then d else best) cs (ground arith) a in
    (x, rw (e, deepest) e', ground arith, hi)

-- What the loop over the children returns: nothing below the best so far or a child's depth, and
-- one of these.
deepest_inv :
    (below : Str → Option ℕ) (best d : ℕ) (cs : List Str)
    → deepest below best cs ≡ some d
    → (best ≤ d)
      × All (λ c. (x : ℕ) × (below c ≡ some x) × (x ≤ d)) cs
      × ((d ≡ best) ⊎ ((c : Str) × Memᴰ c cs × (below c ≡ some d)))
unfolding deepest
deepest_inv below best d [] e = (ground arith, tt, inl (ground arith))
deepest_inv below best d (c ∷ cs) e = elim (Option-cases (below c)) [
  | inl o ↦ cc (rw (o, deepest) at e)
  | inr (x, o) ↦
      let (lo, a, last) =
        deepest_inv below (if ltb best x then x else best) d cs (rw (o, deepest) at e) in
      (
        ground arith,
        ((x, o, ground arith), a),
        elim last [
          | inl same ↦ elim (Bool-cases (ltb best x)) [
            | inl lt ↦ inr (c, Memᴰ.head refl, o ∙ ap some (sym (rw lt at same)))
            | inr ge ↦ inl (rw ge at same)
          ]
          | inr (b, mem, found) ↦ inr (b, Memᴰ.tail mem, found)
        ],
      )
]

module _ {fl : Floats} where
  -- `k` edges from a node of the tree to a child, the last of which may be missing.
  pub data Chain (m : Map (StateNode fl)) : Str → ℕ → Str → Type 0 where
    here : {a : Str} → Chain m a zero a
    edge :
        {a b c : Str} {k : ℕ} (n : StateNode fl)
        → get a m ≡ some n
        → Memᴰ c n.child_ids
        → Chain m c k b
        → Chain m a (suc k) b

  -- The recursion of `depthFrom` ends, with fuel above the bound of the ranks less the rank of the
  -- node, at a depth of at least the current one and at most that bound less the rank above it.
  pub depth_from_total :
      (m : Map (StateNode fl)) (r : Ranking m) (fuel : ℕ) (id : Str) (current : ℕ)
      → r.bound < fuel + r.rank id
      → (d : ℕ) × (depth_from fuel m id current ≡ some d)
        × (current ≤ d)
        × (d + r.rank id ≤ current + r.bound)
  unfolding depth_from
  depth_from_total m r zero id current h = absurd (omega (arith, r.bounded id))
  depth_from_total m r (suc fuel) id current h = elim (Option-cases (get id m)) [
    | inl o ↦ (current, rw (o, depth_from) refl, omega arith, omega (arith, r.bounded id))
    | inr (n, o) ↦
        let (d, e, lo, hi) =
          deepest_total (λ c. depth_from fuel m c (suc current)) (current + r.bound - r.rank id)
            current n.child_ids (omega (arith, r.bounded id))
            (All-mono (λ c. r.rank id < r.rank c) _ n.child_ids
              (λ c lt.
                let (x, found, up, down) =
                  depth_from_total m r fuel c (suc current) (omega arith) in
                (x, found, omega arith))
              (All-get (Rises r.rank) id m r.rises o)) in
        (d, rw (o, depth_from) e, lo, omega (arith, r.bounded id))
  ]

  depth-ge-Chain :
      (fuel : ℕ) (m : Map (StateNode fl)) (current d : ℕ) {id b : Str} {k : ℕ}
      → depth_from fuel m id current ≡ some d
      → Chain m id k b
      → current + k ≤ d
  unfolding depth_from
  depth-ge-Chain zero m current d e c = cc
  depth-ge-Chain (suc fuel) m current d {id} e Chain.here = elim (Option-cases (get id m)) [
    | inl o ↦ ground (arith, rw (o, depth_from) at e)
    | inr (n, o) ↦ omega (arith, (deepest_inv _ current d n.child_ids (rw (o, depth_from) at e)).0)
  ]
  depth-ge-Chain (suc fuel) m current d e (Chain.edge {c = c} n o mem rest) =
      let (x, found, le) =
        All-mem _ mem (deepest_inv _ current d n.child_ids (rw (o, depth_from) at e)).1 in
      omega (arith, depth-ge-Chain fuel m (suc current) x found rest)

  depth-Chain :
      (fuel : ℕ) (m : Map (StateNode fl)) (id : Str) (current d : ℕ)
      → depth_from fuel m id current ≡ some d
      → (k : ℕ) × (b : Str) × Chain m id k b × (d ≡ current + k)
  unfolding depth_from
  depth-Chain zero m id current d e = cc
  depth-Chain (suc fuel) m id current d e = elim (Option-cases (get id m)) [
    | inl o ↦ (0, id, Chain.here, ground (arith, rw (o, depth_from) at e))
    | inr (n, o) ↦ elim (deepest_inv _ current d n.child_ids (rw (o, depth_from) at e)).2 [
      | inl same ↦ (0, id, Chain.here, omega arith)
      | inr (c, mem, found) ↦
          let (k, b, rest, sum) = depth-Chain fuel m c (suc current) d found in
          (suc k, b, Chain.edge n o mem rest, omega arith)
    ]
  ]

  -- Whenever `depthFrom` returns from a node at depth 0, with whatever fuel, its result is the
  -- length of the longest chain of children: no chain is longer, and one has this length.
  pub depth_from_longest :
      (fuel : ℕ) (m : Map (StateNode fl)) (id : Str) (d k : ℕ) (b : Str)
      → depth_from fuel m id 0 ≡ some d
      → Chain m id k b
      → (k ≤ d) × ((b' : Str) × Chain m id d b')
  depth_from_longest fuel m id d k b e any_chain = (
    omega (arith, depth-ge-Chain fuel m 0 d e any_chain),
    let (k, b, c, sum) = depth-Chain fuel m id 0 d e in
        let same : k ≡ d = omega arith in (b, subst (λ j. Chain m id j b) same c),
  )
