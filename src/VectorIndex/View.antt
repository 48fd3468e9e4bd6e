-- ===== src/VectorIndex/View.antt =====
-- internal/vectorindex: the vectors and tombstones of an index, read as one map. The graph is the
-- matter of Graph.antt.
use mathlib.Core.List.{Permᴰ, Memᴰ}
use acgc_project.Common.{
  ◌⊎◌, ◌*◌, ◌≡◌, refl, ap, subst, ◌∙◌, Str, List, [], ◌∷◌, Bool, true, false, ◌||◌, Option, none,
  some, arith, inl, inr, Bool-cases, Option-cases, Map, get, put, delete, get-put, get-delete,
  mem-perm, ltb, if◌then◌else◌, length, is_empty, str_eq, str_eq_iff,
}
use acgc_project.Domain.{Floats}
use acgc_project.VectorIndex.{
  Vector, Graphs, Index, IndexError, empty_id, empty_vector, dim_mismatch, ok, err, is_dead,
  mismatches, insert, compact_loop, compact_locked, remove,
}

pub entry_of {ℓ} : {V : Type ℓ} (k : Str) {v : V} (m : Map V) → get k m ≡ some v → Memᴰ (k, v) m
unfolding get
entry_of k [] h = cc
entry_of k {v} ((j, w) ∷ m) h = elim (Bool-cases (str_eq j k)) [
  | inl e ↦
      let same = (str_eq_iff j k).0 e in
      let value : w ≡ v = ground arith in Memᴰ.head (cc (same, value))
  | inr e ↦ Memᴰ.tail (entry_of k m (rw e at h))
]

is_dead-put :
    (id j : Str) (t : Map Bool)
    → is_dead (put id true t) j ≡ (if str_eq id j then true else is_dead t j)
unfolding is_dead
is_dead-put id j t = ground (arith, get-put id j true t)

is_dead-delete :
    (id j : Str) (t : Map Bool)
    → is_dead (delete id t) j ≡ (if str_eq id j then false else is_dead t j)
unfolding is_dead
is_dead-delete id j t = ground (arith, get-delete id j t)

abbrev pub is_some {ℓ} : {A : Type ℓ} → Option A → Bool
is_some none = false
is_some (some a) = true

module _ {fl : Floats} (gs : Graphs fl) where
  -- What is stored under an id without a tombstone.
  unfoldable pub view : Index gs → Str → Option (Vector fl)
  view h j = if is_dead h.tombstones j then none else get j h.vectors

  compact_loop-keeps :
      (h : Index gs) (visited : List (Str × Vector fl)) (j : Str)
      → is_dead h.tombstones j ≡ false
      → get j (compact_loop gs h visited).vectors ≡ get j h.vectors
  unfolding compact_loop
  compact_loop-keeps h [] j live = refl
  compact_loop-keeps h ((id, vec) ∷ visited) j live = elim (Bool-cases (is_dead h.tombstones id)) [
    | inl e ↦
        rw (e, compact_loop)
          (compact_loop-keeps (record h { vectors = delete id h.vectors }) visited j live
            ∙ ground (arith, get-delete id j h.vectors, str_eq_iff id j))
    | inr e ↦
        rw (e, compact_loop)
          (compact_loop-keeps (record h { graph = gs.add id vec h.graph }) visited j live)
  ]

  compact_loop-none :
      (h : Index gs) (visited : List (Str × Vector fl)) (j : Str)
      → get j h.vectors ≡ none
      → get j (compact_loop gs h visited).vectors ≡ none
  unfolding compact_loop
  compact_loop-none h [] j gone = gone
  compact_loop-none h ((id, vec) ∷ visited) j gone = elim (Bool-cases (is_dead h.tombstones id)) [
    | inl e ↦
        rw (e, compact_loop)
          (compact_loop-none (record h { vectors = delete id h.vectors }) visited j
            (ground (arith, get-delete id j h.vectors)))
    | inr e ↦
        rw (e, compact_loop)
          (compact_loop-none (record h { graph = gs.add id vec h.graph }) visited j gone)
  ]

  compact_loop-drops :
      (j : Str) (v : Vector fl) (h : Index gs) (visited : List (Str × Vector fl))
      → is_dead h.tombstones j ≡ true
      → Memᴰ (j, v) visited
      → get j (compact_loop gs h visited).vectors ≡ none
  unfolding compact_loop
  compact_loop-drops j v h [] dead m = elim m [ ]
  compact_loop-drops j v h ((id, vec) ∷ visited) dead (Memᴰ.head e) =
      let same : j ≡ id = ap (λ p. p.0) e in
      let gone : is_dead h.tombstones id ≡ true =
        subst (λ i. is_dead h.tombstones i ≡ true) same dead in
      rw (gone, compact_loop)
        (compact_loop-none (record h { vectors = delete id h.vectors }) visited j
          (ground (arith, get-delete id j h.vectors, str_eq_iff id j)))
  compact_loop-drops j v h ((id, vec) ∷ visited) dead (Memᴰ.tail m) =
      elim (Bool-cases (is_dead h.tombstones id)) [
        | inl e ↦
            rw (e, compact_loop)
              (compact_loop-drops j v (record h { vectors = delete id h.vectors }) visited dead m)
        | inr e ↦
            rw (e, compact_loop)
              (compact_loop-drops j v (record h { graph = gs.add id vec h.graph }) visited dead m)
      ]

  pub get-compact_loop :
      (h : Index gs) (visited : List (Str × Vector fl)) (j : Str)
      → Permᴰ visited h.vectors
      → get j (compact_loop gs (record h { graph = gs.new_graph h.cfg }) visited).vectors ≡ view h j
  unfolding view
  get-compact_loop h visited j p = elim (Bool-cases (is_dead h.tombstones j)) [
    | inr live ↦ rw (live, view) (compact_loop-keeps _ visited j live)
    | inl dead ↦
        rw (dead, view)
          (elim (Option-cases (get j h.vectors)) [
            | inl gone ↦ compact_loop-none _ visited j gone
            | inr (v, e) ↦
                compact_loop-drops j v _ visited dead (mem-perm p (entry_of j h.vectors e))
          ])
  ]

  view-fresh : (h : Index gs) (j : Str) → view (record h { tombstones = [] }) j ≡ get j h.vectors
  unfolding view is_dead get
  view-fresh h j = refl

  view-marked :
      (id : Str) (h : Index gs) (j : Str)
      → view (record h { tombstones = put id true h.tombstones }) j
        ≡ (if str_eq id j then none else view h j)
  unfolding view
  view-marked id h j = ground (arith, is_dead-put id j h.tombstones)

  -- `compactLocked` leaves the vectors under the ids without a tombstone as they are, in any order.
  pub view-compact_locked :
      (h : Index gs) (visited : List (Str × Vector fl)) (j : Str)
      → Permᴰ visited h.vectors
      → view (compact_locked gs visited h) j ≡ view h j
  unfolding compact_locked
  view-compact_locked h visited j p =
      view-fresh (compact_loop gs (record h { graph = gs.new_graph h.cfg }) visited) j
      ∙ get-compact_loop h visited j p

  -- A vector that is accepted is live under its id, and every other id is as it was; the errors
  -- are an empty id, an empty vector, and a vector of the wrong dimension where one is set.
  pub view-insert :
      (id : Str) (vec : Vector fl) (h : Index gs)
      → let bad = is_empty id || is_empty vec || mismatches h.cfg vec in
        ((bad ≡ true) × (e : IndexError) × (insert gs id vec h ≡ err e))
        ⊎ ((bad ≡ false)
            × (u : Index gs) × (insert gs id vec h ≡ ok u)
            × ((j : Str) → view u j ≡ (if str_eq id j then some vec else view h j)))
  unfolding insert view
  view-insert id vec h = elim (Bool-cases (is_empty id)) [
    | inl e ↦ inl (ground arith, empty_id, rw e)
    | inr o ↦ elim (Bool-cases (is_empty vec)) [
      | inl e ↦ inl (ground arith, empty_vector, rw (o, e))
      | inr p ↦ elim (Bool-cases (mismatches h.cfg vec)) [
        | inl e ↦ inl (ground arith, dim_mismatch, rw (o, p, e))
        | inr q ↦ inr (
          ground arith,
          record h {
            tombstones = delete id h.tombstones;
            vectors = put id vec h.vectors;
            graph = gs.add id vec h.graph;
          },
          rw (o, p, q),
          λ j. ground (arith, is_dead-delete id j h.tombstones, get-put id j vec h.vectors),
        )
      ]
    ]
  ]

  view-missing :
      (id : Str) (h : Index gs) (j : Str)
      → get id h.vectors ≡ none
      → view h j ≡ (if str_eq id j then none else view h j)
  unfolding view
  view-missing id h j o = ground (arith, str_eq_iff id j)

  -- `Delete` ends the life of its id and of no other, whether it marks or rebuilds; it answers
  -- whether a vector, live or not, was stored under the id.
  pub view-remove :
      (id : Str) (visited : List (Str × Vector fl)) (h : Index gs) (j : Str)
      → Permᴰ visited h.vectors
      → (view (remove gs visited id h).0 j ≡ (if str_eq id j then none else view h j))
        × ((remove gs visited id h).1 ≡ is_some (get id h.vectors))
  unfolding remove
  view-remove id visited h j p = elim (Option-cases (get id h.vectors)) [
    | inl o ↦ rw (o, remove) (view-missing id h j o, refl)
    | inr (v, o) ↦
        let marked : Index gs = record h { tombstones = put id true h.tombstones } in
        elim (Bool-cases (ltb (length h.vectors) (length marked.tombstones * 5))) [
          | inl heavy ↦
              rw (o, remove)
                (rw heavy (view-compact_locked marked visited j p ∙ view-marked id h j, refl))
          | inr light ↦ rw (o, remove) (rw light (view-marked id h j, refl))
        ]
  ]
