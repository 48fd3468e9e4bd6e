-- ===== src/VectorIndex/Graph.antt =====
-- internal/vectorindex: the graph of an index beside its vectors. The graph is a parameter, so what its
-- documentation says of it is the record `GraphLaws`.
use mathlib.Core.List.{Permᴰ, Memᴰ}
use acgc_project.Common.{
  ◌≡◌, sym, ap, subst, ◌∙◌, Str, List, [], ◌∷◌, false, Option, none, some, ℕ, arith, inl, inr,
  Bool-cases, Option-cases, if_split, get, delete, delete-IsDistinct, IsDistinct, stored-All, All,
  All-mono, mem-perm, All-perm, if◌then◌else◌, str_eq, str_eq_iff,
}
use acgc_project.Domain.{Floats}
use acgc_project.VectorIndex.{Vector, Graphs, Config, Index, is_dead, compact_loop, compact_locked}
use acgc_project.VectorIndex.View.{view, get-compact_loop, entry_of}

-- The documented behaviour of github.com/coder/hnsw: a graph holds a vector under each key; a new one
-- holds none; `Add` replaces what is under its key; `Search` answers nodes that the graph holds.
pub record GraphLaws {fl : Floats} (gs : Graphs fl) : Type 0 where
  pub node : gs.Graph → Str → Option (Vector fl)
  pub node_new : (c : Config) (j : Str) → node (gs.new_graph c) j ≡ none
  pub node_add :
      (id : Str) (v : Vector fl) (g : gs.Graph) (j : Str)
      → node (gs.add id v g) j ≡ (if str_eq id j then some v else node g j)
  pub searched :
      (vec : Vector fl) (n : ℕ) (g : gs.Graph)
      → All (λ e. node g e.0 ≡ some e.1) (gs.search vec n g)

module _ {fl : Floats} (gs : Graphs fl) (laws : GraphLaws gs) where
  -- The graph holds exactly the vectors, and each id has one vector.
  pub record IsInStep (h : Index gs) : Type 0 where
    pub held : (j : Str) → laws.node h.graph j ≡ get j h.vectors
    pub distinct : IsDistinct h.vectors

  -- What holds of what the graph has under `j`, and of each visited vector under `j` without a tombstone,
  -- holds after the loop.
  node-compact_loop :
      (P : Option (Vector fl) → Type 0) (j : Str) (h : Index gs) (visited : List (Str × Vector fl))
      → All (λ e. e.0 ≡ j → is_dead h.tombstones e.0 ≡ false → P (some e.1)) visited
      → P (laws.node h.graph j)
      → P (laws.node (compact_loop gs h visited).graph j)
  unfolding compact_loop
  node-compact_loop P j h [] a p = p
  node-compact_loop P j h ((id, vec) ∷ visited) a p = elim (Bool-cases (is_dead h.tombstones id)) [
    | inl e ↦
        rw (e, compact_loop)
          (node-compact_loop P j (record h { vectors = delete id h.vectors }) visited a.1 p)
    | inr e ↦
        rw (e, compact_loop)
          (node-compact_loop P j (record h { graph = gs.add id vec h.graph }) visited a.1
            (subst P (sym (laws.node_add id vec h.graph j))
              (if_split P (str_eq id j) (λ same. a.0 ((str_eq_iff id j).0 same) e) (λ _. p))))
  ]

  -- A visited vector without a tombstone is in the graph after the loop.
  node-compact_loop_mem :
      (j : Str) (v : Vector fl) (h : Index gs) (visited : List (Str × Vector fl))
      → is_dead h.tombstones j ≡ false
      → All (λ e. e.0 ≡ j → is_dead h.tombstones e.0 ≡ false → some e.1 ≡ some v) visited
      → Memᴰ (j, v) visited
      → laws.node (compact_loop gs h visited).graph j ≡ some v
  unfolding compact_loop
  node-compact_loop_mem j v h [] live a m = elim m [ ]
  node-compact_loop_mem j v h ((id, vec) ∷ visited) live a (Memᴰ.head e) =
      let same : j ≡ id = ap (λ p. p.0) e in
      let value : v ≡ vec = ap (λ p. p.1) e in
      let here : is_dead h.tombstones id ≡ false =
        subst (λ i. is_dead h.tombstones i ≡ false) same live in
      rw (here, compact_loop)
        (node-compact_loop (λ o. o ≡ some v) j (record h { graph = gs.add id vec h.graph }) visited
          a.1 (laws.node_add id vec h.graph j ∙ ground (arith, str_eq_iff id j)))
  node-compact_loop_mem j v h ((id, vec) ∷ visited) live a (Memᴰ.tail m) =
      elim (Bool-cases (is_dead h.tombstones id)) [
        | inl e ↦
            rw (e, compact_loop)
              (node-compact_loop_mem j v (record h { vectors = delete id h.vectors }) visited live
                a.1 m)
        | inr e ↦
            rw (e, compact_loop)
              (node-compact_loop_mem j v (record h { graph = gs.add id vec h.graph }) visited live
                a.1 m)
      ]

  visited_stored :
      (h : Index gs) (visited : List (Str × Vector fl))
      → Permᴰ visited h.vectors
      → IsDistinct h.vectors
      → All (λ e. get e.0 h.vectors ≡ some e.1) visited
  visited_stored h visited p d = All-perm _ p (stored-All h.vectors d)

  -- The graph that `compactLocked` builds holds the vectors without a tombstone, and no other.
  pub node-compact_locked :
      (h : Index gs) (visited : List (Str × Vector fl)) (j : Str)
      → Permᴰ visited h.vectors
      → IsDistinct h.vectors
      → laws.node (compact_locked gs visited h).graph j ≡ view gs h j
  unfolding compact_locked view
  node-compact_locked h visited j p d =
      let start : Index gs = record h { graph = gs.new_graph h.cfg } in
      let stored = visited_stored h visited p d in
      let fresh = laws.node_new h.cfg j in
      elim (Bool-cases (is_dead h.tombstones j)) [
        | inl dead ↦
            rw (dead, view)
              (node-compact_loop (λ o. o ≡ none) j start visited
                (All-mono _ _ visited
                  (λ e _ same live.
                    absurd (cc (sym (ap (is_dead h.tombstones) same ∙ dead) ∙ live)))
                  stored)
                fresh)
        | inr live ↦
            rw (live, view)
              (elim (Option-cases (get j h.vectors)) [
                | inl o ↦
                    node-compact_loop (λ x. x ≡ none) j start visited
                      (All-mono _ _ visited
                        (λ e found same _.
                          absurd (cc (sym found ∙ (ap (λ i. get i h.vectors) same ∙ o))))
                        stored)
                      fresh
                    ∙ sym o
                | inr (v, o) ↦
                    node-compact_loop_mem j v start visited live
                      (All-mono _ _ visited
                        (λ e found same _. sym found ∙ (ap (λ i. get i h.vectors) same ∙ o)) stored)
                      (mem-perm p (entry_of j h.vectors o))
                    ∙ sym o
              ])
      ]

  vectors-compact_loop :
      (h : Index gs) (visited : List (Str × Vector fl))
      → IsDistinct h.vectors
      → IsDistinct (compact_loop gs h visited).vectors
  unfolding compact_loop
  vectors-compact_loop h [] d = d
  vectors-compact_loop h ((id, vec) ∷ visited) d = elim (Bool-cases (is_dead h.tombstones id)) [
    | inl e ↦
        rw (e, compact_loop)
          (vectors-compact_loop (record h { vectors = delete id h.vectors }) visited
            (delete-IsDistinct id h.vectors d))
    | inr e ↦
        rw (e, compact_loop)
          (vectors-compact_loop (record h { graph = gs.add id vec h.graph }) visited d)
  ]

  pub compact_locked-IsInStep :
      (h : Index gs) (visited : List (Str × Vector fl))
      → Permᴰ visited h.vectors
      → IsDistinct h.vectors
      → IsInStep (compact_locked gs visited h)
  unfolding compact_locked
  compact_locked-IsInStep h visited p d = record {
    held = λ j. node-compact_locked h visited j p d ∙ sym (get-compact_loop gs h visited j p);
    distinct = vectors-compact_loop (record h { graph = gs.new_graph h.cfg }) visited d;
  }
