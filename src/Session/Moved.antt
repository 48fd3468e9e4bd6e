-- ===== src/Session/Moved.antt =====
-- internal/session/manager.go: `reconcileSemanticIndices` on the maps that the indexes stand for.
use mathlib.Core.List.{Permᴰ}
use acgc_project.Common.{
  Str, List, [], ◌∷◌, Bool, ◌||◌, ◌&&◌, not, Option, none, some, if◌then◌else◌, is_empty, map, ◌≡◌,
  refl, ap, ◌∙◌, inl, inr, Bool-cases, Option-cases, arith, str_eq, str_eq_iff, option_both,
  if_both, get,
}
use acgc_project.Domain.{Floats, StateNode}
use acgc_project.StateTree.{Tree, get_node, get_active_nodes}
use acgc_project.VectorIndex.{
  Graphs, Vector, Config, Index, IndexError, mismatches, insert, ok, err,
}
use acgc_project.VectorIndex.View.{view, view-insert, view-remove}
use acgc_project.Session.SemanticMerge.{has_id}
use acgc_project.Session.State.{
  Indexes, try_insert, reconcile_id, reconcile_loop, reconcile_semantic_indices,
}

module _ {fl : Floats} where
  -- the vector that an index takes for an id that left the active nodes
  unfoldable pub archived_vector : Config → Tree fl → Str → Option (Vector fl)
  unfolding get_node
  archived_vector cfg t id = elim (get_node id t) [
    | none ↦ none
    | some n ↦
        if is_empty id || is_empty n.embedding || mismatches cfg n.embedding
        then none
        else some n.embedding
  ]

abbrev pub or_kept {ℓ} : {A : Type ℓ} → Option A → Option A → Option A
or_kept none old = old
or_kept (some v) old = some v

twice {ℓ} :
    {A : Type ℓ} (l l' m : Bool) (v old mid : Option A)
    → l' ≡ (m || l)
    → mid ≡ (if m then or_kept v old else old)
    → (if l then or_kept v mid else mid) ≡ (if l' then or_kept v old else old)
twice l l' m none old mid e h = ground (arith, e, h)
twice l l' m (some w) old mid e h = ground (arith, e, h)

module _ {fl : Floats} (gs : Graphs fl) where
  cfg-try_insert :
      (id : Str) (vec : Vector fl) (h : Index gs) → (try_insert gs id vec h).cfg ≡ h.cfg
  unfolding try_insert insert
  cfg-try_insert id vec h = ground arith

  try_insert_ok :
      (id : Str) (vec : Vector fl) (h u : Index gs)
      → insert gs id vec h ≡ ok u
      → try_insert gs id vec h ≡ u
  unfolding try_insert
  try_insert_ok id vec h u q = rw (q, try_insert) refl

  try_insert_err :
      (id : Str) (vec : Vector fl) (h : Index gs) (e : IndexError)
      → insert gs id vec h ≡ err e
      → try_insert gs id vec h ≡ h
  unfolding try_insert
  try_insert_err id vec h e q = rw (q, try_insert) refl

  view-try_insert :
      (id : Str) (vec : Vector fl) (h : Index gs) (j : Str)
      → view gs (try_insert gs id vec h) j ≡ (
          if is_empty id || is_empty vec || mismatches h.cfg vec
          then view gs h j
          else if str_eq id j
          then some vec
          else view gs h j)
  view-try_insert id vec h j = elim (view-insert gs id vec h) [
    | inl (bad, e, q) ↦ rw bad (ap (λ y. view gs y j) (try_insert_err id vec h e q))
    | inr (good, u, q, s) ↦ rw good (ap (λ y. view gs y j) (try_insert_ok id vec h u q) ∙ s j)
  ]

  -- the archive index after one round for an id that left
  archive_id : Tree fl → Str → Index gs → Index gs
  archive_id t id h = elim (get_node id t) [
    | none ↦ h
    | some n ↦ if is_empty n.embedding then h else try_insert gs id n.embedding h
  ]

  cfg-archive_id : (t : Tree fl) (id : Str) (h : Index gs) → (archive_id t id h).cfg ≡ h.cfg
  unfolding archive_id
  cfg-archive_id t id h =
      option_both (λ (y : Index gs). y.cfg ≡ h.cfg) (get_node id t) refl
        (λ n e.
          if_both (λ (y : Index gs). y.cfg ≡ h.cfg) (is_empty n.embedding) refl
            (cfg-try_insert id n.embedding h))

  view-archive_id :
      (t : Tree fl) (id : Str) (h : Index gs) (j : Str)
      → view gs (archive_id t id h) j
        ≡ (if str_eq id j then or_kept (archived_vector h.cfg t id) (view gs h j) else view gs h j)
  unfolding archive_id archived_vector get_node
  view-archive_id t id h j = elim (Option-cases (get id t.nodes)) [
    | inl e ↦ ground (arith, e)
    | inr (n, e) ↦ elim (Bool-cases (is_empty n.embedding)) [
      | inl q ↦ ground (arith, e, q)
      | inr q ↦ ground (arith, e, q, view-try_insert id n.embedding h j)
    ]
  ]

  module _ (order : Index gs → List (Str × Vector fl)) (t : Tree fl) (post : List Str)
      (visits : (h : Index gs) → Permᴰ (order h) h.vectors) where
    -- whether a round moves `j`
    abbrev moves : Str → Str → Bool
    moves id j = not (has_id post id) && str_eq id j

    view-reconcile_id :
        (id : Str) (x : Indexes gs) (j : Str)
        → let y = reconcile_id gs order t post id x in
          (view gs y.active_index j ≡ (if moves id j then none else view gs x.active_index j))
          × (view gs y.archive_index j ≡ (
              if moves id j
              then or_kept (archived_vector x.archive_index.cfg t j) (view gs x.archive_index j)
              else view gs x.archive_index j))
          × (y.archive_index.cfg ≡ x.archive_index.cfg)
    unfolding reconcile_id archive_id
    view-reconcile_id id x j = elim (Bool-cases (has_id post id)) [
      | inl e ↦ rw (e, reconcile_id) (refl, refl, refl)
      | inr o ↦
          rw (o, reconcile_id)
            (
              (view-remove gs id (order x.active_index) x.active_index j (visits x.active_index)).0,
              ground (arith, view-archive_id t id x.archive_index j, str_eq_iff id j),
              cfg-archive_id t id x.archive_index,
            )
    ]

    -- whether the loop moves `j`
    abbrev left : List Str → Str → Bool
    left pre j = has_id pre j && not (has_id post j)

    view-reconcile_loop :
        (pre : List Str) (x : Indexes gs) (j : Str)
        → let y = reconcile_loop gs order t post pre x in
          (view gs y.active_index j ≡ (if left pre j then none else view gs x.active_index j))
          × (view gs y.archive_index j ≡ (
              if left pre j
              then or_kept (archived_vector x.archive_index.cfg t j) (view gs x.archive_index j)
              else view gs x.archive_index j))
    unfolding reconcile_loop has_id
    view-reconcile_loop [] x j = (refl, refl)
    view-reconcile_loop (id ∷ pre) x j =
        let y = reconcile_id gs order t post id x in
        let (active, archive, cfg) = view-reconcile_id id x j in
        let (active', archive') = view-reconcile_loop pre y j in
        (
          ground (arith, active, active', str_eq_iff id j),
          archive'
              ∙ ap
                  (λ c.
                    if left pre j
                    then or_kept (archived_vector c t j) (view gs y.archive_index j)
                    else view gs y.archive_index j)
                  cfg
              ∙ twice (left pre j) (left (id ∷ pre) j) (moves id j)
                  (archived_vector x.archive_index.cfg t j) (view gs x.archive_index j)
                  (view gs y.archive_index j) (ground (arith, str_eq_iff id j)) archive,
        )

  -- `reconcileSemanticIndices` on what is live: an id that was active before and is active no longer is
  -- removed from the active index, and the archive index has its embedding if its node is there and
  -- the index takes the embedding; every other id is as it was in both.
  pub view-reconcile_semantic_indices :
      (order : Index gs → List (Str × Vector fl)) (visited : List (StateNode fl)) (t : Tree fl)
      (pre : List Str) (x : Indexes gs) (j : Str)
      → ((h : Index gs) → Permᴰ (order h) h.vectors)
      → let post = map (λ (n : StateNode fl). n.node_id) (get_active_nodes visited) in
        let y = reconcile_semantic_indices gs order visited t pre x in
        let left = has_id pre j && not (has_id post j) in
        (view gs y.active_index j ≡ (if left then none else view gs x.active_index j))
        × (view gs y.archive_index j ≡ (
            if left
            then or_kept (archived_vector x.archive_index.cfg t j) (view gs x.archive_index j)
            else view gs x.archive_index j))
  unfolding reconcile_semantic_indices
  view-reconcile_semantic_indices order visited t pre x j visits =
      view-reconcile_loop order t (map (λ n. n.node_id) (get_active_nodes visited)) visits pre x j
