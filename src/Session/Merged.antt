-- ===== src/Session/Merged.antt =====
-- internal/session/semantic_merge.go: which nodes a semantic compilation gets.
use mathlib.Core.List.{Memᴰ}
use acgc_project.Common.{
  Str, List, [], ◌∷◌, Bool, true, false, not, ◌||◌, none, some, is_empty, All, All-mono, All-get,
  get, ◌&&◌, ◌≡◌, refl, subst, ◌⊎◌, inl, inr, Bool-cases, Option-cases, arith,
}
use acgc_project.Domain.{Floats, StateNode, is_archived}
use acgc_project.StateTree.{Tree, get_node}
use acgc_project.StateTree.Invariant.{IsWellFormed, EntryFits}
use acgc_project.VectorIndex.{Hit}
use acgc_project.Session.SemanticMerge.{
  has_id, Joined, join_node, active_loop, join_hit, archived_loop, nodes_for_semantic_compile,
}
use acgc_project.Session.Joined.{
  has_id-All, HasDistinctIds, ids, IsJoined, join_node-shown, join_node-itself, join_node-IsJoined,
  active_loop-IsJoined, IsArchivedIn, join_hit-IsJoined, archived_loop-IsJoined, All-self,
}

module _ {fl : Floats} where
  active_loop-shown :
      (s : Str) (j : Joined fl) (active : List (StateNode fl))
      → has_id (ids j.out) s ≡ true
      → has_id (ids (active_loop j active).out) s ≡ true
  unfolding active_loop
  active_loop-shown s j [] h = h
  active_loop-shown s j (n ∷ active) h = elim (Bool-cases (has_id j.seen n.node_id)) [
    | inl e ↦ rw (e, active_loop) (active_loop-shown s j active h)
    | inr o ↦
        rw (o, active_loop)
          (active_loop-shown s (join_node n.node_id n j) active (join_node-shown n.node_id s n j h))
  ]

  join_hit-shown :
      (t : Tree fl) (id s : Str) (j : Joined fl)
      → has_id (ids j.out) s ≡ true
      → has_id (ids (join_hit t id j).out) s ≡ true
  unfolding join_hit get_node
  join_hit-shown t id s j h = elim (Bool-cases (is_empty id || has_id j.seen id)) [
    | inl e ↦ rw e h
    | inr o ↦ elim (Option-cases (get id t.nodes)) [
      | inl e ↦ rw (o, e) h
      | inr (n, e) ↦ elim (Bool-cases (is_archived n)) [
        | inl y ↦ rw (o, e) (rw y (join_node-shown id s n j h))
        | inr z ↦ rw (o, e) (rw z h)
      ]
    ]
  ]

  archived_loop-shown :
      (t : Tree fl) (s : Str) (j : Joined fl) (merged : List (Hit fl))
      → has_id (ids j.out) s ≡ true
      → has_id (ids (archived_loop t j merged).out) s ≡ true
  unfolding archived_loop
  archived_loop-shown t s j [] h = h
  archived_loop-shown t s j (x ∷ merged) h =
      archived_loop-shown t s (join_hit t x.node_id j) merged (join_hit-shown t x.node_id s j h)

  active_loop-covers :
      (P : StateNode fl → Type 0) (j j' : Joined fl) (active : List (StateNode fl))
      → IsJoined P j
      → All P active
      → active_loop j active ≡ j'
      → All (λ n. has_id (ids j'.out) n.node_id ≡ true) active
  unfolding active_loop
  active_loop-covers P j j' [] w a q = tt
  active_loop-covers P j j' (n ∷ active) w a q = elim (Bool-cases (has_id j.seen n.node_id)) [
    | inl e ↦
        let step : active_loop j active ≡ j' = rw (e, active_loop) at q in
        (
          subst (λ x. has_id (ids x.out) n.node_id ≡ true) step
              (active_loop-shown n.node_id j active (has_id-All _ j.seen n.node_id w.shown e)),
          active_loop-covers P j j' active w a.1 step,
        )
    | inr o ↦
        let next = join_node n.node_id n j in
        let step : active_loop next active ≡ j' = rw (o, active_loop) at q in
        (
          subst (λ x. has_id (ids x.out) n.node_id ≡ true) step
              (active_loop-shown n.node_id next active (join_node-itself n.node_id n j)),
          active_loop-covers P next j' active (join_node-IsJoined P n j w o a.0) a.1 step,
        )
  ]

  -- a hit that the second loop may join
  abbrev pub is_retrievable : Tree fl → Str → Bool
  is_retrievable t id =
      not (is_empty id) && elim (get id t.nodes) [ none ↦ false | some n ↦ is_archived n ]

  join_hit-covers :
      (P : StateNode fl → Type 0) (t : Tree fl) (id : Str) (j : Joined fl)
      → IsWellFormed t
      → IsJoined P j
      → (is_retrievable t id ≡ false) ⊎ (has_id (ids (join_hit t id j).out) id ≡ true)
  unfolding join_hit get_node
  join_hit-covers P t id j wf w = elim (Bool-cases (is_empty id)) [
    | inl e ↦ inl (ground arith)
    | inr f ↦ elim (Bool-cases (has_id j.seen id)) [
      | inl e ↦ inr (join_hit-shown t id id j (has_id-All _ j.seen id w.shown e))
      | inr o ↦ elim (Option-cases (get id t.nodes)) [
        | inl e ↦ inl (rw (f, e) refl)
        | inr (n, e) ↦ elim (Bool-cases (is_archived n)) [
          | inl y ↦
              let same : n.node_id ≡ id =
                (All-get (EntryFits t.session_id t.turn_count) id t.nodes wf.fits e).0 in
              inr (
                rw (f, o, e)
                  (rw y (
                    subst (λ i. has_id (ids (join_node id n j).out) i ≡ true) same
                      (join_node-itself id n j))))
          | inr z ↦ inl (rw (f, e) z)
        ]
      ]
    ]
  ]

  archived_loop-covers :
      (P : StateNode fl → Type 0) (t : Tree fl) (j j' : Joined fl) (merged : List (Hit fl))
      → IsWellFormed t
      → ((n : StateNode fl) → IsArchivedIn t n → P n)
      → IsJoined P j
      → archived_loop t j merged ≡ j'
      → All
          (λ h. (is_retrievable t h.node_id ≡ false) ⊎ (has_id (ids j'.out) h.node_id ≡ true))
          merged
  unfolding archived_loop
  archived_loop-covers P t j j' [] wf p w q = tt
  archived_loop-covers P t j j' (h ∷ merged) wf p w q =
      let next = join_hit t h.node_id j in
      (
        elim (join_hit-covers P t h.node_id j wf w) [
          | inl e ↦ inl e
          | inr e ↦ inr (
              subst (λ x. has_id (ids x.out) h.node_id ≡ true) q
                (archived_loop-shown t h.node_id next merged e))
        ],
        archived_loop-covers P t next j' merged wf p (join_hit-IsJoined P t h.node_id j wf p w) q,
      )

  -- `NodesForSemanticCompile` on a well-formed tree: no two nodes of the result have one id; each
  -- is one of the active nodes given or an archived node that the tree holds under its id; and it
  -- has the id of every active node and of every hit whose id is not empty and belongs to an
  -- archived node of the tree.
  pub nodes_for_semantic_compile_complete :
      (t : Tree fl) (active : List (StateNode fl)) (merged : List (Hit fl))
      → IsWellFormed t
      → let out = nodes_for_semantic_compile t active merged in
        HasDistinctIds out
        × All (λ n. Memᴰ n active ⊎ IsArchivedIn t n) out
        × All (λ n. has_id (ids out) n.node_id ≡ true) active
        × All
            (λ h. (is_retrievable t h.node_id ≡ false) ⊎ (has_id (ids out) h.node_id ≡ true))
            merged
  unfolding nodes_for_semantic_compile
  nodes_for_semantic_compile_complete t active merged wf =
      let P : StateNode fl → Type 0 = λ n. Memᴰ n active ⊎ IsArchivedIn t n in
      let start : Joined fl = record { seen = []; out = [] } in
      let start_joined : IsJoined P start = record {
        distinct = tt;
        marked = tt;
        good = tt;
        shown = tt;
      } in
      let actives : All P active = All-mono _ P active (λ n m. inl m) (All-self active) in
      let middle = active_loop start active in
      let first = active_loop-IsJoined P start active start_joined actives in
      let w = archived_loop-IsJoined P t middle merged wf (λ n a. inr a) first in
      (
        w.distinct,
        w.good,
        All-mono _ _ active (λ n h. archived_loop-shown t n.node_id middle merged h)
            (active_loop-covers P start middle active start_joined actives refl),
        archived_loop-covers P t middle (archived_loop t middle merged) merged wf (λ n a. inr a)
            first refl,
      )
