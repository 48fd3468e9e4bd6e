-- ===== src/StateTree/Growth.antt =====
-- internal/statetree/tree.go: `AddNode`, `ReplaceWithCompressed` and the invariant of the tree.
use acgc_project.Common.{
  ℕ, ◌+◌, ◌≤◌, ◌≡◌, refl, sym, ◌∙◌, ◌≢◌, Str, List, [], ◌∷◌, none, some, not, arith, Map, get, All,
  All-append, All-select, select, get-update,
}
use acgc_project.Domain.{Floats, Event, NodeStatus, StateNode}
use acgc_project.StateTree.{
  is_root_like, Tree, node_key, increment_turn, find_best_parent, event_node, append_child,
  add_node, set_status, archive_all, swap_children, is_child, replace_with_compressed,
  classify_event,
}
use acgc_project.StateTree.Invariant.{
  EntryFits, node_key_injective, IsWellFormed, Visits, get-next_key,
}
use acgc_project.StateTree.Parent.{find_best_parent-ne-next_key}
use acgc_project.StateTree.Writes.{
  attach-IsWellFormed, later_turn-IsWellFormed, archive_all-IsWellFormed,
}

module _ {fl : Floats} where
  pub event_node_fields :
      (t : Tree fl) (parent : Str) (e : Event)
      → ((event_node t parent e).node_id ≡ node_key t.session_id t.turn_count)
        × ((event_node t parent e).turn_number ≡ t.turn_count)
        × ((event_node t parent e).child_ids ≡ [])
        × ((event_node t parent e).status ≡ NodeStatus.active)
  unfolding event_node
  event_node_fields t parent e = (ground arith, ground arith, ground arith, ground arith)

  append_child-All :
      (R : Str → Type 0) (id : Str) (n : StateNode fl)
      → All R n.child_ids
      → R id
      → All R (append_child id n).child_ids
  unfolding append_child
  append_child-All R id n h new = All-append R n.child_ids (id ∷ []) h (new, tt)

  append_child-kind :
      (id : Str) (n : StateNode fl) → is_root_like (append_child id n) ≡ is_root_like n
  unfolding append_child
  append_child-kind id n = refl

  append_child-EntryFits :
      (sid : Str) (turn : ℕ) (id : Str) (e : Str × StateNode fl)
      → EntryFits sid turn e
      → EntryFits sid turn (e.0, append_child id e.1)
  unfolding append_child
  append_child-EntryFits sid turn id e h = h

  -- A turn of the counter and a new node keep the tree well formed, in any order of the visit.
  pub add_node-IsWellFormed :
      (t : Tree fl) (visited : List (StateNode fl)) (event : Event)
      → IsWellFormed t
      → Visits visited t
      → IsWellFormed (add_node visited event (increment_turn t)).0
  unfolding add_node increment_turn
  add_node-IsWellFormed t visited event w v =
      attach-IsWellFormed t' node.node_id parent node (append_child node.node_id)
        (later_turn-IsWellFormed t w) (rw fields.0 (get-next_key t w)) fields.2 apart
        (λ R n h new. append_child-All R node.node_id n h new) (append_child-kind node.node_id)
        (
          refl,
          omega (arith, fields.1),
          λ m same. omega (
            arith,
            fields.1,
            node_key_injective t.session_id (t.turn_count + 1) m (sym fields.0 ∙ same),
          ),
        )
        (λ n h. append_child-EntryFits _ _ node.node_id (parent, n) h)
    where
      t' : Tree fl
      t' = increment_turn t

      parent : Str
      parent = find_best_parent visited t' (classify_event event)

      node : StateNode fl
      node = event_node t' parent event

      fields :
          (node.node_id ≡ node_key t.session_id (t.turn_count + 1))
          × (node.turn_number ≡ t.turn_count + 1)
          × (node.child_ids ≡ [])
          × (node.status ≡ NodeStatus.active)
      fields = event_node_fields t' parent event

      apart : parent ≢ node.node_id
      apart e = find_best_parent-ne-next_key t visited (classify_event event) w v (e ∙ fields.0)

  swap_children-All :
      (R : Str → Type 0) (cs : List Str) (id : Str) (n : StateNode fl)
      → All R n.child_ids
      → R id
      → All R (swap_children cs id n).child_ids
  unfolding swap_children
  swap_children-All R cs id n h new =
      All-append R (select (λ c. not (is_child cs c)) n.child_ids) (id ∷ [])
        (All-select R (λ c. not (is_child cs c)) n.child_ids h) (new, tt)

  swap_children-kind :
      (cs : List Str) (id : Str) (n : StateNode fl)
      → is_root_like (swap_children cs id n) ≡ is_root_like n
  unfolding swap_children
  swap_children-kind cs id n = refl

  swap_children-EntryFits :
      (sid : Str) (turn : ℕ) (cs : List Str) (id : Str) (e : Str × StateNode fl)
      → EntryFits sid turn e
      → EntryFits sid turn (e.0, swap_children cs id e.1)
  unfolding swap_children
  swap_children-EntryFits sid turn cs id e h = h

  pub get-archive_all-none :
      (cs : List Str) (k : Str) (m : Map (StateNode fl))
      → get k m ≡ none
      → get k (archive_all cs m) ≡ none
  unfolding archive_all
  get-archive_all-none [] k m h = h
  get-archive_all-none (c ∷ cs) k m h =
      get-archive_all-none cs k _
        (ground (arith, get-update c k (set_status NodeStatus.archived) m))

  -- What the collector's compaction needs of the node that a compressor returns.
  pub record IsFreshBranch (t : Tree fl) (n : StateNode fl) : Type 0 where
    pub unused : get n.node_id t.nodes ≡ none
    pub leaf : n.child_ids ≡ []
    pub early : n.turn_number ≤ t.turn_count
    pub no_turn_key : (m : ℕ) → n.node_id ≢ node_key t.session_id m

  -- A compaction under a node of the tree, into a branch that is fresh, keeps the tree well formed.
  pub replace_with_compressed-IsWellFormed :
      (t : Tree fl) (parent : Str) (cs : List Str) (n p : StateNode fl)
      → IsWellFormed t
      → IsFreshBranch t n
      → get parent t.nodes ≡ some p
      → IsWellFormed (replace_with_compressed parent cs n t)
  unfolding replace_with_compressed
  replace_with_compressed-IsWellFormed t parent cs n p w b found =
      attach-IsWellFormed (record t { nodes = archive_all cs t.nodes }) n.node_id parent n
        (swap_children cs n.node_id) (archive_all-IsWellFormed cs t w)
        (get-archive_all-none cs n.node_id t.nodes b.unused) b.leaf (λ e. cc (e, b.unused, found))
        (λ R v h new. swap_children-All R cs n.node_id v h new) (swap_children-kind cs n.node_id)
        (refl, b.early, λ m same. absurd (b.no_turn_key m same))
        (λ v h. swap_children-EntryFits _ _ cs n.node_id (parent, v) h)
