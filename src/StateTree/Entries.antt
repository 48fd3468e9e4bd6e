-- ===== src/StateTree/Entries.antt =====
-- internal/statetree: what can be read after `AddNode` and after `ReplaceWithCompressed`.
use acgc_project.Common.{
  ◌+◌, ◌≡◌, refl, ap, ◌∙◌, ◌≢◌, Str, List, [], ◌∷◌, none, some, arith, Map, get, put, update,
  map_option, get-update, get-put, length, length-append, length-update, put_absent, str_eq,
  str_eq_iff, if◌then◌else◌,
}
use acgc_project.Domain.{Floats, Event, NodeStatus, StateNode}
use acgc_project.StateTree.{
  Tree, node_key, increment_turn, find_best_parent, classify_event, event_node, append_child,
  add_node, set_status, archive_all, is_child, swap_children, replace_with_compressed,
}
use acgc_project.StateTree.Invariant.{IsWellFormed, Visits, get-next_key}
use acgc_project.StateTree.Growth.{event_node_fields, get-archive_all-none}
use acgc_project.StateTree.Parent.{find_best_parent-ne-next_key}

module _ {fl : Floats} where
  get-attach :
      (id parent j : Str) (node : StateNode fl) (f : StateNode fl → StateNode fl)
      (m : Map (StateNode fl))
      → parent ≢ id
      → get j (update parent f (put id node m)) ≡ (
          if str_eq id j
          then some node
          else if str_eq parent j
          then map_option f (get j m)
          else get j m)
  get-attach id parent j node f m apart = ground (
    arith,
    get-update parent j f (put id node m),
    get-put id j node m,
    str_eq_iff id j,
    str_eq_iff parent j,
  )

  length-attach :
      (id parent : Str) (node : StateNode fl) (f : StateNode fl → StateNode fl)
      (m : Map (StateNode fl))
      → get id m ≡ none
      → length (update parent f (put id node m)) ≡ length m + 1
  length-attach id parent node f m absent = omega (
    arith,
    length-update parent f (put id node m),
    ap length (put_absent id node m absent),
    length-append m ((id, node) ∷ []),
  )

  -- `AddNode` after a turn of the counter, on a well-formed tree: the new id is the key of the
  -- turn and was in use nowhere; under it stands the event's node; the parent has one more child,
  -- its last; any other id reads as before; and the tree has one node more.
  pub get-add_node :
      (t : Tree fl) (visited : List (StateNode fl)) (event : Event) (j : Str)
      → IsWellFormed t
      → Visits visited t
      → let t' = increment_turn t in
        let parent = find_best_parent visited t' (classify_event event) in
        let node = event_node t' parent event in
        let (u, id) = add_node visited event t' in
        (id ≡ node_key t.session_id (t.turn_count + 1))
        × (get id t.nodes ≡ none)
        × (get j u.nodes ≡ (
            if str_eq id j
            then some node
            else if str_eq parent j
            then map_option (append_child id) (get j t.nodes)
            else get j t.nodes))
        × (length u.nodes ≡ length t.nodes + 1)
  unfolding add_node increment_turn
  get-add_node t visited event j w v = (
    fields.0,
    absent,
    get-attach node.node_id parent j node (append_child node.node_id) t.nodes
        (λ e. find_best_parent-ne-next_key t visited (classify_event event) w v (e ∙ fields.0)),
    length-attach node.node_id parent node (append_child node.node_id) t.nodes absent,
  )
    where
      parent : Str
      parent = find_best_parent visited (increment_turn t) (classify_event event)

      node : StateNode fl
      node = event_node (increment_turn t) parent event

      fields :
          (node.node_id ≡ node_key t.session_id (t.turn_count + 1))
          × (node.turn_number ≡ t.turn_count + 1)
          × (node.child_ids ≡ [])
          × (node.status ≡ NodeStatus.active)
      fields = event_node_fields (increment_turn t) parent event

      absent : get node.node_id t.nodes ≡ none
      absent = rw fields.0 (get-next_key t w)

  get-archive_all :
      (cs : List Str) (j : Str) (m : Map (StateNode fl))
      → get j (archive_all cs m)
        ≡ (if is_child cs j then map_option (set_status NodeStatus.archived) (get j m) else get j m)
  unfolding archive_all is_child set_status
  get-archive_all [] j m = refl
  get-archive_all (c ∷ cs) j m = ground (
    arith,
    get-archive_all cs j (update c (set_status NodeStatus.archived) m),
    get-update c j (set_status NodeStatus.archived) m,
  )

  length-archive_all :
      (cs : List Str) (m : Map (StateNode fl)) → length (archive_all cs m) ≡ length m
  unfolding archive_all
  length-archive_all [] m = refl
  length-archive_all (c ∷ cs) m = length-archive_all cs _ ∙ length-update c _ m

  -- A compaction under a node of the tree, into a branch whose id is in use nowhere and which is
  -- not among the replaced: under its id stands the branch; in the parent's list of children the
  -- replaced ones are gone and the branch is last; the replaced nodes are archived; any other id
  -- reads as before; and the tree has one node more.
  pub get-replace_with_compressed :
      (t : Tree fl) (parent : Str) (cs : List Str) (n p : StateNode fl) (j : Str)
      → get n.node_id t.nodes ≡ none
      → get parent t.nodes ≡ some p
      → let u = replace_with_compressed parent cs n t in
        let before =
          if is_child cs j
          then map_option (set_status NodeStatus.archived) (get j t.nodes)
          else get j t.nodes in
        (get j u.nodes ≡ (
          if str_eq n.node_id j
          then some n
          else if str_eq parent j
          then map_option (swap_children cs n.node_id) before
          else before))
        × (length u.nodes ≡ length t.nodes + 1)
  unfolding replace_with_compressed
  get-replace_with_compressed t parent cs n p j absent found = (
    rw (← get-archive_all cs j t.nodes) (
        get-attach n.node_id parent j n (swap_children cs n.node_id) (archive_all cs t.nodes)
          (λ e. cc (e, absent, found))),
    length-attach n.node_id parent n (swap_children cs n.node_id) (archive_all cs t.nodes)
          (get-archive_all-none cs n.node_id t.nodes absent)
        ∙ ap (λ k. k + 1) (length-archive_all cs t.nodes),
  )
