-- ===== src/StateTree/Kept.antt =====
-- internal/statetree/tree.go: what the writes of the tree, the worker and the collector leave of a node.
use acgc_project.Common.{
  ◌≡◌, refl, sym, ap, ◌∙◌, inl, inr, Str, List, [], ◌∷◌, some, none, Bool-cases, Map, get, put,
  update, get-put, get-update, str_eq, str_eq_iff,
}
use acgc_project.Domain.{Floats, Event, NodeStatus, StateNode, zero_scores}
use acgc_project.StateTree.{
  Tree, add_node, increment_turn, find_best_parent, event_node, append_child, archive_all,
  set_status, swap_children, replace_with_compressed, classify_event,
}
use acgc_project.StateTree.Invariant.{IsWellFormed, Visits}
use acgc_project.StateTree.Growth.{get-archive_all-none}
use acgc_project.StateTree.Entries.{get-add_node}
use acgc_project.StateTree.Parents.{IsHeld}

module _ {fl : Floats} where
  -- A node but for its status, its children, its scores and its embedding: its ids and parent, type, title,
  -- summary, facts, decisions, issues, dependencies, event references, tokens and turn.
  abbrev pub content : StateNode fl → StateNode fl
  content n = record n {
    status = NodeStatus.active;
    child_ids = [];
    scores = zero_scores fl;
    embedding = [];
    embed_model = [];
  }

  -- A node with the content of `n` is under `k`.
  abbrev pub IsKept : Map (StateNode fl) → Str → StateNode fl → Type 0
  IsKept m k n = (n' : StateNode fl) × (get k m ≡ some n') × (content n' ≡ content n)

  -- Each node that is in the map before is under its key after, with the same content.
  abbrev pub Grows : Map (StateNode fl) → Map (StateNode fl) → Type 0
  Grows m m' = (k : Str) (n : StateNode fl) → get k m ≡ some n → IsKept m' k n

  pub same-Grows : (m : Map (StateNode fl)) → Grows m m
  same-Grows m k n e = (n, e, refl)

  pub Grows-IsKept :
      (m m' : Map (StateNode fl)) (k : Str) (n : StateNode fl)
      → Grows m m'
      → IsKept m k n
      → IsKept m' k n
  Grows-IsKept m m' k n g (n', e, same) = let (x, f, again) = g k n' e in (x, f, again ∙ same)

  pub then-Grows : (a b c : Map (StateNode fl)) → Grows a b → Grows b c → Grows a c
  then-Grows a b c g h k n e = Grows-IsKept b c k n h (g k n e)

  pub Grows-IsHeld : (m m' : Map (StateNode fl)) (k : Str) → Grows m m' → IsHeld m k → IsHeld m' k
  Grows-IsHeld m m' k g (n, e) = let (x, f, same) = g k n e in (x, f)

  pub update-Grows :
      (k : Str) (f : StateNode fl → StateNode fl) (m : Map (StateNode fl))
      → ((v : StateNode fl) → content (f v) ≡ content v)
      → Grows m (update k f m)
  update-Grows k f m same j n e = elim (Bool-cases (str_eq k j)) [
    | inl y ↦ (f n, rw (get-update k j f m, y, e) refl, same n)
    | inr o ↦ (n, rw (get-update k j f m, o) e, refl)
  ]

  put-Grows :
      (k : Str) (v : StateNode fl) (m : Map (StateNode fl)) → get k m ≡ none → Grows m (put k v m)
  put-Grows k v m free j n e = elim (Bool-cases (str_eq k j)) [
    | inl y ↦ absurd (cc (sym e ∙ (sym (ap (λ i. get i m) ((str_eq_iff k j).0 y)) ∙ free)))
    | inr o ↦ (n, rw (get-put k j v m, o) e, refl)
  ]

  archive_all-Grows : (cs : List Str) (m : Map (StateNode fl)) → Grows m (archive_all cs m)
  unfolding archive_all set_status
  archive_all-Grows [] m = same-Grows m
  archive_all-Grows (c ∷ cs) m =
      then-Grows m _ _ (update-Grows c (set_status NodeStatus.archived) m (λ v. refl))
        (archive_all-Grows cs _)

  -- `ReplaceWithCompressed` keeps the content of each node, for a node with a fresh id.
  pub replace_with_compressed-Grows :
      (parent : Str) (cs : List Str) (n : StateNode fl) (t : Tree fl)
      → get n.node_id t.nodes ≡ none
      → Grows t.nodes (replace_with_compressed parent cs n t).nodes
  unfolding replace_with_compressed swap_children
  replace_with_compressed-Grows parent cs n t free =
      then-Grows t.nodes (archive_all cs t.nodes) _ (archive_all-Grows cs t.nodes) (
        then-Grows _ (put n.node_id n (archive_all cs t.nodes)) _
          (put-Grows n.node_id n _ (get-archive_all-none cs n.node_id t.nodes free))
          (update-Grows parent (swap_children cs n.node_id) _ (λ v. refl)))

  -- `AddNode` keeps the content of each node.
  pub add_node-Grows :
      (t : Tree fl) (visited : List (StateNode fl)) (event : Event)
      → IsWellFormed t
      → Visits visited t
      → Grows t.nodes (add_node visited event (increment_turn t)).0.nodes
  unfolding add_node append_child increment_turn
  add_node-Grows t visited event w v =
      let t' = increment_turn t in
      let parent = find_best_parent visited t' (classify_event event) in
      let node = event_node t' parent event in
      let (key, absent, found, size) = get-add_node t visited event node.node_id w v in
      then-Grows t.nodes (put node.node_id node t.nodes) _
        (put-Grows node.node_id node t.nodes absent)
        (update-Grows parent (append_child node.node_id) _ (λ v. refl))
