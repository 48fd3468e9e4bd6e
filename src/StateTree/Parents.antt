-- ===== src/StateTree/Parents.antt =====
-- internal/statetree/tree.go: the parents of the nodes.
use acgc_project.Common.{
  ◌≡◌, refl, sym, subst, ◌⊎◌, inl, inr, true, Str, List, [], ◌∷◌, some, arith, Bool-cases, Map, get,
  put, update, All, All-mono, All-put, All-update, get-put, get-update, str_eq, is_empty,
}
use acgc_project.Domain.{Floats, Event, NodeStatus, StateNode}
use acgc_project.StateTree.{
  Tree, add_node, increment_turn, find_best_parent, event_node, append_child, archive_all,
  set_status, swap_children, replace_with_compressed, classify_event,
}
use acgc_project.StateTree.Invariant.{IsWellFormed, Visits, visited-All}
use acgc_project.StateTree.Parent.{find_best_parent-present}

module _ {fl : Floats} where
  abbrev pub IsHeld : Map (StateNode fl) → Str → Type 0
  IsHeld m k = (n : StateNode fl) × (get k m ≡ some n)

  abbrev pub HasParent : Map (StateNode fl) → StateNode fl → Type 0
  HasParent m n = (is_empty n.parent_id ≡ true) ⊎ IsHeld m n.parent_id

  -- Each node has no parent or one in the map.
  abbrev pub HasParents : Map (StateNode fl) → Type 0
  HasParents m = All (λ e. HasParent m e.1) m

  -- What is held before is held after.
  abbrev Holds : Map (StateNode fl) → Map (StateNode fl) → Type 0
  Holds m m' = (k : Str) → IsHeld m k → IsHeld m' k

  update-Holds :
      (k : Str) (f : StateNode fl → StateNode fl) (m : Map (StateNode fl)) → Holds m (update k f m)
  update-Holds k f m j (n, e) = elim (Bool-cases (str_eq k j)) [
    | inl y ↦ (f n, rw (get-update k j f m, y, e) refl)
    | inr o ↦ (n, rw (get-update k j f m, o) e)
  ]

  put-Holds : (k : Str) (v : StateNode fl) (m : Map (StateNode fl)) → Holds m (put k v m)
  put-Holds k v m j (n, e) = elim (Bool-cases (str_eq k j)) [
    | inl y ↦ (v, rw (get-put k j v m, y) refl)
    | inr o ↦ (n, rw (get-put k j v m, o) e)
  ]

  HasParent-Holds :
      (m m' : Map (StateNode fl)) (n : StateNode fl) → Holds m m' → HasParent m n → HasParent m' n
  HasParent-Holds m m' n g (inl e) = inl e
  HasParent-Holds m m' n g (inr h) = inr (g n.parent_id h)

  pub update-HasParents :
      (k : Str) (f : StateNode fl → StateNode fl) (m : Map (StateNode fl))
      → ((v : StateNode fl) → (f v).parent_id ≡ v.parent_id)
      → HasParents m
      → HasParents (update k f m)
  update-HasParents k f m same h =
      All-update (λ e. HasParent (update k f m) e.1) k f m
        (λ v p. subst (λ i. (is_empty i ≡ true) ⊎ IsHeld (update k f m) i) (sym (same v)) p)
        (All-mono _ _ m (λ e p. HasParent-Holds m (update k f m) e.1 (update-Holds k f m) p) h)

  pub put-HasParents :
      (k : Str) (v : StateNode fl) (m : Map (StateNode fl))
      → HasParent m v
      → HasParents m
      → HasParents (put k v m)
  put-HasParents k v m p h =
      All-put (λ e. HasParent (put k v m) e.1) k v m
        (HasParent-Holds m (put k v m) v (put-Holds k v m) p)
        (All-mono _ _ m (λ e p. HasParent-Holds m (put k v m) e.1 (put-Holds k v m) p) h)

  archive_all-HasParents :
      (cs : List Str) (m : Map (StateNode fl)) → HasParents m → HasParents (archive_all cs m)
  unfolding archive_all set_status
  archive_all-HasParents [] m h = h
  archive_all-HasParents (c ∷ cs) m h =
      archive_all-HasParents cs _
        (update-HasParents c (set_status NodeStatus.archived) m (λ v. refl) h)

  archive_all-Holds : (cs : List Str) (m : Map (StateNode fl)) → Holds m (archive_all cs m)
  unfolding archive_all
  archive_all-Holds [] m k h = h
  archive_all-Holds (c ∷ cs) m k h =
      archive_all-Holds cs _ k (update-Holds c (set_status NodeStatus.archived) m k h)

  -- After a compaction under a node of the tree, of a branch that names it as its parent, each node
  -- has no parent or one in the tree.
  pub replace_with_compressed-HasParents :
      (parent : Str) (cs : List Str) (n : StateNode fl) (t : Tree fl)
      → n.parent_id ≡ parent
      → IsHeld t.nodes parent
      → HasParents t.nodes
      → HasParents (replace_with_compressed parent cs n t).nodes
  unfolding replace_with_compressed swap_children
  replace_with_compressed-HasParents parent cs n t same held h =
      update-HasParents parent (swap_children cs n.node_id) _ (λ v. refl)
        (put-HasParents n.node_id n _ (inr (rw same (archive_all-Holds cs t.nodes parent held)))
          (archive_all-HasParents cs t.nodes h))

  event_node-parent :
      (t : Tree fl) (parent : Str) (e : Event) → (event_node t parent e).parent_id ≡ parent
  unfolding event_node
  event_node-parent t parent e = ground arith

  -- `AddNode` hangs its node under a node of the tree.
  pub add_node-HasParents :
      (t : Tree fl) (visited : List (StateNode fl)) (event : Event)
      → IsWellFormed t
      → Visits visited t
      → HasParents t.nodes
      → HasParents (add_node visited event (increment_turn t)).0.nodes
  unfolding add_node increment_turn append_child find_best_parent
  add_node-HasParents t visited event w v h =
      let t' = increment_turn t in
      let parent = find_best_parent visited t' (classify_event event) in
      let node = event_node t' parent event in
      let held : IsHeld t.nodes parent =
        find_best_parent-present t visited (classify_event event) w (visited-All t w v) in
      update-HasParents parent (append_child node.node_id) _ (λ v. refl)
        (put-HasParents node.node_id node t.nodes
          (inr (rw (event_node-parent t' parent event) held)) h)
