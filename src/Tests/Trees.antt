-- ===== src/Tests/Trees.antt =====
-- The theorems on internal/statetree at a session of two events.
use mathlib.Core.List.{Permᴰ}
use mathlib.Core.List.{Memᴰ}
use acgc_project.Common.{
  pos, false, ℕ, suc, ◌+◌, ◌≤◌, ◌≡◌, ◌≢◌, ap, refl, Str, List, [], ◌∷◌, true, false, none, some,
  map_option, get, put, update, if◌then◌else◌, length, All, codes, trim_space, str_eq, contains,
  to_lower, decimal, ◌⊎◌, arith, values,
}
use acgc_project.Domain.{Event, EventType, NodeType, NodeStatus, StateNode, is_active}
use acgc_project.StateTree.{
  Tree, root_node, new_tree, add_node, increment_turn, event_node, find_best_parent, classify_event,
  append_child, node_key, restore_from_snapshot, update_node_status, replace_with_compressed,
  swap_children, is_child, set_status, depth_from, root_key,
}
use acgc_project.StateTree.Invariant.{IsWellFormed, Visits}
use acgc_project.StateTree.Writes.{new_tree-IsWellFormed, update_node_status-IsWellFormed}
use acgc_project.StateTree.Growth.{
  add_node-IsWellFormed, replace_with_compressed-IsWellFormed, IsFreshBranch,
}
use acgc_project.StateTree.Entries.{get-add_node, get-replace_with_compressed}
use acgc_project.StateTree.Restore.{restore-visited, root_id-restore}
use acgc_project.StateTree.Depth.{Chain, depth_from_total, depth_from_longest}
use acgc_project.StateTree.Parent.{find_best_parent_latest}
use acgc_project.VectorIndex.{Hit}
use acgc_project.Session.SemanticMerge.{has_id, nodes_for_semantic_compile}
use acgc_project.Session.Joined.{HasDistinctIds, ids, IsArchivedIn}
use acgc_project.Session.Merged.{is_retrievable, nodes_for_semantic_compile_complete}
use acgc_project.Gc.{Run, TriggerReason, compact_branch}
use acgc_project.Gc.Simple.{branch_key, simple_compress}
use acgc_project.Gc.Compaction.{compact_branch-IsWellFormed}
use acgc_project.Tests.{hundredths}

abbrev ask : EventType → Str → Event
ask type text = record {
  event_id = codes "e1";
  session_id = codes "s";
  task_id = codes "t";
  event_type = type;
  sequence = 1;
  payload = text;
  token_count = 7;
  metadata = [];
}

abbrev event_1 : Event
event_1 = ask EventType.user_prompt (codes "Ship the parser.")

abbrev event_2 : Event
event_2 = ask EventType.llm_response (codes "We chose ADR-12 for it.")

abbrev tree_0 : Tree hundredths
tree_0 = new_tree hundredths (codes "s") (codes "t")

-- the tree after a turn, visited in the order of the insertions
abbrev after : Event → Tree hundredths → Tree hundredths
after event t = (add_node (values t.nodes) event (increment_turn t)).0

abbrev tree_1 : Tree hundredths
tree_1 = after event_1 tree_0

perm_refl : {A : Type 0} (xs : List A) → Permᴰ xs xs
perm_refl [] = Permᴰ.nil
perm_refl (x ∷ xs) = Permᴰ.cons refl (perm_refl xs)

tree_0-IsWellFormed : IsWellFormed tree_0
tree_0-IsWellFormed = new_tree-IsWellFormed (codes "s") (codes "t")

visits : (t : Tree hundredths) → Visits (values t.nodes) t
visits t = perm_refl (values t.nodes)

tree_1-IsWellFormed : IsWellFormed tree_1
tree_1-IsWellFormed =
    add_node-IsWellFormed tree_0 (values tree_0.nodes) event_1 tree_0-IsWellFormed (visits tree_0)

add_node-IsWellFormed_example : IsWellFormed (after event_2 tree_1)
add_node-IsWellFormed_example =
    add_node-IsWellFormed tree_1 (values tree_1.nodes) event_2 tree_1-IsWellFormed (visits tree_1)

abbrev root_id : Str
root_id = codes "root_s"

abbrev first_id : Str
first_id = codes "node_s_1"

get-add_node_example :
    let t' = increment_turn tree_1 in
    let parent = find_best_parent (values tree_1.nodes) t' (classify_event event_2) in
    let node = event_node t' parent event_2 in
    let (u, id) = add_node (values tree_1.nodes) event_2 t' in
    (id ≡ node_key tree_1.session_id (tree_1.turn_count + 1))
    × (get id tree_1.nodes ≡ none)
    × (get first_id u.nodes ≡ (
        if str_eq id first_id
        then some node
        else if str_eq parent first_id
        then map_option (append_child id) (get first_id tree_1.nodes)
        else get first_id tree_1.nodes))
    × (length u.nodes ≡ length tree_1.nodes + 1)
get-add_node_example =
    get-add_node tree_1 (values tree_1.nodes) event_2 first_id tree_1-IsWellFormed (visits tree_1)

abbrev branch : StateNode hundredths
branch = record (root_node hundredths (codes "s") (codes "t")) {
  node_id = codes "compressed_1";
  parent_id = root_id;
  node_type = NodeType.compressed_branch;
  token_count = 2;
}

absent : get branch.node_id tree_1.nodes ≡ none
unfolding get put update new_tree add_node increment_turn str_eq root_key event_node trim_space
    node_key find_best_parent classify_event contains to_lower
absent = refl

stored : (p : StateNode hundredths) × (get root_id tree_1.nodes ≡ some p)
unfolding get put update new_tree add_node increment_turn str_eq root_key event_node trim_space
    node_key find_best_parent classify_event contains to_lower
stored = (_, refl)

first_byte : Str → ℕ
first_byte [] = 0
first_byte (c ∷ s) = c

branch-no_turn_key : (m : ℕ) → branch.node_id ≢ node_key tree_1.session_id m
unfolding node_key first_byte
branch-no_turn_key m e = omega (arith, ap first_byte e)

branch-IsFreshBranch : IsFreshBranch tree_1 branch
unfolding root_node
branch-IsFreshBranch = record {
  unused = absent;
  leaf = refl;
  early = omega arith;
  no_turn_key = branch-no_turn_key;
}

replace_with_compressed-IsWellFormed_example :
    IsWellFormed (replace_with_compressed root_id (first_id ∷ []) branch tree_1)
replace_with_compressed-IsWellFormed_example =
    replace_with_compressed-IsWellFormed tree_1 root_id (first_id ∷ []) branch stored.0
      tree_1-IsWellFormed branch-IsFreshBranch stored.1

get-replace_with_compressed_example :
    let u = replace_with_compressed root_id (first_id ∷ []) branch tree_1 in
    let before =
      if is_child (first_id ∷ []) first_id
      then map_option (set_status NodeStatus.archived) (get first_id tree_1.nodes)
      else get first_id tree_1.nodes in
    (get first_id u.nodes ≡ (
      if str_eq branch.node_id first_id
      then some branch
      else if str_eq root_id first_id
      then map_option (swap_children (first_id ∷ []) branch.node_id) before
      else before))
    × (length u.nodes ≡ length tree_1.nodes + 1)
get-replace_with_compressed_example =
    get-replace_with_compressed tree_1 root_id (first_id ∷ []) branch stored.0 first_id absent
      stored.1

restore-visited_example :
    IsWellFormed (restore_from_snapshot tree_1.session_id (codes "t") (values tree_1.nodes))
    × ((j : Str)
        → get j (restore_from_snapshot tree_1.session_id (codes "t") (values tree_1.nodes)).nodes
          ≡ get j tree_1.nodes)
restore-visited_example =
    restore-visited tree_1 (codes "t") (values tree_1.nodes) tree_1-IsWellFormed (visits tree_1)

abbrev goal_node : StateNode hundredths
goal_node = record (root_node hundredths (codes "s") (codes "t")) {
  node_id = first_id;
  parent_id = root_id;
}

root_id-restore_example :
    (restore_from_snapshot
      (codes "s")
      (codes "t")
      (root_node hundredths (codes "s") (codes "t") ∷ goal_node ∷ [])).root_id
    ≡ first_id
unfolding root_node
root_id-restore_example =
    root_id-restore (codes "s") (codes "t") (root_node hundredths (codes "s") (codes "t") ∷ []) []
      goal_node refl tt

depth_from_total_example :
    (d : ℕ) × (depth_from (suc tree_1-IsWellFormed.acyclic.bound) tree_1.nodes root_id 0 ≡ some d)
    × (0 ≤ d)
    × (d + tree_1-IsWellFormed.acyclic.rank root_id ≤ 0 + tree_1-IsWellFormed.acyclic.bound)
depth_from_total_example =
    depth_from_total tree_1.nodes tree_1-IsWellFormed.acyclic
      (suc tree_1-IsWellFormed.acyclic.bound) root_id 0 (omega arith)

depth_1 : depth_from 3 tree_1.nodes root_id 0 ≡ some 1
unfolding get put update new_tree add_node increment_turn str_eq root_key event_node trim_space
    node_key find_best_parent classify_event contains to_lower depth_from append_child root_node
    decimal
depth_1 = refl

depth_from_longest_example : (0 ≤ 1) × ((b : Str) × Chain tree_1.nodes root_id 1 b)
depth_from_longest_example =
    depth_from_longest 3 tree_1.nodes root_id 1 0 root_id depth_1 Chain.here

find_best_parent_latest_example :
    ((n : StateNode hundredths) × (get
          (find_best_parent (values tree_1.nodes) tree_1 NodeType.decision)
          tree_1.nodes
        ≡ some n)
      × (is_active n ≡ true)
      × All (λ m. is_active m ≡ true → m.turn_number ≤ n.turn_number) (values tree_1.nodes))
    ⊎ (All (λ m. is_active m ≡ false) (values tree_1.nodes)
        × (find_best_parent (values tree_1.nodes) tree_1 NodeType.decision ≡ tree_1.root_id))
find_best_parent_latest_example =
    find_best_parent_latest tree_1 (values tree_1.nodes) NodeType.decision tree_1-IsWellFormed
      (visits tree_1) refl

abbrev archived_tree : Tree hundredths
archived_tree = update_node_status first_id NodeStatus.archived tree_1

abbrev hits : List (Hit hundredths)
hits = record { node_id = first_id; distance = 10; score = 90 } ∷ []

archived_tree-IsWellFormed : IsWellFormed archived_tree
archived_tree-IsWellFormed =
    update_node_status-IsWellFormed first_id NodeStatus.archived tree_1 tree_1-IsWellFormed

abbrev session_root : StateNode hundredths
session_root = root_node hundredths (codes "s") (codes "t")

nodes_for_semantic_compile_complete_example :
    let out = nodes_for_semantic_compile archived_tree (session_root ∷ []) hits in
    HasDistinctIds out
    × All (λ n. Memᴰ n (session_root ∷ []) ⊎ IsArchivedIn archived_tree n) out
    × All (λ n. has_id (ids out) n.node_id ≡ true) (session_root ∷ [])
    × All
        (λ h.
          (is_retrievable archived_tree h.node_id ≡ false) ⊎ (has_id (ids out) h.node_id ≡ true))
        hits
nodes_for_semantic_compile_complete_example =
    nodes_for_semantic_compile_complete archived_tree (session_root ∷ []) hits
      archived_tree-IsWellFormed

abbrev run_1 : Run hundredths
run_1 = record {
  tree = tree_1;
  result = record {
    triggered = true;
    reason = TriggerReason.manual;
    nodes_swept = 0;
    branches_compressed = 0;
    tokens_freed = pos 0;
    records = [];
  };
}

unused_key : get (branch_key 7) tree_1.nodes ≡ none
unfolding get put update new_tree add_node increment_turn str_eq root_key event_node trim_space
    node_key find_best_parent classify_event contains to_lower branch_key decimal
unused_key = refl

compact_branch-IsWellFormed_example :
    IsWellFormed
      (compact_branch root_id
        (goal_node ∷ [])
        (simple_compress length 7 (goal_node ∷ []))
        run_1).tree
compact_branch-IsWellFormed_example =
    compact_branch-IsWellFormed length 7 root_id (goal_node ∷ []) stored.0 run_1 tree_1-IsWellFormed
      stored.1 unused_key
