-- ===== src/StateTree.antt =====
-- internal/statetree/tree.go. A pointer to a node is the node's id: the tree reads and writes it
-- through its map, so the nodes that a caller holds are the ones of the tree. A `range` over the Go
-- map visits its values in any order: an operation that ranges takes `visited`, that order. The
-- mutex is left out, since one worker writes; texts are bytes.
pub mod Invariant
pub mod Parent
pub mod Writes
pub mod Growth
pub mod Depth
pub mod Restore
pub mod Entries
pub mod Parents
pub mod Kept
use acgc_project.Common.{
  ℕ, zero, suc, ◌+◌, Str, List, [], ◌∷◌, ◌++◌, Bool, true, false, not, ◌||◌, Option, none, some,
  Map, get, put, update, ltb, leb, if◌then◌else◌, length, take, select, any, is_empty, str_eq,
  codes, to_lower, contains, decimal,
}
use acgc_project.Domain.{
  Floats, Event, EventType, NodeType, NodeStatus, StateNode, zero_scores, event_text, is_active,
}
use acgc_project.Facts.Extract.{extract_from_event}

pub record Tree (fl : Floats) : Type 0 where
  pub session_id : Str
  pub task_id : Str
  pub root_id : Str
  pub nodes : Map (StateNode fl)
  pub turn_count : ℕ

-- `fmt.Sprintf("root_%s", sessionID)` and `fmt.Sprintf("node_%s_%d", sessionID, turn)`
unfoldable pub root_key : Str → Str
root_key sid = codes "root_" ++ sid

unfoldable pub node_key : Str → ℕ → Str
node_key sid turn = codes "node_" ++ (sid ++ (codes "_" ++ decimal turn))

unfoldable pub truncate : Str → ℕ → Str
truncate s max_len = if leb (length s) max_len then s else take max_len s ++ codes "..."

unfoldable pub contains_any : Str → List Str → Bool
contains_any s subs = any (contains s) subs

abbrev pub constraint_words : List Str
constraint_words =
    codes "must" ∷ codes "always" ∷ codes "never" ∷ codes "require" ∷ codes "constraint" ∷ []

unfoldable pub classify_event : Event → NodeType
unfolding contains_any
classify_event event = elim event.event_type [
  | EventType.user_prompt ↦
      if contains_any (to_lower event.payload) constraint_words
      then NodeType.constraint
      else NodeType.goal
  | EventType.tool_call ↦ NodeType.attempt
  | EventType.tool_result ↦ NodeType.tool_result
  | EventType.llm_response ↦ NodeType.decision
  | EventType.error ↦ NodeType.issue
  | EventType.retry ↦ NodeType.issue
  | _ ↦ NodeType.background
]

unfoldable pub build_title : Event → Str
unfolding truncate event_text
build_title event =
    codes "[" ++ (event_text event.event_type ++ (codes "] " ++ truncate event.payload 80))

abbrev pub attaches_to_root : NodeType → Bool
attaches_to_root NodeType.goal = true
attaches_to_root NodeType.constraint = true
attaches_to_root _ = false

unfoldable pub root_node : (fl : Floats) → Str → Str → StateNode fl
root_node fl sid task = record {
  node_id = root_key sid;
  parent_id = [];
  session_id = sid;
  task_id = task;
  node_type = NodeType.goal;
  status = NodeStatus.active;
  title = codes "Session Root";
  summary = [];
  facts = [];
  decisions = [];
  open_issues = [];
  dependencies = [];
  raw_event_refs = [];
  child_ids = [];
  token_count = 0;
  turn_number = 0;
  scores = zero_scores fl;
  embedding = [];
  embed_model = [];
}

unfoldable pub new_tree : (fl : Floats) → Str → Str → Tree fl
unfolding root_node
new_tree fl sid task = record {
  session_id = sid;
  task_id = task;
  root_id = root_key sid;
  nodes = (root_key sid, root_node fl sid task) ∷ [];
  turn_count = 0;
}

-- `childSet[id]`
unfoldable pub is_child : List Str → Str → Bool
is_child cs id = any (λ c. str_eq c id) cs

-- the loop of `depthFrom` over the children, with the recursive call as `below`
unfoldable pub deepest : (Str → Option ℕ) → ℕ → List Str → Option ℕ
deepest below best [] = some best
deepest below best (c ∷ cs) = elim (below c) [
  | none ↦ none
  | some d ↦ deepest below (if ltb best d then d else best) cs
]

abbrev pub is_goal : NodeType → Bool
is_goal NodeType.goal = true
is_goal _ = false

module _ {fl : Floats} where
  -- `n.ParentID == "" || n.NodeType == domain.NodeGoal`
  abbrev pub is_root_like : StateNode fl → Bool
  is_root_like n = is_empty n.parent_id || is_goal n.node_type

  -- the loop of `RestoreFromSnapshot`: `turn_count` is the largest turn so far
  unfoldable pub restore_node : Tree fl → StateNode fl → Tree fl
  restore_node t n = record t {
    nodes = put n.node_id n t.nodes;
    root_id = if is_empty n.parent_id || is_goal n.node_type then n.node_id else t.root_id;
    turn_count = if ltb t.turn_count n.turn_number then n.turn_number else t.turn_count;
  }

  unfoldable pub restore_loop : Tree fl → List (StateNode fl) → Tree fl
  unfolding restore_node
  restore_loop t [] = t
  restore_loop t (n ∷ snapshot) = restore_loop (restore_node t n) snapshot

  unfoldable pub restore_from_snapshot : Str → Str → List (StateNode fl) → Tree fl
  unfolding restore_loop
  restore_from_snapshot sid task snapshot =
      restore_loop
        (record { session_id = sid; task_id = task; root_id = []; nodes = []; turn_count = 0 })
        snapshot

  unfoldable pub increment_turn : Tree fl → Tree fl
  increment_turn t = record t { turn_count = t.turn_count + 1 }

  -- `best == nil || n.TurnNumber > best.TurnNumber`
  unfoldable pub later : Option (StateNode fl) → StateNode fl → StateNode fl
  later none n = n
  later (some b) n = if ltb b.turn_number n.turn_number then n else b

  -- the loop of `findBestParent`
  unfoldable pub latest_active : Option (StateNode fl) → List (StateNode fl) → Option (StateNode fl)
  unfolding later
  latest_active best [] = best
  latest_active best (n ∷ visited) =
      latest_active (if not (is_active n) then best else some (later best n)) visited

  unfoldable pub find_best_parent : List (StateNode fl) → Tree fl → NodeType → Str
  unfolding latest_active
  find_best_parent visited t type =
      if attaches_to_root type
      then t.root_id
      else elim (latest_active none visited) [ none ↦ t.root_id | some n ↦ n.node_id ]

  -- the node that `AddNode` builds
  unfoldable pub event_node : Tree fl → Str → Event → StateNode fl
  unfolding build_title truncate extract_from_event
  event_node t parent event =
      extract_from_event
        (record {
          node_id = node_key t.session_id t.turn_count;
          parent_id = parent;
          session_id = t.session_id;
          task_id = t.task_id;
          node_type = classify_event event;
          status = NodeStatus.active;
          title = build_title event;
          summary = truncate event.payload 500;
          facts = [];
          decisions = [];
          open_issues = [];
          dependencies = [];
          raw_event_refs = event.event_id ∷ [];
          child_ids = [];
          token_count = event.token_count;
          turn_number = t.turn_count;
          scores = zero_scores fl;
          embedding = [];
          embed_model = [];
        })
        event

  -- `parent.ChildIDs = append(parent.ChildIDs, id)`
  unfoldable pub append_child : Str → StateNode fl → StateNode fl
  append_child id n = record n { child_ids = n.child_ids ++ id ∷ [] }

  unfoldable pub add_node : List (StateNode fl) → Event → Tree fl → Tree fl × Str
  add_node visited event t =
      let parent = find_best_parent visited t (classify_event event) in
      let node = event_node t parent event in
      (
        record t {
          nodes = update parent (append_child node.node_id) (put node.node_id node t.nodes);
        },
        node.node_id,
      )

  unfoldable pub get_active_nodes : List (StateNode fl) → List (StateNode fl)
  get_active_nodes visited = select is_active visited

  unfoldable pub get_node : Str → Tree fl → Option (StateNode fl)
  get_node id t = get id t.nodes

  unfoldable pub set_status : NodeStatus → StateNode fl → StateNode fl
  set_status status n = record n { status = status }

  unfoldable pub update_node_status : Str → NodeStatus → Tree fl → Tree fl
  unfolding set_status
  update_node_status id status t = record t { nodes = update id (set_status status) t.nodes }

  unfoldable pub archive_all : List Str → Map (StateNode fl) → Map (StateNode fl)
  unfolding set_status
  archive_all [] m = m
  archive_all (c ∷ cs) m = archive_all cs (update c (set_status NodeStatus.archived) m)

  unfoldable pub swap_children : List Str → Str → StateNode fl → StateNode fl
  unfolding is_child
  swap_children cs id n = record n {
    child_ids = select (λ c. not (is_child cs c)) n.child_ids ++ id ∷ [];
  }

  unfoldable pub replace_with_compressed : Str → List Str → StateNode fl → Tree fl → Tree fl
  unfolding archive_all swap_children
  replace_with_compressed parent cs compressed t = record t {
    nodes =
        update parent (swap_children cs compressed.node_id)
          (put compressed.node_id compressed (archive_all cs t.nodes));
  }

  -- `none` means that the fuel ran out, where the recursion of the code would go on.
  unfoldable pub depth_from : ℕ → Map (StateNode fl) → Str → ℕ → Option ℕ
  unfolding deepest
  depth_from zero m id current = none
  depth_from (suc fuel) m id current = elim (get id m) [
    | none ↦ some current
    | some n ↦ deepest (λ c. depth_from fuel m c (suc current)) current n.child_ids
  ]

pub record TreeStats : Type 0 where
  pub total : ℕ
  pub active : ℕ
  pub compressed : ℕ
  pub archived : ℕ
  pub max_depth : ℕ
  pub max_width : ℕ

unfoldable pub count_status : NodeStatus → TreeStats → TreeStats
count_status NodeStatus.active s = record s { active = s.active + 1 }
count_status NodeStatus.compressed s = record s { compressed = s.compressed + 1 }
count_status NodeStatus.archived s = record s { archived = s.archived + 1 }
count_status _ s = s

abbrev pub zero_stats : TreeStats
zero_stats = record {
  total = 0;
  active = 0;
  compressed = 0;
  archived = 0;
  max_depth = 0;
  max_width = 0;
}

module _ {fl : Floats} where
  -- one round of the loop of `Stats`
  unfoldable pub count_node : TreeStats → StateNode fl → TreeStats
  unfolding count_status
  count_node s n =
      let w = length n.child_ids in
      let counted = count_status n.status s in
      record counted {
        total = s.total + 1;
        max_width = if ltb s.max_width w then w else s.max_width;
      }

  unfoldable pub count_nodes : TreeStats → List (StateNode fl) → TreeStats
  unfolding count_node
  count_nodes s [] = s
  count_nodes s (n ∷ visited) = count_nodes (count_node s n) visited

  unfoldable pub stats : ℕ → List (StateNode fl) → Tree fl → Option TreeStats
  unfolding count_nodes depth_from
  stats fuel visited t = elim (depth_from fuel t.nodes t.root_id 0) [
    | none ↦ none
    | some d ↦ some (record (count_nodes zero_stats visited) { max_depth = d })
  ]
