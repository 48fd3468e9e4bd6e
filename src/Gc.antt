-- ===== src/Gc.antt =====
-- internal/gc/gc.go. The compressor is a parameter that may fail; `attempt` counts its calls, since
-- it takes the id of a branch from the clock. A `range` over the tree or over the map of the
-- parents comes in any order: `visited`, and `visit` for the map. Pointers to nodes are ids, so the
-- compaction sees what the sweep has done to the children.
pub mod Cases
pub mod Triggers
pub mod Simple
pub mod Compaction
pub mod Kept
pub mod Protect
pub mod WellFormed
use acgc_project.Common.{
  ℕ, zero, suc, ◌+◌, ◌-◌, Str, List, [], ◌∷◌, ◌++◌, map, Bool, true, false, not, ◌&&◌, ◌||◌, Option,
  none, some, Map, get, put, update, ltb, leb, ◌==◌, if◌then◌else◌, length, select, any, sum_by,
  is_empty, codes, join, decimal, ℤ, pos, sub_ℕ, ◌+ℤ◌,
}
use acgc_project.Domain.{
  Floats, NodeType, NodeStatus, NodeScores, StateNode, zero_scores, is_active, is_active_status,
}
use acgc_project.Facts.Merge.{merge_from_nodes, verified_facts_prefix}
use acgc_project.StateTree.{
  Tree, TreeStats, stats, get_active_nodes, get_node, update_node_status, replace_with_compressed,
}
use acgc_project.Scorer.{Scorer, score_all, is_resolved_status}

-- Its integers are settings that may be negative in the code; they are taken to be no less than 0.
pub record Policy (fl : Floats) : Type 0 where
  pub max_prompt_tokens : ℕ
  pub max_tree_depth : ℕ
  pub max_children_per_node : ℕ
  pub low_relevance_threshold : fl.F
  pub stale_after_turns : ℕ
  pub decision_sweep_floor : fl.F
  pub max_active_nodes : ℕ
  pub sweep_headroom_ratio : fl.F

pub data TriggerReason : Type 0 where
  token_pressure soft_headroom active_count tree_depth tree_width : TriggerReason
  low_relevance resolved_branch manual : TriggerReason

pub record CompressedBranch : Type 0 where
  pub branch_id : Str
  pub session_id : Str
  pub task_id : Str
  pub parent_node_id : Str
  pub original_node_ids : List Str
  pub summary : Str
  pub key_decisions : List Str
  pub exact_facts : List Str
  pub open_issues : List Str
  pub important_constraints : List Str
  pub raw_event_refs : List Str
  pub original_token_count : ℕ
  pub compressed_token_count : ℕ

pub record GcResult : Type 0 where
  pub triggered : Bool
  pub reason : TriggerReason
  pub nodes_swept : ℕ
  pub branches_compressed : ℕ
  pub tokens_freed : ℤ
  pub records : List CompressedBranch

abbrev pub is_decision_type : NodeType → Bool
is_decision_type NodeType.decision = true
is_decision_type _ = false

abbrev pub is_anchor_type : NodeType → Bool
is_anchor_type NodeType.goal = true
is_anchor_type NodeType.constraint = true
is_anchor_type _ = false

abbrev pub is_constraint_type : NodeType → Bool
is_constraint_type NodeType.constraint = true
is_constraint_type _ = false

pub record Marks : Type 0 where
  pub to_sweep : List Str
  pub parent_children : Map (List Str)

-- `parentChildren[p] = append(parentChildren[p], node)`
unfoldable pub append_to : Str → Str → Map (List Str) → Map (List Str)
append_to parent id m =
    put parent (elim (get parent m) [ none ↦ id ∷ [] | some ids ↦ ids ++ id ∷ [] ]) m

-- the state of a run: the tree, and what `result` has so far
pub record Run (fl : Floats) : Type 0 where
  pub tree : Tree fl
  pub result : GcResult

module _ {fl : Floats} where
  unfoldable pub should_defer_sweep_facts : StateNode fl → Bool
  should_defer_sweep_facts n = not (is_empty n.facts) || not (is_empty n.decisions)

  unfoldable pub total_relevance : fl.F → List (StateNode fl) → fl.F
  total_relevance sum [] = sum
  total_relevance sum (n ∷ nodes) = total_relevance (fl.fadd sum n.scores.retention_score) nodes

  -- the checks on the active nodes at the end of `ShouldRun`
  unfoldable pub relevance_trigger : Policy fl → List (StateNode fl) → Option TriggerReason
  unfolding total_relevance
  relevance_trigger p nodes =
      let average = fl.fdiv (total_relevance (fl.literal 0 0) nodes) (fl.of_int (length nodes)) in
      if is_empty nodes
      then none
      else if fl.lt average p.low_relevance_threshold
      then some TriggerReason.low_relevance
      else if any (λ n. is_resolved_status n.status) nodes
      then some TriggerReason.resolved_branch
      else none

  -- `ShouldRun` on the statistics and the active nodes of the tree
  unfoldable pub trigger :
      Policy fl → TreeStats → List (StateNode fl) → ℕ → ℕ → Option TriggerReason
  unfolding relevance_trigger
  trigger p s nodes estimated max_prompt =
      let budget = if max_prompt == 0 then p.max_prompt_tokens else max_prompt in
      let soft = fl.to_int (fl.fmul (fl.of_int budget) p.sweep_headroom_ratio) in
      if ltb 0 budget && ltb budget estimated
      then some TriggerReason.token_pressure
      else if fl.lt (fl.literal 0 0) p.sweep_headroom_ratio
          && fl.lt p.sweep_headroom_ratio (fl.literal 1 0)
          && ltb 0 budget
          && ltb soft estimated
      then some TriggerReason.soft_headroom
      else if ltb 0 p.max_active_nodes && ltb p.max_active_nodes (length nodes)
      then some TriggerReason.active_count
      else if ltb p.max_tree_depth s.max_depth
      then some TriggerReason.tree_depth
      else if ltb p.max_children_per_node s.max_width
      then some TriggerReason.tree_width
      else relevance_trigger p nodes

  -- `none`: the fuel of the depth ran out
  unfoldable pub should_run :
      Policy fl
      → ℕ
      → List (StateNode fl)
      → List (StateNode fl)
      → Tree fl
      → ℕ
      → ℕ
      → Option (Option TriggerReason)
  unfolding trigger
  should_run p fuel visited visited_active t estimated max_prompt = elim (stats fuel visited t) [
    | none ↦ none
    | some s ↦ some (trigger p s (get_active_nodes visited_active) estimated max_prompt)
  ]

  -- `sweepScore` of a node that is not deferred
  unfoldable pub sweep_score : Policy fl → StateNode fl → fl.F
  sweep_score p n =
      let score = n.scores.retention_score in
      if fl.lt (fl.literal 0 0) p.decision_sweep_floor
        && is_empty n.facts
        && is_empty n.decisions
        && is_decision_type n.node_type
      then fl.fmax score p.decision_sweep_floor
      else score

  unfoldable pub mark_node : Policy fl → Marks → StateNode fl → Marks
  unfolding append_to
  mark_node p m n = if should_defer_sweep_facts n then m else record {
    to_sweep =
        if fl.lt (sweep_score p n) p.low_relevance_threshold
        then m.to_sweep ++ n.node_id ∷ []
        else m.to_sweep;
    parent_children =
        if is_empty n.parent_id
        then m.parent_children
        else append_to n.parent_id n.node_id m.parent_children;
  }

  unfoldable pub mark_loop : Policy fl → Marks → List (StateNode fl) → Marks
  mark_loop p m [] = m
  mark_loop p m (n ∷ nodes) = mark_loop p (mark_node p m n) nodes

  -- `tree.nodes[id].Scores = …` for the nodes that were scored
  unfoldable pub write_scores : List (StateNode fl) → Map (StateNode fl) → Map (StateNode fl)
  write_scores [] m = m
  write_scores (n ∷ nodes) m =
      write_scores nodes (update n.node_id (λ old. record old { scores = n.scores }) m)

  unfoldable pub freed_tokens : Str → Tree fl → ℕ
  freed_tokens id t = elim (get_node id t) [ none ↦ 0 | some n ↦ n.token_count ]

  unfoldable pub sweep_loop : List Str → Run fl → Run fl
  unfolding freed_tokens
  sweep_loop [] r = r
  sweep_loop (id ∷ ids) r =
      let t = update_node_status id NodeStatus.archived r.tree in
      sweep_loop ids (record {
        tree = t;
        result = record (r.result) {
          nodes_swept = r.result.nodes_swept + 1;
          tokens_freed = r.result.tokens_freed +ℤ pos (freed_tokens id t);
        };
      })

  -- the nodes that a list of pointers shows
  unfoldable pub deref : List Str → Tree fl → List (StateNode fl)
  deref [] t = []
  deref (id ∷ ids) t = elim (get_node id t) [ none ↦ deref ids t | some n ↦ n ∷ deref ids t ]

  unfoldable pub all_resolved : List (StateNode fl) → Bool
  all_resolved nodes = not (any is_active nodes)

  unfoldable pub filter_compressible : List (StateNode fl) → List (StateNode fl)
  filter_compressible nodes = select (λ n. not (is_anchor_type n.node_type)) nodes

  unfoldable pub concat_texts : (StateNode fl → List Str) → List (StateNode fl) → List Str
  concat_texts f [] = []
  concat_texts f (n ∷ nodes) = f n ++ concat_texts f nodes

  unfoldable pub branch_record : Str → List (StateNode fl) → StateNode fl → CompressedBranch
  unfolding concat_texts
  branch_record parent nodes n = record {
    branch_id = n.node_id;
    session_id = n.session_id;
    task_id = n.task_id;
    parent_node_id = parent;
    original_node_ids = map (λ c. c.node_id) nodes;
    summary = n.summary;
    key_decisions = n.decisions;
    exact_facts = n.facts;
    open_issues = concat_texts (λ c. c.open_issues) nodes;
    important_constraints =
        map (λ c. c.summary) (select (λ c. is_constraint_type c.node_type) nodes);
    raw_event_refs = concat_texts (λ c. c.raw_event_refs) nodes;
    original_token_count = sum_by (λ c. c.token_count) nodes;
    compressed_token_count = n.token_count;
  }

  -- a compaction that the compressor has answered
  unfoldable pub compact_branch : Str → List (StateNode fl) → StateNode fl → Run fl → Run fl
  unfolding branch_record
  compact_branch parent nodes answer r =
      let n = record answer { session_id = r.tree.session_id; parent_id = parent } in
      record {
        tree = replace_with_compressed parent (map (λ c. c.node_id) nodes) n r.tree;
        result = record (r.result) {
          tokens_freed =
              r.result.tokens_freed +ℤ sub_ℕ (sum_by (λ c. c.token_count) nodes) n.token_count;
          branches_compressed = r.result.branches_compressed + 1;
          records = r.result.records ++ branch_record parent nodes n ∷ [];
        };
      }

-- `Compressor.Compress`, at its n-th call; `none` is an error.
abbrev pub Compress : Floats → Type 0
Compress fl = ℕ → List (StateNode fl) → Option (StateNode fl)

module _ {fl : Floats} (compress : Compress fl) where
  -- one round of the loop over the parents
  unfoldable pub compact_parent : Policy fl → ℕ → Str → List Str → Run fl → Run fl
  compact_parent p attempt parent ids r =
      let children = deref ids r.tree in
      let nodes = filter_compressible children in
      if ltb (length children) p.max_children_per_node && not (all_resolved children)
      then r
      else if ltb (length nodes) 3
      then r
      else elim (compress attempt nodes) [
        | none ↦ r
        | some answer ↦ compact_branch parent nodes answer r
      ]

  unfoldable pub compact_loop : Policy fl → ℕ → List (Str × List Str) → Run fl → Run fl
  compact_loop p attempt [] r = r
  compact_loop p attempt ((parent, ids) ∷ parents) r =
      compact_loop p (suc attempt) parents (compact_parent p attempt parent ids r)

  -- `Run`
  unfoldable pub run :
      Policy fl
      → Scorer fl
      → List (StateNode fl)
      → (Map (List Str) → List (Str × List Str))
      → Tree fl
      → TriggerReason
      → List fl.F32
      → Run fl
  run p s visited visit t reason query =
      let active = score_all fl s (get_active_nodes visited) t.turn_count query in
      let marks = mark_loop p (record { to_sweep = []; parent_children = [] }) active in
      let start : Run fl = record {
        tree = record t { nodes = write_scores active t.nodes };
        result = record {
          triggered = true;
          reason = reason;
          nodes_swept = 0;
          branches_compressed = 0;
          tokens_freed = pos 0;
          records = [];
        };
      } in
      compact_loop p 0 (visit marks.parent_children) (sweep_loop marks.to_sweep start)

  unfoldable pub force_run :
      Policy fl
      → Scorer fl
      → List (StateNode fl)
      → (Map (List Str) → List (Str × List Str))
      → Tree fl
      → List fl.F32
      → Run fl
  force_run p s visited visit t query = run p s visited visit t TriggerReason.manual query
