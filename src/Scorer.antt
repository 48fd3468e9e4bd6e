-- ===== src/Scorer.antt =====
-- internal/scorer/scorer.go, over the floats of `Domain`.
pub mod Range
use acgc_project.Common.{
  ℕ, suc, ◌+◌, ◌-◌, Str, List, [], ◌∷◌, Bool, true, false, not, ◌&&◌, ◌||◌, Option, none, some, Map,
  get, put, ltb, leb, ◌==◌, if◌then◌else◌, length, any, is_empty, map, str_eq, to_lower,
}
use acgc_project.Domain.{
  Floats, NodeType, NodeStatus, NodeScores, StateNode, is_active, is_active_status,
}

pub record Weights (fl : Floats) : Type 0 where
  pub w_recency : fl.F
  pub w_type_priority : fl.F
  pub w_dependency_boost : fl.F
  pub w_unresolved_boost : fl.F
  pub w_semantic : fl.F
  pub w_redundancy_pen : fl.F
  pub w_resolved_pen : fl.F
  pub w_stale_pen : fl.F
  pub w_size_pen : fl.F

pub record Scorer (fl : Floats) : Type 0 where
  pub weights : Weights fl
  pub stale_after_turns : ℕ
  pub max_tokens_per_node : ℕ

abbrev pub is_resolved_status : NodeStatus → Bool
is_resolved_status NodeStatus.resolved = true
is_resolved_status _ = false

module _ (fl : Floats) where
  unfoldable pub default_weights : Weights fl
  default_weights = record {
    w_recency = fl.literal 25 2;
    w_type_priority = fl.literal 20 2;
    w_dependency_boost = fl.literal 15 2;
    w_unresolved_boost = fl.literal 15 2;
    w_semantic = fl.literal 20 2;
    w_redundancy_pen = fl.literal 10 2;
    w_resolved_pen = fl.literal 20 2;
    w_stale_pen = fl.literal 15 2;
    w_size_pen = fl.literal 5 2;
  }

  unfoldable pub new_scorer : ℕ → ℕ → Scorer fl
  new_scorer stale tokens = record {
    weights = default_weights;
    stale_after_turns = stale;
    max_tokens_per_node = tokens;
  }

  unfoldable pub set_semantic_weight : fl.F → Scorer fl → Scorer fl
  set_semantic_weight w s = record s { weights = record (s.weights) { w_semantic = w } }

  unfoldable pub type_priority : NodeType → fl.F
  type_priority NodeType.goal = fl.literal 1 0
  type_priority NodeType.constraint = fl.literal 95 2
  type_priority NodeType.decision = fl.literal 80 2
  type_priority NodeType.issue = fl.literal 70 2
  type_priority NodeType.tool_result = fl.literal 50 2
  type_priority NodeType.attempt = fl.literal 40 2
  type_priority NodeType.summary = fl.literal 60 2
  type_priority NodeType.compressed_branch = fl.literal 60 2
  type_priority NodeType.background = fl.literal 20 2

  unfoldable pub clamp : fl.F → fl.F → fl.F → fl.F
  clamp v low high = if fl.lt v low then low else if fl.lt high v then high else v

  -- the other active nodes that depend on a node
  unfoldable pub dependents : StateNode fl → List (StateNode fl) → ℕ
  dependents node [] = 0
  dependents node (other ∷ nodes) =
      let more = dependents node nodes in
      if str_eq other.node_id node.node_id || not (is_active other)
      then more
      else if any (λ dep. str_eq dep node.node_id) other.dependencies
      then suc more
      else more

  unfoldable pub dependency_weight : StateNode fl → List (StateNode fl) → fl.F
  unfolding dependents
  dependency_weight node nodes =
      fl.fmin (fl.fmul (fl.of_int (dependents node nodes)) (fl.literal 3 1)) (fl.literal 1 0)

  unfoldable pub count_title : Str → Map ℕ → Map ℕ
  count_title key index = put key (elim (get key index) [ none ↦ 1 | some n ↦ n + 1 ]) index

  unfoldable pub title_loop : Map ℕ → List (StateNode fl) → Map ℕ
  unfolding count_title
  title_loop index [] = index
  title_loop index (n ∷ nodes) = title_loop (count_title (to_lower n.title) index) nodes

  unfoldable pub build_title_index : List (StateNode fl) → Map ℕ
  unfolding title_loop
  build_title_index nodes = title_loop [] nodes

  -- `float64(currentTurn - node.TurnNumber)`
  unfoldable pub turn_distance : ℕ → ℕ → fl.F
  turn_distance current turn =
      if leb turn current
      then fl.of_int (current - turn)
      else fl.fsub (fl.literal 0 0) (fl.of_int (turn - current))

  unfoldable pub sim_loop : fl.F → fl.F → fl.F → List fl.F32 → List fl.F32 → fl.F
  sim_loop dot na nb (a ∷ as') (b ∷ bs) =
      let x = fl.widen a in
      let y = fl.widen b in
      sim_loop (fl.fadd dot (fl.fmul x y)) (fl.fadd na (fl.fmul x x)) (fl.fadd nb (fl.fmul y y)) as'
        bs
  sim_loop dot na nb _ _ =
      if fl.feq na (fl.literal 0 0) || fl.feq nb (fl.literal 0 0)
      then fl.literal 0 0
      else fl.fdiv dot (fl.fmul (fl.sqrt na) (fl.sqrt nb))

  unfoldable pub cosine_sim : List fl.F32 → List fl.F32 → fl.F
  unfolding sim_loop
  cosine_sim a b =
      if not (length a == length b) || is_empty a
      then fl.literal 0 0
      else sim_loop (fl.literal 0 0) (fl.literal 0 0) (fl.literal 0 0) a b

  unfoldable pub redundancy : Str → Map ℕ → fl.F
  redundancy title index = elim (get (to_lower title) index) [
    | none ↦ fl.literal 0 0
    | some n ↦
        if ltb 1 n
        then fl.fmin (fl.fmul (fl.of_int (n - 1)) (fl.literal 3 1)) (fl.literal 1 0)
        else fl.literal 0 0
  ]

  unfoldable pub stale_penalty : fl.F → ℕ → fl.F
  stale_penalty dist stale =
      if fl.lt (fl.of_int stale) dist
      then fl.fmin (fl.fdiv (fl.fsub dist (fl.of_int stale)) (fl.of_int stale)) (fl.literal 1 0)
      else fl.literal 0 0

  unfoldable pub size_penalty : ℕ → ℕ → fl.F
  size_penalty tokens limit =
      if ltb 0 limit && ltb limit tokens
      then fl.fmin (fl.fsub (fl.fdiv (fl.of_int tokens) (fl.of_int limit)) (fl.literal 1 0))
          (fl.literal 1 0)
      else fl.literal 0 0

  -- A nil query is the empty vector: both leave the semantic signal at 0.
  unfoldable pub score_node :
      Scorer fl → StateNode fl → ℕ → List (StateNode fl) → Map ℕ → List fl.F32 → NodeScores fl
  unfolding type_priority dependency_weight redundancy stale_penalty size_penalty cosine_sim
  score_node s node current nodes titles query =
      let w = s.weights in
      let zero_f = fl.literal 0 0 in
      let one_f = fl.literal 1 0 in
      let dist = turn_distance current node.turn_number in
      let recent = fl.exp (fl.fmul (fl.fsub zero_f (fl.literal 1 1)) dist) in
      let typed = type_priority node.node_type in
      let needed = dependency_weight node nodes in
      let unresolved : fl.F =
        if not (is_empty node.open_issues) && is_active node then one_f else zero_f in
      let redundant = redundancy node.title titles in
      let resolved : fl.F = if is_resolved_status node.status then one_f else zero_f in
      let stale = stale_penalty dist s.stale_after_turns in
      let size = size_penalty node.token_count s.max_tokens_per_node in
      let near : fl.F =
        if length node.embedding == length query && not (is_empty query)
        then cosine_sim query node.embedding
        else zero_f in
      let gains =
        fl.fadd
          (fl.fadd
            (fl.fadd (fl.fadd (fl.fmul w.w_recency recent) (fl.fmul w.w_type_priority typed))
              (fl.fmul w.w_dependency_boost needed))
            (fl.fmul w.w_unresolved_boost unresolved))
          (fl.fmul w.w_semantic near) in
      let losses =
        fl.fsub
          (fl.fsub
            (fl.fsub (fl.fsub gains (fl.fmul w.w_redundancy_pen redundant))
              (fl.fmul w.w_resolved_pen resolved))
            (fl.fmul w.w_stale_pen stale))
          (fl.fmul w.w_size_pen size) in
      record {
        recency = recent;
        dependency_weight = needed;
        redundancy = redundant;
        type_priority = typed;
        unresolved_boost = unresolved;
        resolved_penalty = resolved;
        stale_penalty = stale;
        size_penalty = size;
        semantic = near;
        retention_score = clamp losses zero_f one_f;
      }

  unfoldable pub rescored :
      Scorer fl → List (StateNode fl) → ℕ → List fl.F32 → StateNode fl → StateNode fl
  rescored s nodes current query n = record n {
    scores = score_node s n current nodes (build_title_index nodes) query;
  }

  -- `ScoreAll`: no score reads another, so the order of the writes does not count
  unfoldable pub score_all : Scorer fl → List (StateNode fl) → ℕ → List fl.F32 → List (StateNode fl)
  unfolding rescored
  score_all s nodes current query = map (rescored s nodes current query) nodes
