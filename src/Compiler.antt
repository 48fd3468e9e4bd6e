-- ===== src/Compiler.antt =====
-- internal/compiler/compiler.go and cache_render.go. A budget that is not positive is 0: the code
-- only asks whether what remains is positive. `sort.Slice` is a parameter, since it may leave equal
-- elements in any order; `sort.SliceStable` is insertion, the one stable order. The id and the time
-- of a prompt, which come of the clock, are left out.
pub mod Order
pub mod Budget
pub mod Plan
use acgc_project.Common.{
  ℕ, zero, suc, ◌+◌, ◌-◌, ◌*◌, ◌/◌, Str, List, [], ◌∷◌, ◌++◌, map, Bool, true, false, not, ◌&&◌,
  ◌||◌, Option, none, some, Map, get, put, ltb, leb, ◌==◌, if◌then◌else◌, length, select, sum_by,
  is_empty, codes, join,
}
use acgc_project.Domain.{Floats, NodeType, StateNode}
use acgc_project.VectorIndex.{Hit}

pub record Compiler : Type 0 where
  pub token_budget : ℕ
  -- `nil` is `none`
  pub token_counter : Option (Str → ℕ)
  pub cache_stable_render : Bool

unfoldable pub count : Compiler → Str → ℕ
count c s = elim c.token_counter [ none ↦ length s / 4 | some f ↦ f s ]

pub record CompiledPrompt : Type 0 where
  pub session_id : Str
  pub task_id : Str
  pub current_user_message : Str
  pub system_prompt : Str
  pub active_goal : Str
  pub active_constraints : List Str
  pub relevant_decisions : List Str
  pub relevant_tool_outputs : List Str
  pub compressed_context : List Str
  pub open_issues : List Str
  pub excluded_node_refs : List Str
  pub final_prompt : Str
  pub original_token_count : ℕ
  pub compiled_token_count : ℕ
  pub cache_stable_render : Bool

-- The order of Go strings: byte by byte.
unfoldable pub str_lt : Str → Str → Bool
str_lt [] [] = false
str_lt [] (c ∷ t) = true
str_lt (c ∷ s) [] = false
str_lt (c ∷ s) (d ∷ t) = ltb c d || (c == d && str_lt s t)

-- The buckets of `compile`, in the order of their priority.
pub data Bucket : Type 0 where
  goals constraints decisions prior tool_outputs issues rest : Bucket

unfoldable pub bucket_of : NodeType → Bucket
bucket_of NodeType.goal = Bucket.goals
bucket_of NodeType.constraint = Bucket.constraints
bucket_of NodeType.decision = Bucket.decisions
bucket_of NodeType.tool_result = Bucket.tool_outputs
bucket_of NodeType.compressed_branch = Bucket.prior
bucket_of NodeType.summary = Bucket.prior
bucket_of NodeType.issue = Bucket.issues
bucket_of _ = Bucket.rest

abbrev pub priority : Bucket → ℕ
priority Bucket.goals = 0
priority Bucket.constraints = 1
priority Bucket.decisions = 2
priority Bucket.prior = 3
priority Bucket.tool_outputs = 4
priority Bucket.issues = 5
priority Bucket.rest = 6

abbrev pub priority_buckets : List Bucket
priority_buckets =
    Bucket.goals ∷ Bucket.constraints ∷ Bucket.decisions ∷ Bucket.prior ∷ Bucket.tool_outputs
    ∷ Bucket.issues ∷ Bucket.rest ∷ []

unfoldable pub bucket_label : Bucket → Str
bucket_label Bucket.goals = codes "Active Goals"
bucket_label Bucket.constraints = codes "Constraints"
bucket_label Bucket.decisions = codes "Key Decisions"
bucket_label Bucket.prior = codes "Prior Context"
bucket_label Bucket.tool_outputs = codes "Tool Outputs"
bucket_label Bucket.issues = codes "Open Issues"
bucket_label Bucket.rest = codes "Additional Context"

abbrev pub emits_type : NodeType → Bool
emits_type NodeType.compressed_branch = true
emits_type NodeType.summary = true
emits_type _ = false

unfoldable pub text_line : Str → Str → Str
text_line head body = head ++ (body ++ codes "\n")

pub record Selection (fl : Floats) : Type 0 where
  pub selected : List (StateNode fl)
  pub excluded : List (StateNode fl)
  pub tokens_used : ℕ

module _ {fl : Floats} where
  abbrev pub emits_facts_line : StateNode fl → Bool
  emits_facts_line n = emits_type n.node_type

  -- what `formatSection` writes for a node
  unfoldable pub node_lines : StateNode fl → Str
  unfolding text_line
  node_lines n =
      let summary =
        if not (is_empty n.summary)
        then text_line (codes "- ") n.summary
        else if not (is_empty n.title)
        then text_line (codes "- ") n.title
        else [] in
      let facts =
        if is_empty n.facts
        then []
        else text_line (codes "  facts: ") (join (codes "; ") n.facts) in
      let decisions =
        if is_empty n.decisions
        then []
        else text_line (codes "  decisions: ") (join (codes "; ") n.decisions) in
      if emits_facts_line n then summary ++ (facts ++ decisions) else summary

  unfoldable pub all_lines : List (StateNode fl) → Str
  unfolding node_lines
  all_lines [] = []
  all_lines (n ∷ nodes) = node_lines n ++ all_lines nodes

  unfoldable pub format_section : Str → List (StateNode fl) → Str
  unfolding all_lines
  format_section label nodes = codes "## " ++ (label ++ (codes "\n" ++ all_lines nodes))

  -- the comparison of `StabilizeRenderOrder`: by turn, then by id
  unfoldable pub renders_before : StateNode fl → StateNode fl → Bool
  renders_before a b =
      if not (a.turn_number == b.turn_number)
      then ltb a.turn_number b.turn_number
      else str_lt a.node_id b.node_id

  -- `sort.SliceStable`: an element goes in front of the equal ones that stood behind it
  unfoldable pub insert_stable :
      (StateNode fl → StateNode fl → Bool)
      → StateNode fl
      → List (StateNode fl)
      → List (StateNode fl)
  insert_stable less x [] = x ∷ []
  insert_stable less x (y ∷ ys) = if less y x then y ∷ insert_stable less x ys else x ∷ y ∷ ys

  unfoldable pub slice_stable :
      (StateNode fl → StateNode fl → Bool) → List (StateNode fl) → List (StateNode fl)
  unfolding insert_stable
  slice_stable less [] = []
  slice_stable less (x ∷ xs) = insert_stable less x (slice_stable less xs)

  unfoldable pub stabilize_render_order : List (StateNode fl) → List (StateNode fl)
  unfolding slice_stable renders_before
  stabilize_render_order nodes =
      if leb (length nodes) 1 then nodes else slice_stable renders_before nodes

  unfoldable pub node_cost : Compiler → StateNode fl → ℕ
  unfolding count
  node_cost c n =
      let cost = if n.token_count == 0 then count c n.summary else n.token_count in
      if emits_facts_line n
      then cost + count c (join (codes "; ") n.facts) + count c (join (codes "; ") n.decisions)
      else cost

  -- the loop of `selectWithinBudget`
  unfoldable pub select_loop : Compiler → ℕ → Selection fl → List (StateNode fl) → Selection fl
  select_loop c budget s [] = s
  select_loop c budget s (n ∷ nodes) =
      select_loop c budget
        (if leb (s.tokens_used + node_cost c n) budget
          then record s {
            selected = s.selected ++ n ∷ [];
            tokens_used = s.tokens_used + node_cost c n;
          }
          else record s { excluded = s.excluded ++ n ∷ [] })
        nodes

  unfoldable pub select_within_budget : Compiler → List (StateNode fl) → ℕ → Selection fl
  unfolding select_loop
  select_within_budget c nodes budget =
      select_loop c budget (record { selected = []; excluded = []; tokens_used = 0 }) nodes

  -- the nodes that the `switch` of `compile` appends to a bucket
  unfoldable pub in_bucket : Bucket → StateNode fl → Bool
  unfolding bucket_of
  in_bucket b n = priority (bucket_of n.node_type) == priority b

  unfoldable pub bucket_nodes : Bucket → List (StateNode fl) → List (StateNode fl)
  unfolding in_bucket
  bucket_nodes b nodes = select (in_bucket b) nodes

-- The variables that the loop over the buckets changes.
pub record Assembly : Type 0 where
  pub prompt : CompiledPrompt
  pub sections : List Str
  pub tokens_used : ℕ
  pub remaining : ℕ

-- the `switch bucketLabels[i]` of `compile`
unfoldable pub record_bucket : Bucket → List Str → CompiledPrompt → CompiledPrompt
record_bucket Bucket.decisions s p = record p { relevant_decisions = p.relevant_decisions ++ s }
record_bucket Bucket.tool_outputs s p = record p {
  relevant_tool_outputs = p.relevant_tool_outputs ++ s;
}
record_bucket Bucket.prior s p = record p { compressed_context = p.compressed_context ++ s }
record_bucket Bucket.issues s p = record p { open_issues = p.open_issues ++ s }
record_bucket _ s p = p

-- the tokens of the messages that are sent beside the context
unfoldable pub reserved : Compiler → Str → Str → ℕ
unfolding count
reserved c system user =
    (if is_empty system then 0 else count c system) + (if is_empty user then 0 else count c user)

-- the prompt once the loop is over
unfoldable pub finish : Compiler → Str → Str → Assembly → CompiledPrompt
finish c user system a =
    let final = join (codes "\n\n---\n\n") a.sections in
    record (a.prompt) {
      final_prompt = final;
      compiled_token_count = count c system + count c final + count c user;
    }

module _ {fl : Floats} where
  unfoldable pub render_order : Compiler → List (StateNode fl) → List (StateNode fl)
  unfolding stabilize_render_order
  render_order c nodes = if c.cache_stable_render then stabilize_render_order nodes else nodes

  unfoldable pub add_section : Compiler → Bucket → Selection fl → Assembly → Assembly
  unfolding render_order format_section bucket_label record_bucket
  add_section c b s a =
      let render = render_order c s.selected in
      let recorded = record_bucket b (map (λ n. n.summary) render) a.prompt in
      record {
        prompt = record recorded {
          excluded_node_refs = recorded.excluded_node_refs ++ map (λ n. n.node_id) s.excluded;
        };
        sections = a.sections ++ format_section (bucket_label b) render ∷ [];
        tokens_used = a.tokens_used + s.tokens_used;
        remaining = a.remaining - s.tokens_used;
      }

  -- one round of the loop over the buckets
  unfoldable pub fill_bucket : Compiler → Bucket → List (StateNode fl) → Assembly → Assembly
  unfolding add_section select_within_budget
  fill_bucket c b nodes a =
      let s = select_within_budget c nodes a.remaining in
      if a.remaining == 0 || is_empty nodes
      then a
      else if is_empty s.selected
      then a
      else add_section c b s a

  unfoldable pub fill_buckets :
      Compiler → (Bucket → List (StateNode fl)) → List Bucket → Assembly → Assembly
  unfolding fill_bucket
  fill_buckets c nodes [] a = a
  fill_buckets c nodes (b ∷ bs) a = fill_buckets c nodes bs (fill_bucket c b (nodes b) a)

  unfoldable pub first_title : List (StateNode fl) → Str
  first_title [] = []
  first_title (n ∷ nodes) = n.title

  -- the prompt and the counters before the loop over the buckets
  unfoldable pub start_assembly :
      Compiler → Str → Str → Str → Str → ℕ → (Bucket → List (StateNode fl)) → Assembly
  unfolding first_title
  start_assembly c sid task user system original nodes = record {
    prompt = record {
      session_id = sid;
      task_id = task;
      current_user_message = user;
      system_prompt = system;
      active_goal = first_title (nodes Bucket.goals);
      active_constraints = map (λ n. n.summary) (nodes Bucket.constraints);
      relevant_decisions = [];
      relevant_tool_outputs = [];
      compressed_context = [];
      open_issues = [];
      excluded_node_refs = [];
      final_prompt = [];
      original_token_count = original;
      compiled_token_count = 0;
      cache_stable_render = c.cache_stable_render;
    };
    sections = [];
    tokens_used = reserved c system user;
    remaining = c.token_budget - reserved c system user;
  }

  -- `compile` once the buckets are sorted: `nodes b` is the bucket `b`
  unfoldable pub assemble :
      Compiler → Str → Str → Str → Str → ℕ → (Bucket → List (StateNode fl)) → CompiledPrompt
  assemble c sid task user system original nodes =
      finish c user system (
        fill_buckets c nodes priority_buckets
          (start_assembly c sid task user system original nodes))

module _ {fl : Floats} where
  -- `hitScores`: the last hit of an id counts
  unfoldable pub hit_scores : Map fl.F → List (Hit fl) → Map fl.F
  hit_scores m [] = m
  hit_scores m (h ∷ hits) = hit_scores (put h.node_id (fl.widen h.score) m) hits

  unfoldable pub effective_loop : fl.F → Map fl.F → Map fl.F → List (StateNode fl) → Map fl.F
  effective_loop weight hits m [] = m
  effective_loop weight hits m (n ∷ nodes) =
      let base = n.scores.retention_score in
      let value : fl.F = elim (get n.node_id hits) [
        | none ↦ base
        | some hit ↦ fl.fadd base (fl.fmul weight (fl.fsub hit n.scores.semantic))
      ] in
      effective_loop weight hits (put n.node_id value m) nodes

-- `sort.Slice(nodes, less)`
abbrev pub SliceSort : Floats → Type 0
SliceSort fl = (StateNode fl → StateNode fl → Bool) → List (StateNode fl) → List (StateNode fl)

module _ {fl : Floats} (sort_slice : SliceSort fl) where
  -- `sortByScore`, and `sortByEffective` where the map of effective scores is there
  unfoldable pub effective_score : Option (Map fl.F) → StateNode fl → fl.F
  effective_score none n = n.scores.retention_score
  effective_score (some effective) n = elim (get n.node_id effective) [
    | none ↦ n.scores.retention_score
    | some v ↦ v
  ]

  unfoldable pub sort_by : Option (Map fl.F) → List (StateNode fl) → List (StateNode fl)
  unfolding effective_score
  sort_by effective nodes =
      sort_slice (λ a b. fl.lt (effective_score effective b) (effective_score effective a)) nodes

  unfoldable pub compile :
      Compiler → Str → Str → Str → List (StateNode fl) → Str → Option (Map fl.F) → CompiledPrompt
  unfolding assemble sort_by bucket_nodes
  compile c sid task user nodes system effective =
      assemble c sid task user system
        (count c system + count c user + sum_by (λ n. n.token_count) nodes)
        (λ b. sort_by effective (bucket_nodes b nodes))

  unfoldable pub compile_with_semantic :
      Compiler → Str → Str → Str → List (StateNode fl) → Str → fl.F → List (Hit fl) → CompiledPrompt
  unfolding compile hit_scores effective_loop
  compile_with_semantic c sid task user nodes system weight top_k =
      if is_empty top_k || fl.le weight (fl.literal 0 0)
      then compile c sid task user nodes system none
      else compile c sid task user nodes system
          (some (effective_loop weight (hit_scores [] top_k) [] nodes))
