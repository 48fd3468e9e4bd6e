-- ===== src/Session/Compile.antt =====
-- internal/session/manager.go: `effectiveBudget`, `newCompiler` and `CompilePrompt` past the lookup of
-- the session. The embedder is a parameter that may fail; a budget that is not positive is 0.
use acgc_project.Common.{
  ℕ, Str, List, [], ◌++◌, Bool, Option, none, some, Map, ltb, if◌then◌else◌, is_empty, ◌+◌, codes,
}
use acgc_project.Domain.{Floats, StateNode, Event}
use acgc_project.StateTree.{Tree, get_active_nodes}
use acgc_project.VectorIndex.{Config, or_default, Hit, Vector, Graphs, Index, ok, err, query}
use acgc_project.Compiler.{Compiler, CompiledPrompt, SliceSort, compile, compile_with_semantic}
use acgc_project.Session.SemanticMerge.{HitSort, merge_semantic_hits, nodes_for_semantic_compile}

-- the settings of `Manager`, with `tokenCounter` for its default, and durations left out
pub record Manager (fl : Floats) : Type 0 where
  pub default_budget : ℕ
  pub token_counter : Str → ℕ
  pub cache_stable_render : Bool
  pub semantic_weight : fl.F
  pub top_k_at_compile : ℕ
  pub archive_top_k : ℕ
  pub channel_buffer : ℕ
  pub hnsw_config : Config

-- the new budget of the session, and the budget of the request
unfoldable pub effective_budget : ℕ → ℕ → ℕ → ℕ × ℕ
effective_budget default_budget stored request =
    if ltb 0 request
    then (request, request)
    else if ltb 0 stored
    then (stored, stored)
    else (stored, default_budget)

unfoldable pub not_found_prompt : (Str → ℕ) → Str → Str → Str → Str → CompiledPrompt
not_found_prompt counter sid task user system =
    let tokens = counter system + counter user in
    record {
      session_id = sid;
      task_id = task;
      current_user_message = user;
      system_prompt = system;
      active_goal = [];
      active_constraints = [];
      relevant_decisions = [];
      relevant_tool_outputs = [];
      compressed_context = [];
      open_issues = [];
      excluded_node_refs = [];
      final_prompt = [];
      original_token_count = tokens;
      compiled_token_count = tokens;
      cache_stable_render = Bool.false;
    }

module _ {fl : Floats} where
  -- `NewManager`: the defaults of the two numbers of hits
  unfoldable pub new_manager : Manager fl → Manager fl
  new_manager cfg = record cfg {
    top_k_at_compile = or_default cfg.top_k_at_compile 12;
    archive_top_k = or_default cfg.archive_top_k 12;
  }

  unfoldable pub new_compiler : Manager fl → ℕ → Compiler
  new_compiler m budget = record {
    token_budget = budget;
    token_counter = some m.token_counter;
    cache_stable_render = m.cache_stable_render;
  }

  -- `payloadForEmbedding` of a node that is there
  unfoldable pub payload_for_embedding : StateNode fl → Event → Str
  payload_for_embedding n event =
      if is_empty n.summary
      then (if is_empty n.title then event.payload else n.title)
      else if is_empty n.title
      then n.summary
      else n.title ++ (codes ": " ++ n.summary)

-- `Embed`; `none` is an error
abbrev pub Embed : Floats → Type 0
Embed fl = Str → Option (Vector fl)

module _ {fl : Floats} (gs : Graphs fl) where
  -- the embedder and the indexes of a session: without an embedder there are none
  pub record Semantics : Type 0 where
    pub embed : Embed fl
    pub active_index : Index gs
    pub archive_index : Index gs

  -- the hits of both indexes, `none` where a call fails
  unfoldable pub retrieve : Manager fl → Semantics → Str → Option (List (Hit fl) × List (Hit fl))
  retrieve m s user = elim (s.embed user) [
    | none ↦ none
    | some vec ↦ elim (query gs vec m.top_k_at_compile s.active_index) [
      | err e ↦ none
      | ok hits_a ↦ elim (query gs vec m.archive_top_k s.archive_index) [
        | err e ↦ none
        | ok hits_archive ↦ some (hits_a, hits_archive)
      ]
    ]
  ]

  -- `CompilePrompt` of a session that is there, once its budget is known
  unfoldable pub compile_session :
      SliceSort fl
      → HitSort fl
      → Manager fl
      → Option Semantics
      → (Map (Hit fl) → List (Hit fl))
      → Tree fl
      → List (StateNode fl)
      → ℕ
      → Str
      → Str
      → Str
      → Str
      → CompiledPrompt
  unfolding new_compiler retrieve
  compile_session sort_slice sort_hits m semantics visit t visited budget sid task user system =
      let active = get_active_nodes visited in
      let c = new_compiler m budget in
      let plain = compile sort_slice c sid task user active system none in
      elim semantics [
        | none ↦ plain
        | some s ↦ if is_empty user then plain else elim (retrieve m s user) [
          | none ↦ plain
          | some (hits_a, hits_archive) ↦
              let merged = merge_semantic_hits sort_hits visit hits_a hits_archive in
              compile_with_semantic sort_slice c sid task user
                (nodes_for_semantic_compile t active merged) system m.semantic_weight merged
        ]
      ]
