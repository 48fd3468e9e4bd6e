-- ===== src/Gateway.antt =====
-- internal/gateway/server.go: the handlers that act on the sessions, and `CompilePrompt` of the
-- manager. While a handler runs, the worker takes no step; int32 values are taken to be no less than 0.
use acgc_project.Common.{
  ℕ, ◌+◌, Str, List, [], ◌∷◌, ◌++◌, Bool, true, false, Option, none, some, if◌then◌else◌, is_empty,
  Map, get, update, codes, decimal, str_eq, ltb, ℤ, pos, negsuc, suc, sub_ℕ,
}
use acgc_project.Domain.{Floats, Event, EventType, StateNode}
use acgc_project.StateTree.{Tree}
use acgc_project.VectorIndex.{Graphs, Vector, Hit}
use acgc_project.Compiler.{CompiledPrompt, SliceSort}
use acgc_project.Session.SemanticMerge.{HitSort}
use acgc_project.Session.Compile.{
  Manager, Embed, Semantics, effective_budget, not_found_prompt, compile_session,
}
use acgc_project.Session.State.{Indexes, SessionState}
use acgc_project.Session.Registry.{Loaded, get_or_create, enqueue_event}
use acgc_project.Llm.{
  ChatMessage, Client, Request, HttpResponse, GenerateResult, new_client, generate,
}
pub mod Queues
pub mod Captured

-- the `Server` with its manager, and what is outside: the process-wide token counter, the sorts, the orders of maps, the store, the
-- embedder, the HTTP call, and the clock's readings for a session, an event and an answer
pub record Server (fl : Floats) : Type 0 where
  pub manager : Manager fl
  pub default_llm : Client
  pub default_counter : Str → ℕ
  pub sort_slice : SliceSort fl
  pub sort_hits : HitSort fl
  pub hits_order : Map (Hit fl) → List (Hit fl)
  pub vectors_order : Map (Vector fl) → List (Str × Vector fl)
  pub nodes_order : Tree fl → List (StateNode fl)
  pub load : Str → Loaded fl
  pub embed : Option (Embed fl)
  pub post : Request fl → Option HttpResponse
  pub now_session : ℕ
  pub now_event : ℕ
  pub now_answer : ℕ

-- the settings of a model in a request
pub record LlmConfig (fl : Floats) : Type 0 where
  pub provider : Str
  pub model : Str
  pub api_key : Str
  pub base_url : Str
  pub temperature : fl.F32
  pub max_tokens : ℕ

pub record RunRequest (fl : Floats) : Type 0 where
  pub session_id : Str
  pub task_id : Str
  pub user_message : Str
  pub conversation_history : List ChatMessage
  pub token_budget : ℕ
  pub llm_config : Option (LlmConfig fl)

-- `RunResponse`, less the prompt's id, the durations and the counts of `GetTreeStats`
pub record RunResponse (fl : Floats) : Type 0 where
  pub llm_response : Str
  pub original_token_count : ℕ
  pub compiled_token_count : ℕ
  pub tokens_saved : ℤ
  pub reduction_percent : fl.F32
  pub cached_prompt_tokens : ℕ

pub record CaptureRequest : Type 0 where
  pub session_id : Str
  pub task_id : Str
  pub event_type : EventType
  pub payload : Str
  pub metadata : Map Str

-- the content of the first system message
unfoldable pub system_prompt_of : List ChatMessage → Str
system_prompt_of [] = []
system_prompt_of (m ∷ history) =
    if str_eq m.role (codes "system") then m.content else system_prompt_of history

unfoldable pub messages_of : CompiledPrompt → Str → List ChatMessage
messages_of compiled user =
    (if is_empty compiled.system_prompt
      then []
      else record { role = codes "system"; content = compiled.system_prompt } ∷ [])
    ++ ((if is_empty compiled.final_prompt
          then []
          else record { role = codes "user"; content = compiled.final_prompt } ∷ [])
        ++ record { role = codes "user"; content = user } ∷ [])

-- `float64(n)` of an integer of either sign
unfoldable pub of_signed : (fl : Floats) → ℤ → fl.F
of_signed fl (pos n) = fl.of_int n
of_signed fl (negsuc n) = fl.fsub (fl.literal 0 0) (fl.of_int (suc n))

-- `reductionPct`, as it is sent
unfoldable pub reduction_of : (fl : Floats) → ℕ → ℕ → fl.F32
unfolding of_signed
reduction_of fl original compiled =
    if ltb 0 original
    then fl.narrow (
        fl.fmul (fl.fdiv (of_signed fl (sub_ℕ original compiled)) (fl.of_int original))
          (fl.literal 100 0))
    else fl.narrow (fl.literal 0 0)

module _ {fl : Floats} where
  unfoldable pub select_llm_client : Server fl → Option (LlmConfig fl) → Client
  select_llm_client s none = s.default_llm
  select_llm_client s (some cfg) =
      if is_empty cfg.api_key
      then s.default_llm
      else new_client (record {
        provider = cfg.provider;
        base_url = cfg.base_url;
        api_key = cfg.api_key;
        model = cfg.model;
      })

  unfoldable pub temperature_of : Option (LlmConfig fl) → fl.F
  temperature_of none = fl.literal 7 1
  temperature_of (some cfg) =
      if fl.lt32 (fl.literal32 0) cfg.temperature then fl.widen cfg.temperature else fl.literal 7 1

  unfoldable pub max_tokens_of : Option (LlmConfig fl) → ℕ
  max_tokens_of none = 4096
  max_tokens_of (some cfg) = if ltb 0 cfg.max_tokens then cfg.max_tokens else 4096

  -- the ids that `Run` gives to a request without one
  abbrev pub session_id_of : Server fl → RunRequest fl → Str
  session_id_of s req =
      if is_empty req.session_id then codes "sess_" ++ decimal s.now_session else req.session_id

  abbrev pub task_id_of : RunRequest fl → Str
  task_id_of req = if is_empty req.task_id then codes "default" else req.task_id

  unfoldable pub user_event : Server fl → Str → Str → Str → Event
  user_event s sid task text = record {
    event_id = codes "evt_" ++ (decimal s.now_event ++ codes "_user");
    session_id = sid;
    task_id = task;
    event_type = EventType.user_prompt;
    sequence = 0;
    payload = text;
    token_count = s.default_counter text;
    metadata = [];
  }

  unfoldable pub response_event : Server fl → Str → Str → GenerateResult → Event
  response_event s sid task result = record {
    event_id = codes "evt_" ++ (decimal s.now_answer ++ codes "_llm");
    session_id = sid;
    task_id = task;
    event_type = EventType.llm_response;
    sequence = 0;
    payload = result.content;
    token_count = result.completion_tokens;
    metadata =
        (codes "prompt_tokens", decimal result.prompt_tokens)
        ∷ (codes "completion_tokens", decimal result.completion_tokens)
        ∷ (codes "cached_prompt_tokens", decimal result.cached_prompt_tokens)
        ∷ [];
  }

  unfoldable pub captured_event : Server fl → CaptureRequest → Event
  captured_event s req = record {
    event_id = codes "evt_" ++ decimal s.now_event;
    session_id = req.session_id;
    task_id = req.task_id;
    event_type = req.event_type;
    sequence = 0;
    payload = req.payload;
    token_count = s.default_counter req.payload;
    metadata = req.metadata;
  }

abbrev pub is_there {ℓ} : {A : Type ℓ} → Option A → Bool
is_there none = false
is_there (some a) = true

module _ {fl : Floats} (gs : Graphs fl) where
  -- the embedder and the indexes of a session, if it has both
  unfoldable pub semantics_of : Option (Embed fl) → Option (Indexes gs) → Option (Semantics gs)
  semantics_of none x = none
  semantics_of (some embed) none = none
  semantics_of (some embed) (some x) =
      some
        (record { embed = embed; active_index = x.active_index; archive_index = x.archive_index })

  -- `CompilePrompt` of the manager
  unfoldable pub compile_prompt :
      Server fl
      → Str
      → Str
      → Str
      → Str
      → ℕ
      → Map (SessionState gs)
      → Map (SessionState gs) × CompiledPrompt
  unfolding semantics_of
  compile_prompt s sid task user system budget sessions = elim (get sid sessions) [
    | none ↦ (sessions, not_found_prompt s.manager.token_counter sid task user system)
    | some x ↦
        let (stored, cap) = effective_budget s.manager.default_budget x.token_budget budget in
        (
          update sid (λ _. record x { token_budget = stored }) sessions,
          compile_session gs s.sort_slice s.sort_hits s.manager (semantics_of s.embed x.indexes)
              s.hits_order x.tree (s.nodes_order x.tree) cap sid task user system,
        )
  ]

  unfoldable pub find_session :
      Server fl → Str → Str → Map (SessionState gs) → Map (SessionState gs)
  find_session s sid task sessions =
      (get_or_create gs s.manager (is_there s.embed) s.vectors_order (s.load sid) sid task
        sessions).1

  -- `Run` up to the call of the model: the session, its task, the sessions and the prompt
  unfoldable pub prepare :
      Server fl
      → Str
      → Str
      → RunRequest fl
      → Map (SessionState gs)
      → Map (SessionState gs) × CompiledPrompt
  unfolding find_session compile_prompt
  prepare s sid task req sessions =
      let there = find_session s sid task sessions in
      let asked = (enqueue_event s.manager sid (user_event s sid task req.user_message) there).0 in
      compile_prompt s sid task req.user_message (system_prompt_of req.conversation_history)
        req.token_budget asked

  -- `Run`; `none` is an error
  unfoldable pub run_request :
      Server fl
      → RunRequest fl
      → Map (SessionState gs)
      → Map (SessionState gs) × Option (RunResponse fl)
  unfolding prepare reduction_of
  run_request s req sessions =
      let sid = session_id_of s req in
      let task = task_id_of req in
      let (ready, compiled) = prepare s sid task req sessions in
      elim (generate fl s.post (select_llm_client s req.llm_config)
        (messages_of compiled req.user_message) (temperature_of req.llm_config)
        (max_tokens_of req.llm_config)) [
          | none ↦ (ready, none)
          | some result ↦ (
            (enqueue_event s.manager sid (response_event s sid task result) ready).0,
            some (record {
              llm_response = result.content;
              original_token_count = compiled.original_token_count;
              compiled_token_count = compiled.compiled_token_count;
              tokens_saved = sub_ℕ compiled.original_token_count compiled.compiled_token_count;
              reduction_percent =
                  reduction_of fl compiled.original_token_count compiled.compiled_token_count;
              cached_prompt_tokens = result.cached_prompt_tokens;
            }),
          )
        ]

  -- `CaptureEvent`: whether the event was accepted
  unfoldable pub capture_event :
      Server fl → CaptureRequest → Map (SessionState gs) → Map (SessionState gs) × Bool
  unfolding find_session
  capture_event s req sessions =
      enqueue_event s.manager req.session_id (captured_event s req)
        (find_session s req.session_id req.task_id sessions)

  -- `TriggerGC`: it answers that a run was triggered
  unfoldable pub trigger_gc : Server fl → Str → Map (SessionState gs) → Map (SessionState gs) × Bool
  unfolding find_session
  trigger_gc s sid sessions =
      let event : Event = record {
        event_id = codes "evt_" ++ (decimal s.now_event ++ codes "_gc");
        session_id = sid;
        task_id = [];
        event_type = EventType.gc_trigger;
        sequence = 0;
        payload = codes "manual_trigger";
        token_count = 0;
        metadata = [];
      } in
      ((enqueue_event s.manager sid event (find_session s sid (codes "default") sessions)).0, true)
