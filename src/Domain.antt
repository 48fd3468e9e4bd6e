-- ===== src/Domain.antt =====
-- internal/domain/event.go and node.go: events, nodes of the state tree and their scores. The
-- clock readings `CreatedAt` and `UpdatedAt` are left out: no decision of the program reads them.
use acgc_project.Common.{ℕ, ℤ, Str, List, Bool, true, false, Map, codes}

-- The machine's floating-point numbers: `F` is float64 and `F32` is float32.
pub record Floats : Type 1 where
  pub F : Type 0
  pub F32 : Type 0
  pub lt : F → F → Bool
  pub le : F → F → Bool
  pub lt32 : F32 → F32 → Bool
  pub fadd : F → F → F
  pub fsub : F → F → F
  pub fmul : F → F → F
  pub fdiv : F → F → F
  pub fmin : F → F → F
  pub fmax : F → F → F
  pub exp : F → F
  pub sqrt : F → F
  -- `float64(n)` of an integer
  pub of_int : ℕ → F
  -- `int(x)`, the truncation of a value that is not negative
  pub to_int : F → ℕ
  -- `literal n k` is the constant n / 10^k, `literal32 n` the constant n
  pub literal : ℕ → ℕ → F
  pub fsub32 : F32 → F32 → F32
  pub literal32 : ℕ → F32
  -- `==` of float64
  pub feq : F → F → Bool
  -- the conversions between the two widths
  pub widen : F32 → F
  pub narrow : F → F32

pub data EventType : Type 0 where
  user_prompt agent_prompt llm_response tool_call tool_result error retry : EventType
  gc_trigger branch_compression state_snapshot system : EventType
  -- any other text, which a client may send
  other_event : Str → EventType

-- `string(event.EventType)`
unfoldable pub event_text : EventType → Str
event_text EventType.user_prompt = codes "user_prompt"
event_text EventType.agent_prompt = codes "agent_prompt"
event_text EventType.llm_response = codes "llm_response"
event_text EventType.tool_call = codes "tool_call"
event_text EventType.tool_result = codes "tool_result"
event_text EventType.error = codes "error"
event_text EventType.retry = codes "retry"
event_text EventType.gc_trigger = codes "gc_trigger"
event_text EventType.branch_compression = codes "branch_compression"
event_text EventType.state_snapshot = codes "state_snapshot"
event_text EventType.system = codes "system"
event_text (EventType.other_event s) = s

pub record Event : Type 0 where
  pub event_id : Str
  pub session_id : Str
  pub task_id : Str
  pub event_type : EventType
  pub sequence : ℕ
  pub payload : Str
  pub token_count : ℕ
  pub metadata : Map Str

pub data NodeType : Type 0 where
  goal constraint decision attempt tool_result issue summary compressed_branch : NodeType
  background : NodeType

pub data NodeStatus : Type 0 where
  active resolved stale compressed archived : NodeStatus

pub record NodeScores (fl : Floats) : Type 0 where
  pub recency : fl.F
  pub dependency_weight : fl.F
  pub redundancy : fl.F
  pub type_priority : fl.F
  pub unresolved_boost : fl.F
  pub resolved_penalty : fl.F
  pub stale_penalty : fl.F
  pub size_penalty : fl.F
  pub semantic : fl.F
  pub retention_score : fl.F

pub record StateNode (fl : Floats) : Type 0 where
  pub node_id : Str
  pub parent_id : Str
  pub session_id : Str
  pub task_id : Str
  pub node_type : NodeType
  pub status : NodeStatus
  pub title : Str
  pub summary : Str
  pub facts : List Str
  pub decisions : List Str
  pub open_issues : List Str
  pub dependencies : List Str
  pub raw_event_refs : List Str
  pub child_ids : List Str
  pub token_count : ℕ
  pub turn_number : ℕ
  pub scores : NodeScores fl
  pub embedding : List fl.F32
  pub embed_model : Str

-- `NodeScores{}`
unfoldable pub zero_scores : (fl : Floats) → NodeScores fl
zero_scores fl = record {
  recency = zero;
  dependency_weight = zero;
  redundancy = zero;
  type_priority = zero;
  unresolved_boost = zero;
  resolved_penalty = zero;
  stale_penalty = zero;
  size_penalty = zero;
  semantic = zero;
  retention_score = zero;
}
  where
    zero : fl.F
    zero = fl.literal 0 0

abbrev pub is_active_status : NodeStatus → Bool
is_active_status NodeStatus.active = true
is_active_status _ = false

abbrev pub is_archived_status : NodeStatus → Bool
is_archived_status NodeStatus.archived = true
is_archived_status _ = false

-- `n.Status == domain.StatusActive`
abbrev pub is_active : {fl : Floats} → StateNode fl → Bool
is_active n = is_active_status n.status

abbrev pub is_archived : {fl : Floats} → StateNode fl → Bool
is_archived n = is_archived_status n.status

pub record SessionMetrics (fl : Floats) : Type 0 where
  pub session_id : Str
  pub total_events : ℕ
  pub total_turns : ℕ
  pub gc_runs : ℕ
  pub total_tokens_saved : ℤ
  pub avg_reduction_pct : fl.F
  pub branches_compressed : ℕ
  pub rehydration_events : ℕ
  pub avg_latency_ms : fl.F
