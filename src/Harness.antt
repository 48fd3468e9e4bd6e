-- ===== src/Harness.antt =====
-- eval/harness: the context strategies that keep whole turns, and the calls of a model that are tried
-- again. The token counter is a parameter, and so are the answers of the model and of the context.
use acgc_project.Common.{
  ℕ, zero, suc, ◌+◌, Str, List, [], ◌∷◌, ◌++◌, Bool, true, false, Option, none, some, if◌then◌else◌,
  is_empty, any, codes, contains, decimal, length, ltb, sum_by, str_eq,
}
use acgc_project.Domain.{Floats, StateNode, NodeType, NodeStatus, zero_scores}
use acgc_project.Llm.{ChatMessage, GenerateResult}
pub mod Selected

-- `StrategyInput` and `StrategyOutput`, the fields that these strategies use
pub record StrategyInput (fl : Floats) : Type 0 where
  pub nodes : List (StateNode fl)
  pub system_prompt : Str
  pub question : Str
  pub token_budget : ℕ
  pub token_counter : Str → ℕ

pub record StrategyOutput : Type 0 where
  pub final_prompt : Str
  pub original_token_count : ℕ
  pub compiled_token_count : ℕ
  pub included_nodes : ℕ
  pub excluded_nodes : ℕ

-- `included`, `excluded` and `used`
pub record Selection (fl : Floats) : Type 0 where
  pub included : List (StateNode fl)
  pub excluded : ℕ
  pub used : ℕ

abbrev pub is_decision : NodeType → Bool
is_decision NodeType.decision = true
is_decision _ = false

module _ {fl : Floats} where
  unfoldable pub history_loop : (Str → ℕ) → ℕ → List ChatMessage → List (StateNode fl)
  history_loop counter i [] = []
  history_loop counter i (t ∷ history) =
      record {
        node_id = codes "turn_" ++ decimal i;
        parent_id = [];
        session_id = [];
        task_id = [];
        node_type = if str_eq t.role (codes "assistant") then NodeType.decision else NodeType.goal;
        status = NodeStatus.active;
        title = [];
        summary = t.content;
        facts = [];
        decisions = [];
        open_issues = [];
        dependencies = [];
        raw_event_refs = [];
        child_ids = [];
        token_count = counter t.content;
        turn_number = i;
        scores = zero_scores fl;
        embedding = [];
        embed_model = [];
      }
      ∷ history_loop counter (i + 1) history

  unfoldable pub build_history_nodes : (Str → ℕ) → List ChatMessage → List (StateNode fl)
  unfolding history_loop
  build_history_nodes counter history = history_loop counter 0 history

  -- one round of the loop
  unfoldable pub take_node : ℕ → StateNode fl → Selection fl → Selection fl
  take_node budget n s =
      if ltb budget (s.used + n.token_count)
      then record s { excluded = s.excluded + 1 }
      else record s { included = s.included ++ n ∷ []; used = s.used + n.token_count }

  unfoldable pub chronological_loop : ℕ → List (StateNode fl) → Selection fl → Selection fl
  unfolding take_node
  chronological_loop budget [] s = s
  chronological_loop budget (n ∷ nodes) s = chronological_loop budget nodes (take_node budget n s)

  unfoldable pub select_chronological : List (StateNode fl) → ℕ → Selection fl
  unfolding chronological_loop
  select_chronological nodes budget =
      chronological_loop budget nodes (record { included = []; excluded = 0; used = 0 })

  -- the loop of the sliding window from the last node to the first
  unfoldable pub newest_loop : ℕ → List (StateNode fl) → Selection fl
  unfolding take_node
  newest_loop budget [] = record { included = []; excluded = 0; used = 0 }
  newest_loop budget (n ∷ nodes) = take_node budget n (newest_loop budget nodes)

  unfoldable pub chronological : List (StateNode fl) → List (StateNode fl)
  chronological [] = []
  chronological (n ∷ nodes) = chronological nodes ++ n ∷ []

  unfoldable pub turn_line : StateNode fl → Str
  turn_line n =
      codes "- ["
      ++ ((if is_decision n.node_type then codes "assistant" else codes "user")
          ++ (codes "] " ++ ((if is_empty n.summary then n.title else n.summary) ++ codes "\n")))

  unfoldable pub turn_lines : List (StateNode fl) → Str
  unfolding turn_line
  turn_lines [] = []
  turn_lines (n ∷ nodes) = turn_line n ++ turn_lines nodes

  unfoldable pub format_nodes_section : List (StateNode fl) → Str
  unfolding turn_lines
  format_nodes_section nodes = codes "## Conversation Context\n" ++ turn_lines nodes

  -- the output for the nodes that are kept
  unfoldable pub strategy_output : StrategyInput fl → List (StateNode fl) → ℕ → StrategyOutput
  unfolding format_nodes_section
  strategy_output x kept excluded =
      let prompt = if is_empty kept then [] else format_nodes_section kept in
      let outer = x.token_counter x.system_prompt + x.token_counter x.question in
      record {
        final_prompt = prompt;
        original_token_count = outer + sum_by (λ n. n.token_count) x.nodes;
        compiled_token_count =
            x.token_counter x.system_prompt + x.token_counter prompt + x.token_counter x.question;
        included_nodes = length kept;
        excluded_nodes = excluded;
      }

  unfoldable pub naive_prompt : StrategyInput fl → StrategyOutput
  unfolding strategy_output select_chronological
  naive_prompt x =
      let s = select_chronological x.nodes x.token_budget in strategy_output x s.included s.excluded

  unfoldable pub sliding_prompt : StrategyInput fl → StrategyOutput
  unfolding strategy_output newest_loop chronological
  sliding_prompt x =
      let s = newest_loop x.token_budget x.nodes in
      strategy_output x (chronological s.included) s.excluded

-- what a call of the model gives, with the text of its error
pub data Attempt : Type 0 where
  answered : GenerateResult → Attempt
  failed : Str → Attempt

abbrev pub transient_markers : List Str
transient_markers =
    codes "status 429"
    ∷ codes "status 500"
    ∷ codes "status 502"
    ∷ codes "status 503"
    ∷ codes "status 504"
    ∷ codes "timeout"
    ∷ codes "deadline exceeded"
    ∷ codes "connection reset"
    ∷ codes "EOF"
    ∷ []

unfoldable pub is_transient : Str → Bool
is_transient msg =
    if contains msg (codes "insufficient_quota")
    then false
    else any (λ marker. contains msg marker) transient_markers

-- The attempts from the i-th on, `left` more after it; `cancelled i` is the error of the context where it
-- ends while the i-th wait lasts.
unfoldable pub retry_loop : (ℕ → Attempt) → (ℕ → Option Str) → ℕ → ℕ → Attempt
unfolding is_transient
retry_loop call cancelled i zero = call i
retry_loop call cancelled i (suc left) = elim (call i) [
  | answered r ↦ answered r
  | failed msg ↦ elim (is_transient msg) [
    | false ↦ failed msg
    | true ↦ elim (cancelled i) [
      | some e ↦ failed e
      | none ↦ retry_loop call cancelled (i + 1) left
    ]
  ]
]

unfoldable pub generate_with_retry : (ℕ → Attempt) → (ℕ → Option Str) → Attempt
unfolding retry_loop
generate_with_retry call cancelled = retry_loop call cancelled 0 3
