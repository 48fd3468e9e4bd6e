-- ===== src/Llm/Compressor.antt =====
-- internal/llm/compressor.go: the compressor that asks a model. The clock is a parameter.
use acgc_project.Common.{
  ℕ, ◌+◌, ◌/◌, Str, List, [], ◌∷◌, ◌++◌, Option, none, some, if◌then◌else◌, is_empty, codes,
  decimal, join, length, ltb, trim_space,
}
use acgc_project.Domain.{Floats, StateNode, NodeType, NodeStatus, zero_scores}
use acgc_project.Facts.Merge.{
  merge_from_nodes, strip_trailing_entities_line, union_facts, verified_facts_prefix,
}
use acgc_project.Llm.{Client, GenerateResult, Request, HttpResponse, generate}

unfoldable pub node_type_text : NodeType → Str
node_type_text NodeType.goal = codes "goal"
node_type_text NodeType.constraint = codes "constraint"
node_type_text NodeType.decision = codes "decision"
node_type_text NodeType.attempt = codes "attempt"
node_type_text NodeType.tool_result = codes "tool_result"
node_type_text NodeType.issue = codes "issue"
node_type_text NodeType.summary = codes "summary"
node_type_text NodeType.compressed_branch = codes "compressed_branch"
node_type_text NodeType.background = codes "background"

unfoldable pub status_text : NodeStatus → Str
status_text NodeStatus.active = codes "active"
status_text NodeStatus.resolved = codes "resolved"
status_text NodeStatus.stale = codes "stale"
status_text NodeStatus.compressed = codes "compressed"
status_text NodeStatus.archived = codes "archived"

abbrev pub compression_system_prompt : Str
compression_system_prompt =
    codes
      "You are a context compressor for an AI agent system.\nGiven a set of conversation nodes, produce a concise summary that preserves:\n- Key decisions made\n- Active constraints\n- Unresolved issues\n- Final conclusions\n- Important dependencies\n\nRemove: repetition, filler, dead-end explorations, temporary reasoning, duplicate information.\nBe factual and terse.\n\nOutput format (required):\n1) Several lines of compressed summary text (no preamble).\n2) On the FINAL line exactly: ENTITIES: <comma-separated proper nouns and short verbatim noun phrases>"

-- a line of the prompt with a label, unless its text is empty
unfoldable pub labelled : Str → Str → Str
labelled label text = if is_empty text then [] else label ++ (text ++ codes "\n")

module _ {fl : Floats} where
  -- one round of the loop over the nodes
  unfoldable pub prompt_node : ℕ → StateNode fl → Str
  unfolding node_type_text status_text labelled
  prompt_node i n =
      (codes "--- Node "
        ++ (decimal (i + 1)
            ++ (codes " ["
                ++ (node_type_text n.node_type
                    ++ (codes "] (" ++ (status_text n.status ++ codes ") ---\n"))))))
      ++ (labelled (codes "Title: ") n.title
          ++ (labelled (codes "Content: ") n.summary
              ++ ((if is_empty n.facts
                    then []
                    else codes "Facts: " ++ (join (codes "; ") n.facts ++ codes "\n"))
                  ++ ((if is_empty n.decisions
                        then []
                        else codes "Decisions: " ++ (join (codes "; ") n.decisions ++ codes "\n"))
                      ++ ((if is_empty n.open_issues
                            then []
                            else codes "Open Issues: "
                              ++ (join (codes "; ") n.open_issues ++ codes "\n"))
                          ++ codes "\n")))))

  unfoldable pub prompt_loop : ℕ → List (StateNode fl) → Str
  unfolding prompt_node
  prompt_loop i [] = []
  prompt_loop i (n ∷ nodes) = prompt_node i n ++ prompt_loop (i + 1) nodes

  unfoldable pub build_compression_prompt : List (StateNode fl) → Str
  unfolding prompt_loop
  build_compression_prompt nodes =
      codes "Compress the following conversation nodes into a single concise summary:\n\n"
      ++ prompt_loop 0 nodes

  -- `allIssues` and `allEventRefs`
  unfoldable pub all_issues : List (StateNode fl) → List Str
  all_issues [] = []
  all_issues (n ∷ nodes) = n.open_issues ++ all_issues nodes

  unfoldable pub all_event_refs : List (StateNode fl) → List Str
  all_event_refs [] = []
  all_event_refs (n ∷ nodes) = n.raw_event_refs ++ all_event_refs nodes

  -- `Compress` past the call of the model; `now` is the clock's reading
  unfoldable pub branch_of : ℕ → List (StateNode fl) → GenerateResult → StateNode fl
  unfolding all_issues all_event_refs
  branch_of now nodes result =
      let merged = merge_from_nodes nodes 0 0 in
      let stripped = strip_trailing_entities_line result.content 16 in
      let facts = union_facts merged.0 stripped.1 16 in
      let text = trim_space (verified_facts_prefix facts ++ trim_space stripped.0) in
      let summary = if is_empty text then trim_space result.content else text in
      let tok = result.prompt_tokens + result.completion_tokens in
      let est = length summary / 4 in
      record {
        node_id = codes "compressed_" ++ decimal now;
        parent_id = [];
        session_id = [];
        task_id = [];
        node_type = NodeType.compressed_branch;
        status = NodeStatus.compressed;
        title = codes "Compressed " ++ (decimal (length nodes) ++ codes " nodes");
        summary = summary;
        facts = facts;
        decisions = merged.1;
        open_issues = all_issues nodes;
        dependencies = [];
        raw_event_refs = all_event_refs nodes;
        child_ids = [];
        token_count = if ltb tok est then est else tok;
        turn_number = 0;
        scores = zero_scores fl;
        embedding = [];
        embed_model = [];
      }

  unfoldable pub compress :
      (Request fl → Option HttpResponse) → Client → ℕ → List (StateNode fl) → Option (StateNode fl)
  unfolding build_compression_prompt branch_of
  compress post c now nodes =
      elim (generate fl post c
        (record { role = codes "system"; content = compression_system_prompt }
          ∷ record { role = codes "user"; content = build_compression_prompt nodes }
          ∷ [])
        (fl.literal 2 1) 500) [ none ↦ none | some result ↦ some (branch_of now nodes result) ]
