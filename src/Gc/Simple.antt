-- ===== src/Gc/Simple.antt =====
-- internal/gc/gc.go: SimpleCompressor. The nanoseconds of the clock and the process-wide
-- token counter are arguments; the compressor never fails.
use acgc_project.Common.{
  ℕ, Str, List, [], ◌∷◌, ◌++◌, not, map, ltb, if◌then◌else◌, length, select, is_empty, codes, join,
  decimal,
}
use acgc_project.Domain.{Floats, NodeType, NodeStatus, StateNode, zero_scores}
use acgc_project.Facts.Merge.{merge_from_nodes, verified_facts_prefix}
use acgc_project.Gc.{concat_texts}

-- `s[len(s)-1]`, or the empty text
unfoldable pub last_text : Str → List Str → Str
last_text s [] = s
last_text s (t ∷ rest) = last_text t rest

unfoldable pub first_text : List Str → Str
first_text [] = []
first_text (s ∷ rest) = s

-- `core`
unfoldable pub summary_core : List Str → Str
unfolding last_text first_text
summary_core parts =
    if ltb 3 (length parts)
    then first_text parts ++ (codes " ... " ++ last_text [] parts)
    else join (codes " | ") parts

-- `fmt.Sprintf("compressed_%d", …)`
unfoldable pub branch_key : ℕ → Str
branch_key now = codes "compressed_" ++ decimal now

unfoldable pub simple_compress : {fl : Floats} → (Str → ℕ) → ℕ → List (StateNode fl) → StateNode fl
unfolding summary_core
simple_compress {fl} count_tokens now nodes =
    let merged = merge_from_nodes nodes 0 0 in
    let parts = select (λ s. not (is_empty s)) (map (λ n. n.summary) nodes) in
    let text =
      verified_facts_prefix merged.0 ++ (codes "Compressed branch: " ++ summary_core parts) in
    record {
      node_id = branch_key now;
      parent_id = [];
      session_id = [];
      task_id = [];
      node_type = NodeType.compressed_branch;
      status = NodeStatus.compressed;
      title = codes "Compressed " ++ (decimal (length nodes) ++ codes " nodes");
      summary = text;
      facts = merged.0;
      decisions = merged.1;
      open_issues = concat_texts (λ n. n.open_issues) nodes;
      dependencies = [];
      raw_event_refs = concat_texts (λ n. n.raw_event_refs) nodes;
      child_ids = [];
      token_count = count_tokens text;
      turn_number = 0;
      scores = zero_scores fl;
      embedding = [];
      embed_model = [];
    }
