-- ===== src/Tests/Prompts.antt =====
-- The theorems on internal/facts, internal/scorer, internal/compiler and internal/gc at small inputs.
use mathlib.Core.List.{Permᴰ, Sublistᴰ}
use acgc_project.Common.{
  ℕ, Str, str_eq, ◌+◌, ◌-◌, ◌≤◌, ◌<◌, ◌≡◌, refl, List, [], ◌∷◌, ◌++◌, map, true, false, ◌⊎◌, none,
  some, get, length, sum_by, All, codes, join, trim_space, is_empty, arith,
}
use acgc_project.Domain.{Event, EventType, NodeType, StateNode, zero_scores}
use acgc_project.StateTree.{Tree, TreeStats, root_node, root_key, new_tree, get_active_nodes, stats}
use acgc_project.Facts.Unique.{dedupe_limited, append_unique, effective_cap}
use acgc_project.Facts.Extract.{extract_from_event}
use acgc_project.Facts.Laws.{append_unique-dedupe_limited}
use acgc_project.Facts.Kept.{IsUnique, Covers, dedupe_limited_kept, extract_from_event_bounded}
use acgc_project.Scorer.{new_scorer, score_node}
use acgc_project.Scorer.Range.{score_node_range}
use acgc_project.Compiler.{
  Compiler, Bucket, compile, sort_by, bucket_nodes, reserved, priority_buckets, node_cost, count,
  select_within_budget, stabilize_render_order,
}
use acgc_project.Compiler.Plan.{plan, planned, left_out, sections_of, compile-plan}
use acgc_project.Compiler.Budget.{Splits, select_within_budget_greedy}
use acgc_project.Compiler.Order.{IsOrdered, AreStored, stabilize_stable}
use acgc_project.Gc.{Policy, TriggerReason, should_run}
use acgc_project.Gc.Triggers.{IsQuiet, should_run-IsQuiet, should_run-ne-resolved}
use acgc_project.Tests.{hundredths}

abbrev texts : List Str
texts = codes "Go" ∷ codes " go " ∷ codes "" ∷ codes "ADR-12" ∷ []

dedupe_limited_kept_example :
    let kept = dedupe_limited texts 2 in
    (length kept ≤ 2)
    × IsUnique [] kept
    × Sublistᴰ kept (map trim_space texts)
    × ((length kept ≡ 2) ⊎ Covers [] kept texts)
dedupe_limited_kept_example = dedupe_limited_kept texts 1

append_unique-dedupe_limited_example :
    append_unique texts (codes "go" ∷ codes "Rust" ∷ []) 3
    ≡ dedupe_limited (texts ++ codes "go" ∷ codes "Rust" ∷ []) (effective_cap 3)
append_unique-dedupe_limited_example =
    append_unique-dedupe_limited texts (codes "go" ∷ codes "Rust" ∷ []) 3

abbrev root : StateNode hundredths
root = root_node hundredths (codes "s") (codes "t")

abbrev choice : StateNode hundredths
choice = record root {
  node_id = codes "node_s_1";
  node_type = NodeType.decision;
  summary = codes "We chose ADR-12.";
  turn_number = 1;
}

abbrev answer : Event
answer = record {
  event_id = codes "e1";
  session_id = codes "s";
  task_id = codes "t";
  event_type = EventType.llm_response;
  sequence = 1;
  payload = codes "We chose ADR-12.";
  token_count = 5;
  metadata = [];
}

extract_from_event_bounded_example :
    let node' = extract_from_event choice answer in
    (node' ≡ record choice { facts = node'.facts; decisions = node'.decisions })
    × (((is_empty (trim_space answer.payload) ≡ true) × (node' ≡ choice))
        ⊎ ((is_empty (trim_space answer.payload) ≡ false)
            × (length node'.facts ≤ 16)
            × IsUnique [] node'.facts
            × (length node'.decisions ≤ 16)
            × IsUnique [] node'.decisions))
extract_from_event_bounded_example = extract_from_event_bounded choice answer

irreflexive : (x : ℕ) → hundredths.lt x x ≡ false
irreflexive x = ground arith

score_node_range_example :
    let score =
      (score_node hundredths
        (new_scorer hundredths 10 2000)
        choice
        3
        (root ∷ choice ∷ [])
        []
        []).retention_score in
    (hundredths.lt score 0 ≡ false) × (hundredths.lt 100 score ≡ false)
score_node_range_example =
    score_node_range hundredths (new_scorer hundredths 10 2000) choice 3 (root ∷ choice ∷ []) [] []
      irreflexive refl

abbrev compiler : Compiler
compiler = record { token_budget = 40; token_counter = none; cache_stable_render = true }

compile-plan_example :
    let buckets : Bucket → List (StateNode hundredths) =
      λ b. sort_by (λ less xs. xs) none (bucket_nodes b (root ∷ choice ∷ [])) in
    let room = 40 - reserved compiler (codes "Be brief.") (codes "Go on") in
    let parts = plan compiler buckets priority_buckets room in
    let prompt =
      compile
        (λ less xs. xs)
        compiler
        (codes "s")
        (codes "t")
        (codes "Go on")
        (root ∷ choice ∷ [])
        (codes "Be brief.")
        none in
    (prompt.final_prompt ≡ join (codes "\n\n---\n\n") (sections_of compiler parts))
    × (prompt.excluded_node_refs ≡ left_out parts)
    × (sum_by (node_cost compiler) (planned parts) ≤ room)
    × (prompt.compiled_token_count
        ≡ count compiler (codes "Be brief.")
          + count compiler prompt.final_prompt
          + count compiler (codes "Go on"))
compile-plan_example =
    compile-plan (λ less xs. xs) compiler (codes "s") (codes "t") (codes "Go on")
      (codes "Be brief.") (root ∷ choice ∷ []) none

select_within_budget_greedy_example :
    let r = select_within_budget compiler (root ∷ choice ∷ []) 3 in
    Splits (root ∷ choice ∷ []) r.selected r.excluded
    × (r.tokens_used ≡ sum_by (node_cost compiler) r.selected)
    × (r.tokens_used ≤ 3)
    × All (λ n. 3 < r.tokens_used + node_cost compiler n) r.excluded
select_within_budget_greedy_example = select_within_budget_greedy compiler 3 (root ∷ choice ∷ [])

stored : AreStored ((codes "root_s", root) ∷ (codes "node_s_1", choice) ∷ []) (root ∷ choice ∷ [])
unfolding get str_eq root_node root_key
stored = (refl, (refl, tt))

stabilize_stable_example :
    Permᴰ (stabilize_render_order (choice ∷ root ∷ [])) (choice ∷ root ∷ [])
    × IsOrdered (stabilize_render_order (choice ∷ root ∷ []))
    × (stabilize_render_order (choice ∷ root ∷ []) ≡ stabilize_render_order (root ∷ choice ∷ []))
stabilize_stable_example =
    stabilize_stable ((codes "root_s", root) ∷ (codes "node_s_1", choice) ∷ []) (choice ∷ root ∷ [])
      (root ∷ choice ∷ []) (Permᴰ.swap refl refl) stored

abbrev policy : Policy hundredths
policy = record {
  max_prompt_tokens = 100;
  max_tree_depth = 8;
  max_children_per_node = 4;
  low_relevance_threshold = 0;
  stale_after_turns = 10;
  decision_sweep_floor = 0;
  max_active_nodes = 5;
  sweep_headroom_ratio = 85;
}

abbrev fresh : Tree hundredths
fresh = new_tree hundredths (codes "s") (codes "t")

quiet : should_run policy 3 (root ∷ []) (root ∷ []) fresh 12 50 ≡ some none
unfolding should_run stats get new_tree str_eq root_key get_active_nodes zero_scores
quiet = refl

should_run-IsQuiet_example :
    (s : TreeStats) × (stats 3 (root ∷ []) fresh ≡ some s)
    × IsQuiet policy s (length (get_active_nodes (root ∷ []))) 12 50
should_run-IsQuiet_example = should_run-IsQuiet policy 3 (root ∷ []) (root ∷ []) fresh 12 50 quiet

should_run-ne-resolved_example : ¬ (
    should_run policy 3 (root ∷ []) (root ∷ []) fresh 12 50
    ≡ some (some TriggerReason.resolved_branch))
should_run-ne-resolved_example = should_run-ne-resolved policy 3 (root ∷ []) (root ∷ []) fresh 12 50
