-- ===== src/Tests/Sweeps.antt =====
-- The theorem on a whole run of internal/gc at a tree of two nodes, of which one holds a fact.
use mathlib.Core.List.{Permᴰ}
use acgc_project.Common.{
  ℕ, ◌∙◌, Option, Str, List, [], ◌∷◌, ◌≡◌, ◌≢◌, refl, sym, ap, some, none, get, if◌then◌else◌,
  str_eq, codes, values, arith, decimal, true,
}
use acgc_project.Domain.{NodeType, StateNode}
use acgc_project.StateTree.{Tree, root_node, node_key}
use acgc_project.StateTree.Invariant.{IsWellFormed, node_key_injective}
use acgc_project.Scorer.{new_scorer}
use acgc_project.Gc.{Policy, TriggerReason, run, should_defer_sweep_facts}
use acgc_project.Gc.Protect.{run_keeps_facts}
use acgc_project.Tests.{hundredths}

abbrev top : StateNode hundredths
top = record (root_node hundredths (codes "s") (codes "t")) {
  node_id = codes "root_s";
  facts = codes "ADR-12" ∷ [];
  child_ids = codes "node_s_1" ∷ [];
  node_type = NodeType.goal;
  turn_number = 0;
}

abbrev leaf : StateNode hundredths
leaf = record (root_node hundredths (codes "s") (codes "t")) {
  node_id = codes "node_s_1";
  parent_id = codes "root_s";
  node_type = NodeType.attempt;
  facts = [];
  decisions = [];
  child_ids = [];
  turn_number = 1;
}

abbrev pair : Tree hundredths
pair = record {
  session_id = codes "s";
  task_id = codes "t";
  root_id = codes "root_s";
  nodes = (codes "root_s", top) ∷ (codes "node_s_1", leaf) ∷ [];
  turn_count = 1;
}

first_byte : Str → ℕ
first_byte [] = 0
first_byte (c ∷ s) = c

top-key : (m : ℕ) → codes "root_s" ≢ node_key (codes "s") m
unfolding node_key first_byte
top-key m e = omega (arith, ap first_byte e)

leaf-key : codes "node_s_1" ≡ node_key (codes "s") 1
unfolding node_key decimal
leaf-key = refl

rank : Str → ℕ
rank s = if str_eq s (codes "node_s_1") then 1 else 0

pair-IsWellFormed : IsWellFormed pair
unfolding get str_eq rank root_node
pair-IsWellFormed = record {
  distinct = (refl, (refl, tt));
  fits = (
    (refl, omega arith, λ m e. absurd (top-key m e)),
    ((refl, omega arith, λ m e. node_key_injective (codes "s") 1 m (sym leaf-key ∙ e)), tt),
  );
  acyclic = record {
    rank = rank;
    bound = 1;
    bounded = λ s. ground arith;
    rises = ((omega arith, tt), (tt, tt));
  };
  rooted = (top, refl, refl);
}

abbrev strict : Policy hundredths
strict = record {
  max_prompt_tokens = 100;
  max_tree_depth = 8;
  max_children_per_node = 4;
  low_relevance_threshold = 200;
  stale_after_turns = 10;
  decision_sweep_floor = 0;
  max_active_nodes = 5;
  sweep_headroom_ratio = 85;
}

perm_refl : {A : Type 0} (xs : List A) → Permᴰ xs xs
perm_refl [] = Permᴰ.nil
perm_refl (x ∷ xs) = Permᴰ.cons refl (perm_refl xs)

top_found : get (codes "root_s") pair.nodes ≡ some top
unfolding get str_eq
top_found = refl

top_deferred : should_defer_sweep_facts top ≡ true
unfolding should_defer_sweep_facts
top_deferred = refl

abbrev summed_up : StateNode hundredths
summed_up = record leaf { node_id = codes "compressed_1" }

id_byte : Option (StateNode hundredths) → ℕ
id_byte none = 0
id_byte (some n) = first_byte n.node_id

other_id :
    (k : ℕ) (nodes : List (StateNode hundredths)) (a : StateNode hundredths)
    → some summed_up ≡ some a
    → a.node_id ≢ codes "root_s"
unfolding first_byte id_byte
other_id k nodes a e same = omega (arith, ap first_byte same, ap id_byte e)

run_keeps_facts_example :
    (k : StateNode hundredths) × (get
        (codes "root_s")
        (run
          (λ n nodes. some summed_up)
          strict
          (new_scorer hundredths 10 2000)
          (values pair.nodes)
          (λ m. m)
          pair
          TriggerReason.manual
          []).tree.nodes
      ≡ some k)
    × (k.status ≡ top.status)
    × (k.facts ≡ top.facts)
    × (k.decisions ≡ top.decisions)
run_keeps_facts_example =
    run_keeps_facts (codes "root_s") (λ n nodes. some summed_up) strict
      (new_scorer hundredths 10 2000) pair (values pair.nodes) (λ m. m) TriggerReason.manual [] top
      pair-IsWellFormed (perm_refl (values pair.nodes)) perm_refl other_id top_found top_deferred
