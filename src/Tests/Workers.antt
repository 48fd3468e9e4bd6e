-- ===== src/Tests/Workers.antt =====
-- The theorems on the worker of internal/session at a session that is opened and gets an event.
use mathlib.Core.List.{Permᴰ}
use acgc_project.Common.{
  ℕ, ◌+◌, ◌≡◌, ◌≢◌, refl, sym, ap, ◌∙◌, Str, List, [], ◌∷◌, ◌++◌, true, false, Option, none, some,
  get, Map, length, codes, values, arith,
}
use acgc_project.Domain.{Event, EventType, StateNode, NodeType}
use acgc_project.StateTree.{node_key, root_key, root_node}
use acgc_project.StateTree.Invariant.{IsWellFormed}
use acgc_project.StateTree.Writes.{new_tree-IsWellFormed}
use acgc_project.StateTree.Kept.{IsKept, Grows}
use acgc_project.VectorIndex.{Vector, default_config}
use acgc_project.Scorer.{new_scorer}
use acgc_project.Gc.{Policy, TriggerReason, Compress, run}
use acgc_project.Gc.WellFormed.{IsClocked, IsSound, run-IsSound}
use acgc_project.Session.Compile.{Manager}
use acgc_project.Session.State.{SessionState, Environment}
use acgc_project.Session.Process.{process_event}
use acgc_project.Session.Sound.{IsOrderly, appended}
use acgc_project.Session.Processed.{AvoidsTurns, node_of}
use acgc_project.Session.Collected.{process_event-IsTaken, process_event_total}
use acgc_project.Session.Worker.{Worker, World, offer, Reach, start, next, offered}
use acgc_project.Session.Running.{
  IsClock, Reserved, Reserved-AvoidsTurns, clock-IsTimely, IsRunning, Reach-IsRunning,
}
use acgc_project.Session.Drained.{worker_drains}
use acgc_project.Session.Registry.{Loaded, open_session}
use acgc_project.Session.Opened.{open_session-IsRunning}
use acgc_project.Tests.{hundredths}
use acgc_project.Tests.Vectors.{list_graph, east}

abbrev strict : Policy hundredths
strict = record {
  max_prompt_tokens = 100;
  max_tree_depth = 8;
  max_children_per_node = 4;
  low_relevance_threshold = 200;
  stale_after_turns = 10;
  decision_sweep_floor = 0;
  max_active_nodes = 1;
  sweep_headroom_ratio = 85;
}

-- the id of the k-th branch at the e-th event
abbrev name : ℕ → ℕ → Str
name e k = b'b' ∷ e ∷ k ∷ []

second : Str → ℕ
second (a ∷ b ∷ s) = b
second s = 0

third : Str → ℕ
third (a ∷ b ∷ c ∷ s) = c
third s = 0

name-IsClock : IsClock name
unfolding node_key root_key second
name-IsClock = record {
  apart = λ d e i k q. ap second q;
  no_root_key = λ e i sid q. ground (arith, q);
  no_turn_key = λ e i sid m q. ground (arith, q);
}

abbrev brief : ℕ → Compress hundredths
brief e k nodes = some (record (root_node hundredths (codes "s") (codes "t")) {
  node_id = name e k;
  node_type = NodeType.compressed_branch;
})

brief-IsClocked : (e : ℕ) → IsClocked (brief e) (name e)
unfolding third root_node
brief-IsClocked e = record {
  named = λ k nodes a q.
      sym (ap (λ (o : Option (StateNode hundredths)). elim o [ none ↦ [] | some n ↦ n.node_id ]) q);
  leaf = λ k nodes a q.
      sym
        (ap (λ (o : Option (StateNode hundredths)). elim o [ none ↦ [] | some n ↦ n.child_ids ]) q);
  early = λ k nodes a q.
      sym (
        ap (λ (o : Option (StateNode hundredths)). elim o [ none ↦ 0 | some n ↦ n.turn_number ]) q);
  apart = λ i j q. ap third q;
  no_turn_key = λ k sid m. name-IsClock.no_turn_key e k sid m;
}

abbrev pub manager : Manager hundredths
manager = record {
  default_budget = 400;
  token_counter = λ s. length s;
  cache_stable_render = false;
  semantic_weight = 20;
  top_k_at_compile = 12;
  archive_top_k = 12;
  channel_buffer = 1;
  hnsw_config = default_config;
}

abbrev worker : Worker hundredths
worker = record {
  buffer = 1;
  default_budget = 400;
  policy = strict;
  scorer = new_scorer hundredths 10 2000;
  name = name;
}

abbrev env : ℕ → Environment list_graph
env e = record {
  nodes_order = λ i t. values t.nodes;
  parents_order = λ m. m;
  ids_order = λ l. l;
  vectors_order = λ h. h.vectors;
  embed = λ text. some east;
  embed_model = codes "m";
  compress = brief e;
  fuel = 9;
}

pub perm_refl : {A : Type 0} (xs : List A) → Permᴰ xs xs
perm_refl [] = Permᴰ.nil
perm_refl (x ∷ xs) = Permᴰ.cons refl (perm_refl xs)

env-IsOrderly : (e : ℕ) → IsOrderly (env e)
env-IsOrderly e = record { nodes = λ i t. perm_refl (values t.nodes); parents = λ m. perm_refl m }

abbrev pub nothing_stored : Loaded hundredths
nothing_stored = record { snapshot = []; active_vectors = none; archived_vectors = none }

abbrev pub same_order : Map (Vector hundredths) → List (Str × Vector hundredths)
same_order m = m

abbrev pub opened : SessionState list_graph
opened = open_session list_graph manager true same_order nothing_stored (codes "s") (codes "t")

abbrev pub ask : Event
ask = record {
  event_id = codes "e1";
  session_id = codes "s";
  task_id = codes "t";
  event_type = EventType.user_prompt;
  sequence = 0;
  payload = codes "Ship the parser.";
  token_count = 7;
  metadata = [];
}

abbrev first_world : World list_graph
first_world = record { state = opened; accepted = [] }

open_session-IsRunning_example : IsRunning worker (codes "s") 0 first_world
open_session-IsRunning_example =
    open_session-IsRunning worker manager true same_order nothing_stored (codes "s") (codes "t")
      name-IsClock refl

opened-IsRunning : IsRunning worker (codes "s") 0 first_world
opened-IsRunning =
    open_session-IsRunning worker manager true same_order nothing_stored (codes "s") (codes "t")
      name-IsClock refl

Reach-IsRunning_example : IsRunning worker (codes "s") 0 (offer worker ask first_world)
Reach-IsRunning_example =
    Reach-IsRunning worker (codes "s") 0 name-IsClock (next start (offered ask)) opened-IsRunning

asked-IsRunning : IsRunning worker (codes "s") 0 (offer worker ask first_world)
asked-IsRunning =
    Reach-IsRunning worker (codes "s") 0 name-IsClock (next start (offered ask)) opened-IsRunning

worker_drains_example :
    (z : World list_graph) × Reach worker (offer worker ask first_world) z
    × (z.state.event_chan ≡ [])
    × (z.accepted ≡ (offer worker ask first_world).accepted)
    × (appended z.state.calls ≡ (offer worker ask first_world).accepted)
    × IsRunning worker (codes "s") 0 z
worker_drains_example =
    worker_drains worker (codes "s") 0 env (offer worker ask first_world) name-IsClock env-IsOrderly
      brief-IsClocked asked-IsRunning

opened-IsSound : IsSound (Reserved name 0) opened.tree
unfolding open_session
opened-IsSound = opened-IsRunning.sound

avoids : AvoidsTurns (Reserved name 0) opened.tree.session_id
avoids = Reserved-AvoidsTurns name 0 opened.tree.session_id name-IsClock

process_event_total_example :
    (n : ℕ) × (r : SessionState list_graph) × (process_event strict
        (new_scorer hundredths 10 2000)
        (record (env 0) { fuel = n })
        ask
        opened
      ≡ some r)
process_event_total_example =
    process_event_total (Reserved name 0) strict (new_scorer hundredths 10 2000) (env 0) ask opened
      avoids (env-IsOrderly 0) opened-IsSound

taken :
    (n : ℕ) × (r : SessionState list_graph) × (process_event strict
        (new_scorer hundredths 10 2000)
        (record (env 0) { fuel = n })
        ask
        opened
      ≡ some r)
taken =
    process_event_total (Reserved name 0) strict (new_scorer hundredths 10 2000) (env 0) ask opened
      avoids (env-IsOrderly 0) opened-IsSound

fueled-IsOrderly : (n : ℕ) → IsOrderly (record (env 0) { fuel = n })
fueled-IsOrderly n = record { nodes = (env-IsOrderly 0).nodes; parents = (env-IsOrderly 0).parents }

process_event-IsTaken_example :
    (sound : IsSound (Reserved name 1) taken.1.tree) × Grows opened.tree.nodes taken.1.tree.nodes
    × (taken.1.tree.turn_count ≡ opened.tree.turn_count + 1)
    × (taken.1.tree.session_id ≡ opened.tree.session_id)
    × IsKept taken.1.tree.nodes
        (node_key opened.tree.session_id (opened.tree.turn_count + 1))
        (node_of (record (env 0) { fuel = taken.0 }) ask opened)
    × ((node_of (record (env 0) { fuel = taken.0 }) ask opened).raw_event_refs ≡ ask.event_id ∷ [])
    × (taken.1.event_chan ≡ opened.event_chan)
    × (appended taken.1.calls ≡ appended opened.calls ++ ask ∷ [])
    × (taken.1.metrics.total_events ≡ opened.metrics.total_events + 1)
process_event-IsTaken_example =
    process_event-IsTaken (Reserved name 0) (Reserved name 1) strict (new_scorer hundredths 10 2000)
      (record (env 0) { fuel = taken.0 }) ask opened taken.1 avoids
      (clock-IsTimely name 0 (record (env 0) { fuel = taken.0 }) name-IsClock (brief-IsClocked 0))
      (fueled-IsOrderly taken.0) opened-IsSound taken.2

pub new_tree-formed : IsWellFormed opened.tree
unfolding open_session
new_tree-formed = new_tree-IsWellFormed (codes "s") (codes "t")

unused : (i : ℕ) → get (name 0 i) opened.tree.nodes ≡ none
unused i = opened-IsSound.reserved (name 0 i) (0, i, omega arith, refl)

later_apart : (i : ℕ) (j : Str) → Reserved name 1 j → name 0 i ≢ j
unfolding second
later_apart i j (d, k, le, same) q = absurd (omega (arith, ap second (q ∙ same)))

later-IsSound : IsSound (Reserved name 1) opened.tree
later-IsSound = record {
  formed = opened-IsSound.formed;
  parents = opened-IsSound.parents;
  reserved = λ j (d, i, le, same). opened-IsSound.reserved j (d, i, omega arith, same);
}

run-IsSound_example :
    let r =
      run
        (brief 0)
        strict
        (new_scorer hundredths 10 2000)
        (values opened.tree.nodes)
        (λ m. m)
        opened.tree
        TriggerReason.manual
        [] in
    IsSound (Reserved name 1) r.tree × Grows opened.tree.nodes r.tree.nodes
run-IsSound_example =
    run-IsSound (brief 0) (name 0) (Reserved name 1) strict (new_scorer hundredths 10 2000)
      opened.tree (values opened.tree.nodes) (λ m. m) TriggerReason.manual [] (brief-IsClocked 0)
      later_apart (perm_refl (values opened.tree.nodes)) perm_refl unused later-IsSound
