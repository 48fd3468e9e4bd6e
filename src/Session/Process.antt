-- ===== src/Session/Process.antt =====
-- internal/session/manager.go: `processEvent`, step by step as the code numbers them, and
-- `snapshotSession`.
use acgc_project.Common.{
  ◌+◌, ◌%◌, Str, List, [], ◌∷◌, ◌++◌, map, Bool, true, false, ◌||◌, Option, none, some,
  if◌then◌else◌, is_empty, ltb, ◌==◌, sum_by, update, ◌+ℤ◌,
}
use acgc_project.Domain.{Floats, Event, EventType, SessionMetrics, StateNode}
use acgc_project.StateTree.{increment_turn, add_node, get_node, get_active_nodes}
use acgc_project.VectorIndex.{Graphs, Vector}
use acgc_project.Scorer.{Scorer, score_all}
use acgc_project.Gc.{Policy, TriggerReason, Run, should_run, run, write_scores}
use acgc_project.Session.Compile.{payload_for_embedding}
use acgc_project.Session.State.{
  Call, append_event, upsert_node, upsert_nodes, save_branch, log_gc, upsert_metrics,
  snapshot_nodes, SessionState, Environment, try_insert, reconcile_semantic_indices,
}

abbrev pub is_user_prompt : EventType → Bool
is_user_prompt EventType.user_prompt = true
is_user_prompt _ = false

module _ {fl : Floats} where
  -- `node.Embedding = vec; node.EmbedModel = …`
  unfoldable pub set_embedding : Vector fl → Str → StateNode fl → StateNode fl
  set_embedding vec model n = record n { embedding = vec; embed_model = model }

  -- step 6
  unfoldable pub count_event : Event → SessionMetrics fl → SessionMetrics fl
  count_event event m = record m {
    total_events = m.total_events + 1;
    total_turns = if is_user_prompt event.event_type then m.total_turns + 1 else m.total_turns;
  }

module _ {fl : Floats} {gs : Graphs fl} where
  unfoldable pub emit : List (Call fl) → SessionState gs → SessionState gs
  emit calls s = record s { calls = s.calls ++ calls }

  -- step 3, for a node that the tree holds
  unfoldable pub embed_node :
      Environment gs → Event → Str → StateNode fl → SessionState gs → SessionState gs
  unfolding set_embedding try_insert
  embed_node env event id n s =
      let text = payload_for_embedding n event in
      elim s.indexes [
        | none ↦ s
        | some x ↦ if is_empty text then s else elim (env.embed text) [
          | none ↦ s
          | some vec ↦ record s {
            tree = record (s.tree) {
              nodes = update id (set_embedding vec env.embed_model) s.tree.nodes;
            };
            indexes = some (record x { active_index = try_insert gs id vec x.active_index });
            last_user_embedding =
                if is_user_prompt event.event_type then vec else s.last_user_embedding;
          }
        ]
      ]

  -- steps 1 to 4: the event is stored, becomes a node, and the node is embedded and stored
  unfoldable pub admit : Environment gs → Event → SessionState gs → SessionState gs
  unfolding emit embed_node
  admit env event s =
      let stored = emit (append_event event ∷ []) s in
      let t = increment_turn s.tree in
      let numbered = record event { sequence = t.turn_count } in
      let (tree, id) = add_node (env.nodes_order 0 t) numbered t in
      let grown = record stored { tree = tree } in
      elim (get_node id tree) [
        | none ↦ grown
        | some n ↦
            let embedded = embed_node env numbered id n grown in
            elim (get_node id embedded.tree) [
              | none ↦ embedded
              | some m ↦ emit (upsert_node m ∷ []) embedded
            ]
      ]

  -- step 5
  unfoldable pub rescore : Scorer fl → Environment gs → SessionState gs → SessionState gs
  rescore sc env s =
      let active = get_active_nodes (env.nodes_order 1 s.tree) in
      let scored = score_all fl sc active s.tree.turn_count s.last_user_embedding in
      record s { tree = record (s.tree) { nodes = write_scores scored s.tree.nodes } }

  -- the body of the `if` of step 7, for a run that has ended
  unfoldable pub after_run : Environment gs → List Str → Run fl → SessionState gs → SessionState gs
  unfolding emit
  after_run env pre r s =
      let result = r.result in
      let changed = ltb 0 result.nodes_swept || ltb 0 result.branches_compressed in
      let saved =
        (if changed then upsert_nodes (env.nodes_order 5 r.tree) ∷ [] else [])
        ++ (map save_branch result.records ++ log_gc r.tree.session_id result ∷ []) in
      emit saved (record s {
        tree = r.tree;
        metrics = record (s.metrics) {
          gc_runs = s.metrics.gc_runs + 1;
          total_tokens_saved = s.metrics.total_tokens_saved +ℤ result.tokens_freed;
          branches_compressed = s.metrics.branches_compressed + result.branches_compressed;
        };
        indexes = elim s.indexes [
          | none ↦ none
          | some x ↦ some (
              reconcile_semantic_indices gs env.vectors_order (env.nodes_order 4 r.tree) r.tree
                (env.ids_order pre) x)
        ];
      })

  unfoldable pub collect :
      Policy fl → Scorer fl → Environment gs → TriggerReason → SessionState gs → SessionState gs
  unfolding after_run
  collect p sc env reason s =
      let pre = map (λ n. n.node_id) (get_active_nodes (env.nodes_order 1 s.tree)) in
      after_run env pre
        (run env.compress p sc (env.nodes_order 3 s.tree) env.parents_order s.tree reason
          s.last_user_embedding)
        s

  -- step 7; `none`: the fuel of the depth ran out
  unfoldable pub maybe_collect :
      Policy fl → Scorer fl → Environment gs → SessionState gs → Option (SessionState gs)
  unfolding collect
  maybe_collect p sc env s =
      let estimated = sum_by (λ n. n.token_count) (get_active_nodes (env.nodes_order 1 s.tree)) in
      elim (should_run p env.fuel (env.nodes_order 2 s.tree) (env.nodes_order 6 s.tree) s.tree
        estimated s.token_budget) [
          | none ↦ none
          | some none ↦ some s
          | some (some reason) ↦ some (collect p sc env reason s)
        ]

  -- the metrics, every five events
  unfoldable pub flush_metrics : SessionState gs → SessionState gs
  unfolding emit
  flush_metrics s =
      if s.metrics.total_events % 5 == 0 then emit (upsert_metrics s.metrics ∷ []) s else s

  unfoldable pub process_event :
      Policy fl → Scorer fl → Environment gs → Event → SessionState gs → Option (SessionState gs)
  unfolding admit rescore count_event maybe_collect flush_metrics
  process_event p sc env event s =
      let scored = rescore sc env (admit env event s) in
      elim (maybe_collect p sc env (record scored { metrics = count_event event scored.metrics })) [
        | none ↦ none
        | some r ↦ some (flush_metrics r)
      ]

  -- `visited` is the order of `GetAllNodes`
  unfoldable pub snapshot_session : List (StateNode fl) → SessionState gs → SessionState gs
  unfolding emit
  snapshot_session visited s =
      emit
        (snapshot_nodes s.tree.session_id visited
          ∷ upsert_nodes visited
          ∷ upsert_metrics s.metrics
          ∷ [])
        s
