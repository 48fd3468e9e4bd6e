-- ===== src/Session/Collected.antt =====
-- internal/session/manager.go: the collection after an event, and `processEvent` as a whole.
use acgc_project.Common.{
  ℕ, suc, ◌+◌, Str, List, [], ◌∷◌, ◌++◌, map, ◌||◌, Option, none, some, if◌then◌else◌, ltb, ◌≡◌,
  ◌≢◌, refl, sym, ap, subst, ◌∙◌, ◌⊎◌, inl, inr, Option-cases, arith, ◌%◌, ◌==◌, if_both,
  append-nil, sum_by,
}
use acgc_project.Domain.{Floats, Event}
use acgc_project.StateTree.{Tree, node_key, get_active_nodes}
use acgc_project.StateTree.Kept.{IsKept, Grows, Grows-IsKept, then-Grows}
use acgc_project.VectorIndex.{Graphs}
use acgc_project.Scorer.{Scorer}
use acgc_project.Gc.{Policy, TriggerReason, CompressedBranch, should_run, run}
use acgc_project.Gc.Triggers.{should_run_total}
use acgc_project.Gc.Cases.{run-IsSameTurn}
use acgc_project.Gc.WellFormed.{IsClocked, IsSound, run-IsSound}
use acgc_project.Session.State.{
  Call, upsert_nodes, save_branch, log_gc, upsert_metrics, SessionState, Environment,
}
use acgc_project.Session.Process.{
  emit, admit, rescore, count_event, after_run, collect, maybe_collect, flush_metrics,
  process_event,
}
use acgc_project.Session.Sound.{
  IsOrderly, appended, appended-append, IsStage, idle-IsStage, then-IsStage, emit-IsStage,
  rescore-IsStage,
}
use acgc_project.Session.Processed.{AvoidsTurns, node_of, node_of-refs, admit-IsTaken}

appended-saved :
    {fl : Floats} (nodes : List (Call fl)) (records : List CompressedBranch) (last : List (Call fl))
    → appended nodes ≡ []
    → appended last ≡ []
    → appended (nodes ++ (map save_branch records ++ last)) ≡ []
unfolding appended
appended-saved nodes [] last h k = appended-append nodes last ∙ rw (h, k) refl
appended-saved nodes (r ∷ records) last h k =
    appended-append nodes (save_branch r ∷ (map save_branch records ++ last))
    ∙ rw h (appended-saved [] records last refl k)

-- What a worker's compressor has to keep to while one event is processed: its ids come from a clock,
-- are reserved by `Q` before, and do not meet those that `R` reserves after.
pub record IsTimely {fl : Floats} {gs : Graphs fl} (Q R : Str → Type 0) (env : Environment gs)
    : Type 0 where
  pub name : ℕ → Str
  pub clocked : IsClocked env.compress name
  pub reserved : (i : ℕ) → Q (name i)
  pub fewer : (j : Str) → R j → Q j
  pub apart : (i : ℕ) (j : Str) → R j → name i ≢ j

module _ {fl : Floats} {gs : Graphs fl} (Q R : Str → Type 0) where
  weaken : (env : Environment gs) (t : Tree fl) → IsTimely Q R env → IsSound Q t → IsSound R t
  weaken env t h w = record {
    formed = w.formed;
    parents = w.parents;
    reserved = λ j r. w.reserved j (h.fewer j r);
  }

  collect-IsStage :
      (p : Policy fl) (sc : Scorer fl) (env : Environment gs) (reason : TriggerReason)
      (s : SessionState gs)
      → IsTimely Q R env
      → IsOrderly env
      → IsSound Q s.tree
      → IsStage R s (collect p sc env reason s)
  unfolding collect after_run emit appended
  collect-IsStage p sc env reason s h orderly w =
      let visited = env.nodes_order 3 s.tree in
      let r = run env.compress p sc visited env.parents_order s.tree reason s.last_user_embedding in
      let swept =
        run-IsSound env.compress h.name R p sc s.tree visited env.parents_order reason
          s.last_user_embedding h.clocked h.apart (orderly.nodes 3 s.tree) orderly.parents
          (λ i. w.reserved (h.name i) (h.reserved i)) (weaken env s.tree h w) in
      let same =
        run-IsSameTurn env.compress p sc s.tree visited env.parents_order reason
          s.last_user_embedding in
      let changed = ltb 0 r.result.nodes_swept || ltb 0 r.result.branches_compressed in
      let nodes : List (Call fl) =
        if changed then upsert_nodes (env.nodes_order 5 r.tree) ∷ [] else [] in
      let no_event : appended nodes ≡ [] =
        if_both (λ (l : List (Call fl)). appended l ≡ []) changed refl refl in
      let last : List (Call fl) = log_gc r.tree.session_id r.result ∷ [] in
      record {
        sound = swept.0;
        grows = swept.1;
        turn = same.turn;
        session = same.session;
        chan = refl;
        events = refl;
        archive =
            appended-append s.calls (nodes ++ (map save_branch r.result.records ++ last))
            ∙ ap (λ l. appended s.calls ++ l)
                (appended-saved nodes r.result.records last no_event refl)
            ∙ append-nil (appended s.calls);
      }

  -- Step 7 either does nothing or collects.
  maybe_collect_cases :
      (p : Policy fl) (sc : Scorer fl) (env : Environment gs) (s r : SessionState gs)
      → maybe_collect p sc env s ≡ some r
      → (r ≡ s) ⊎ ((reason : TriggerReason) × (r ≡ collect p sc env reason s))
  unfolding maybe_collect
  maybe_collect_cases p sc env s r e =
      elim (Option-cases (
        should_run p env.fuel (env.nodes_order 2 s.tree) (env.nodes_order 6 s.tree) s.tree
          (sum_by (λ n. n.token_count) (get_active_nodes (env.nodes_order 1 s.tree)))
          s.token_budget)) [
            | inl o ↦ ground arith
            | inr (answer, o) ↦ elim (Option-cases answer) [
              | inl q ↦ inl (ground arith)
              | inr (reason, q) ↦ inr (reason, ground arith)
            ]
          ]

  flush_metrics-IsStage : (s : SessionState gs) → IsSound R s.tree → IsStage R s (flush_metrics s)
  unfolding flush_metrics appended
  flush_metrics-IsStage s w =
      if_both (IsStage R s) (s.metrics.total_events % 5 == 0)
        (emit-IsStage R (upsert_metrics s.metrics ∷ []) s refl w) (idle-IsStage R s w)

  -- `processEvent`, whatever it is that the embedder and the compressor answer, if it returns: on a
  -- sound tree, with orders that are visits and a compressor that takes reserved ids from a clock: under
  -- the key of the next turn the tree holds the node that `AddNode` makes of this event, which refers to
  -- its id, and under each key of before the node that was there, these nodes up to their status,
  -- children, scores and embedding; the event is the last of the archive, the tree stays sound, the queue
  -- is left alone, and the event is counted.
  pub process_event-IsTaken :
      (p : Policy fl) (sc : Scorer fl) (env : Environment gs) (event : Event)
      (s r : SessionState gs)
      → AvoidsTurns Q s.tree.session_id
      → IsTimely Q R env
      → IsOrderly env
      → IsSound Q s.tree
      → process_event p sc env event s ≡ some r
      → (sound : IsSound R r.tree) × Grows s.tree.nodes r.tree.nodes
        × (r.tree.turn_count ≡ s.tree.turn_count + 1)
        × (r.tree.session_id ≡ s.tree.session_id)
        × IsKept r.tree.nodes
            (node_key s.tree.session_id (s.tree.turn_count + 1))
            (node_of env event s)
        × ((node_of env event s).raw_event_refs ≡ event.event_id ∷ [])
        × (r.event_chan ≡ s.event_chan)
        × (appended r.calls ≡ appended s.calls ++ event ∷ [])
        × (r.metrics.total_events ≡ s.metrics.total_events + 1)
  unfolding process_event count_event
  process_event-IsTaken p sc env event s r avoids h orderly w done =
      let admitted = admit env event s in
      let taken = admit-IsTaken Q env event s avoids orderly w in
      let scored = rescore sc env admitted in
      let rescored = rescore-IsStage Q sc env admitted taken.sound in
      let counted = record scored { metrics = count_event event scored.metrics } in
      elim (Option-cases (maybe_collect p sc env counted)) [
        | inl o ↦ absurd (ground arith)
        | inr (m, o) ↦
            let last : r ≡ flush_metrics m = ground arith in
            let sound : IsSound Q counted.tree = rescored.sound in
            let stage : IsStage R counted m = elim (maybe_collect_cases p sc env counted m o) [
              | inl e ↦
                  subst (IsStage R counted) (sym e)
                    (idle-IsStage R counted (weaken env counted.tree h sound))
              | inr (reason, e) ↦
                  subst (IsStage R counted) (sym e)
                    (collect-IsStage p sc env reason counted h orderly sound)
            ] in
            let whole =
              then-IsStage R R counted m (flush_metrics m) stage
                (flush_metrics-IsStage m stage.sound) in
            let at_end = subst (IsStage R counted) (sym last) whole in
            let later =
              then-Grows admitted.tree.nodes counted.tree.nodes r.tree.nodes rescored.grows
                at_end.grows in
            (
              at_end.sound,
              then-Grows s.tree.nodes admitted.tree.nodes r.tree.nodes taken.grows later,
              at_end.turn ∙ (rescored.turn ∙ taken.turn),
              at_end.session ∙ (rescored.session ∙ taken.session),
              Grows-IsKept admitted.tree.nodes r.tree.nodes _ (node_of env event s) later
                  taken.noded,
              node_of-refs env event s,
              at_end.chan ∙ (rescored.chan ∙ taken.chan),
              at_end.archive ∙ (rescored.archive ∙ taken.archive),
              at_end.events ∙ ap (λ n. n + 1) (rescored.events ∙ taken.events),
            )
      ]

module _ {fl : Floats} {gs : Graphs fl} where
  maybe_collect_returns :
      (p : Policy fl) (sc : Scorer fl) (env : Environment gs) (s : SessionState gs)
      (answer : Option TriggerReason)
      → should_run p env.fuel
          (env.nodes_order 2 s.tree)
          (env.nodes_order 6 s.tree)
          s.tree
          (sum_by (λ n. n.token_count) (get_active_nodes (env.nodes_order 1 s.tree)))
          s.token_budget
        ≡ some answer
      → (r : SessionState gs) × (maybe_collect p sc env s ≡ some r)
  unfolding maybe_collect
  maybe_collect_returns p sc env s none e = (s, ground arith)
  maybe_collect_returns p sc env s (some reason) e = (collect p sc env reason s, ground arith)

module _ {fl : Floats} {gs : Graphs fl} (Q : Str → Type 0) where
  -- Some amount of fuel is enough for `processEvent` to return, on a sound tree, if the orders are those
  -- of visits and no reserved id is the key of a turn.
  pub process_event_total :
      (p : Policy fl) (sc : Scorer fl) (env : Environment gs) (event : Event) (s : SessionState gs)
      → AvoidsTurns Q s.tree.session_id
      → IsOrderly env
      → IsSound Q s.tree
      → (n : ℕ) × (r : SessionState gs) × (process_event p sc (record env { fuel = n }) event s
          ≡ some r)
  unfolding process_event
  process_event_total p sc env event s avoids orderly w =
      let admitted = admit env event s in
      let taken = admit-IsTaken Q env event s avoids orderly w in
      let scored = rescore sc env admitted in
      let formed = (rescore-IsStage Q sc env admitted taken.sound).sound.formed in
      let n = suc formed.acyclic.bound in
      let active = get_active_nodes (env.nodes_order 1 scored.tree) in
      let (answer, e) =
        should_run_total p n (env.nodes_order 2 scored.tree) (env.nodes_order 6 scored.tree)
          scored.tree (sum_by (λ k. k.token_count) active) scored.token_budget formed
          (omega arith) in
      let counted = record scored { metrics = count_event event scored.metrics } in
      let (m, o) = maybe_collect_returns p sc (record env { fuel = n }) counted answer e in
      (n, flush_metrics m, ground (arith, o))
