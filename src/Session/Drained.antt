-- ===== src/Session/Drained.antt =====
-- internal/session/manager.go: runs of the worker until no event waits.
use acgc_project.Common.{ℕ, ◌+◌, Str, List, [], ◌∷◌, ◌++◌, ◌≡◌, refl, sym, ap, ◌∙◌, append-nil}
use acgc_project.Domain.{Floats, Event}
use acgc_project.VectorIndex.{Graphs}
use acgc_project.Gc.WellFormed.{IsClocked}
use acgc_project.Session.State.{SessionState, Environment}
use acgc_project.Session.Sound.{IsOrderly, appended}
use acgc_project.Session.Collected.{process_event-IsTaken, process_event_total}
use acgc_project.Session.Worker.{Worker, World, Step, processed, Reach, start, next}
use acgc_project.Session.Running.{
  IsClock, Reserved, Reserved-AvoidsTurns, clock-IsTimely, IsRunning, Step-IsRunning,
}

module _ {fl : Floats} {gs : Graphs fl} (w : Worker fl) (sid : Str) (first : ℕ) where
  process_head :
      (env : Environment gs) (y : World gs) (event : Event) (waiting : List Event)
      → IsClock w.name
      → IsOrderly env
      → IsClocked env.compress (w.name y.state.metrics.total_events)
      → y.state.event_chan ≡ event ∷ waiting
      → IsRunning w sid first y
      → (r : SessionState gs) × Step w y (record y { state = r }) × (r.event_chan ≡ waiting)
  process_head env y event waiting clock orderly clocked e h =
      let k = y.state.metrics.total_events in
      let s = record (y.state) { event_chan = waiting } in
      let avoids = Reserved-AvoidsTurns w.name k s.tree.session_id clock in
      let (n, r, done) =
        process_event_total (Reserved w.name k) w.policy w.scorer env event s avoids orderly
          h.sound in
      let fueled = record env { fuel = n } in
      let ordered : IsOrderly fueled = record {
        nodes = orderly.nodes;
        parents = orderly.parents;
      } in
      let (sound, grows, turn, session, noded, refs, chan, archive, events) =
        process_event-IsTaken (Reserved w.name k) (Reserved w.name (k + 1)) w.policy w.scorer fueled
          event s r avoids (clock-IsTimely w.name k fueled clock clocked) ordered h.sound done in
      (r, processed fueled event waiting r e ordered clocked done, chan)

  drain :
      (envs : ℕ → Environment gs) (queue : List Event) (x y : World gs)
      → IsClock w.name
      → ((k : ℕ) → IsOrderly (envs k))
      → ((k : ℕ) → IsClocked (envs k).compress (w.name k))
      → y.state.event_chan ≡ queue
      → Reach w x y
      → IsRunning w sid first y
      → (z : World gs) × Reach w x z
        × (z.state.event_chan ≡ [])
        × (z.accepted ≡ y.accepted)
        × (appended z.state.calls ≡ y.accepted)
        × IsRunning w sid first z
  drain envs [] x y clock orderly clocked e before h = (
    y,
    before,
    e,
    refl,
    sym (
        h.accounted
        ∙ ap (λ l. appended y.state.calls ++ l) e
        ∙ append-nil (appended y.state.calls)),
    h,
  )
  drain envs (event ∷ queue) x y clock orderly clocked e before h =
      let k = y.state.metrics.total_events in
      let (r, step, left) = process_head (envs k) y event queue clock (orderly k) (clocked k) e h in
      drain envs queue x (record y { state = r }) clock orderly clocked left (next before step)
        (Step-IsRunning w sid first clock step h)

  -- The worker empties its queue: from any state that is running, given for the k-th event an
  -- environment whose orders are visits and whose compressor is clocked, steps of `processEvent` lead
  -- to a running state with an empty queue, in which the archive is the accepted events in order.
  pub worker_drains :
      (envs : ℕ → Environment gs) (x : World gs)
      → IsClock w.name
      → ((k : ℕ) → IsOrderly (envs k))
      → ((k : ℕ) → IsClocked (envs k).compress (w.name k))
      → IsRunning w sid first x
      → (z : World gs) × Reach w x z
        × (z.state.event_chan ≡ [])
        × (z.accepted ≡ x.accepted)
        × (appended z.state.calls ≡ x.accepted)
        × IsRunning w sid first z
  worker_drains envs x clock orderly clocked h =
      drain envs x.state.event_chan x x clock orderly clocked refl start h
