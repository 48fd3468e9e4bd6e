-- ===== src/Session/Worker.antt =====
-- internal/session/manager.go: `EnqueueEvent` of a session that is there, and the worker of a session
-- as steps. The channel of events is the list of those that wait, of at most `buffer`.
use acgc_project.Common.{
  ℕ, Str, List, [], ◌∷◌, ◌++◌, Bool, true, false, some, if◌then◌else◌, ltb, length, ◌≡◌,
}
use acgc_project.Domain.{Floats, Event, StateNode}
use acgc_project.VectorIndex.{Graphs}
use acgc_project.Scorer.{Scorer}
use acgc_project.Gc.{Policy}
use acgc_project.Gc.WellFormed.{IsClocked}
use acgc_project.Session.Compile.{effective_budget}
use acgc_project.Session.State.{SessionState, Environment}
use acgc_project.Session.Process.{process_event, snapshot_session}
use acgc_project.Session.Sound.{IsOrderly}

module _ {fl : Floats} {gs : Graphs fl} where
  -- the `select` of `EnqueueEvent`, for a channel with a buffer of at least 1; the code's channel of no
  -- buffer, which takes an event only while the worker waits for one, is not modelled
  unfoldable pub enqueue : ℕ → Event → SessionState gs → SessionState gs × Bool
  enqueue buffer event s =
      if ltb (length s.event_chan) buffer
      then (record s { event_chan = s.event_chan ++ event ∷ [] }, true)
      else (s, false)

  -- `CompilePrompt` writes the budget of a request to the session.
  unfoldable pub use_budget : ℕ → ℕ → SessionState gs → SessionState gs
  unfolding effective_budget
  use_budget default_budget request s = record s {
    token_budget = (effective_budget default_budget s.token_budget request).0;
  }

-- What stays fixed while a worker runs: the channel's buffer, the collector and the scorer, and the
-- ids that the compressor takes from the clock: `name e k` at its k-th call for the e-th event.
pub record Worker (fl : Floats) : Type 0 where
  pub buffer : ℕ
  pub default_budget : ℕ
  pub policy : Policy fl
  pub scorer : Scorer fl
  pub name : ℕ → ℕ → Str

-- a session, and the events for which `EnqueueEvent` has answered true
pub record World {fl : Floats} (gs : Graphs fl) : Type 0 where
  pub state : SessionState gs
  pub accepted : List Event

module _ {fl : Floats} {gs : Graphs fl} (w : Worker fl) where
  -- `EnqueueEvent`, and the event is accepted if it answers true
  unfoldable pub offer : Event → World gs → World gs
  unfolding enqueue
  offer event x =
      let (s, ok) = enqueue w.buffer event x.state in
      record { state = s; accepted = if ok then x.accepted ++ event ∷ [] else x.accepted }

  -- A step of a client or of the `select` of `sessionWorker`.
  pub data Step : World gs → World gs → Type 0 where
    offered : {x : World gs} (event : Event) → Step x (offer event x)
    budgeted :
        {x : World gs} (request : ℕ)
        → Step x (record x { state = use_budget w.default_budget request x.state })
    snapshot :
        {x : World gs} (visited : List (StateNode fl))
        → Step x (record x { state = snapshot_session visited x.state })
    processed :
        {x : World gs} (env : Environment gs) (event : Event) (waiting : List Event)
        (r : SessionState gs)
        → x.state.event_chan ≡ event ∷ waiting
        → IsOrderly env
        → IsClocked env.compress (w.name x.state.metrics.total_events)
        → process_event w.policy w.scorer env event (record (x.state) { event_chan = waiting })
          ≡ some r
        → Step x (record x { state = r })

  pub data Reach (x : World gs) : World gs → Type 0 where
    start : Reach x x
    next : {y z : World gs} → Reach x y → Step y z → Reach x z
