-- ===== src/Session/Running.antt =====
-- internal/session/manager.go: the invariant of a session while its worker runs.
use acgc_project.Common.{
  ℕ, ◌+◌, ◌≤◌, ◌<◌, Str, List, [], ◌∷◌, ◌++◌, Bool, true, some, if◌then◌else◌, ltb, length,
  length-append, ◌≡◌, ◌≢◌, refl, sym, ap, subst, ◌∙◌, ◌⊎◌, inl, inr, arith, append-nil,
  append_assoc, if_split,
}
use acgc_project.Domain.{Floats, Event, StateNode}
use acgc_project.StateTree.{node_key, root_key}
use acgc_project.StateTree.Parents.{IsHeld}
use acgc_project.StateTree.Kept.{Grows-IsHeld}
use acgc_project.VectorIndex.{Graphs}
use acgc_project.Gc.WellFormed.{IsClocked, IsSound}
use acgc_project.Session.State.{
  Call, snapshot_nodes, upsert_nodes, upsert_metrics, SessionState, Environment,
}
use acgc_project.Session.Process.{emit, process_event, snapshot_session}
use acgc_project.Session.Sound.{IsOrderly, appended, appended-append}
use acgc_project.Session.Processed.{AvoidsTurns}
use acgc_project.Session.Collected.{IsTimely, process_event-IsTaken}
use acgc_project.Session.Worker.{
  enqueue, use_budget, Worker, World, offer, Step, offered, budgeted, snapshot, processed, Reach,
  start, next,
}

-- Two calls of the compressor never get one id, and no id is the key of a root or of a turn.
pub record IsClock (name : ℕ → ℕ → Str) : Type 0 where
  pub apart : (d e i k : ℕ) → name d i ≡ name e k → d ≡ e
  pub no_root_key : (e i : ℕ) (sid : Str) → name e i ≢ root_key sid
  pub no_turn_key : (e i : ℕ) (sid : Str) (m : ℕ) → name e i ≢ node_key sid m

le_split : (j n : ℕ) → j ≤ n + 1 → (j ≤ n) ⊎ (j ≡ n + 1)
le_split j n h = ground arith

fits : (n m buffer : ℕ) → ltb n buffer ≡ true → m ≡ n + 1 → m ≤ buffer
fits n m buffer h e = ground arith

-- the ids of the calls from the e-th event on
abbrev pub Reserved : (ℕ → ℕ → Str) → ℕ → Str → Type 0
Reserved name e j = (d : ℕ) × (i : ℕ) × (e ≤ d) × (j ≡ name d i)

pub Reserved-AvoidsTurns :
    (name : ℕ → ℕ → Str) (e : ℕ) (sid : Str) → IsClock name → AvoidsTurns (Reserved name e) sid
Reserved-AvoidsTurns name e sid clock j (d, i, le, same) m q =
    clock.no_turn_key d i sid m (sym same ∙ q)

pub clock-IsTimely :
    {fl : Floats} {gs : Graphs fl} (name : ℕ → ℕ → Str) (k : ℕ) (env : Environment gs)
    → IsClock name
    → IsClocked env.compress (name k)
    → IsTimely (Reserved name k) (Reserved name (k + 1)) env
clock-IsTimely name k env clock clocked = record {
  name = name k;
  clocked = clocked;
  reserved = λ i. (k, i, omega arith, refl);
  fewer = λ j (d, i, le, same). (d, i, omega arith, same);
  apart = λ i j (d, i', le, same) q.
      let equal : k ≡ d = clock.apart k d i i' (q ∙ same) in absurd (omega arith);
}

module _ {fl : Floats} {gs : Graphs fl} (w : Worker fl) (sid : Str) (first : ℕ) where
  -- A worker of the session `sid` that was opened with its turn at `first`: the tree is sound; the
  -- events accepted are those of the archive and then those that wait, in order; no more wait than
  -- the buffer holds; the archive and the turns count the events; and each turn has its node.
  pub record IsRunning (x : World gs) : Type 0 where
    pub sound : IsSound (Reserved w.name x.state.metrics.total_events) x.state.tree
    pub session : x.state.tree.session_id ≡ sid
    pub accounted : x.accepted ≡ appended x.state.calls ++ x.state.event_chan
    pub bounded : length x.state.event_chan ≤ w.buffer
    pub counted : length (appended x.state.calls) ≡ x.state.metrics.total_events
    pub turns : x.state.tree.turn_count ≡ first + x.state.metrics.total_events
    pub noded :
        (k : ℕ)
        → first < k
        → k ≤ x.state.tree.turn_count
        → IsHeld x.state.tree.nodes (node_key sid k)

  offer-IsRunning : (event : Event) (x : World gs) → IsRunning x → IsRunning (offer w event x)
  unfolding offer enqueue
  offer-IsRunning event x h =
      if_split
        (λ (p : SessionState gs × Bool).
          IsRunning (record {
            state = p.0;
            accepted = if p.1 then x.accepted ++ event ∷ [] else x.accepted;
          }))
        (ltb (length x.state.event_chan) w.buffer)
        (λ e. record {
          sound = h.sound;
          session = h.session;
          accounted =
              ap (λ l. l ++ event ∷ []) h.accounted
              ∙ append_assoc (appended x.state.calls) x.state.event_chan (event ∷ []);
          bounded =
              fits (length x.state.event_chan) (length (x.state.event_chan ++ event ∷ [])) w.buffer
                e (length-append x.state.event_chan (event ∷ []));
          counted = h.counted;
          turns = h.turns;
          noded = h.noded;
        })
        (λ e. record {
          sound = h.sound;
          session = h.session;
          accounted = h.accounted;
          bounded = h.bounded;
          counted = h.counted;
          turns = h.turns;
          noded = h.noded;
        })

  processed-IsRunning :
      (x : World gs) (env : Environment gs) (event : Event) (waiting : List Event)
      (r : SessionState gs)
      → IsClock w.name
      → x.state.event_chan ≡ event ∷ waiting
      → IsOrderly env
      → IsClocked env.compress (w.name x.state.metrics.total_events)
      → process_event w.policy w.scorer env event (record (x.state) { event_chan = waiting })
        ≡ some r
      → IsRunning x
      → IsRunning (record x { state = r })
  processed-IsRunning x env event waiting r clock e orderly clocked done h =
      let k = x.state.metrics.total_events in
      let s = record (x.state) { event_chan = waiting } in
      let timely = clock-IsTimely w.name k env clock clocked in
      let avoids = Reserved-AvoidsTurns w.name k s.tree.session_id clock in
      let (sound, grows, turn, session, (node, found, same_content), refs, chan, archive, events) =
        process_event-IsTaken (Reserved w.name k) (Reserved w.name (k + 1)) w.policy w.scorer env
          event s r avoids timely orderly h.sound done in
      record {
        sound = subst (λ n. IsSound (Reserved w.name n) r.tree) (sym events) sound;
        session = session ∙ h.session;
        accounted =
            h.accounted
            ∙ ap (λ l. appended x.state.calls ++ l) e
            ∙ sym (append_assoc (appended x.state.calls) (event ∷ []) waiting)
            ∙ ap (λ l. l ++ waiting) (sym archive)
            ∙ ap (λ l. appended r.calls ++ l) (sym chan);
        bounded = rw chan (omega (arith, h.bounded, ap length e));
        counted =
            rw (archive, events)
              (omega (arith, h.counted, length-append (appended x.state.calls) (event ∷ [])));
        turns = omega (arith, turn, events, h.turns);
        noded = λ j above below.
            elim (le_split j x.state.tree.turn_count (subst (λ n. j ≤ n) turn below)) [
              | inl le ↦
                  Grows-IsHeld s.tree.nodes r.tree.nodes (node_key sid j) grows (h.noded j above le)
              | inr same ↦
                  subst (IsHeld r.tree.nodes)
                    (ap (λ i. node_key i (x.state.tree.turn_count + 1)) h.session
                      ∙ ap (node_key sid) (sym same))
                    (node, found)
            ];
      }

  budgeted-IsRunning :
      (request : ℕ) (x : World gs)
      → IsRunning x
      → IsRunning (record x { state = use_budget w.default_budget request x.state })
  unfolding use_budget
  budgeted-IsRunning request x h = record {
    sound = h.sound;
    session = h.session;
    accounted = h.accounted;
    bounded = h.bounded;
    counted = h.counted;
    turns = h.turns;
    noded = h.noded;
  }

  snapshot-IsRunning :
      (visited : List (StateNode fl)) (x : World gs)
      → IsRunning x
      → IsRunning (record x { state = snapshot_session visited x.state })
  unfolding snapshot_session emit appended
  snapshot-IsRunning visited x h =
      let calls : List (Call fl) =
        snapshot_nodes x.state.tree.session_id visited
        ∷ upsert_nodes visited
        ∷ upsert_metrics x.state.metrics
        ∷ [] in
      let same : appended (x.state.calls ++ calls) ≡ appended x.state.calls =
        appended-append x.state.calls calls ∙ append-nil (appended x.state.calls) in
      record {
        sound = h.sound;
        session = h.session;
        accounted = h.accounted ∙ ap (λ l. l ++ x.state.event_chan) (sym same);
        bounded = h.bounded;
        counted = ap length same ∙ h.counted;
        turns = h.turns;
        noded = h.noded;
      }

  pub Step-IsRunning : IsClock w.name → {x y : World gs} → Step w x y → IsRunning x → IsRunning y
  Step-IsRunning clock {x} (offered event) h = offer-IsRunning event x h
  Step-IsRunning clock {x} (budgeted request) h = budgeted-IsRunning request x h
  Step-IsRunning clock {x} (snapshot visited) h = snapshot-IsRunning visited x h
  Step-IsRunning clock {x} (processed env event waiting r e orderly clocked done) h =
      processed-IsRunning x env event waiting r clock e orderly clocked done h

  -- Whatever steps of clients and of the worker lead from a running state to another, that one is
  -- running too, if the compressor's ids are clocked.
  pub Reach-IsRunning : IsClock w.name → {x y : World gs} → Reach w x y → IsRunning x → IsRunning y
  Reach-IsRunning clock start h = h
  Reach-IsRunning clock (next before step) h =
      Step-IsRunning clock step (Reach-IsRunning clock before h)
