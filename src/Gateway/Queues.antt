-- ===== src/Gateway/Queues.antt =====
-- internal/gateway/server.go: what a handler adds to the queue of a session.
use acgc_project.Common.{
  some_injective, ℕ, Str, List, [], ◌∷◌, ◌++◌, Bool, false, some, if◌then◌else◌, Map, get,
  map_option, ◌≡◌, refl, sym, ap, ◌∙◌, inl, inr, arith, str_eq, str_eq_refl, ltb, length,
  get-update,
}
use acgc_project.Domain.{Floats, Event}
use acgc_project.VectorIndex.{Graphs}
use acgc_project.Session.Compile.{effective_budget}
use acgc_project.Session.State.{SessionState}
use acgc_project.Session.Registry.{enqueue_event}
use acgc_project.Session.Opened.{enqueue_event_lem}
use acgc_project.Gateway.{Server, compile_prompt}

-- What is in a channel after the events are offered to it, one by one, while nothing is taken out: an
-- event is appended if there is room at its turn, and dropped if not.
unfoldable pub queue_after : ℕ → List Event → List Event → List Event
queue_after buffer queue [] = queue
queue_after buffer queue (event ∷ events) =
    queue_after buffer (if ltb (length queue) buffer then queue ++ event ∷ [] else queue) events

queue_after-append :
    (buffer : ℕ) (xs ys queue : List Event)
    → queue_after buffer queue (xs ++ ys) ≡ queue_after buffer (queue_after buffer queue xs) ys
unfolding queue_after
queue_after-append buffer [] ys queue = refl
queue_after-append buffer (x ∷ xs) ys queue = queue_after-append buffer xs ys _

module _ {fl : Floats} {gs : Graphs fl} where
  -- From one state of the sessions to another: `sid` is there in both, its tree and its calls of the
  -- store stay, its queue is what the list leaves of it, and every other session stays.
  pub record Adds (buffer : ℕ) (sid : Str) (before after : Map (SessionState gs))
      (offered : List Event) : Type 0 where
    pub was : SessionState gs
    pub is : SessionState gs
    pub found : get sid before ≡ some was
    pub left : get sid after ≡ some is
    pub tree : is.tree ≡ was.tree
    pub calls : is.calls ≡ was.calls
    pub chan : is.event_chan ≡ queue_after buffer was.event_chan offered
    pub others : (j : Str) → str_eq sid j ≡ false → get j after ≡ get j before

  pub enqueue_event-Adds :
      (s : Server fl) (sid : Str) (event : Event) (sessions : Map (SessionState gs))
      (x : SessionState gs)
      → get sid sessions ≡ some x
      → Adds s.manager.channel_buffer sid sessions
          (enqueue_event s.manager sid event sessions).0
          (event ∷ [])
  unfolding queue_after
  enqueue_event-Adds s sid event sessions x e =
      elim (enqueue_event_lem s.manager sid event sessions) [
        | inl (o, _, _) ↦ absurd (ground (arith, e, o))
        | inr (inl (y, o, full, _, same)) ↦ record {
          was = y;
          is = y;
          found = o;
          left = same sid ∙ o;
          tree = refl;
          calls = refl;
          chan = ground (arith, full);
          others = λ j _. same j;
        }
        | inr (inr (y, o, room, _, written)) ↦ record {
          was = y;
          is = record y { event_chan = y.event_chan ++ event ∷ [] };
          found = o;
          left =
              written sid
              ∙ ap
                  (λ (b : Bool).
                    if b
                    then some (record y { event_chan = y.event_chan ++ event ∷ [] })
                    else get sid sessions)
                  (str_eq_refl sid);
          tree = refl;
          calls = refl;
          chan = ground (arith, room);
          others = λ j n.
              written j
              ∙ ap
                  (λ (b : Bool).
                    if b
                    then some (record y { event_chan = y.event_chan ++ event ∷ [] })
                    else get j sessions)
                  n;
        }
      ]

  pub compile_prompt-Adds :
      (s : Server fl) (sid task user system : Str) (budget : ℕ) (sessions : Map (SessionState gs))
      (x : SessionState gs)
      → get sid sessions ≡ some x
      → Adds s.manager.channel_buffer sid sessions
          (compile_prompt gs s sid task user system budget sessions).0
          []
  unfolding compile_prompt queue_after
  compile_prompt-Adds s sid task user system budget sessions x e =
      let y = record x {
        token_budget = (effective_budget s.manager.default_budget x.token_budget budget).0;
      } in
      rw (e, compile_prompt)
        record {
          was = x;
          is = y;
          found = e;
          left =
              get-update sid sid (λ _. y) sessions
              ∙ ap
                  (λ (b : Bool).
                    if b then map_option (λ _. y) (get sid sessions) else get sid sessions)
                  (str_eq_refl sid)
              ∙ ap (map_option (λ _. y)) e;
          tree = refl;
          calls = refl;
          chan = refl;
          others = λ j n.
              get-update sid j (λ _. y) sessions
              ∙ ap
                  (λ (b : Bool). if b then map_option (λ _. y) (get j sessions) else get j sessions)
                  n;
        }

  pub then-Adds :
      (buffer : ℕ) (sid : Str) (a b c : Map (SessionState gs)) (xs ys : List Event)
      → Adds buffer sid a b xs
      → Adds buffer sid b c ys
      → Adds buffer sid a c (xs ++ ys)
  then-Adds buffer sid a b c xs ys g h =
      let same : h.was ≡ g.is = some_injective (sym h.found ∙ g.left) in
      record {
        was = g.was;
        is = h.is;
        found = g.found;
        left = h.left;
        tree = h.tree ∙ ap (λ (x : SessionState gs). x.tree) same ∙ g.tree;
        calls = h.calls ∙ ap (λ (x : SessionState gs). x.calls) same ∙ g.calls;
        chan =
            h.chan
            ∙ ap (λ (x : SessionState gs). queue_after buffer x.event_chan ys) same
            ∙ ap (λ l. queue_after buffer l ys) g.chan
            ∙ sym (queue_after-append buffer xs ys g.was.event_chan);
        others = λ j n. h.others j n ∙ g.others j n;
      }
