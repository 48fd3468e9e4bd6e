-- ===== src/Session/Opened.antt =====
-- internal/session/manager.go: a session that is opened, and one that is opened again after its end.
use mathlib.Core.List.{Memᴰ}
use acgc_project.Common.{
  ℕ, ◌≤◌, ◌<◌, Str, List, [], ◌∷◌, ◌++◌, Bool, true, false, none, some, if◌then◌else◌, is_empty,
  Map, get, put, ◌≡◌, refl, sym, ap, subst, ◌∙◌, ◌⊎◌, inl, inr, Bool-cases, Option-cases, arith,
  ltb, length, str_eq, str_eq_iff, str_eq_refl, get-put, get-update, get-delete, mem-perm,
  get-put_self, get-mem,
}
use acgc_project.Domain.{Floats, Event, StateNode}
use acgc_project.StateTree.{Tree, new_tree, root_key, root_node, restore_from_snapshot}
use acgc_project.StateTree.Invariant.{IsWellFormed, Visits}
use acgc_project.StateTree.Writes.{new_tree-IsWellFormed}
use acgc_project.StateTree.Restore.{restore-visited}
use acgc_project.VectorIndex.{Graphs, Vector}
use acgc_project.Gc.WellFormed.{IsSound}
use acgc_project.Session.Compile.{Manager}
use acgc_project.Session.State.{SessionState}
use acgc_project.Session.Sound.{appended}
use acgc_project.Session.Worker.{Worker, enqueue}
use acgc_project.Session.Running.{IsClock, Reserved, IsRunning}
use acgc_project.Session.Registry.{
  Loaded, no_metrics, open_session, get_or_create, enqueue_event, end_idle,
}

mem-is_empty {ℓ} : {A : Type ℓ} {a : A} (l : List A) → Memᴰ a l → is_empty l ≡ false
mem-is_empty [] h = elim h [ ]
mem-is_empty (x ∷ l) h = refl

module _ {fl : Floats} {gs : Graphs fl} where
  -- A session that `GetOrCreate` opens without a snapshot is running, with no event accepted, if the
  -- compressor's ids are clocked.
  pub open_session-IsRunning :
      (w : Worker fl) (m : Manager fl) (semantic : Bool)
      (visit : Map (Vector fl) → List (Str × Vector fl)) (loaded : Loaded fl) (sid task : Str)
      → IsClock w.name
      → loaded.snapshot ≡ []
      → IsRunning w sid 0
          (record { state = open_session gs m semantic visit loaded sid task; accepted = [] })
  unfolding open_session no_metrics appended new_tree root_node get
  open_session-IsRunning w m semantic visit loaded sid task clock e =
      let opened = open_session gs m semantic visit loaded sid task in
      let same : opened.tree ≡ new_tree fl sid task =
        ap
          (λ (l : List (StateNode fl)).
            if is_empty l then new_tree fl sid task else restore_from_snapshot sid task l)
          e in
      let sound = subst (IsSound (Reserved w.name 0)) (sym same) (fresh sid task w.name clock) in
      record {
        sound = sound;
        session = ap (λ t. t.session_id) same ∙ refl;
        accounted = refl;
        bounded = omega arith;
        counted = refl;
        turns = ap (λ t. t.turn_count) same ∙ refl;
        noded = λ k above below. absurd (omega (arith, ap (λ (t : Tree fl). t.turn_count) same));
      }
    where
      fresh :
          (sid task : Str) (name : ℕ → ℕ → Str)
          → IsClock name
          → IsSound (Reserved name 0) (new_tree fl sid task)
      fresh sid task name clock = record {
        formed = new_tree-IsWellFormed sid task;
        parents = (inl refl, _);
        reserved = λ j (d, i, le, same). elim (Bool-cases (str_eq (root_key sid) j)) [
          | inl e ↦
              absurd
                (clock.no_root_key d i sid (sym same ∙ sym ((str_eq_iff (root_key sid) j).0 e)))
          | inr o ↦ rw o refl
        ];
      }

  get_or_create_missing :
      (m : Manager fl) (semantic : Bool) (visit : Map (Vector fl) → List (Str × Vector fl))
      (loaded : Loaded fl) (sid task : Str) (sessions : Map (SessionState gs))
      → get sid sessions ≡ none
      → let s = open_session gs m semantic visit loaded sid task in
        get_or_create gs m semantic visit loaded sid task sessions ≡ (s, put sid s sessions)
  unfolding get_or_create
  get_or_create_missing m semantic visit loaded sid task sessions e = rw (e, get_or_create) refl

  get_or_create_found :
      (m : Manager fl) (semantic : Bool) (visit : Map (Vector fl) → List (Str × Vector fl))
      (loaded : Loaded fl) (sid task : Str) (sessions : Map (SessionState gs)) (s : SessionState gs)
      → get sid sessions ≡ some s
      → get_or_create gs m semantic visit loaded sid task sessions ≡ (s, sessions)
  unfolding get_or_create
  get_or_create_found m semantic visit loaded sid task sessions s e = rw (e, get_or_create) refl

  -- `GetOrCreate` answers the session that is there, and changes nothing, or opens and stores one;
  -- afterwards its id reads the answer, and every other id what it read.
  pub get_or_create_lem :
      (m : Manager fl) (semantic : Bool) (visit : Map (Vector fl) → List (Str × Vector fl))
      (loaded : Loaded fl) (sid task : Str) (sessions : Map (SessionState gs))
      → let r = get_or_create gs m semantic visit loaded sid task sessions in
        (((get sid sessions ≡ some r.0) × (r.1 ≡ sessions))
          ⊎ ((get sid sessions ≡ none) × (r.0 ≡ open_session gs m semantic visit loaded sid task)))
        × ((j : Str) → get j r.1 ≡ (if str_eq sid j then some r.0 else get j sessions))
  get_or_create_lem m semantic visit loaded sid task sessions =
      elim (Option-cases (get sid sessions)) [
        | inl e ↦
            let s = open_session gs m semantic visit loaded sid task in
            rw (get_or_create_missing m semantic visit loaded sid task sessions e)
              (inr (e, refl), λ j. get-put sid j s sessions)
        | inr (s, e) ↦
            rw (get_or_create_found m semantic visit loaded sid task sessions s e)
              (inl (e, refl), λ j. ground (arith, e, str_eq_iff sid j))
      ]

  -- `EnqueueEvent` fails for a session that is not there and for a queue that is full, and then every
  -- id reads what it read; otherwise the event is the last of the queue of its session, whose other
  -- fields stay, as do the other sessions.
  pub enqueue_event_lem :
      (m : Manager fl) (sid : Str) (event : Event) (sessions : Map (SessionState gs))
      → let r = enqueue_event m sid event sessions in
        ((get sid sessions ≡ none) × (r.1 ≡ false) × (r.0 ≡ sessions))
        ⊎ ((s : SessionState gs) × (get sid sessions ≡ some s)
            × (m.channel_buffer ≤ length s.event_chan)
            × (r.1 ≡ false)
            × ((j : Str) → get j r.0 ≡ get j sessions))
        ⊎ ((s : SessionState gs) × (get sid sessions ≡ some s)
            × (length s.event_chan < m.channel_buffer)
            × (r.1 ≡ true)
            × ((j : Str)
                → get j r.0 ≡ (
                    if str_eq sid j
                    then some (record s { event_chan = s.event_chan ++ event ∷ [] })
                    else get j sessions)))
  unfolding enqueue_event enqueue
  enqueue_event_lem m sid event sessions = elim (Option-cases (get sid sessions)) [
    | inl e ↦ inl (e, ground arith, ground arith)
    | inr (s, e) ↦ elim (Bool-cases (ltb (length s.event_chan) m.channel_buffer)) [
      | inl o ↦ inr (
          inr (
            s,
            e,
            ground arith,
            ground arith,
            λ j. ground (
              arith,
              get-update sid j (λ _. record s { event_chan = s.event_chan ++ event ∷ [] }) sessions,
              str_eq_iff sid j,
            ),
          ))
      | inr o ↦ inr (
          inl (
            s,
            e,
            ground arith,
            ground arith,
            λ j. ground (arith, get-update sid j (λ _. s) sessions, str_eq_iff sid j),
          ))
    ]
  ]

  -- A session with a well-formed tree under its own id that ends idle is no longer there, and when
  -- `GetOrCreate` opens it from the snapshot of that tree, it has a well-formed tree with the same
  -- node under each id, an empty queue, and is the session under its id.
  pub get_or_create-end_idle :
      (m : Manager fl) (semantic : Bool) (visit : Map (Vector fl) → List (Str × Vector fl))
      (loaded : Loaded fl) (order : Tree fl → List (StateNode fl)) (sid task : Str)
      (sessions : Map (SessionState gs)) (s : SessionState gs)
      → get sid sessions ≡ some s
      → s.tree.session_id ≡ sid
      → IsWellFormed s.tree
      → Visits (order s.tree) s.tree
      → loaded.snapshot ≡ order s.tree
      → let left = (end_idle order sid sessions).0 in
        let opened = get_or_create gs m semantic visit loaded sid task left in
        (get sid left ≡ none)
        × IsWellFormed opened.0.tree
        × ((j : Str) → get j opened.0.tree.nodes ≡ get j s.tree.nodes)
        × (opened.0.event_chan ≡ [])
        × (get sid opened.1 ≡ some opened.0)
  unfolding end_idle open_session
  get_or_create-end_idle m semantic visit loaded order sid task sessions s e same w v stored =
      let left = (end_idle order sid sessions).0 in
      let gone : get sid left ≡ none =
        get-delete sid sid sessions
        ∙ ap (λ (b : Bool). if b then none else get sid sessions) (str_eq_refl sid) in
      let opened = open_session gs m semantic visit loaded sid task in
      let root = mem-perm v (get-mem s.tree.root_id s.tree.nodes w.rooted.1) in
      let kept : is_empty loaded.snapshot ≡ false =
        ap is_empty stored ∙ mem-is_empty (order s.tree) root in
      let tree : opened.tree ≡ restore_from_snapshot s.tree.session_id task (order s.tree) =
        ap
          (λ (b : Bool).
            if b then new_tree fl sid task else restore_from_snapshot sid task loaded.snapshot)
          kept
        ∙ ap (restore_from_snapshot sid task) stored
        ∙ ap (λ i. restore_from_snapshot i task (order s.tree)) (sym same) in
      let (formed, nodes) = restore-visited s.tree task (order s.tree) w v in
      rw (get_or_create_missing m semantic visit loaded sid task left gone) (
        gone,
        subst IsWellFormed (sym tree) formed,
        λ j. ap (λ (t : Tree fl). get j t.nodes) tree ∙ nodes j,
        refl,
        get-put_self sid opened left,
      )
