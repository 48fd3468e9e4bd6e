-- ===== src/Session/Processed.antt =====
-- internal/session/manager.go: what `processEvent` does to the tree, the queue and the archive.
use acgc_project.Common.{
  ℕ, ◌+◌, Str, List, [], ◌∷◌, ◌++◌, ◌≡◌, ◌≢◌, refl, sym, subst, ◌∙◌, inl, inr, Bool-cases, arith,
  str_eq, str_eq_iff, str_eq_refl, option_both,
}
use acgc_project.Domain.{Floats, Event, StateNode}
use acgc_project.StateTree.{
  Tree, node_key, increment_turn, add_node, get_node, event_node, find_best_parent, classify_event,
}
use acgc_project.StateTree.Invariant.{IsWellFormed, Visits}
use acgc_project.StateTree.Growth.{add_node-IsWellFormed}
use acgc_project.StateTree.Entries.{get-add_node}
use acgc_project.StateTree.Parents.{add_node-HasParents}
use acgc_project.StateTree.Kept.{IsKept, Grows, Grows-IsKept, then-Grows, add_node-Grows}
use acgc_project.VectorIndex.{Graphs}
use acgc_project.Gc.WellFormed.{IsSound}
use acgc_project.Session.State.{append_event, upsert_node, SessionState, Environment}
use acgc_project.Session.Process.{emit, embed_node, admit}
use acgc_project.Session.Sound.{
  IsOrderly, appended, appended-append, IsStage, emit-IsStage, embed_node-IsStage,
}

-- no id of `Q` is the key of a turn
abbrev pub AvoidsTurns : (Str → Type 0) → Str → Type 0
AvoidsTurns Q sid = (j : Str) → Q j → (m : ℕ) → j ≢ node_key sid m

module _ {fl : Floats} where
  -- the tree after a turn and `AddNode`
  grown_tree-IsSound :
      (Q : Str → Type 0) (t : Tree fl) (visited : List (StateNode fl)) (event : Event)
      → AvoidsTurns Q t.session_id
      → Visits visited t
      → IsSound Q t
      → IsSound Q (add_node visited event (increment_turn t)).0
  grown_tree-IsSound Q t visited event avoids v w = record {
    formed = add_node-IsWellFormed t visited event w.formed v;
    parents = add_node-HasParents t visited event w.formed v w.parents;
    reserved = λ j q.
        let (key, absent, found, size) = get-add_node t visited event j w.formed v in
        let id = (add_node visited event (increment_turn t)).1 in
        let unused = w.reserved j q in
        elim (Bool-cases (str_eq id j)) [
          | inl e ↦ absurd (avoids j q (t.turn_count + 1) (sym ((str_eq_iff id j).0 e) ∙ key))
          | inr o ↦ found ∙ rw (o, unused) (ground arith)
        ];
  }

  grown_tree-noded :
      (t : Tree fl) (visited : List (StateNode fl)) (event : Event)
      → Visits visited t
      → IsWellFormed t
      → IsKept
          (add_node visited event (increment_turn t)).0.nodes
          (node_key t.session_id (t.turn_count + 1))
          (event_node
            (increment_turn t)
            (find_best_parent visited (increment_turn t) (classify_event event))
            event)
  grown_tree-noded t visited event v w =
      let id = (add_node visited event (increment_turn t)).1 in
      let (key, absent, found, size) = get-add_node t visited event id w v in
      let node =
        event_node (increment_turn t)
          (find_best_parent visited (increment_turn t) (classify_event event)) event in
      subst (λ k. IsKept (add_node visited event (increment_turn t)).0.nodes k node) key
        (node, found ∙ rw (str_eq_refl id) refl, refl)

module _ {fl : Floats} {gs : Graphs fl} where
  -- the node that `AddNode` makes of the event, numbered by the next turn, under the parent it finds
  abbrev pub node_of : Environment gs → Event → SessionState gs → StateNode fl
  node_of env event s =
      let t = increment_turn s.tree in
      let numbered = record event { sequence = s.tree.turn_count + 1 } in
      event_node t (find_best_parent (env.nodes_order 0 t) t (classify_event numbered)) numbered

  pub node_of-refs :
      (env : Environment gs) (event : Event) (s : SessionState gs)
      → (node_of env event s).raw_event_refs ≡ event.event_id ∷ []
  unfolding event_node
  node_of-refs env event s = ground arith

  -- `node` is the node of the next turn, and the event the last of the archive.
  pub record IsTaken (Q : Str → Type 0) (event : Event) (node : StateNode fl)
      (s s' : SessionState gs) : Type 0 where
    pub sound : IsSound Q s'.tree
    pub grows : Grows s.tree.nodes s'.tree.nodes
    pub turn : s'.tree.turn_count ≡ s.tree.turn_count + 1
    pub session : s'.tree.session_id ≡ s.tree.session_id
    pub noded : IsKept s'.tree.nodes (node_key s.tree.session_id (s.tree.turn_count + 1)) node
    pub chan : s'.event_chan ≡ s.event_chan
    pub archive : appended s'.calls ≡ appended s.calls ++ event ∷ []
    pub events : s'.metrics.total_events ≡ s.metrics.total_events

  pub after-IsTaken :
      (Q R : Str → Type 0) (event : Event) (node : StateNode fl) (s t u : SessionState gs)
      → IsTaken Q event node s t
      → IsStage R t u
      → IsTaken R event node s u
  after-IsTaken Q R event node s t u x y = record {
    sound = y.sound;
    grows = then-Grows s.tree.nodes t.tree.nodes u.tree.nodes x.grows y.grows;
    turn = y.turn ∙ x.turn;
    session = y.session ∙ x.session;
    noded = Grows-IsKept t.tree.nodes u.tree.nodes _ node y.grows x.noded;
    chan = y.chan ∙ x.chan;
    archive = y.archive ∙ x.archive;
    events = y.events ∙ x.events;
  }

  pub admit-IsTaken :
      (Q : Str → Type 0) (env : Environment gs) (event : Event) (s : SessionState gs)
      → AvoidsTurns Q s.tree.session_id
      → IsOrderly env
      → IsSound Q s.tree
      → IsTaken Q event (node_of env event s) s (admit env event s)
  unfolding admit increment_turn emit add_node appended
  admit-IsTaken Q env event s avoids orderly w =
      let t = increment_turn s.tree in
      let numbered = record event { sequence = t.turn_count } in
      let visited = env.nodes_order 0 t in
      let tree = (add_node visited numbered t).0 in
      let id = (add_node visited numbered t).1 in
      let grown = record (emit (append_event event ∷ []) s) { tree = tree } in
      let v : Visits visited s.tree = orderly.nodes 0 t in
      let node = node_of env event s in
      let taken : IsTaken Q event node s grown = record {
        sound = grown_tree-IsSound Q s.tree visited numbered avoids v w;
        grows = add_node-Grows s.tree visited numbered w.formed v;
        turn = refl;
        session = refl;
        noded = grown_tree-noded s.tree visited numbered v w.formed;
        chan = refl;
        archive = appended-append s.calls (append_event event ∷ []);
        events = refl;
      } in
      option_both (IsTaken Q event node s) (get_node id tree) taken (λ n e.
        let embedded = embed_node env numbered id n grown in
        let then_embedded =
          after-IsTaken Q Q event node s grown embedded taken
            (embed_node-IsStage Q env numbered id n grown taken.sound) in
        option_both (IsTaken Q event node s) (get_node id embedded.tree) then_embedded (λ m f.
          after-IsTaken Q Q event node s embedded (emit (upsert_node m ∷ []) embedded) then_embedded
            (emit-IsStage Q (upsert_node m ∷ []) embedded refl then_embedded.sound)))
