-- ===== src/Session/Sound.antt =====
-- internal/session/manager.go: the stages of `processEvent` that take no event.
use mathlib.Core.List.{Permᴰ}
use acgc_project.Common.{
  ℕ, Str, List, [], ◌∷◌, ◌++◌, Map, is_empty, ◌≡◌, refl, ap, ◌∙◌, if_both, option_both, append-nil,
}
use acgc_project.Domain.{Floats, Event, StateNode}
use acgc_project.StateTree.{Tree, get_active_nodes}
use acgc_project.StateTree.Invariant.{Visits}
use acgc_project.StateTree.Writes.{IsMark}
use acgc_project.StateTree.Kept.{Grows, same-Grows, then-Grows, update-Grows}
use acgc_project.VectorIndex.{Graphs, Vector}
use acgc_project.Scorer.{Scorer, score_all}
use acgc_project.Gc.WellFormed.{IsSound, mark-IsSound, write_scores-IsSound}
use acgc_project.Session.Compile.{payload_for_embedding}
use acgc_project.Session.State.{
  Call, append_event, upsert_node, upsert_nodes, save_branch, log_gc, upsert_metrics,
  snapshot_nodes, SessionState, Environment,
}
use acgc_project.Session.Process.{emit, set_embedding, embed_node, rescore}

-- Each order is one in which the map may be visited.
pub record IsOrderly {fl : Floats} {gs : Graphs fl} (env : Environment gs) : Type 0 where
  pub nodes : (i : ℕ) (t : Tree fl) → Visits (env.nodes_order i t) t
  pub parents : (m : Map (List Str)) → Permᴰ (env.parents_order m) m

-- the events that were appended to the archive
unfoldable pub appended : {fl : Floats} → List (Call fl) → List Event
appended [] = []
appended (append_event e ∷ calls) = e ∷ appended calls
appended (_ ∷ calls) = appended calls

pub appended-append :
    {fl : Floats} (xs ys : List (Call fl)) → appended (xs ++ ys) ≡ appended xs ++ appended ys
unfolding appended
appended-append [] ys = refl
appended-append (append_event e ∷ xs) ys = ap (λ l. e ∷ l) (appended-append xs ys)
appended-append (upsert_node n ∷ xs) ys = appended-append xs ys
appended-append (upsert_nodes n ∷ xs) ys = appended-append xs ys
appended-append (save_branch b ∷ xs) ys = appended-append xs ys
appended-append (log_gc i r ∷ xs) ys = appended-append xs ys
appended-append (upsert_metrics m ∷ xs) ys = appended-append xs ys
appended-append (snapshot_nodes i n ∷ xs) ys = appended-append xs ys

module _ {fl : Floats} {gs : Graphs fl} where
  -- A stage of the worker that takes no event: the tree stays sound and keeps the content of each
  -- node, and the
  -- turn, the queue, the number of events and their archive stay as they are.
  pub record IsStage (Q : Str → Type 0) (s s' : SessionState gs) : Type 0 where
    pub sound : IsSound Q s'.tree
    pub grows : Grows s.tree.nodes s'.tree.nodes
    pub turn : s'.tree.turn_count ≡ s.tree.turn_count
    pub session : s'.tree.session_id ≡ s.tree.session_id
    pub chan : s'.event_chan ≡ s.event_chan
    pub events : s'.metrics.total_events ≡ s.metrics.total_events
    pub archive : appended s'.calls ≡ appended s.calls

  pub idle-IsStage : (Q : Str → Type 0) (s : SessionState gs) → IsSound Q s.tree → IsStage Q s s
  idle-IsStage Q s w = record {
    sound = w;
    grows = same-Grows s.tree.nodes;
    turn = refl;
    session = refl;
    chan = refl;
    events = refl;
    archive = refl;
  }

  pub then-IsStage :
      (Q R : Str → Type 0) (s t u : SessionState gs) → IsStage Q s t → IsStage R t u → IsStage R s u
  then-IsStage Q R s t u x y = record {
    sound = y.sound;
    grows = then-Grows s.tree.nodes t.tree.nodes u.tree.nodes x.grows y.grows;
    turn = y.turn ∙ x.turn;
    session = y.session ∙ x.session;
    chan = y.chan ∙ x.chan;
    events = y.events ∙ x.events;
    archive = y.archive ∙ x.archive;
  }

  -- Calls that append no event are a stage.
  pub emit-IsStage :
      (Q : Str → Type 0) (calls : List (Call fl)) (s : SessionState gs)
      → appended calls ≡ []
      → IsSound Q s.tree
      → IsStage Q s (emit calls s)
  unfolding emit
  emit-IsStage Q calls s none_appended w = record {
    sound = w;
    grows = same-Grows s.tree.nodes;
    turn = refl;
    session = refl;
    chan = refl;
    events = refl;
    archive =
        appended-append s.calls calls
        ∙ ap (λ l. appended s.calls ++ l) none_appended
        ∙ append-nil (appended s.calls);
  }

  pub embed_node-IsStage :
      (Q : Str → Type 0) (env : Environment gs) (event : Event) (id : Str) (n : StateNode fl)
      (s : SessionState gs)
      → IsSound Q s.tree
      → IsStage Q s (embed_node env event id n s)
  unfolding embed_node set_embedding
  embed_node-IsStage Q env event id n s w =
      let idle = idle-IsStage Q s w in
      option_both (IsStage Q s) s.indexes idle (λ x e.
        if_both (IsStage Q s) (is_empty (payload_for_embedding n event)) idle (
          option_both (IsStage Q s) (env.embed (payload_for_embedding n event)) idle (λ vec g.
            record {
              sound =
                  mark-IsSound Q id (set_embedding vec env.embed_model) s.tree (mark vec)
                    (λ v. refl) w;
              grows = update-Grows id (set_embedding vec env.embed_model) s.tree.nodes (λ v. refl);
              turn = refl;
              session = refl;
              chan = refl;
              events = refl;
              archive = refl;
            })))
    where
      mark : (vec : Vector fl) → IsMark (set_embedding {fl = fl} vec env.embed_model)
      mark vec = record {
        same_id = λ v. refl;
        same_turn = λ v. refl;
        same_children = λ v. refl;
        same_kind = λ v. refl;
      }

  pub rescore-IsStage :
      (Q : Str → Type 0) (sc : Scorer fl) (env : Environment gs) (s : SessionState gs)
      → IsSound Q s.tree
      → IsStage Q s (rescore sc env s)
  unfolding rescore
  rescore-IsStage Q sc env s w =
      let done =
        write_scores-IsSound Q
          (score_all fl sc (get_active_nodes (env.nodes_order 1 s.tree)) s.tree.turn_count
            s.last_user_embedding)
          s.tree w in
      record {
        sound = done.0;
        grows = done.1;
        turn = refl;
        session = refl;
        chan = refl;
        events = refl;
        archive = refl;
      }
