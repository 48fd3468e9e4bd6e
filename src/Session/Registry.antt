-- ===== src/Session/Registry.antt =====
-- internal/session/manager.go: the sessions of the manager: `GetOrCreate`, `EnqueueEvent`, the budget
-- of `CompilePrompt`, the idle end of a worker, `GetMetrics` and `GetTreeStats`.
use acgc_project.Common.{
  ℕ, Str, List, [], Bool, false, Option, none, some, if◌then◌else◌, is_empty, Map, get, put, delete,
  update, map_option, pos,
}
use acgc_project.Domain.{Floats, Event, SessionMetrics, StateNode}
use acgc_project.StateTree.{Tree, new_tree, restore_from_snapshot, stats, TreeStats}
use acgc_project.VectorIndex.{Graphs, Vector, Index, new_hnsw, rebuild_from_vectors}
use acgc_project.Session.Compile.{Manager}
use acgc_project.Session.State.{SessionState}
use acgc_project.Session.Process.{snapshot_session}
use acgc_project.Session.Worker.{enqueue}

-- What the store answers for a session: `LoadLatestSnapshot` (an error leaves no nodes), and the two
-- maps of embeddings in the order in which they are visited, `none` for an error.
pub record Loaded (fl : Floats) : Type 0 where
  pub snapshot : List (StateNode fl)
  pub active_vectors : Option (List (Str × Vector fl))
  pub archived_vectors : Option (List (Str × Vector fl))

-- the metrics of a session that starts
unfoldable pub no_metrics : (fl : Floats) → Str → SessionMetrics fl
no_metrics fl sid = record {
  session_id = sid;
  total_events = 0;
  total_turns = 0;
  gc_runs = 0;
  total_tokens_saved = pos 0;
  avg_reduction_pct = fl.literal 0 0;
  branches_compressed = 0;
  rehydration_events = 0;
  avg_latency_ms = fl.literal 0 0;
}

module _ {fl : Floats} (gs : Graphs fl) where
  -- an index with the vectors of the store, if there are any
  unfoldable pub load_index :
      Manager fl
      → (Map (Vector fl) → List (Str × Vector fl))
      → Option (List (Str × Vector fl))
      → Index gs
  load_index m visit none = new_hnsw gs m.hnsw_config
  load_index m visit (some vecs) =
      if is_empty vecs
      then new_hnsw gs m.hnsw_config
      else rebuild_from_vectors gs vecs visit (new_hnsw gs m.hnsw_config)

  -- The session that `GetOrCreate` makes; `semantic` tells whether there is an embedder.
  unfoldable pub open_session :
      Manager fl
      → Bool
      → (Map (Vector fl) → List (Str × Vector fl))
      → Loaded fl
      → Str
      → Str
      → SessionState gs
  unfolding load_index no_metrics
  open_session m semantic visit loaded sid task = record {
    tree =
        if is_empty loaded.snapshot
        then new_tree fl sid task
        else restore_from_snapshot sid task loaded.snapshot;
    metrics = no_metrics fl sid;
    event_chan = [];
    indexes =
        if semantic
        then some (record {
          active_index = load_index m visit loaded.active_vectors;
          archive_index = load_index m visit loaded.archived_vectors;
        })
        else none;
    last_user_embedding = [];
    token_budget = m.default_budget;
    calls = [];
  }

  unfoldable pub get_or_create :
      Manager fl
      → Bool
      → (Map (Vector fl) → List (Str × Vector fl))
      → Loaded fl
      → Str
      → Str
      → Map (SessionState gs)
      → SessionState gs × Map (SessionState gs)
  unfolding open_session
  get_or_create m semantic visit loaded sid task sessions = elim (get sid sessions) [
    | some s ↦ (s, sessions)
    | none ↦ let s = open_session m semantic visit loaded sid task in (s, put sid s sessions)
  ]

module _ {fl : Floats} {gs : Graphs fl} where
  unfoldable pub enqueue_event :
      Manager fl → Str → Event → Map (SessionState gs) → Map (SessionState gs) × Bool
  unfolding enqueue
  enqueue_event m sid event sessions = elim (get sid sessions) [
    | none ↦ (sessions, false)
    | some s ↦
        let (s', ok) = enqueue m.channel_buffer event s in (update sid (λ _. s') sessions, ok)
  ]

  -- The idle end of `sessionWorker`: the session is forgotten, and its last calls write a snapshot.
  unfoldable pub end_idle :
      (Tree fl → List (StateNode fl))
      → Str
      → Map (SessionState gs)
      → Map (SessionState gs) × Option (SessionState gs)
  unfolding snapshot_session
  end_idle order sid sessions =
      (delete sid sessions, map_option (λ s. snapshot_session (order s.tree) s) (get sid sessions))

  unfoldable pub get_metrics : Str → Map (SessionState gs) → Option (SessionMetrics fl)
  get_metrics sid sessions = elim (get sid sessions) [ none ↦ none | some s ↦ some s.metrics ]

  -- `none`: there is no such session, or the fuel of the depth ran out
  unfoldable pub get_tree_stats :
      ℕ → (Tree fl → List (StateNode fl)) → Str → Map (SessionState gs) → Option TreeStats
  get_tree_stats fuel order sid sessions = elim (get sid sessions) [
    | none ↦ none
    | some s ↦ stats fuel (order s.tree) s.tree
  ]
