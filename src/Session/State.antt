-- ===== src/Session/State.antt =====
-- internal/session/manager.go: the state of a session, the calls of the store, and the move of the
-- embeddings from the active to the archive index. A failing call of the store is only logged, so a
-- call is its arguments. `range` over a map comes in an order of the environment.
use acgc_project.Common.{
  ℕ, Str, List, [], ◌∷◌, map, Option, none, some, if◌then◌else◌, is_empty, Map,
}
use acgc_project.Domain.{Floats, Event, SessionMetrics, StateNode}
use acgc_project.StateTree.{Tree, get_node, get_active_nodes}
use acgc_project.VectorIndex.{Graphs, Vector, Index, ok, err, insert, remove}
use acgc_project.Gc.{Compress, CompressedBranch, GcResult}
use acgc_project.Session.SemanticMerge.{has_id}

-- what the code writes to MongoDB
pub data Call (fl : Floats) : Type 0 where
  append_event : Event → Call fl
  upsert_node : StateNode fl → Call fl
  upsert_nodes : List (StateNode fl) → Call fl
  save_branch : CompressedBranch → Call fl
  log_gc : Str → GcResult → Call fl
  upsert_metrics : SessionMetrics fl → Call fl
  snapshot_nodes : Str → List (StateNode fl) → Call fl

module _ {fl : Floats} (gs : Graphs fl) where
  -- `ActiveIndex` and `ArchiveIndex`
  pub record Indexes : Type 0 where
    pub active_index : Index gs
    pub archive_index : Index gs

  pub record SessionState : Type 0 where
    pub tree : Tree fl
    pub metrics : SessionMetrics fl
    pub event_chan : List Event
    -- there is an embedder if and only if there are indexes
    pub indexes : Option Indexes
    pub last_user_embedding : Vector fl
    pub token_budget : ℕ
    pub calls : List (Call fl)

  -- The environment while an event is processed: the orders in which maps are visited (the n-th time
  -- for the tree), the embedder with its model's name, the compressor, and fuel for the depth.
  pub record Environment : Type 0 where
    pub nodes_order : ℕ → Tree fl → List (StateNode fl)
    pub parents_order : Map (List Str) → List (Str × List Str)
    pub ids_order : List Str → List Str
    pub vectors_order : Index gs → List (Str × Vector fl)
    pub embed : Str → Option (Vector fl)
    pub embed_model : Str
    pub compress : Compress fl
    pub fuel : ℕ

  -- `insert` where the error is dropped or logged
  unfoldable pub try_insert : Str → Vector fl → Index gs → Index gs
  try_insert id vec h = elim (insert gs id vec h) [ ok u ↦ u | err e ↦ h ]

  -- one round of the loop of `reconcileSemanticIndices`
  unfoldable pub reconcile_id :
      (Index gs → List (Str × Vector fl)) → Tree fl → List Str → Str → Indexes → Indexes
  unfolding try_insert has_id get_node
  reconcile_id order t post id x = if has_id post id then x else record {
    active_index = (remove gs (order x.active_index) id x.active_index).0;
    archive_index = elim (get_node id t) [
      | none ↦ x.archive_index
      | some n ↦
          if is_empty n.embedding
          then x.archive_index
          else try_insert id n.embedding x.archive_index
    ];
  }

  unfoldable pub reconcile_loop :
      (Index gs → List (Str × Vector fl)) → Tree fl → List Str → List Str → Indexes → Indexes
  reconcile_loop order t post [] x = x
  reconcile_loop order t post (id ∷ pre) x =
      reconcile_loop order t post pre (reconcile_id order t post id x)

  -- `pre` are the keys of `preActiveIDs` in the order of the range, `visited` the order of the tree's
  unfoldable pub reconcile_semantic_indices :
      (Index gs → List (Str × Vector fl))
      → List (StateNode fl)
      → Tree fl
      → List Str
      → Indexes
      → Indexes
  unfolding reconcile_loop
  reconcile_semantic_indices order visited t pre x =
      reconcile_loop order t (map (λ n. n.node_id) (get_active_nodes visited)) pre x
