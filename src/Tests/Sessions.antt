-- ===== src/Tests/Sessions.antt =====
-- The theorems on the sessions of the manager and on the indexes of a session, at a session that is
-- opened, ends and is opened again.
use mathlib.Core.List.{Permᴰ}
use acgc_project.Common.{
  ◌≤◌, ◌<◌, ◌≡◌, refl, Str, List, [], ◌∷◌, ◌++◌, true, false, ◌&&◌, not, none, some, get, Map,
  if◌then◌else◌, length, codes, values, str_eq, ◌⊎◌, map,
}
use acgc_project.Domain.{StateNode}
use acgc_project.StateTree.{Tree, new_tree, get_active_nodes}
use acgc_project.StateTree.Invariant.{IsWellFormed}
use acgc_project.VectorIndex.{Index}
use acgc_project.VectorIndex.View.{view}
use acgc_project.Session.SemanticMerge.{has_id}
use acgc_project.Session.State.{Indexes, SessionState, reconcile_semantic_indices}
use acgc_project.Session.Registry.{Loaded, open_session, get_or_create, enqueue_event, end_idle}
use acgc_project.Session.Opened.{get_or_create-end_idle, enqueue_event_lem}
use acgc_project.Session.Moved.{archived_vector, or_kept, view-reconcile_semantic_indices}
use acgc_project.Tests.{hundredths}
use acgc_project.Tests.Workers.{manager, opened, ask, same_order, perm_refl, new_tree-formed}
use acgc_project.Tests.Vectors.{list_graph, two}

abbrev sessions : Map (SessionState list_graph)
sessions = (codes "s", opened) ∷ []

abbrev listed : Tree hundredths → List (StateNode hundredths)
listed t = values t.nodes

abbrev stored : Loaded hundredths
stored = record { snapshot = listed opened.tree; active_vectors = none; archived_vectors = none }

opened_found : get (codes "s") sessions ≡ some opened
unfolding get str_eq
opened_found = refl

opened_named : opened.tree.session_id ≡ codes "s"
unfolding open_session new_tree
opened_named = refl

get_or_create-end_idle_example :
    let left = (end_idle listed (codes "s") sessions).0 in
    let again =
      get_or_create list_graph manager true same_order stored (codes "s") (codes "t") left in
    (get (codes "s") left ≡ none)
    × IsWellFormed again.0.tree
    × ((j : Str) → get j again.0.tree.nodes ≡ get j opened.tree.nodes)
    × (again.0.event_chan ≡ [])
    × (get (codes "s") again.1 ≡ some again.0)
get_or_create-end_idle_example =
    get_or_create-end_idle manager true same_order stored listed (codes "s") (codes "t") sessions
      opened opened_found opened_named new_tree-formed (perm_refl (values opened.tree.nodes)) refl

enqueue_event_lem_example :
    let r = enqueue_event manager (codes "s") ask sessions in
    ((get (codes "s") sessions ≡ none) × (r.1 ≡ false) × (r.0 ≡ sessions))
    ⊎ ((s : SessionState list_graph) × (get (codes "s") sessions ≡ some s)
        × (manager.channel_buffer ≤ length s.event_chan)
        × (r.1 ≡ false)
        × ((j : Str) → get j r.0 ≡ get j sessions))
    ⊎ ((s : SessionState list_graph) × (get (codes "s") sessions ≡ some s)
        × (length s.event_chan < manager.channel_buffer)
        × (r.1 ≡ true)
        × ((j : Str)
            → get j r.0 ≡ (
                if str_eq (codes "s") j
                then some (record s { event_chan = s.event_chan ++ ask ∷ [] })
                else get j sessions)))
enqueue_event_lem_example = enqueue_event_lem manager (codes "s") ask sessions

abbrev indexes : Indexes list_graph
indexes = record {
  active_index = two;
  archive_index = record two { graph = []; vectors = []; tombstones = [] };
}

stored_order : (h : Index list_graph) → Permᴰ h.vectors h.vectors
stored_order h = perm_refl h.vectors

view-reconcile_semantic_indices_example :
    let post =
      map (λ (n : StateNode hundredths). n.node_id) (get_active_nodes (listed opened.tree)) in
    let y =
      reconcile_semantic_indices list_graph
        (λ h. h.vectors)
        (listed opened.tree)
        opened.tree
        (codes "b" ∷ [])
        indexes in
    let left = has_id (codes "b" ∷ []) (codes "b") && not (has_id post (codes "b")) in
    (view list_graph y.active_index (codes "b")
      ≡ (if left then none else view list_graph indexes.active_index (codes "b")))
    × (view list_graph y.archive_index (codes "b") ≡ (
        if left
        then or_kept
            (archived_vector indexes.archive_index.cfg opened.tree (codes "b"))
            (view list_graph indexes.archive_index (codes "b"))
        else view list_graph indexes.archive_index (codes "b")))
view-reconcile_semantic_indices_example =
    view-reconcile_semantic_indices list_graph (λ h. h.vectors) (listed opened.tree) opened.tree
      (codes "b" ∷ []) indexes (codes "b") stored_order
