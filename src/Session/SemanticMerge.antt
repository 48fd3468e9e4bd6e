-- ===== src/Session/SemanticMerge.antt =====
-- internal/session/semantic_merge.go. The `range` over the best hits comes in the order `visit`;
-- `sort.Slice` is a parameter. The code drops nodes that are nil, which a list has not.
use acgc_project.Common.{
  Str, List, [], ◌∷◌, ◌++◌, Bool, true, not, ◌||◌, Option, none, some, Map, get, put, if◌then◌else◌,
  any, is_empty, str_eq,
}
use acgc_project.Domain.{Floats, StateNode, is_archived}
use acgc_project.StateTree.{Tree, get_node}
use acgc_project.VectorIndex.{Hit}

-- `seen[id]`
unfoldable pub has_id : List Str → Str → Bool
has_id seen id = any (λ s. str_eq s id) seen

-- `seen` and `out`
pub record Joined (fl : Floats) : Type 0 where
  pub seen : List Str
  pub out : List (StateNode fl)

-- `sort.Slice(out, less)` on hits
abbrev pub HitSort : Floats → Type 0
HitSort fl = (Hit fl → Hit fl → Bool) → List (Hit fl) → List (Hit fl)

module _ {fl : Floats} where
  -- `!ok || h.Score > prev.Score`
  unfoldable pub is_better : Hit fl → Option (Hit fl) → Bool
  is_better h none = true
  is_better h (some prev) = fl.lt32 prev.score h.score

  unfoldable pub best_loop : Map (Hit fl) → List (Hit fl) → Map (Hit fl)
  unfolding is_better
  best_loop best [] = best
  best_loop best (h ∷ hits) =
      best_loop (if is_better h (get h.node_id best) then put h.node_id h best else best) hits

  unfoldable pub merge_semantic_hits :
      HitSort fl → (Map (Hit fl) → List (Hit fl)) → List (Hit fl) → List (Hit fl) → List (Hit fl)
  unfolding best_loop
  merge_semantic_hits sort visit hits_a hits_archive =
      sort (λ a b. fl.lt32 b.score a.score) (visit (best_loop (best_loop [] hits_a) hits_archive))

  unfoldable pub join_node : Str → StateNode fl → Joined fl → Joined fl
  join_node id n j = record { seen = id ∷ j.seen; out = j.out ++ n ∷ [] }

  -- the loop over the active nodes
  unfoldable pub active_loop : Joined fl → List (StateNode fl) → Joined fl
  unfolding join_node has_id
  active_loop j [] = j
  active_loop j (n ∷ active) =
      active_loop (if has_id j.seen n.node_id then j else join_node n.node_id n j) active

  -- one round of the loop over the hits
  unfoldable pub join_hit : Tree fl → Str → Joined fl → Joined fl
  unfolding join_node has_id get_node
  join_hit t id j = if is_empty id || has_id j.seen id then j else elim (get_node id t) [
    | none ↦ j
    | some n ↦ if not (is_archived n) then j else join_node id n j
  ]

  unfoldable pub archived_loop : Tree fl → Joined fl → List (Hit fl) → Joined fl
  unfolding join_hit
  archived_loop t j [] = j
  archived_loop t j (h ∷ merged) = archived_loop t (join_hit t h.node_id j) merged

  unfoldable pub nodes_for_semantic_compile :
      Tree fl → List (StateNode fl) → List (Hit fl) → List (StateNode fl)
  unfolding active_loop archived_loop
  nodes_for_semantic_compile t active merged =
      (archived_loop t (active_loop (record { seen = []; out = [] }) active) merged).out
