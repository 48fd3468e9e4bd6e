-- ===== src/Tests/Vectors.antt =====
-- The theorems on internal/vectorindex at an index of two vectors, over a list as the graph.
use mathlib.Core.List.{Permᴰ}
use acgc_project.Common.{
  Map, delete, get-put, option_both, ℕ, zero, suc, ◌≤◌, ◌≡◌, refl, Str, List, [], ◌∷◌, true, false,
  ◌||◌, ◌⊎◌, none, some, get, put, take, length, is_empty, codes, str_eq, arith, if◌then◌else◌, All,
}
use acgc_project.VectorIndex.{
  Graphs, Vector, Index, IndexError, ok, err, Hit, mismatches, Config, new_hnsw, insert, remove,
  query, or_default,
}
use acgc_project.VectorIndex.View.{view, view-insert, view-remove, is_some}
use acgc_project.VectorIndex.Graph.{GraphLaws}
use acgc_project.VectorIndex.Built.{Built, Built-IsFaithful}
use acgc_project.VectorIndex.Queries.{IsFaithful, IsLiveHit, query_live}
use acgc_project.Tests.{hundredths}

abbrev pub list_graph : Graphs hundredths
list_graph = record {
  Graph = List (Str × Vector hundredths);
  new_graph = λ _. [];
  add = put;
  graph_len = length;
  search = λ vec n g. take n g;
}

abbrev pub east : Vector hundredths
east = 100 ∷ 0 ∷ []

abbrev pub north : Vector hundredths
north = 0 ∷ 100 ∷ []

abbrev pub entries : List (Str × Vector hundredths)
entries = (codes "a", east) ∷ (codes "b", north) ∷ []

abbrev pub two : Index list_graph
two = record {
  cfg = record { dim = 2; m = 16; ef_search = 50 };
  graph = entries;
  vectors = entries;
  tombstones = (codes "a", true) ∷ [];
}

view-insert_example :
    let bad = is_empty (codes "a") || is_empty north || mismatches two.cfg north in
    ((bad ≡ true) × (e : IndexError) × (insert list_graph (codes "a") north two ≡ err e))
    ⊎ ((bad ≡ false)
        × (u : Index list_graph) × (insert list_graph (codes "a") north two ≡ ok u)
        × ((j : Str)
            → view list_graph u j
              ≡ (if str_eq (codes "a") j then some north else view list_graph two j)))
view-insert_example = view-insert list_graph (codes "a") north two

same_order : Permᴰ entries two.vectors
same_order = Permᴰ.cons refl (Permᴰ.cons refl Permᴰ.nil)

view-remove_example :
    (view list_graph (remove list_graph entries (codes "b") two).0 (codes "a")
      ≡ (if str_eq (codes "b") (codes "a") then none else view list_graph two (codes "a")))
    × ((remove list_graph entries (codes "b") two).1 ≡ is_some (get (codes "b") two.vectors))
view-remove_example = view-remove list_graph (codes "b") entries two (codes "a") same_order

-- the entries of `g` under the keys of the list, in its order
unfoldable stored_under :
    Map (Vector hundredths) → Map (Vector hundredths) → Map (Vector hundredths)
stored_under g [] = []
stored_under g ((k, v) ∷ m) = elim (get k g) [
  | none ↦ stored_under g m
  | some w ↦ (k, w) ∷ stored_under g m
]

abbrev map_graph : Graphs hundredths
map_graph = record {
  Graph = Map (Vector hundredths);
  new_graph = λ _. [];
  add = put;
  graph_len = length;
  search = λ vec n g. stored_under g (take n g);
}

stored_under-All :
    (g m : Map (Vector hundredths)) → All (λ e. get e.0 g ≡ some e.1) (stored_under g m)
unfolding stored_under
stored_under-All g [] = tt
stored_under-All g ((k, v) ∷ m) =
    option_both (All (λ e. get e.0 g ≡ some e.1)) (get k g) (stored_under-All g m)
      (λ w found. (found, stored_under-All g m))

map_laws : GraphLaws map_graph
unfolding get
map_laws = record {
  node = λ g j. get j g;
  node_new = λ c j. refl;
  node_add = λ id v g j. get-put id j v g;
  searched = λ vec n g. stored_under-All g (take n g);
}

abbrev plane : Config
plane = record { dim = 2; m = 16; ef_search = 50 }

abbrev one_built : Index map_graph
one_built = record {
  cfg = plane;
  graph = (codes "a", east) ∷ [];
  vectors = (codes "a", east) ∷ [];
  tombstones = [];
}

abbrev two_built : Index map_graph
two_built = record { cfg = plane; graph = entries; vectors = entries; tombstones = [] }

a_inserted : insert map_graph (codes "a") east (new_hnsw map_graph plane) ≡ ok one_built
unfolding insert new_hnsw or_default put delete
a_inserted = refl

b_inserted : insert map_graph (codes "b") north one_built ≡ ok two_built
unfolding insert put delete str_eq
b_inserted = refl

two-Built : Built map_graph two_built
two-Built =
    Built.inserted (codes "b") north
      (Built.inserted (codes "a") east (Built.created plane) a_inserted) b_inserted

Built-IsFaithful_example :
    let h = (remove map_graph entries (codes "a") two_built).0 in
    ((j : Str) → map_laws.node h.graph j ≡ get j h.vectors)
    × IsFaithful hundredths map_graph h north
Built-IsFaithful_example =
    Built-IsFaithful map_graph map_laws (remove map_graph entries (codes "a") two_built).0 north
      (Built.removed (codes "a") entries two-Built same_order)

two-IsFaithful : IsFaithful hundredths list_graph two north
unfolding get str_eq
two-IsFaithful zero = tt
two-IsFaithful (suc zero) = (refl, tt)
two-IsFaithful (suc (suc zero)) = (refl, (refl, tt))
two-IsFaithful (suc (suc (suc n))) = (refl, (refl, tt))

irreflexive : (x : ℕ) → hundredths.lt32 x x ≡ false
irreflexive x = ground arith

query_live_example :
    (hits : List (Hit hundredths)) × (query list_graph north 1 two ≡ ok hits)
    × All (IsLiveHit hundredths list_graph two north) hits
    × (length hits ≤ or_default 1 10)
query_live_example =
    query_live hundredths list_graph north 1 two irreflexive refl two-IsFaithful refl
