-- ===== src/VectorIndex/Built.antt =====
-- internal/vectorindex: the indexes that the operations build, and the graph that `Query` searches.
use mathlib.Core.List.{Permᴰ}
use acgc_project.Common.{
  Bool, true, ◌≡◌, sym, ap, subst, ◌∙◌, Str, List, [], ◌∷◌, some, arith, if_split, Map, get, put,
  get-put, put-IsDistinct, IsDistinct, All-mono, if_both, if◌then◌else◌, str_eq, is_empty, ◌||◌,
  ltb, length, ◌*◌, option_both,
}
use acgc_project.Domain.{Floats}
use acgc_project.VectorIndex.{
  Vector, Graphs, Config, Index, IndexError, Result, ok, err, mismatches, new_hnsw, insert, remove,
  load_vectors, rebuild_from_vectors,
}
use acgc_project.VectorIndex.Graph.{GraphLaws, IsInStep, compact_locked-IsInStep}
use acgc_project.VectorIndex.Queries.{IsFaithful}

module _ {fl : Floats} (gs : Graphs fl) where
  -- The indexes that `NewHNSW`, `Insert`, `Delete` and `RebuildFromVectors` build, whatever order a
  -- `range` visits the vectors in.
  pub data Built : Index gs → Type 0 where
    created : (cfg : Config) → Built (new_hnsw gs cfg)
    inserted :
        {h u : Index gs} (id : Str) (vec : Vector fl)
        → Built h
        → insert gs id vec h ≡ ok u
        → Built u
    removed :
        {h : Index gs} (id : Str) (visited : List (Str × Vector fl))
        → Built h
        → Permᴰ visited h.vectors
        → Built (remove gs visited id h).0
    rebuilt :
        {h : Index gs} (items : List (Str × Vector fl))
        (visit : Map (Vector fl) → List (Str × Vector fl))
        → Built h
        → ((m : Map (Vector fl)) → Permᴰ (visit m) m)
        → Built (rebuild_from_vectors gs items visit h)

  module _ (laws : GraphLaws gs) where
    load_vectors-IsDistinct :
        (cfg : Config) (items : List (Str × Vector fl)) (m : Map (Vector fl))
        → IsDistinct m
        → IsDistinct (load_vectors fl cfg m items)
    unfolding load_vectors
    load_vectors-IsDistinct cfg [] m d = d
    load_vectors-IsDistinct cfg ((id, vec) ∷ items) m d = load_vectors-IsDistinct cfg items _ (
        if_both IsDistinct (is_empty id || is_empty vec || mismatches cfg vec) d
          (put-IsDistinct id vec m d))

    insert-IsInStep :
        (id : Str) (vec : Vector fl) (h u : Index gs)
        → IsInStep gs laws h
        → insert gs id vec h ≡ ok u
        → IsInStep gs laws u
    unfolding insert
    insert-IsInStep id vec h u s =
        if_split P (is_empty id) (λ _. refused _)
          (λ _.
            if_split P (is_empty vec) (λ _. refused _)
              (λ _.
                if_split P (mismatches h.cfg vec) (λ _. refused _)
                  (λ _ e. subst (IsInStep gs laws) (ok_injective e) (record {
                    held = λ j.
                        laws.node_add id vec h.graph j
                        ∙ (ap (λ o. if str_eq id j then some vec else o) (s.held j)
                            ∙ sym (get-put id j vec h.vectors));
                    distinct = put-IsDistinct id vec h.vectors s.distinct;
                  }))))
      where
        P : Result (Index gs) → Type 0
        P r = r ≡ ok u → IsInStep gs laws u

        refused : (x : IndexError) → P (err x)
        refused x e = absurd (cc e)

        ok_injective : {x : Index gs} → ok x ≡ ok u → x ≡ u
        ok_injective e = ground (arith, e)

    remove-IsInStep :
        (id : Str) (visited : List (Str × Vector fl)) (h : Index gs)
        → IsInStep gs laws h
        → Permᴰ visited h.vectors
        → IsInStep gs laws (remove gs visited id h).0
    unfolding remove
    remove-IsInStep id visited h s p =
        let marked : Index gs = record h { tombstones = put id true h.tombstones } in
        let still : IsInStep gs laws marked = record { held = s.held; distinct = s.distinct } in
        option_both (λ (r : Index gs × Bool). IsInStep gs laws r.0) (get id h.vectors) s
          (λ v e.
            if_both (λ (r : Index gs × Bool). IsInStep gs laws r.0)
              (ltb (length h.vectors) (length marked.tombstones * 5))
              (compact_locked-IsInStep gs laws marked visited p s.distinct) still)

    Built-IsInStep : (h : Index gs) → Built h → IsInStep gs laws h
    unfolding new_hnsw rebuild_from_vectors get
    Built-IsInStep h (created cfg) = record { held = λ j. laws.node_new _ j; distinct = tt }
    Built-IsInStep h (inserted id vec b e) = insert-IsInStep id vec _ h (Built-IsInStep _ b) e
    Built-IsInStep h (removed {h = g} id visited b p) =
        remove-IsInStep id visited g (Built-IsInStep g b) p
    Built-IsInStep h (rebuilt {h = g} items visit b p) =
        compact_locked-IsInStep gs laws _ (visit (load_vectors fl g.cfg [] items)) (p _)
          (load_vectors-IsDistinct g.cfg items [] tt)

    -- In each index that the operations build, from `NewHNSW` on, the graph that `Query` searches holds
    -- exactly the vectors of the index, and what a search of it answers is stored in the index: for a
    -- graph that keeps to the documented behaviour of its library.
    pub Built-IsFaithful :
        (h : Index gs) (vec : Vector fl)
        → Built h
        → ((j : Str) → laws.node h.graph j ≡ get j h.vectors) × IsFaithful fl gs h vec
    Built-IsFaithful h vec b =
        let s = Built-IsInStep h b in
        (
          s.held,
          λ n.
              All-mono _ _ (gs.search vec n h.graph) (λ e found. sym (s.held e.0) ∙ found)
                (laws.searched vec n h.graph),
        )
