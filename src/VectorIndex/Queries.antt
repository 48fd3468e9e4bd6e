-- ===== src/VectorIndex/Queries.antt =====
-- internal/vectorindex: what `Query` answers.
use acgc_project.Common.{
  ℕ, ◌+◌, ◌≤◌, ◌<◌, ◌≡◌, refl, Str, List, [], ◌∷◌, ◌++◌, Bool, false, ◌||◌, some, arith, inl, inr,
  Bool-cases, Map, get, ltb, leb, ◌==◌, if◌then◌else◌, length, length-append, All, All-append,
  All-mono, is_empty,
}
use acgc_project.Domain.{Floats}
use acgc_project.VectorIndex.{
  Vector, Graphs, Index, Hit, ok, is_dead, mismatches, or_default, cosine_distance, clamp01,
  hit_loop, query,
}
use acgc_project.VectorIndex.View.{view}

or_default-pos : (k : ℕ) → 0 < or_default k 10
unfolding or_default
or_default-pos k = ground arith

module _ (fl : Floats) where
  -- A score between 0 and 1, as comparisons tell: neither holds of a value that is no number.
  abbrev pub IsScore : fl.F32 → Type 0
  IsScore s = (fl.lt32 s (fl.literal32 0) ≡ false) × (fl.lt32 (fl.literal32 1) s ≡ false)

  clamp01-IsScore :
      (v : fl.F32)
      → ((x : fl.F32) → fl.lt32 x x ≡ false)
      → fl.lt32 (fl.literal32 1) (fl.literal32 0) ≡ false
      → IsScore (clamp01 fl v)
  unfolding clamp01
  clamp01-IsScore v irrefl order = elim (Bool-cases (fl.lt32 v (fl.literal32 0))) [
    | inl e ↦ rw e (irrefl (fl.literal32 0), order)
    | inr o ↦ elim (Bool-cases (fl.lt32 (fl.literal32 1) v)) [
      | inl e ↦ rw (o, e) (order, irrefl (fl.literal32 1))
      | inr p ↦ rw (o, p) (o, p)
    ]
  ]

  hit_of : Vector fl → Str × Vector fl → Hit fl
  hit_of vec e = record {
    node_id = e.0;
    distance = cosine_distance fl vec e.1;
    score = clamp01 fl (fl.fsub32 (fl.literal32 1) (cosine_distance fl vec e.1));
  }

  hit_loop-All :
      (P : Hit fl → Type 0) (tombstones : Map Bool) (vec : Vector fl) (k : ℕ)
      (found : List (Hit fl)) (nodes : List (Str × Vector fl))
      → length found < k
      → All P found
      → All (λ e. is_dead tombstones e.0 ≡ false → P (hit_of vec e)) nodes
      → All P (hit_loop fl tombstones vec k found nodes)
        × (length (hit_loop fl tombstones vec k found nodes) ≤ k)
  unfolding hit_loop hit_of
  hit_loop-All P t vec k found [] small a b = (a, omega arith)
  hit_loop-All P t vec k found ((key, value) ∷ nodes) small a b =
      elim (Bool-cases (is_dead t key)) [
        | inl e ↦ rw (e, hit_loop) (hit_loop-All P t vec k found nodes small a b.1)
        | inr o ↦
            let more : List (Hit fl) = found ++ hit_of vec (key, value) ∷ [] in
            let good : All P more = All-append P found _ a (b.0 o, tt) in
            let grown : length more ≡ length found + 1 =
              omega (arith, length-append found (hit_of vec (key, value) ∷ [])) in
            elim (Bool-cases (leb k (length more))) [
              | inl full ↦ rw (o, hit_loop) (rw full (good, omega arith))
              | inr room ↦
                  rw (o, hit_loop)
                    (rw room (hit_loop-All P t vec k more nodes (ground arith) good b.1))
            ]
      ]

  module _ (gs : Graphs fl) where
    -- `Search` returns vectors that the index stores.
    abbrev pub IsFaithful : Index gs → Vector fl → Type 0
    IsFaithful h vec = (n : ℕ) → All (λ e. get e.0 h.vectors ≡ some e.1) (gs.search vec n h.graph)

    -- What a hit is: a live id, the distance of its vector, and a score in range.
    abbrev pub IsLiveHit : Index gs → Vector fl → Hit fl → Type 0
    IsLiveHit h vec x =
        (v : Vector fl) × (view gs h x.node_id ≡ some v)
        × (x.distance ≡ cosine_distance fl vec v)
        × IsScore x.score

    stored_hit :
        (h : Index gs) (vec : Vector fl) (e : Str × Vector fl)
        → ((x : fl.F32) → fl.lt32 x x ≡ false)
        → fl.lt32 (fl.literal32 1) (fl.literal32 0) ≡ false
        → get e.0 h.vectors ≡ some e.1
        → is_dead h.tombstones e.0 ≡ false
        → IsLiveHit h vec (hit_of vec e)
    unfolding hit_of view
    stored_hit h vec e irrefl order stored live =
        (e.1, rw live stored, refl, clamp01-IsScore _ irrefl order)

    match_of :
        (vec : Vector fl) (h : Index gs)
        → is_empty vec ≡ false
        → is_empty vec || mismatches h.cfg vec ≡ false
        → mismatches h.cfg vec ≡ false
    match_of vec h full good = rw full at good

    -- A query by a vector that is not empty and of the right dimension answers, with at most `k`
    -- hits (10, if `k` is 0), each of them live: for an order of float32 that is irreflexive and
    -- has 0 before 1, and a graph whose search returns stored vectors.
    pub query_live :
        (vec : Vector fl) (k : ℕ) (h : Index gs)
        → ((x : fl.F32) → fl.lt32 x x ≡ false)
        → fl.lt32 (fl.literal32 1) (fl.literal32 0) ≡ false
        → IsFaithful h vec
        → is_empty vec || mismatches h.cfg vec ≡ false
        → (hits : List (Hit fl)) × (query gs vec k h ≡ ok hits)
          × All (IsLiveHit h vec) hits
          × (length hits ≤ or_default k 10)
    unfolding query
    query_live vec k h irrefl order faithful good = elim (Bool-cases (is_empty vec)) [
      | inl e ↦ absurd (ground (arith, e))
      | inr full ↦ elim (Bool-cases (gs.graph_len h.graph == 0)) [
        | inl e ↦ ([], rw (full, e), tt, omega arith)
        | inr o ↦
            let q = or_default k 10 in
            let wanted = q + length h.tombstones in
            let fetch : ℕ =
              if ltb (gs.graph_len h.graph) wanted then gs.graph_len h.graph else wanted in
            let found = gs.search vec fetch h.graph in
            let (all, few) =
              hit_loop-All (IsLiveHit h vec) h.tombstones vec q [] found (or_default-pos k) tt (
                All-mono _ _ found (λ e stored live. stored_hit h vec e irrefl order stored live)
                  (faithful fetch)) in
            (
              hit_loop fl h.tombstones vec q [] found,
              rw (full, o) (rw (match_of vec h full good)),
              all,
              few,
            )
      ]
    ]
