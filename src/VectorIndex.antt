-- ===== src/VectorIndex.antt =====
-- internal/vectorindex/vectorindex.go. The graph of the library github.com/coder/hnsw is a
-- parameter, `Graphs`. A `range` over the vectors visits them in any order, `visited`. The mutex
-- is left out.
pub mod View
pub mod Queries
pub mod Graph
pub mod Built
use acgc_project.Common.{
  ℕ, zero, suc, ◌+◌, ◌-◌, ◌*◌, Str, List, [], ◌∷◌, ◌++◌, Bool, true, false, not, ◌&&◌, ◌||◌, Option,
  none, some, Map, get, put, delete, ltb, leb, ◌==◌, if◌then◌else◌, length, is_empty,
}
use acgc_project.Domain.{Floats}

pub record Hit (fl : Floats) : Type 0 where
  pub node_id : Str
  pub distance : fl.F32
  pub score : fl.F32

pub record Config : Type 0 where
  pub dim : ℕ
  pub m : ℕ
  pub ef_search : ℕ

abbrev pub Vector : Floats → Type 0
Vector fl = List fl.F32

-- `hnsw.Graph[string]`: `NewGraph` with the settings of `newGraph`, `Add`, `Len`, `Search`.
pub record Graphs (fl : Floats) : Type 1 where
  pub Graph : Type 0
  pub new_graph : Config → Graph
  pub add : Str → Vector fl → Graph → Graph
  pub graph_len : Graph → ℕ
  pub search : Vector fl → ℕ → Graph → List (Str × Vector fl)

pub data IndexError : Type 0 where
  empty_id empty_vector dim_mismatch : IndexError

pub data Result {ℓ} (A : Type ℓ) : Type ℓ where
  ok : A → Result A
  err : IndexError → Result A

unfoldable pub default_config : Config
default_config = record { dim = 1536; m = 16; ef_search = 50 }

-- the sums `dot`, `na` and `nb` of `cosineDistance`
pub record Sums (fl : Floats) : Type 0 where
  pub dot : fl.F
  pub na : fl.F
  pub nb : fl.F

module _ (fl : Floats) where
  unfoldable pub sums : Sums fl → Vector fl → Vector fl → Sums fl
  sums s (a ∷ as') (b ∷ bs) =
      let x = fl.widen a in
      let y = fl.widen b in
      sums
        (record {
          dot = fl.fadd s.dot (fl.fmul x y);
          na = fl.fadd s.na (fl.fmul x x);
          nb = fl.fadd s.nb (fl.fmul y y);
        })
        as' bs
  sums s _ _ = s

  unfoldable pub cosine_distance : Vector fl → Vector fl → fl.F32
  unfolding sums
  cosine_distance a b =
      let zero_f = fl.literal 0 0 in
      let s = sums (record { dot = zero_f; na = zero_f; nb = zero_f }) a b in
      let sim = fl.fdiv s.dot (fl.fmul (fl.sqrt s.na) (fl.sqrt s.nb)) in
      if not (length a == length b) || is_empty a
      then fl.literal32 1
      else if fl.feq s.na zero_f || fl.feq s.nb zero_f
      then fl.literal32 1
      else fl.narrow (fl.fsub (fl.literal 1 0) sim)

  unfoldable pub clamp01 : fl.F32 → fl.F32
  clamp01 v =
      if fl.lt32 v (fl.literal32 0)
      then fl.literal32 0
      else if fl.lt32 (fl.literal32 1) v
      then fl.literal32 1
      else v

-- `h.tombstones[id]`
unfoldable pub is_dead : Map Bool → Str → Bool
is_dead tombstones id = elim (get id tombstones) [ none ↦ false | some b ↦ b ]

unfoldable pub or_default : ℕ → ℕ → ℕ
or_default n d = if n == 0 then d else n

-- `cfg.Dim > 0 && len(vec) != cfg.Dim`
abbrev pub mismatches {ℓ} : {A : Type ℓ} → Config → List A → Bool
mismatches cfg vec = ltb 0 cfg.dim && not (length vec == cfg.dim)

module _ (fl : Floats) where
  -- the loop over the nodes that the graph found: `found` has the hits so far
  unfoldable pub hit_loop :
      Map Bool → Vector fl → ℕ → List (Hit fl) → List (Str × Vector fl) → List (Hit fl)
  hit_loop tombstones vec k found [] = found
  hit_loop tombstones vec k found ((key, value) ∷ nodes) =
      let d = cosine_distance fl vec value in
      let more : List (Hit fl) =
        found
        ++ record { node_id = key; distance = d; score = clamp01 fl (fl.fsub32 (fl.literal32 1) d) }
          ∷ [] in
      let skipped = hit_loop tombstones vec k found nodes in
      let taken = hit_loop tombstones vec k more nodes in
      if is_dead tombstones key then skipped else if leb k (length more) then more else taken

  -- the loop of `RebuildFromVectors`
  unfoldable pub load_vectors : Config → Map (Vector fl) → List (Str × Vector fl) → Map (Vector fl)
  load_vectors cfg m [] = m
  load_vectors cfg m ((id, vec) ∷ items) =
      load_vectors cfg
        (if is_empty id || is_empty vec || mismatches cfg vec then m else put id vec m) items

module _ {fl : Floats} (gs : Graphs fl) where
  pub record Index : Type 0 where
    pub cfg : Config
    pub graph : gs.Graph
    -- the source of truth for rebuilds
    pub vectors : Map (Vector fl)
    pub tombstones : Map Bool

  unfoldable pub new_hnsw : Config → Index
  unfolding or_default
  new_hnsw cfg =
      let c = record cfg { m = or_default cfg.m 16; ef_search = or_default cfg.ef_search 50 } in
      record { cfg = c; graph = gs.new_graph c; vectors = []; tombstones = [] }

  unfoldable pub insert : Str → Vector fl → Index → Result Index
  insert id vec h =
      if is_empty id
      then err empty_id
      else if is_empty vec
      then err empty_vector
      else if mismatches h.cfg vec
      then err dim_mismatch
      else ok (record h {
        tombstones = delete id h.tombstones;
        vectors = put id vec h.vectors;
        graph = gs.add id vec h.graph;
      })

  -- the loop of `compactLocked`
  unfoldable pub compact_loop : Index → List (Str × Vector fl) → Index
  compact_loop h [] = h
  compact_loop h ((id, vec) ∷ visited) =
      compact_loop
        (if is_dead h.tombstones id
          then record h { vectors = delete id h.vectors }
          else record h { graph = gs.add id vec h.graph })
        visited

  unfoldable pub compact_locked : List (Str × Vector fl) → Index → Index
  compact_locked visited h =
      record (compact_loop (record h { graph = gs.new_graph h.cfg }) visited) { tombstones = [] }

  unfoldable pub remove : List (Str × Vector fl) → Str → Index → Index × Bool
  remove visited id h =
      let marked = record h { tombstones = put id true h.tombstones } in
      elim (get id h.vectors) [
        | none ↦ (h, false)
        | some _ ↦
            if ltb (length h.vectors) (length marked.tombstones * 5)
            then (compact_locked visited marked, true)
            else (marked, true)
      ]

  unfoldable pub query : Vector fl → ℕ → Index → Result (List (Hit fl))
  unfolding or_default
  query vec k_wanted h =
      let k = or_default k_wanted 10 in
      let wanted = k + length h.tombstones in
      let fetch = if ltb (gs.graph_len h.graph) wanted then gs.graph_len h.graph else wanted in
      if is_empty vec
      then err empty_vector
      else if gs.graph_len h.graph == 0
      then ok []
      else if mismatches h.cfg vec
      then err dim_mismatch
      else ok (hit_loop fl h.tombstones vec k [] (gs.search vec fetch h.graph))

  -- `Len`: on ℕ the difference stops at 0, which a well-formed index never needs
  unfoldable pub len : Index → ℕ
  len h = length h.vectors - length h.tombstones

  unfoldable pub rebuild_from_vectors :
      List (Str × Vector fl) → (Map (Vector fl) → List (Str × Vector fl)) → Index → Index
  rebuild_from_vectors items visit h =
      let vectors = load_vectors fl h.cfg [] items in
      compact_locked (visit vectors) (record h { vectors = vectors; tombstones = [] })
