-- ===== src/Session/Joined.antt =====
-- internal/session/semantic_merge.go: what the loops of `NodesForSemanticCompile` keep.
use mathlib.Core.List.{Memᴰ}
use acgc_project.Common.{
  Str, List, [], ◌∷◌, ◌++◌, true, false, ◌||◌, some, is_empty, str_eq, str_eq_iff, str_eq_refl, All,
  All-append, All-mono, All-get, get, ◌∙◌, ◌≡◌, ◌≢◌, refl, ap, subst, inl, inr, Bool-cases,
  Option-cases, arith, map,
}
use acgc_project.Domain.{Floats, StateNode, is_archived}
use acgc_project.StateTree.{Tree, get_node}
use acgc_project.StateTree.Invariant.{IsWellFormed, EntryFits}
use acgc_project.VectorIndex.{Hit}
use acgc_project.Session.SemanticMerge.{
  has_id, Joined, join_node, active_loop, join_hit, archived_loop,
}

pub has_id-All :
    (P : Str → Type 0) (seen : List Str) (id : Str) → All P seen → has_id seen id ≡ true → P id
unfolding has_id
has_id-All P [] id a h = cc
has_id-All P (s ∷ seen) id a h = elim (Bool-cases (str_eq s id)) [
  | inl e ↦ subst P ((str_eq_iff s id).0 e) a.0
  | inr o ↦ has_id-All P seen id a.1 (rw (o, has_id) at h)
]

has_id-cons : (id s : Str) (seen : List Str) → has_id seen s ≡ true → has_id (id ∷ seen) s ≡ true
unfolding has_id
has_id-cons id s seen h = ground (arith, h)

module _ {fl : Floats} where
  -- No two nodes of the list have one id.
  abbrev pub HasDistinctIds : List (StateNode fl) → Type 0
  HasDistinctIds [] = Unit
  HasDistinctIds (n ∷ ns) = All (λ k. n.node_id ≢ k.node_id) ns × HasDistinctIds ns

  HasDistinctIds-snoc :
      (ns : List (StateNode fl)) (n : StateNode fl)
      → HasDistinctIds ns
      → All (λ k. k.node_id ≢ n.node_id) ns
      → HasDistinctIds (ns ++ n ∷ [])
  HasDistinctIds-snoc [] n d a = (tt, tt)
  HasDistinctIds-snoc (k ∷ ns) n d a = (
    All-append (λ j. k.node_id ≢ j.node_id) ns (n ∷ []) d.0 (a.0, tt),
    HasDistinctIds-snoc ns n d.1 a.1,
  )

  abbrev pub ids : List (StateNode fl) → List Str
  ids ns = map (λ n. n.node_id) ns

  -- The ids of the nodes joined have been seen, and each only once.
  pub record IsJoined (P : StateNode fl → Type 0) (j : Joined fl) : Type 0 where
    pub distinct : HasDistinctIds j.out
    pub marked : All (λ n. has_id j.seen n.node_id ≡ true) j.out
    pub good : All P j.out
    pub shown : All (λ s. has_id (ids j.out) s ≡ true) j.seen

  ids-snoc :
      (ns : List (StateNode fl)) (n : StateNode fl) (id : Str)
      → has_id (ids (ns ++ n ∷ [])) id ≡ has_id (ids ns) id || str_eq n.node_id id
  unfolding has_id
  ids-snoc [] n id = ground arith
  ids-snoc (k ∷ ns) n id = ground (arith, ids-snoc ns n id)

  pub join_node-shown :
      (id s : Str) (n : StateNode fl) (j : Joined fl)
      → has_id (ids j.out) s ≡ true
      → has_id (ids (join_node id n j).out) s ≡ true
  unfolding join_node
  join_node-shown id s n j h = rw (ids-snoc j.out n s) (rw h refl)

  pub join_node-itself :
      (id : Str) (n : StateNode fl) (j : Joined fl)
      → has_id (ids (join_node id n j).out) n.node_id ≡ true
  unfolding join_node
  join_node-itself id n j = rw (ids-snoc j.out n n.node_id, str_eq_refl n.node_id) (ground arith)

  pub join_node-IsJoined :
      (P : StateNode fl → Type 0) (n : StateNode fl) (j : Joined fl)
      → IsJoined P j
      → has_id j.seen n.node_id ≡ false
      → P n
      → IsJoined P (join_node n.node_id n j)
  unfolding join_node has_id
  join_node-IsJoined P n j w fresh p = record {
    distinct =
        HasDistinctIds-snoc j.out n w.distinct
          (All-mono _ _ j.out (λ k h e. cc (h, fresh, e)) w.marked);
    marked =
        All-append _ j.out (n ∷ [])
          (All-mono _ _ j.out (λ k. has_id-cons n.node_id k.node_id j.seen) w.marked)
          (rw (str_eq_refl n.node_id) refl, tt);
    good = All-append P j.out (n ∷ []) w.good (p, tt);
    shown = (
      join_node-itself n.node_id n j,
      All-mono _ _ j.seen (λ s. join_node-shown n.node_id s n j) w.shown,
    );
  }

  pub active_loop-IsJoined :
      (P : StateNode fl → Type 0) (j : Joined fl) (active : List (StateNode fl))
      → IsJoined P j
      → All P active
      → IsJoined P (active_loop j active)
  unfolding active_loop
  active_loop-IsJoined P j [] w a = w
  active_loop-IsJoined P j (n ∷ active) w a = elim (Bool-cases (has_id j.seen n.node_id)) [
    | inl e ↦ rw (e, active_loop) (active_loop-IsJoined P j active w a.1)
    | inr o ↦
        rw (o, active_loop)
          (active_loop-IsJoined P (join_node n.node_id n j) active
            (join_node-IsJoined P n j w o a.0) a.1)
  ]

  -- an archived node that the tree holds under its id
  abbrev pub IsArchivedIn : Tree fl → StateNode fl → Type 0
  IsArchivedIn t n = (get_node n.node_id t ≡ some n) × (is_archived n ≡ true)

  pub join_hit-IsJoined :
      (P : StateNode fl → Type 0) (t : Tree fl) (id : Str) (j : Joined fl)
      → IsWellFormed t
      → ((n : StateNode fl) → IsArchivedIn t n → P n)
      → IsJoined P j
      → IsJoined P (join_hit t id j)
  unfolding join_hit get_node
  join_hit-IsJoined P t id j wf p w = elim (Bool-cases (is_empty id || has_id j.seen id)) [
    | inl e ↦ rw e w
    | inr o ↦ elim (Option-cases (get id t.nodes)) [
      | inl e ↦ rw (o, e) w
      | inr (n, e) ↦ elim (Bool-cases (is_archived n)) [
        | inl y ↦
            let same : n.node_id ≡ id =
              (All-get (EntryFits t.session_id t.turn_count) id t.nodes wf.fits e).0 in
            let fresh : has_id j.seen id ≡ false = ground (arith, o) in
            let stored : get n.node_id t.nodes ≡ some n = ap (λ i. get i t.nodes) same ∙ e in
            let joined = join_node-IsJoined P n j w (rw same fresh) (p n (stored, y)) in
            rw (o, e) (rw y (subst (λ i. IsJoined P (join_node i n j)) same joined))
        | inr z ↦ rw (o, e) (rw z w)
      ]
    ]
  ]

  pub archived_loop-IsJoined :
      (P : StateNode fl → Type 0) (t : Tree fl) (j : Joined fl) (merged : List (Hit fl))
      → IsWellFormed t
      → ((n : StateNode fl) → IsArchivedIn t n → P n)
      → IsJoined P j
      → IsJoined P (archived_loop t j merged)
  unfolding archived_loop
  archived_loop-IsJoined P t j [] wf p w = w
  archived_loop-IsJoined P t j (h ∷ merged) wf p w =
      archived_loop-IsJoined P t (join_hit t h.node_id j) merged wf p
        (join_hit-IsJoined P t h.node_id j wf p w)

  pub All-self : (active : List (StateNode fl)) → All (λ n. Memᴰ n active) active
  All-self [] = tt
  All-self (n ∷ active) =
      (Memᴰ.head refl, All-mono _ _ active (λ k m. Memᴰ.tail m) (All-self active))
