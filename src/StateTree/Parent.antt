-- ===== src/StateTree/Parent.antt =====
-- internal/statetree: what `findBestParent` finds.
use acgc_project.Common.{
  ◌⊎◌, ◌+◌, ◌≤◌, ◌≡◌, refl, subst, ◌≢◌, List, [], ◌∷◌, Option, none, some, true, false, arith, inl,
  inr, Bool-cases, Option-cases, get, All, All-mono, ltb,
}
use acgc_project.Domain.{Floats, NodeType, StateNode, is_active}
use acgc_project.StateTree.{
  Tree, node_key, increment_turn, latest_active, later, find_best_parent, attaches_to_root,
}
use acgc_project.StateTree.Invariant.{IsWellFormed, Visits, visited-All, get-next_key}

module _ {fl : Floats} where
  -- What holds of the active nodes visited holds of the node that the loop of `findBestParent` keeps.
  pub latest_active-All {κ} :
      (P : StateNode fl → Type κ) (visited : List (StateNode fl)) (best : Option (StateNode fl))
      {n : StateNode fl}
      → ((b : StateNode fl) → best ≡ some b → P b)
      → All (λ v. is_active v ≡ true → P v) visited
      → latest_active best visited ≡ some n
      → P n
  unfolding latest_active later
  latest_active-All P [] best h a e = h _ e
  latest_active-All P (v ∷ visited) none {n} h a e = elim (Bool-cases (is_active v)) [
    | inl y ↦ latest_active-All P visited (some v) (only v (a.0 y)) a.1 (rw y at e)
    | inr o ↦ latest_active-All P visited none h a.1 (rw o at e)
  ]
    where
      only : (x : StateNode fl) → P x → (b : StateNode fl) → some x ≡ some b → P b
      only x px b same = let q : x ≡ b = cc in subst P q px
  latest_active-All P (v ∷ visited) (some m) {n} h a e = elim (Bool-cases (is_active v)) [
    | inl y ↦ elim (Bool-cases (ltb m.turn_number v.turn_number)) [
      | inl lt ↦ latest_active-All P visited (some v) (only v (a.0 y)) a.1 (rw (y, lt) at e)
      | inr ge ↦ latest_active-All P visited (some m) h a.1 (rw (y, ge) at e)
    ]
    | inr o ↦ latest_active-All P visited (some m) h a.1 (rw o at e)
  ]
    where
      only : (x : StateNode fl) → P x → (b : StateNode fl) → some x ≡ some b → P b
      only x px b same = let q : x ≡ b = cc in subst P q px

  -- The parent is a node of the tree.
  pub find_best_parent-present :
      (t : Tree fl) (visited : List (StateNode fl)) (type : NodeType)
      → IsWellFormed t
      → All (λ n. get n.node_id t.nodes ≡ some n) visited
      → (p : StateNode fl) × (get (find_best_parent visited t type) t.nodes ≡ some p)
  unfolding find_best_parent
  find_best_parent-present t visited type w a = elim (Bool-cases (attaches_to_root type)) [
    | inl e ↦ rw e (w.rooted.0, w.rooted.1)
    | inr e ↦ elim (Option-cases (latest_active none visited)) [
      | inl o ↦ rw (e, o, find_best_parent) (w.rooted.0, w.rooted.1)
      | inr (n, o) ↦
          rw (e, o, find_best_parent)
            (
              n,
              latest_active-All (λ n. get n.node_id t.nodes ≡ some n) visited none (λ b h. cc)
                  (All-mono _ _ visited (λ v h _. h) a) o,
            )
    ]
  ]

  pub find_best_parent-ne-next_key :
      (t : Tree fl) (visited : List (StateNode fl)) (type : NodeType)
      → IsWellFormed t
      → Visits visited t
      → find_best_parent visited (increment_turn t) type ≢ node_key t.session_id (t.turn_count + 1)
  unfolding find_best_parent increment_turn
  find_best_parent-ne-next_key t visited type w v e =
      let (p, found) = find_best_parent-present t visited type w (visited-All t w v) in
      cc (e, get-next_key t w, found)

  -- What the loop of `findBestParent` keeps is active and of the latest turn.
  latest_active-max :
      (visited : List (StateNode fl)) (best : Option (StateNode fl)) (n : StateNode fl)
      → latest_active best visited ≡ some n
      → All (λ m. is_active m ≡ true → m.turn_number ≤ n.turn_number) visited
        × ((b : StateNode fl) → best ≡ some b → b.turn_number ≤ n.turn_number)
  unfolding latest_active later
  latest_active-max [] best n e = (tt, λ b h. ground arith)
  latest_active-max (v ∷ visited) none n e = elim (Bool-cases (is_active v)) [
    | inl y ↦
        let (rest, kept) = latest_active-max visited (some v) n (rw y at e) in
        ((λ _. kept v refl, rest), λ b h. cc)
    | inr o ↦
        let (rest, kept) = latest_active-max visited none n (rw o at e) in
        ((λ y. cc (o, y), rest), λ b h. cc)
  ]
  latest_active-max (v ∷ visited) (some m) n e = elim (Bool-cases (is_active v)) [
    | inl y ↦ elim (Bool-cases (ltb m.turn_number v.turn_number)) [
      | inl lt ↦
          let (rest, kept) = latest_active-max visited (some v) n (rw (y, lt) at e) in
          ((λ _. kept v refl, rest), λ b h. ground (arith, kept v))
      | inr ge ↦
          let (rest, kept) = latest_active-max visited (some m) n (rw (y, ge) at e) in
          ((λ _. ground (arith, kept m), rest), kept)
    ]
    | inr o ↦
        let (rest, kept) = latest_active-max visited (some m) n (rw o at e) in
        ((λ y. cc (o, y), rest), kept)
  ]

  latest_active-none :
      (visited : List (StateNode fl)) (best : Option (StateNode fl))
      → latest_active best visited ≡ none
      → All (λ m. is_active m ≡ false) visited × (best ≡ none)
  unfolding latest_active later
  latest_active-none [] best e = (tt, e)
  latest_active-none (v ∷ visited) best e = elim (Bool-cases (is_active v)) [
    | inl y ↦ let (rest, kept) = latest_active-none visited (some (later best v)) (rw y at e) in cc
    | inr o ↦ let (rest, kept) = latest_active-none visited best (rw o at e) in ((o, rest), kept)
  ]

  active-All : (xs : List (StateNode fl)) → All (λ v. is_active v ≡ true → is_active v ≡ true) xs
  active-All [] = tt
  active-All (x ∷ xs) = (λ y. y, active-All xs)

  latest_active-is_active :
      (visited : List (StateNode fl)) (n : StateNode fl)
      → latest_active none visited ≡ some n
      → is_active n ≡ true
  latest_active-is_active visited n e =
      latest_active-All (λ n. is_active n ≡ true) visited none (λ b h. cc) (active-All visited) e

  -- The parent of an event that is no goal and no constraint, in a well-formed tree: an active node
  -- of the tree, a leaf or not, than which no active node has a later turn, or the root if no node is
  -- active.
  pub find_best_parent_latest :
      (t : Tree fl) (visited : List (StateNode fl)) (type : NodeType)
      → IsWellFormed t
      → Visits visited t
      → attaches_to_root type ≡ false
      → ((n : StateNode fl) × (get (find_best_parent visited t type) t.nodes ≡ some n)
          × (is_active n ≡ true)
          × All (λ m. is_active m ≡ true → m.turn_number ≤ n.turn_number) visited)
        ⊎ (All (λ m. is_active m ≡ false) visited × (find_best_parent visited t type ≡ t.root_id))
  unfolding find_best_parent
  find_best_parent_latest t visited type w v e = elim (Option-cases (latest_active none visited)) [
    | inl o ↦ inr ((latest_active-none visited none o).0, rw (e, o, find_best_parent))
    | inr (n, o) ↦ inl (
      n,
      rw (e, o, find_best_parent)
          (latest_active-All (λ n. get n.node_id t.nodes ≡ some n) visited none (λ b h. cc)
            (All-mono _ _ visited (λ n h _. h) (visited-All t w v)) o),
      latest_active-is_active visited n o,
      (latest_active-max visited none n o).0,
    )
  ]
