-- ===== src/StateTree/Restore.antt =====
-- internal/statetree: `RestoreFromSnapshot`, against the tree that the snapshot was taken of.
use mathlib.Core.List.{Memᴰ}
use acgc_project.Common.{
  ℕ, ◌≤◌, ◌≡◌, refl, sym, ap, subst, ◌∙◌, Str, List, [], ◌∷◌, ◌++◌, true, false, some, arith, inl,
  inr, Bool-cases, Option-cases, Map, get, All, All-mono, All-both, All-mem, mem-perm, get-mem,
  All-put, All-get, stored-All, IsDistinct, put-IsDistinct, get-put, get-put_self, str_eq,
  str_eq_iff, if◌then◌else◌,
}
use acgc_project.Domain.{Floats, StateNode}
use acgc_project.StateTree.{
  Tree, node_key, is_root_like, restore_node, restore_loop, restore_from_snapshot,
}
use acgc_project.StateTree.Invariant.{EntryFits, Rises, IsWellFormed, Visits, visited-All}

module _ {fl : Floats} where
  -- `t` holds nodes of the map `m` only.
  abbrev Agrees : Map (StateNode fl) → Tree fl → Type 0
  Agrees m t = (j : Str) (n : StateNode fl) → get j t.nodes ≡ some n → get j m ≡ some n

  restore_node-Agrees :
      (m : Map (StateNode fl)) (t : Tree fl) (n : StateNode fl)
      → get n.node_id m ≡ some n
      → Agrees m t
      → Agrees m (restore_node t n)
  unfolding restore_node
  restore_node-Agrees m t n e a j k found = elim (Bool-cases (str_eq n.node_id j)) [
    | inl y ↦
        let same = (str_eq_iff n.node_id j).0 y in
        let kept : n ≡ k = ground (arith, get-put n.node_id j n t.nodes) in
        subst (λ i. get i m ≡ some k) same (e ∙ ap some kept)
    | inr o ↦ a j k (ground (arith, get-put n.node_id j n t.nodes))
  ]

  restore_node-keeps :
      (m : Map (StateNode fl)) (t : Tree fl) (n : StateNode fl) (j : Str) (k : StateNode fl)
      → get n.node_id m ≡ some n
      → Agrees m t
      → get j t.nodes ≡ some k
      → get j (restore_node t n).nodes ≡ some k
  unfolding restore_node
  restore_node-keeps m t n j k e a found =
      ground (arith, get-put n.node_id j n t.nodes, str_eq_iff n.node_id j, a j k found)

  restore_node-stores :
      (t : Tree fl) (n : StateNode fl) → get n.node_id (restore_node t n).nodes ≡ some n
  unfolding restore_node
  restore_node-stores t n = get-put_self n.node_id n t.nodes

  -- What the loop leaves: the nodes of the map, those of the snapshot among them.
  record IsRestored (m : Map (StateNode fl)) (t : Tree fl) : Type 0 where
    agrees : Agrees m t
    distinct : IsDistinct t.nodes
    ids : All (λ e. e.1.node_id ≡ e.0) t.nodes
    turns : All (λ e. e.1.turn_number ≤ t.turn_count) t.nodes

  restore_node-IsRestored :
      (m : Map (StateNode fl)) (t : Tree fl) (n : StateNode fl)
      → get n.node_id m ≡ some n
      → IsRestored m t
      → IsRestored m (restore_node t n)
  unfolding restore_node
  restore_node-IsRestored m t n e r = record {
    agrees = restore_node-Agrees m t n e r.agrees;
    distinct = put-IsDistinct n.node_id n t.nodes r.distinct;
    ids = All-put (λ e. e.1.node_id ≡ e.0) n.node_id n t.nodes refl r.ids;
    turns =
        All-put (λ e. e.1.turn_number ≤ (restore_node t n).turn_count) n.node_id n t.nodes
          (ground arith) (All-mono _ _ t.nodes (λ e h. ground arith) r.turns);
  }

  restore_loop-IsRestored :
      (m : Map (StateNode fl)) (t : Tree fl) (ns : List (StateNode fl))
      → All (λ n. get n.node_id m ≡ some n) ns
      → IsRestored m t
      → IsRestored m (restore_loop t ns)
        × All (λ n. get n.node_id (restore_loop t ns).nodes ≡ some n) ns
        × ((j : Str) (k : StateNode fl)
            → get j t.nodes ≡ some k
            → get j (restore_loop t ns).nodes ≡ some k)
  unfolding restore_loop
  restore_loop-IsRestored m t [] a r = (r, tt, λ j k e. e)
  restore_loop-IsRestored m t (n ∷ ns) a r =
      let (r', found, kept) =
        restore_loop-IsRestored m (restore_node t n) ns a.1 (restore_node-IsRestored m t n a.0 r) in
      (
        r',
        (kept n.node_id n (restore_node-stores t n), found),
        λ j k e. kept j k (restore_node-keeps m t n j k a.0 r.agrees e),
      )

  restore_loop-root :
      (Q : StateNode fl → Type 0) (t : Tree fl) (ns : List (StateNode fl))
      → All Q ns
      → (n : StateNode fl) × Q n × (is_root_like n ≡ true) × (t.root_id ≡ n.node_id)
      → (n : StateNode fl) × Q n
        × (is_root_like n ≡ true)
        × ((restore_loop t ns).root_id ≡ n.node_id)
  unfolding restore_loop restore_node
  restore_loop-root Q t [] a h = h
  restore_loop-root Q t (x ∷ ns) a (n, q, like, e) = elim (Bool-cases (is_root_like x)) [
    | inl y ↦ restore_loop-root Q (restore_node t x) ns a.1 (x, a.0, y, rw y)
    | inr o ↦ restore_loop-root Q (restore_node t x) ns a.1 (n, q, like, rw o e)
  ]

  restore_loop-finds_root :
      (Q : StateNode fl → Type 0) {r : StateNode fl} (t : Tree fl) {ns : List (StateNode fl)}
      → All Q ns
      → Memᴰ r ns
      → is_root_like r ≡ true
      → (n : StateNode fl) × Q n
        × (is_root_like n ≡ true)
        × ((restore_loop t ns).root_id ≡ n.node_id)
  unfolding restore_loop restore_node
  restore_loop-finds_root Q {r} t a (Memᴰ.head {x = x} {xs = ns} e) like =
      let y : is_root_like x ≡ true = subst (λ z. is_root_like z ≡ true) e like in
      restore_loop-root Q (restore_node t x) ns a.1 (x, a.0, y, rw y)
  restore_loop-finds_root Q t a (Memᴰ.tail {x = x} m) like =
      restore_loop-finds_root Q (restore_node t x) a.1 m like

  restored-All :
      {m : Map (StateNode fl)} {t : Tree fl} (P : Str × StateNode fl → Type 0)
      → IsRestored m t
      → All P m
      → All P t.nodes
  restored-All {m} {t} P r a =
      All-mono _ _ t.nodes (λ e h. All-get P e.0 m a (r.agrees e.0 e.1 h))
        (stored-All t.nodes r.distinct)

  empty-IsRestored :
      (t : Tree fl) (task : Str)
      → IsRestored t.nodes (record {
        session_id = t.session_id;
        task_id = task;
        root_id = [];
        nodes = [];
        turn_count = 0;
      })
  unfolding get
  empty-IsRestored t task = record { agrees = λ j n e. cc; distinct = tt; ids = tt; turns = tt }

  restore_loop-session_id :
      (t : Tree fl) (ns : List (StateNode fl)) → (restore_loop t ns).session_id ≡ t.session_id
  unfolding restore_loop restore_node
  restore_loop-session_id t [] = refl
  restore_loop-session_id t (n ∷ ns) = restore_loop-session_id (restore_node t n) ns

  restored_fits :
      (t u : Tree fl)
      → IsWellFormed t
      → IsRestored t.nodes u
      → u.session_id ≡ t.session_id
      → All (EntryFits u.session_id u.turn_count) u.nodes
  restored_fits t u w r e =
      All-mono _ _ u.nodes (λ x h. (h.0, h.1.0, λ m key. h.1.1 m (key ∙ ap (λ s. node_key s m) e)))
        (All-both _ _ u.nodes r.ids (
          All-both _ _ u.nodes r.turns (
            restored-All (λ x. (m : ℕ) → x.0 ≡ node_key t.session_id m → x.1.turn_number ≡ m) r
              (All-mono _ _ t.nodes (λ x h. h.2) w.fits))))

  same_get :
      (t u : Tree fl) (visited : List (StateNode fl)) (j : Str)
      → IsWellFormed t
      → Visits visited t
      → IsRestored t.nodes u
      → All (λ n. get n.node_id u.nodes ≡ some n) visited
      → get j u.nodes ≡ get j t.nodes
  same_get t u visited j w v r found = elim (Option-cases (get j t.nodes)) [
    | inl o ↦ elim (Option-cases (get j u.nodes)) [
      | inl p ↦ p ∙ sym o
      | inr (n, p) ↦ p ∙ sym (r.agrees j n p)
    ]
    | inr (n, o) ↦
        let id = (All-get (EntryFits t.session_id t.turn_count) j t.nodes w.fits o).0 in
        subst (λ i. get i u.nodes ≡ some n) id
          (All-mem (λ n. get n.node_id u.nodes ≡ some n) (mem-perm v (get-mem j t.nodes o)) found)
        ∙ sym o
  ]

  -- A snapshot of a well-formed tree, in the order of any visit, is restored to a well-formed tree
  -- with the same node under each id.
  pub restore-visited :
      (t : Tree fl) (task : Str) (visited : List (StateNode fl))
      → IsWellFormed t
      → Visits visited t
      → IsWellFormed (restore_from_snapshot t.session_id task visited)
        × ((j : Str)
            → get j (restore_from_snapshot t.session_id task visited).nodes ≡ get j t.nodes)
  unfolding restore_from_snapshot
  restore-visited t task visited w v =
      let start : Tree fl = record {
        session_id = t.session_id;
        task_id = task;
        root_id = [];
        nodes = [];
        turn_count = 0;
      } in
      let (r, found, _) =
        restore_loop-IsRestored t.nodes start visited (visited-All t w v)
          (empty-IsRestored t task) in
      let same = λ (j : Str). same_get t _ visited j w v r found in
      (
        record {
          distinct = r.distinct;
          fits = restored_fits t _ w r (restore_loop-session_id start visited);
          acyclic = record {
            rank = w.acyclic.rank;
            bound = w.acyclic.bound;
            bounded = w.acyclic.bounded;
            rises = restored-All (Rises w.acyclic.rank) r w.acyclic.rises;
          };
          rooted =
              let (n, q, like, e) =
                restore_loop-finds_root
                  (λ n. get n.node_id (restore_loop start visited).nodes ≡ some n) start found
                  (mem-perm v (get-mem t.root_id t.nodes w.rooted.1)) w.rooted.2 in
              (n, subst (λ i. get i (restore_loop start visited).nodes ≡ some n) (sym e) q, like);
        },
        same,
      )

  restore_loop-append :
      (t : Tree fl) (xs ys : List (StateNode fl))
      → restore_loop t (xs ++ ys) ≡ restore_loop (restore_loop t xs) ys
  unfolding restore_loop
  restore_loop-append t [] ys = refl
  restore_loop-append t (x ∷ xs) ys = restore_loop-append (restore_node t x) xs ys

  root_id-restore_loop :
      (t : Tree fl) (ns : List (StateNode fl))
      → All (λ n. is_root_like n ≡ false) ns
      → (restore_loop t ns).root_id ≡ t.root_id
  unfolding restore_loop restore_node
  root_id-restore_loop t [] a = refl
  root_id-restore_loop t (n ∷ ns) a =
      root_id-restore_loop (restore_node t n) ns a.1
      ∙ ap (λ b. if b then n.node_id else t.root_id) a.0

  -- The root of a restored tree is the last node of the snapshot that has no parent or is a goal.
  pub root_id-restore :
      (sid task : Str) (before after : List (StateNode fl)) (n : StateNode fl)
      → is_root_like n ≡ true
      → All (λ m. is_root_like m ≡ false) after
      → (restore_from_snapshot sid task (before ++ n ∷ after)).root_id ≡ n.node_id
  unfolding restore_from_snapshot restore_loop restore_node
  root_id-restore sid task before after n like others =
      let start : Tree fl = record {
        session_id = sid;
        task_id = task;
        root_id = [];
        nodes = [];
        turn_count = 0;
      } in
      let half = restore_loop start before in
      ap (λ u. u.root_id) (restore_loop-append start before (n ∷ after))
      ∙ root_id-restore_loop (restore_node half n) after others
      ∙ ap (λ b. if b then n.node_id else half.root_id) like
