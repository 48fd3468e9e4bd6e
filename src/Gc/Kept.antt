-- ===== src/Gc/Kept.antt =====
-- internal/gc/gc.go: what the writes of `Run` leave under an id that none of them names.
use acgc_project.Common.{
  ℕ, suc, Str, List, [], ◌∷◌, map, some, Map, get, put, update, str_eq, ◌≡◌, ◌≢◌, refl, sym, subst,
  inl, inr, Bool-cases, Option-cases, All, All-select, All-put, All-update, All-get, get-put,
  get-update,
}
use acgc_project.Domain.{Floats, NodeStatus, StateNode}
use acgc_project.StateTree.{
  Tree, get_node, set_status, update_node_status, archive_all, swap_children,
  replace_with_compressed,
}
use acgc_project.Gc.Cases.{compact_parent_keeps}
use acgc_project.Gc.{
  Policy, Run, write_scores, sweep_loop, deref, filter_compressible, compact_branch, Compress,
  compact_parent, compact_loop,
}

abbrev pub IsOther : Str → Str → Type 0
IsOther id i = i ≢ id

module _ {fl : Floats} (id : Str) where
  node_ids-IsOther :
      (nodes : List (StateNode fl))
      → All (λ n. IsOther id n.node_id) nodes
      → All (IsOther id) (map (λ n. n.node_id) nodes)
  node_ids-IsOther [] a = tt
  node_ids-IsOther (n ∷ nodes) a = (a.0, node_ids-IsOther nodes a.1)

module _ {fl : Floats} (id : Str) (s : NodeStatus) (f d : List Str) where
  -- An entry under its own id, and the one under `id` with the status, facts and decisions given.
  abbrev pub Guards : Str × StateNode fl → Type 0
  Guards e =
      (e.1.node_id ≡ e.0) × (e.0 ≡ id → (e.1.status ≡ s) × (e.1.facts ≡ f) × (e.1.decisions ≡ d))

  pub record IsKept (m : Map (StateNode fl)) : Type 0 where
    pub guarded : All Guards m
    pub present : (n : StateNode fl) × (get id m ≡ some n)

  update-IsKept :
      (k : Str) (g : StateNode fl → StateNode fl) (m : Map (StateNode fl))
      → ((v : StateNode fl) → Guards (k, v) → Guards (k, g v))
      → IsKept m
      → IsKept (update k g m)
  update-IsKept k g m h w = record {
    guarded = All-update Guards k g m h w.guarded;
    present = elim (Bool-cases (str_eq k id)) [
      | inl e ↦ (g w.present.0, rw (get-update k id g m, e, w.present.1) refl)
      | inr o ↦ (w.present.0, rw (get-update k id g m, o) w.present.1)
    ];
  }

  put-IsKept :
      (k : Str) (v : StateNode fl) (m : Map (StateNode fl))
      → Guards (k, v)
      → IsKept m
      → IsKept (put k v m)
  put-IsKept k v m h w = record {
    guarded = All-put Guards k v m h w.guarded;
    present = elim (Bool-cases (str_eq k id)) [
      | inl e ↦ (v, rw (get-put k id v m, e) refl)
      | inr o ↦ (w.present.0, rw (get-put k id v m, o) w.present.1)
    ];
  }

  pub write_scores-IsKept :
      (nodes : List (StateNode fl)) (m : Map (StateNode fl))
      → IsKept m
      → IsKept (write_scores nodes m)
  unfolding write_scores
  write_scores-IsKept [] m w = w
  write_scores-IsKept (n ∷ nodes) m w =
      write_scores-IsKept nodes (update n.node_id (λ old. record old { scores = n.scores }) m)
        (update-IsKept n.node_id (λ old. record old { scores = n.scores }) m (λ v h. h) w)

  set_status-Guards :
      (k : Str) (status : NodeStatus) (v : StateNode fl)
      → IsOther id k
      → Guards (k, v)
      → Guards (k, set_status status v)
  unfolding set_status
  set_status-Guards k status v other h = (h.0, λ e. absurd (other e))

  pub sweep_loop-IsKept :
      (ids : List Str) (r : Run fl)
      → All (IsOther id) ids
      → IsKept r.tree.nodes
      → IsKept (sweep_loop ids r).tree.nodes
  unfolding sweep_loop update_node_status
  sweep_loop-IsKept [] r a w = w
  sweep_loop-IsKept (i ∷ ids) r a w = sweep_loop-IsKept ids _ a.1 (
      update-IsKept i (set_status NodeStatus.archived) r.tree.nodes
        (λ v. set_status-Guards i NodeStatus.archived v a.0) w)

  archive_all-IsKept :
      (cs : List Str) (m : Map (StateNode fl))
      → All (IsOther id) cs
      → IsKept m
      → IsKept (archive_all cs m)
  unfolding archive_all
  archive_all-IsKept [] m a w = w
  archive_all-IsKept (c ∷ cs) m a w = archive_all-IsKept cs _ a.1 (
      update-IsKept c (set_status NodeStatus.archived) m
        (λ v. set_status-Guards c NodeStatus.archived v a.0) w)

  replace_with_compressed-IsKept :
      (parent : Str) (cs : List Str) (n : StateNode fl) (t : Tree fl)
      → All (IsOther id) cs
      → IsOther id n.node_id
      → IsKept t.nodes
      → IsKept (replace_with_compressed parent cs n t).nodes
  unfolding replace_with_compressed swap_children
  replace_with_compressed-IsKept parent cs n t a other w =
      update-IsKept parent (swap_children cs n.node_id) _ (λ v h. h)
        (put-IsKept n.node_id n _ (refl, λ e. absurd (other e)) (archive_all-IsKept cs t.nodes a w))

  deref-IsOther :
      (ids : List Str) (t : Tree fl)
      → All (IsOther id) ids
      → IsKept t.nodes
      → All (λ n. IsOther id n.node_id) (deref ids t)
  unfolding deref get_node
  deref-IsOther [] t a w = tt
  deref-IsOther (i ∷ ids) t a w = elim (Option-cases (get i t.nodes)) [
    | inl e ↦ rw (e, deref) (deref-IsOther ids t a.1 w)
    | inr (n, e) ↦
        let same : n.node_id ≡ i = (All-get Guards i t.nodes w.guarded e).0 in
        rw (e, deref) (subst (IsOther id) (sym same) a.0, deref-IsOther ids t a.1 w)
  ]

  compact_parent-IsKept :
      (compress : Compress fl) (p : Policy fl) (attempt : ℕ) (parent : Str) (ids : List Str)
      (r : Run fl)
      → ((k : ℕ) (nodes : List (StateNode fl)) (a : StateNode fl)
          → compress k nodes ≡ some a
          → IsOther id a.node_id)
      → All (IsOther id) ids
      → IsKept r.tree.nodes
      → IsKept (compact_parent compress p attempt parent ids r).tree.nodes
  unfolding compact_branch filter_compressible
  compact_parent-IsKept compress p attempt parent ids r other a w =
      let nodes = filter_compressible (deref ids r.tree) in
      let others : All (IsOther id) (map (λ n. n.node_id) nodes) =
        node_ids-IsOther id nodes
          (All-select _ _ (deref ids r.tree) (deref-IsOther ids r.tree a w)) in
      compact_parent_keeps (λ x. IsKept x.tree.nodes) compress p attempt parent ids r w
        (λ n e.
          replace_with_compressed-IsKept parent (map (λ c. c.node_id) nodes)
            (record n { session_id = r.tree.session_id; parent_id = parent }) r.tree others
            (other attempt nodes n e) w)

  pub compact_loop-IsKept :
      (compress : Compress fl) (p : Policy fl) (attempt : ℕ) (parents : List (Str × List Str))
      (r : Run fl)
      → ((k : ℕ) (nodes : List (StateNode fl)) (a : StateNode fl)
          → compress k nodes ≡ some a
          → IsOther id a.node_id)
      → All (λ e. All (IsOther id) e.1) parents
      → IsKept r.tree.nodes
      → IsKept (compact_loop compress p attempt parents r).tree.nodes
  unfolding compact_loop
  compact_loop-IsKept compress p attempt [] r other a w = w
  compact_loop-IsKept compress p attempt ((parent, ids) ∷ parents) r other a w =
      compact_loop-IsKept compress p (suc attempt) parents
        (compact_parent compress p attempt parent ids r) other a.1
        (compact_parent-IsKept compress p attempt parent ids r other a.0 w)
