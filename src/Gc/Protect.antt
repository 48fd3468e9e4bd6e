-- ===== src/Gc/Protect.antt =====
-- internal/gc/gc.go: `Run` and the nodes that hold facts or decisions.
use mathlib.Core.List.{Permᴰ}
use acgc_project.Common.{
  ℕ, Str, List, [], ◌∷◌, map, true, some, Map, get, select, is_empty, ◌≡◌, ◌≢◌, refl, sym, ap,
  subst, ◌⊎◌, inl, inr, Bool-cases, Option-cases, All, All-mono, All-both, All-append, All-select,
  All-put, All-get, stored-All,
}
use acgc_project.Domain.{Floats, StateNode, is_active}
use acgc_project.StateTree.{Tree, get_active_nodes}
use acgc_project.StateTree.Invariant.{IsWellFormed, Visits, visited-All}
use acgc_project.Scorer.{Scorer, score_all, rescored}
use acgc_project.Gc.{
  Policy, TriggerReason, Marks, append_to, should_defer_sweep_facts, mark_node, mark_loop, Compress,
  run, sweep_score,
}
use acgc_project.Gc.Kept.{
  IsOther, IsKept, write_scores-IsKept, sweep_loop-IsKept, compact_loop-IsKept,
}

pub All-any_order :
    (P : Str × List Str → Type 0) {xs ys : List (Str × List Str)}
    → Permᴰ xs ys
    → All P ys
    → All P xs
All-any_order P Permᴰ.nil a = tt
All-any_order P (Permᴰ.cons e q) a = (subst P (sym e) a.0, All-any_order P q a.1)
All-any_order P (Permᴰ.swap e g) a = (subst P (sym e) a.1.0, (subst P (sym g) a.0, a.1.1))
All-any_order P (Permᴰ.trans q r) a = All-any_order P q (All-any_order P r a)

module _ (id : Str) where
  -- the marks name other nodes only
  record IsClear (m : Marks) : Type 0 where
    to_sweep : All (IsOther id) m.to_sweep
    children : All (λ e. All (IsOther id) e.1) m.parent_children

  append_to-IsOther :
      (parent i : Str) (m : Map (List Str))
      → IsOther id i
      → All (λ e. All (IsOther id) e.1) m
      → All (λ e. All (IsOther id) e.1) (append_to parent i m)
  unfolding append_to
  append_to-IsOther parent i m other a = elim (Option-cases (get parent m)) [
    | inl e ↦ All-put _ parent _ m (rw e (other, tt)) a
    | inr (ids, e) ↦
        All-put _ parent _ m
          (rw e (All-append (IsOther id) ids (i ∷ []) (All-get _ parent m a e) (other, tt))) a
  ]

module _ {fl : Floats} (id : Str) where
  mark_node-IsClear :
      (p : Policy fl) (m : Marks) (n : StateNode fl)
      → (should_defer_sweep_facts n ≡ true) ⊎ IsOther id n.node_id
      → IsClear id m
      → IsClear id (mark_node p m n)
  unfolding mark_node
  mark_node-IsClear p m n (inl deferred) w = rw deferred w
  mark_node-IsClear p m n (inr other) w = elim (Bool-cases (should_defer_sweep_facts n)) [
    | inl e ↦ rw e w
    | inr o ↦ rw o (record {
      to_sweep = elim (Bool-cases (fl.lt (sweep_score p n) p.low_relevance_threshold)) [
        | inl e ↦ rw e (All-append (IsOther id) m.to_sweep (n.node_id ∷ []) w.to_sweep (other, tt))
        | inr e ↦ rw e w.to_sweep
      ];
      children = elim (Bool-cases (is_empty n.parent_id)) [
        | inl e ↦ rw e w.children
        | inr e ↦
            rw e (append_to-IsOther id n.parent_id n.node_id m.parent_children other w.children)
      ];
    })
  ]

  mark_loop-IsClear :
      (p : Policy fl) (m : Marks) (nodes : List (StateNode fl))
      → All (λ n. (should_defer_sweep_facts n ≡ true) ⊎ IsOther id n.node_id) nodes
      → IsClear id m
      → IsClear id (mark_loop p m nodes)
  unfolding mark_loop
  mark_loop-IsClear p m [] a w = w
  mark_loop-IsClear p m (n ∷ nodes) a w =
      mark_loop-IsClear p (mark_node p m n) nodes a.1 (mark_node-IsClear p m n a.0 w)

  -- The nodes that a run marks are deferred or are not the node `id`, if that node is deferred.
  scored-IsOther :
      (p : Policy fl) (s : Scorer fl) (t : Tree fl) (visited : List (StateNode fl))
      (n : StateNode fl) (query : List fl.F32)
      → IsWellFormed t
      → Visits visited t
      → get id t.nodes ≡ some n
      → should_defer_sweep_facts n ≡ true
      → All
          (λ k. (should_defer_sweep_facts k ≡ true) ⊎ IsOther id k.node_id)
          (score_all fl s (get_active_nodes visited) t.turn_count query)
  unfolding score_all get_active_nodes should_defer_sweep_facts rescored
  scored-IsOther p s t visited n query w v found deferred =
      rescored-IsOther (select is_active visited) (select is_active visited)
        (All-select _ is_active visited (All-mono _ _ visited other (visited-All t w v)))
    where
      other :
          (k : StateNode fl)
          → get k.node_id t.nodes ≡ some k
          → (should_defer_sweep_facts k ≡ true) ⊎ IsOther id k.node_id
      other k stored = elim (Bool-cases (should_defer_sweep_facts k)) [
        | inl e ↦ inl e
        | inr o ↦ inr (λ same. cc (same, stored, found, deferred, o))
      ]

      rescored-IsOther :
          (all nodes : List (StateNode fl))
          → All (λ k. (should_defer_sweep_facts k ≡ true) ⊎ IsOther id k.node_id) nodes
          → All
              (λ k. (should_defer_sweep_facts k ≡ true) ⊎ IsOther id k.node_id)
              (map (rescored fl s all t.turn_count query) nodes)
      rescored-IsOther all [] a = tt
      rescored-IsOther all (k ∷ nodes) a = (a.0, rescored-IsOther all nodes a.1)

  tree-IsKept :
      (t : Tree fl) (n : StateNode fl)
      → IsWellFormed t
      → get id t.nodes ≡ some n
      → IsKept id n.status n.facts n.decisions t.nodes
  tree-IsKept t n w found = record {
    guarded =
        All-mono _ _ t.nodes (λ e h. (h.1.0, λ same. entry e same h.0))
          (All-both _ _ t.nodes (stored-All t.nodes w.distinct) w.fits);
    present = (n, found);
  }
    where
      entry :
          (e : Str × StateNode fl)
          → e.0 ≡ id
          → get e.0 t.nodes ≡ some e.1
          → (e.1.status ≡ n.status) × (e.1.facts ≡ n.facts) × (e.1.decisions ≡ n.decisions)
      entry e same stored =
          let this : e.1 ≡ n = cc (same, stored, found) in
          (ap (λ k. k.status) this, ap (λ k. k.facts) this, ap (λ k. k.decisions) this)

  -- `Run` on a well-formed tree, visiting nodes and parents in any order: under the id of a node
  -- that has facts or decisions there is after the run a node with the same status, facts and
  -- decisions, if the compressor never gives a branch that id.
  pub run_keeps_facts :
      (compress : Compress fl) (p : Policy fl) (s : Scorer fl) (t : Tree fl)
      (visited : List (StateNode fl)) (visit : Map (List Str) → List (Str × List Str))
      (reason : TriggerReason) (query : List fl.F32) (n : StateNode fl)
      → IsWellFormed t
      → Visits visited t
      → ((m : Map (List Str)) → Permᴰ (visit m) m)
      → ((k : ℕ) (nodes : List (StateNode fl)) (a : StateNode fl)
          → compress k nodes ≡ some a
          → a.node_id ≢ id)
      → get id t.nodes ≡ some n
      → should_defer_sweep_facts n ≡ true
      → (k : StateNode fl) × (get id (run compress p s visited visit t reason query).tree.nodes
          ≡ some k)
        × (k.status ≡ n.status)
        × (k.facts ≡ n.facts)
        × (k.decisions ≡ n.decisions)
  unfolding run
  run_keeps_facts compress p s t visited visit reason query n w v order fresh found deferred =
      let active = score_all fl s (get_active_nodes visited) t.turn_count query in
      let marks = mark_loop p (record { to_sweep = []; parent_children = [] }) active in
      let clear : IsClear id marks =
        mark_loop-IsClear p (record { to_sweep = []; parent_children = [] }) active
          (scored-IsOther p s t visited n query w v found deferred)
          (record { to_sweep = tt; children = tt }) in
      let scored =
        write_scores-IsKept id n.status n.facts n.decisions active t.nodes
          (tree-IsKept t n w found) in
      let swept =
        sweep_loop-IsKept id n.status n.facts n.decisions marks.to_sweep _ clear.to_sweep scored in
      let done =
        compact_loop-IsKept id n.status n.facts n.decisions compress p 0
          (visit marks.parent_children) _ fresh
          (All-any_order _ (order marks.parent_children) clear.children) swept in
      let (k, here) = done.present in
      let fields = (All-get _ id _ done.guarded here).1 refl in
      (k, here, fields.0, fields.1, fields.2)
