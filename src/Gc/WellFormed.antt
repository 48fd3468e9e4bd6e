-- ===== src/Gc/WellFormed.antt =====
-- internal/gc/gc.go: `Run` and the invariant of the tree.
use mathlib.Core.List.{Permᴰ}
use acgc_project.Common.{
  ℕ, suc, ◌≤◌, Str, List, [], ◌∷◌, map, none, some, Map, get, update, is_empty, str_eq, ◌≡◌, ◌≢◌,
  refl, sym, ◌∙◌, ◌⊎◌, inl, inr, Bool-cases, arith, All, All-mono, All-select, All-put, All-get,
  get-put_ne, get-update,
}
use acgc_project.Domain.{Floats, NodeStatus, StateNode, is_active}
use acgc_project.StateTree.{
  Tree, node_key, get_active_nodes, set_status, update_node_status, archive_all, swap_children,
  replace_with_compressed,
}
use acgc_project.StateTree.Invariant.{IsWellFormed, Visits, visited-All}
use acgc_project.StateTree.Writes.{IsMark, mark-IsWellFormed}
use acgc_project.StateTree.Growth.{
  IsFreshBranch, replace_with_compressed-IsWellFormed, get-archive_all-none,
}
use acgc_project.StateTree.Kept.{
  Grows, same-Grows, then-Grows, Grows-IsHeld, update-Grows, replace_with_compressed-Grows,
}
use acgc_project.StateTree.Parents.{
  IsHeld, HasParent, HasParents, update-HasParents, replace_with_compressed-HasParents,
}
use acgc_project.Gc.Cases.{compact_parent_keeps}
use acgc_project.Gc.Protect.{All-any_order}
use acgc_project.Scorer.{Scorer, score_all, rescored}
use acgc_project.Gc.{
  Policy, TriggerReason, Marks, append_to, Run, should_defer_sweep_facts, mark_node, mark_loop,
  write_scores, sweep_loop, deref, filter_compressible, compact_branch, Compress, compact_parent,
  compact_loop, run,
}

-- A compressor whose k-th call names its branch `name k`: no two calls give one id, no id is the
-- key of a turn, and a branch has no children and no turn of its own.
pub record IsClocked {fl : Floats} (compress : Compress fl) (name : ℕ → Str) : Type 0 where
  pub named :
      (k : ℕ) (nodes : List (StateNode fl)) (a : StateNode fl)
      → compress k nodes ≡ some a
      → a.node_id ≡ name k
  pub leaf :
      (k : ℕ) (nodes : List (StateNode fl)) (a : StateNode fl)
      → compress k nodes ≡ some a
      → a.child_ids ≡ []
  pub early :
      (k : ℕ) (nodes : List (StateNode fl)) (a : StateNode fl)
      → compress k nodes ≡ some a
      → a.turn_number ≡ 0
  pub apart : (i j : ℕ) → name i ≡ name j → i ≡ j
  pub no_turn_key : (k : ℕ) (sid : Str) (m : ℕ) → name k ≢ node_key sid m

-- A well-formed tree with the parents of its nodes, in which the ids of `Q` are not in use.
pub record IsSound {fl : Floats} (Q : Str → Type 0) (t : Tree fl) : Type 0 where
  pub formed : IsWellFormed t
  pub parents : HasParents t.nodes
  pub reserved : (j : Str) → Q j → get j t.nodes ≡ none

module _ {fl : Floats} where
  update-free :
      (i : Str) (f : StateNode fl → StateNode fl) (m : Map (StateNode fl)) (j : Str)
      → get j m ≡ none
      → get j (update i f m) ≡ none
  update-free i f m j h = elim (Bool-cases (str_eq i j)) [
    | inl y ↦ rw (get-update i j f m, y, h) refl
    | inr o ↦ rw (get-update i j f m, o) h
  ]

module _ {fl : Floats} (Q : Str → Type 0) where
  pub mark-IsSound :
      (i : Str) (f : StateNode fl → StateNode fl) (t : Tree fl)
      → IsMark f
      → ((v : StateNode fl) → (f v).parent_id ≡ v.parent_id)
      → IsSound Q t
      → IsSound Q (record t { nodes = update i f t.nodes })
  mark-IsSound i f t mark same w = record {
    formed = mark-IsWellFormed i f t mark w.formed;
    parents = update-HasParents i f t.nodes same w.parents;
    reserved = λ j q. update-free i f t.nodes j (w.reserved j q);
  }

  pub write_scores-IsSound :
      (nodes : List (StateNode fl)) (t : Tree fl)
      → IsSound Q t
      → IsSound Q (record t { nodes = write_scores nodes t.nodes })
        × Grows t.nodes (write_scores nodes t.nodes)
  unfolding write_scores
  write_scores-IsSound [] t w = (w, same-Grows t.nodes)
  write_scores-IsSound (n ∷ nodes) t w =
      let f : StateNode fl → StateNode fl = λ old. record old { scores = n.scores } in
      let mark : IsMark f = record {
        same_id = λ v. refl;
        same_turn = λ v. refl;
        same_children = λ v. refl;
        same_kind = λ v. refl;
      } in
      let rest =
        write_scores-IsSound nodes (record t { nodes = update n.node_id f t.nodes })
          (mark-IsSound n.node_id f t mark (λ v. refl) w) in
      (rest.0, then-Grows t.nodes _ _ (update-Grows n.node_id f t.nodes (λ v. refl)) rest.1)

  pub sweep_loop-IsSound :
      (ids : List Str) (r : Run fl)
      → IsSound Q r.tree
      → IsSound Q (sweep_loop ids r).tree × Grows r.tree.nodes (sweep_loop ids r).tree.nodes
  unfolding sweep_loop update_node_status set_status
  sweep_loop-IsSound [] r w = (w, same-Grows r.tree.nodes)
  sweep_loop-IsSound (i ∷ ids) r w =
      let f : StateNode fl → StateNode fl = set_status NodeStatus.archived in
      let mark : IsMark f = record {
        same_id = λ v. refl;
        same_turn = λ v. refl;
        same_children = λ v. refl;
        same_kind = λ v. refl;
      } in
      let rest = sweep_loop-IsSound ids _ (mark-IsSound i f r.tree mark (λ v. refl) w) in
      (rest.0, then-Grows r.tree.nodes _ _ (update-Grows i f r.tree.nodes (λ v. refl)) rest.1)

module _ (name : ℕ → Str) (Q : Str → Type 0) where
  -- The names from the k-th on, and the ids of `Q`.
  abbrev Later : ℕ → Str → Type 0
  Later k j = ((i : ℕ) × (k ≤ i) × (j ≡ name i)) ⊎ Q j

  still : (k : ℕ) (j : Str) → Later (suc k) j → Later k j
  still k j (inl (i, le, e)) = inl (i, omega arith, e)
  still k j (inr q) = inr q

module _ {fl : Floats} (name : ℕ → Str) (Q : Str → Type 0) where
  abbrev IsSoundAt : ℕ → Tree fl → Type 0
  IsSoundAt k t = IsSound (Later name Q k) t

  get-replace-none :
      (parent : Str) (cs : List Str) (n : StateNode fl) (t : Tree fl) (j : Str)
      → n.node_id ≢ j
      → get j t.nodes ≡ none
      → get j (replace_with_compressed parent cs n t).nodes ≡ none
  unfolding replace_with_compressed
  get-replace-none parent cs n t j ne h =
      update-free parent (swap_children cs n.node_id) _ j
        (get-put_ne n.node_id j n (archive_all cs t.nodes) ne ∙ get-archive_all-none cs j t.nodes h)

  -- the states before and after a round of the loop over the parents
  abbrev IsRound : ℕ → Run fl → Run fl → Type 0
  IsRound k r r' = IsSoundAt (suc k) r'.tree × Grows r.tree.nodes r'.tree.nodes

  idle-IsRound : (k : ℕ) (r : Run fl) → IsSoundAt k r.tree → IsRound k r r
  idle-IsRound k r w = (
    record {
      formed = w.formed;
      parents = w.parents;
      reserved = λ j q. w.reserved j (still name Q k j q);
    },
    same-Grows r.tree.nodes,
  )

  passed :
      {compress : Compress fl} (k : ℕ) (j : Str)
      → IsClocked compress name
      → ((i : ℕ) (j : Str) → Q j → name i ≢ j)
      → Later name Q (suc k) j
      → name k ≢ j
  passed k j c away (inl (i, le, e)) h =
      let same : k ≡ i = c.apart k i (h ∙ e) in absurd (omega arith)
  passed k j c away (inr q) h = away k j q h

  compact_branch-IsRound :
      (compress : Compress fl) (k : ℕ) (parent : Str) (nodes : List (StateNode fl))
      (a : StateNode fl) (r : Run fl)
      → IsClocked compress name
      → ((i : ℕ) (j : Str) → Q j → name i ≢ j)
      → compress k nodes ≡ some a
      → IsHeld r.tree.nodes parent
      → IsSoundAt k r.tree
      → IsRound k r (compact_branch parent nodes a r)
  unfolding compact_branch
  compact_branch-IsRound compress k parent nodes a r c away answer held w =
      let n = record a { session_id = r.tree.session_id; parent_id = parent } in
      let ids = map (λ x. x.node_id) nodes in
      let named = c.named k nodes a answer in
      let fresh : IsFreshBranch r.tree n = record {
        unused = rw named (w.reserved (name k) (inl (k, omega arith, refl)));
        leaf = c.leaf k nodes a answer;
        early = omega (arith, c.early k nodes a answer);
        no_turn_key = λ m e. c.no_turn_key k r.tree.session_id m (sym named ∙ e);
      } in
      (
        record {
          formed =
              replace_with_compressed-IsWellFormed r.tree parent ids n held.0 w.formed fresh held.1;
          parents = replace_with_compressed-HasParents parent ids n r.tree refl held w.parents;
          reserved = λ j q.
              get-replace-none parent ids n r.tree j (λ e. passed k j c away q (sym named ∙ e))
                (w.reserved j (still name Q k j q));
        },
        replace_with_compressed-Grows parent ids n r.tree fresh.unused,
      )

  compact_parent-IsRound :
      (compress : Compress fl) (p : Policy fl) (k : ℕ) (parent : Str) (ids : List Str) (r : Run fl)
      → IsClocked compress name
      → ((i : ℕ) (j : Str) → Q j → name i ≢ j)
      → IsHeld r.tree.nodes parent
      → IsSoundAt k r.tree
      → IsRound k r (compact_parent compress p k parent ids r)
  compact_parent-IsRound compress p k parent ids r c away held w =
      compact_parent_keeps (IsRound k r) compress p k parent ids r (idle-IsRound k r w) (λ n e.
        compact_branch-IsRound compress k parent (filter_compressible (deref ids r.tree)) n r c away
          e held w)

  compact_loop-IsSound :
      (compress : Compress fl) (p : Policy fl) (k : ℕ) (ps : List (Str × List Str)) (r : Run fl)
      → IsClocked compress name
      → ((i : ℕ) (j : Str) → Q j → name i ≢ j)
      → All (λ e. IsHeld r.tree.nodes e.0) ps
      → IsSoundAt k r.tree
      → IsSound Q (compact_loop compress p k ps r).tree
        × Grows r.tree.nodes (compact_loop compress p k ps r).tree.nodes
  unfolding compact_loop
  compact_loop-IsSound compress p k [] r c away a w = (
    record { formed = w.formed; parents = w.parents; reserved = λ j q. w.reserved j (inr q) },
    same-Grows r.tree.nodes,
  )
  compact_loop-IsSound compress p k ((parent, ids) ∷ ps) r c away a w =
      let r' = compact_parent compress p k parent ids r in
      let (w', grows) = compact_parent-IsRound compress p k parent ids r c away a.0 w in
      let rest =
        compact_loop-IsSound compress p (suc k) ps r' c away
          (All-mono _ _ ps (λ e h. Grows-IsHeld r.tree.nodes r'.tree.nodes e.0 grows h) a.1) w' in
      (rest.0, then-Grows r.tree.nodes r'.tree.nodes _ grows rest.1)

module _ {fl : Floats} (m : Map (StateNode fl)) where
  append_to-IsHeld :
      (parent i : Str) (pc : Map (List Str))
      → IsHeld m parent
      → All (λ e. IsHeld m e.0) pc
      → All (λ e. IsHeld m e.0) (append_to parent i pc)
  unfolding append_to
  append_to-IsHeld parent i pc h a = All-put _ parent _ pc h a

  AreHeld : Marks → Type 0
  AreHeld marks = All (λ e. IsHeld m e.0) marks.parent_children

  mark_node-AreHeld :
      (p : Policy fl) (marks : Marks) (n : StateNode fl)
      → HasParent m n
      → AreHeld marks
      → AreHeld (mark_node p marks n)
  unfolding mark_node AreHeld
  mark_node-AreHeld p marks n has h = elim (Bool-cases (should_defer_sweep_facts n)) [
    | inl e ↦ rw e h
    | inr o ↦ rw o (elim (Bool-cases (is_empty n.parent_id)) [
      | inl e ↦ rw e h
      | inr e ↦ rw e (
          append_to-IsHeld n.parent_id n.node_id marks.parent_children
            (elim has [ inl f ↦ cc (e, f) | inr held ↦ held ]) h)
    ])
  ]

  mark_loop-AreHeld :
      (p : Policy fl) (marks : Marks) (nodes : List (StateNode fl))
      → All (HasParent m) nodes
      → AreHeld marks
      → AreHeld (mark_loop p marks nodes)
  unfolding mark_loop
  mark_loop-AreHeld p marks [] a h = h
  mark_loop-AreHeld p marks (n ∷ nodes) a h =
      mark_loop-AreHeld p (mark_node p marks n) nodes a.1 (mark_node-AreHeld p marks n a.0 h)

  rescored-HasParent :
      (s : Scorer fl) (all nodes : List (StateNode fl)) (turn : ℕ) (query : List fl.F32)
      → All (HasParent m) nodes
      → All (HasParent m) (map (rescored fl s all turn query) nodes)
  unfolding rescored
  rescored-HasParent s all [] turn query a = tt
  rescored-HasParent s all (n ∷ nodes) turn query a =
      (a.0, rescored-HasParent s all nodes turn query a.1)

-- `Run`, with a compressor that takes its ids from a clock, keeps a tree well formed and the parents
-- of its nodes in it, takes no id that is reserved from the compressor, and keeps each node with its
-- content: all but its status, children, scores and embedding.
pub run-IsSound :
    {fl : Floats} (compress : Compress fl) (name : ℕ → Str) (Q : Str → Type 0) (p : Policy fl)
    (s : Scorer fl) (t : Tree fl) (visited : List (StateNode fl))
    (visit : Map (List Str) → List (Str × List Str)) (reason : TriggerReason) (query : List fl.F32)
    → IsClocked compress name
    → ((i : ℕ) (j : Str) → Q j → name i ≢ j)
    → Visits visited t
    → ((m : Map (List Str)) → Permᴰ (visit m) m)
    → ((i : ℕ) → get (name i) t.nodes ≡ none)
    → IsSound Q t
    → IsSound Q (run compress p s visited visit t reason query).tree
      × Grows t.nodes (run compress p s visited visit t reason query).tree.nodes
unfolding run score_all get_active_nodes AreHeld
run-IsSound {fl} compress name Q p s t visited visit reason query c away v order unused w =
    let active = score_all fl s (get_active_nodes visited) t.turn_count query in
    let marks = mark_loop p (record { to_sweep = []; parent_children = [] }) active in
    let has : All (HasParent t.nodes) active =
      rescored-HasParent t.nodes s (get_active_nodes visited) (get_active_nodes visited)
        t.turn_count query
        (All-select _ is_active visited (
          All-mono _ _ visited (λ n e. All-get _ n.node_id t.nodes w.parents e)
            (visited-All t w.formed v))) in
    let held =
      mark_loop-AreHeld t.nodes p (record { to_sweep = []; parent_children = [] }) active has tt in
    let start : IsSound (Later name Q 0) t = record {
      formed = w.formed;
      parents = w.parents;
      reserved = λ j q. elim q [ inl (i, le, e) ↦ rw e (unused i) | inr q' ↦ w.reserved j q' ];
    } in
    let scored = write_scores-IsSound (Later name Q 0) active t start in
    let swept = sweep_loop-IsSound (Later name Q 0) marks.to_sweep _ scored.0 in
    let visits = visit marks.parent_children in
    let parents = All-any_order (λ e. IsHeld t.nodes e.0) (order marks.parent_children) held in
    let kept = then-Grows t.nodes _ _ scored.1 swept.1 in
    let done =
      compact_loop-IsSound name Q compress p 0 visits _ c away
        (All-mono _ _ visits (λ e h. Grows-IsHeld t.nodes _ e.0 kept h) parents) swept.0 in
    (done.0, then-Grows t.nodes _ _ kept done.1)
