-- ===== src/Gc/Cases.antt =====
-- internal/gc/gc.go: what a property of the state of a run has to stand for a round of the loop over
-- the parents to keep it, and the fields of the tree that a run leaves alone.
use acgc_project.Common.{
  ℕ, suc, Str, List, [], ◌∷◌, some, Map, ltb, length, if_both, option_both, ◌≡◌, refl, ◌∙◌,
}
use acgc_project.Domain.{Floats, StateNode}
use acgc_project.StateTree.{Tree, update_node_status, replace_with_compressed}
use acgc_project.Scorer.{Scorer}
use acgc_project.Gc.{
  Policy, TriggerReason, Run, sweep_loop, deref, filter_compressible, compact_branch, Compress,
  compact_parent, compact_loop, run,
}

module _ {fl : Floats} (P : Run fl → Type 0) where
  -- A round leaves the state as it is or compacts the nodes of the parent that may be compressed.
  pub compact_parent_keeps :
      (compress : Compress fl) (p : Policy fl) (k : ℕ) (parent : Str) (ids : List Str) (r : Run fl)
      → P r
      → (let nodes = filter_compressible (deref ids r.tree) in
          (n : StateNode fl) → compress k nodes ≡ some n → P (compact_branch parent nodes n r))
      → P (compact_parent compress p k parent ids r)
  unfolding compact_parent
  compact_parent_keeps compress p k parent ids r idle step =
      let nodes = filter_compressible (deref ids r.tree) in
      if_both P _ idle
        (if_both P (ltb (length nodes) 3) idle (option_both P (compress k nodes) idle step))

module _ {fl : Floats} where
  -- The trees have one session and one turn.
  pub record IsSameTurn (t u : Tree fl) : Type 0 where
    pub session : u.session_id ≡ t.session_id
    pub turn : u.turn_count ≡ t.turn_count
    pub root : u.root_id ≡ t.root_id

  sweep_loop-IsSameTurn : (ids : List Str) (r : Run fl) → IsSameTurn r.tree (sweep_loop ids r).tree
  unfolding sweep_loop update_node_status
  sweep_loop-IsSameTurn [] r = record { session = refl; turn = refl; root = refl }
  sweep_loop-IsSameTurn (id ∷ ids) r =
      let rest = sweep_loop-IsSameTurn ids _ in
      record { session = rest.session; turn = rest.turn; root = rest.root }

  compact_loop-IsSameTurn :
      (compress : Compress fl) (p : Policy fl) (k : ℕ) (ps : List (Str × List Str)) (r : Run fl)
      → IsSameTurn r.tree (compact_loop compress p k ps r).tree
  unfolding compact_loop compact_branch replace_with_compressed
  compact_loop-IsSameTurn compress p k [] r = record { session = refl; turn = refl; root = refl }
  compact_loop-IsSameTurn compress p k ((parent, ids) ∷ ps) r =
      let rest =
        compact_loop-IsSameTurn compress p (suc k) ps (compact_parent compress p k parent ids r) in
      let step =
        compact_parent_keeps (λ x. IsSameTurn r.tree x.tree) compress p k parent ids r
          (record { session = refl; turn = refl; root = refl })
          (λ n e. record { session = refl; turn = refl; root = refl }) in
      record {
        session = rest.session ∙ step.session;
        turn = rest.turn ∙ step.turn;
        root = rest.root ∙ step.root;
      }

  pub run-IsSameTurn :
      (compress : Compress fl) (p : Policy fl) (s : Scorer fl) (t : Tree fl)
      (visited : List (StateNode fl)) (visit : Map (List Str) → List (Str × List Str))
      (reason : TriggerReason) (query : List fl.F32)
      → IsSameTurn t (run compress p s visited visit t reason query).tree
  unfolding run
  run-IsSameTurn compress p s t visited visit reason query =
      let swept = sweep_loop-IsSameTurn _ _ in
      let done = compact_loop-IsSameTurn compress p 0 _ _ in
      record {
        session = done.session ∙ swept.session;
        turn = done.turn ∙ swept.turn;
        root = done.root ∙ swept.root;
      }
