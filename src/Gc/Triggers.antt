-- ===== src/Gc/Triggers.antt =====
-- internal/gc/gc.go: what `ShouldRun` answers.
use acgc_project.Common.{
  ℕ, ◌≤◌, ◌<◌, Option, List, [], ◌∷◌, true, false, none, some, any, ◌≡◌, refl, ◌⊎◌, ◌==◌,
  if◌then◌else◌, length, inl, inr, arith, Bool-cases, Option-cases, sym,
}
use acgc_project.Domain.{Floats, NodeStatus, StateNode, is_active, is_active_status}
use acgc_project.StateTree.{Tree, TreeStats, stats, get_active_nodes}
use acgc_project.StateTree.{zero_stats, count_nodes}
use acgc_project.StateTree.Invariant.{IsWellFormed}
use acgc_project.StateTree.Depth.{depth_from_total}
use acgc_project.Scorer.{is_resolved_status}
use acgc_project.Gc.{Policy, TriggerReason, relevance_trigger, trigger, should_run}

active_status-not-resolved :
    (s : NodeStatus) → is_active_status s ≡ true → is_resolved_status s ≡ false
active_status-not-resolved NodeStatus.active h = refl
active_status-not-resolved NodeStatus.resolved h = sym h
active_status-not-resolved NodeStatus.stale h = refl
active_status-not-resolved NodeStatus.compressed h = refl
active_status-not-resolved NodeStatus.archived h = refl

module _ {fl : Floats} where
  any_resolved-get_active_nodes :
      (visited : List (StateNode fl))
      → any (λ n. is_resolved_status n.status) (get_active_nodes visited) ≡ false
  unfolding get_active_nodes
  any_resolved-get_active_nodes [] = refl
  any_resolved-get_active_nodes (n ∷ visited) =
      let rest = any_resolved-get_active_nodes visited in
      elim (Bool-cases (is_active n)) [
        | inl e ↦ rw (e, active_status-not-resolved n.status e) rest
        | inr e ↦ rw e rest
      ]

  -- the limits that hold when no reason is given
  abbrev pub IsQuiet : Policy fl → TreeStats → ℕ → ℕ → ℕ → Type 0
  IsQuiet p s active estimated max_prompt =
      let budget = if max_prompt == 0 then p.max_prompt_tokens else max_prompt in
      ((budget ≡ 0) ⊎ (estimated ≤ budget))
      × ((p.max_active_nodes ≡ 0) ⊎ (active ≤ p.max_active_nodes))
      × (s.max_depth ≤ p.max_tree_depth)
      × (s.max_width ≤ p.max_children_per_node)

  trigger-IsQuiet :
      (p : Policy fl) (s : TreeStats) (nodes : List (StateNode fl)) (estimated max_prompt : ℕ)
      → trigger p s nodes estimated max_prompt ≡ none
      → IsQuiet p s (length nodes) estimated max_prompt
  unfolding trigger
  trigger-IsQuiet p s nodes estimated max_prompt e = ground arith

  trigger-ne-resolved :
      (p : Policy fl) (s : TreeStats) (nodes : List (StateNode fl)) (estimated max_prompt : ℕ)
      → any (λ n. is_resolved_status n.status) nodes ≡ false
      → ¬ (trigger p s nodes estimated max_prompt ≡ some TriggerReason.resolved_branch)
  unfolding trigger relevance_trigger
  trigger-ne-resolved p s nodes estimated max_prompt h e = ground arith

  -- When `ShouldRun` finds no reason, the estimate is within the budget that it was given, or the
  -- policy's if that is 0, or there is no budget; and the active nodes, where they are limited, the
  -- depth and the width of the tree are within the policy's limits.
  pub should_run-IsQuiet :
      (p : Policy fl) (fuel : ℕ) (visited visited_active : List (StateNode fl)) (t : Tree fl)
      (estimated max_prompt : ℕ)
      → should_run p fuel visited visited_active t estimated max_prompt ≡ some none
      → (s : TreeStats) × (stats fuel visited t ≡ some s)
        × IsQuiet p s (length (get_active_nodes visited_active)) estimated max_prompt
  unfolding should_run
  should_run-IsQuiet p fuel visited visited_active t estimated max_prompt e =
      elim (Option-cases (stats fuel visited t)) [
        | inl n ↦ ground arith
        | inr (s, h) ↦ (
          s,
          h,
          trigger-IsQuiet p s (get_active_nodes visited_active) estimated max_prompt (ground arith),
        )
      ]

  -- `ShouldRun` never answers `ReasonResolvedBranch`: it looks for resolved nodes among the active
  -- ones only.
  pub should_run-ne-resolved :
      (p : Policy fl) (fuel : ℕ) (visited visited_active : List (StateNode fl)) (t : Tree fl)
      (estimated max_prompt : ℕ)
      → ¬ (
          should_run p fuel visited visited_active t estimated max_prompt
          ≡ some (some TriggerReason.resolved_branch))
  unfolding should_run
  should_run-ne-resolved p fuel visited visited_active t estimated max_prompt e =
      elim (Option-cases (stats fuel visited t)) [
        | inl n ↦ ground arith
        | inr (s, h) ↦
            trigger-ne-resolved p s (get_active_nodes visited_active) estimated max_prompt
              (any_resolved-get_active_nodes visited_active) (ground arith)
      ]

  stats_total :
      (fuel : ℕ) (visited : List (StateNode fl)) (t : Tree fl) (w : IsWellFormed t)
      → w.acyclic.bound < fuel
      → (s : TreeStats) × (stats fuel visited t ≡ some s)
  unfolding stats
  stats_total fuel visited t w enough =
      let (d, e, low, high) = depth_from_total t.nodes w.acyclic fuel t.root_id 0 (omega arith) in
      (record (count_nodes zero_stats visited) { max_depth = d }, ground (arith, e))

  -- On a well-formed tree `ShouldRun` returns, with fuel above the bound of the ranks of the tree.
  pub should_run_total :
      (p : Policy fl) (fuel : ℕ) (visited visited_active : List (StateNode fl)) (t : Tree fl)
      (estimated max_prompt : ℕ) (w : IsWellFormed t)
      → w.acyclic.bound < fuel
      → (answer : Option TriggerReason) × (should_run p fuel visited visited_active t estimated
            max_prompt
          ≡ some answer)
  unfolding should_run
  should_run_total p fuel visited visited_active t estimated max_prompt w enough =
      let (s, e) = stats_total fuel visited t w enough in
      (trigger p s (get_active_nodes visited_active) estimated max_prompt, ground (arith, e))
