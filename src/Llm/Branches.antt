-- ===== src/Llm/Branches.antt =====
-- internal/llm/compressor.go: the branches that the compressor makes.
use acgc_project.Common.{
  ℕ, ◌+◌, ◌/◌, ◌≤◌, Str, List, [], ◌++◌, Option, none, some, codes, decimal, decimal_injective,
  length, ltb, if◌then◌else◌, ◌≡◌, ◌≢◌, refl, sym, ap, subst, arith, append_cancel,
}
use acgc_project.Domain.{Floats, StateNode, NodeType, NodeStatus}
use acgc_project.StateTree.{node_key, root_key}
use acgc_project.Facts.Merge.{
  all_decisions, strip_trailing_entities_line, merge_from_nodes, union_facts,
}
use acgc_project.Facts.Unique.{effective_cap}
use acgc_project.Facts.Kept.{IsUnique, append_unique-bounded, dedupe_limited_kept}
use acgc_project.Gc.WellFormed.{IsClocked}
use acgc_project.Session.Running.{IsClock}
use acgc_project.Llm.{Client, GenerateResult, Request, HttpResponse}
use acgc_project.Llm.Compressor.{branch_of, compress, all_issues, all_event_refs}

map_option_some {ℓ κ} :
    {A : Type ℓ} {B : Type κ} (f : A → B) (o : Option A) {b : B}
    → elim o as (λ _. Option B) [ none ↦ none | some a ↦ some (f a) ] ≡ some b
    → (a : A) × (b ≡ f a)
map_option_some f none e = absurd (cc)
map_option_some f (some a) e = (a, cc)

-- the id of a branch
abbrev pub branch_id : ℕ → Str
branch_id now = codes "compressed_" ++ decimal now

branch_id-injective : (m n : ℕ) → branch_id m ≡ branch_id n → m ≡ n
branch_id-injective m n e = decimal_injective m n (append_cancel (codes "compressed_") e)

branch_id-node_key : (n : ℕ) (sid : Str) (m : ℕ) → branch_id n ≢ node_key sid m
unfolding node_key
branch_id-node_key n sid m e = ground (arith, e)

branch_id-root_key : (n : ℕ) (sid : Str) → branch_id n ≢ root_key sid
unfolding root_key
branch_id-root_key n sid e = ground (arith, e)

-- Ids from clock readings that never agree for two events are a worker's clock.
pub branch_id-IsClock :
    (now : ℕ → ℕ → ℕ)
    → ((d e i k : ℕ) → now d i ≡ now e k → d ≡ e)
    → IsClock (λ e k. branch_id (now e k))
branch_id-IsClock now apart = record {
  apart = λ d e i k q. apart d e i k (branch_id-injective (now d i) (now e k) q);
  no_root_key = λ e i sid. branch_id-root_key (now e i) sid;
  no_turn_key = λ e i sid m. branch_id-node_key (now e i) sid m;
}

module _ {fl : Floats} (post : ℕ → Request fl → Option HttpResponse) (c : Client) where
  compress_cases :
      (now k : ℕ) (nodes : List (StateNode fl)) (a : StateNode fl)
      → compress (post k) c now nodes ≡ some a
      → (r : GenerateResult) × (a ≡ branch_of now nodes r)
  unfolding compress
  compress_cases now k nodes a e = map_option_some (branch_of now nodes) _ e

  -- The compressor that asks a model, with clock readings of which no two agree, is clocked whatever
  -- the model answers: a branch takes its id from the reading, which is the key of no turn, and has no
  -- children and turn 0.
  pub compress-IsClocked :
      (now : ℕ → ℕ)
      → ((i j : ℕ) → now i ≡ now j → i ≡ j)
      → IsClocked (λ k nodes. compress (post k) c (now k) nodes) (λ k. branch_id (now k))
  unfolding branch_of
  compress-IsClocked now apart = record {
    named =
        λ k nodes a e. ap (λ (n : StateNode fl). n.node_id) (compress_cases (now k) k nodes a e).1;
    leaf = λ k nodes a e.
        ap (λ (n : StateNode fl). n.child_ids) (compress_cases (now k) k nodes a e).1;
    early = λ k nodes a e.
        ap (λ (n : StateNode fl). n.turn_number) (compress_cases (now k) k nodes a e).1;
    apart = λ i j q. apart i j (branch_id-injective (now i) (now j) q);
    no_turn_key = λ k sid m. branch_id-node_key (now k) sid m;
  }

  larger :
      (est tok : ℕ)
      → (est ≤ (if ltb tok est then est else tok)) × (tok ≤ (if ltb tok est then est else tok))
  larger est tok = (ground arith, ground arith)

  -- A branch that the compressor answers has at most 16 facts and at most 16 decisions, none blank and
  -- no two equal up to case, all open issues and event references of its nodes in order, a token count
  -- of at least a fourth of its summary's length, and the status and type of a compressed branch.
  pub compress_bounded :
      (now k : ℕ) (nodes : List (StateNode fl)) (a : StateNode fl)
      → compress (post k) c now nodes ≡ some a
      → (length a.facts ≤ 16)
        × IsUnique [] a.facts
        × (length a.decisions ≤ 16)
        × IsUnique [] a.decisions
        × (a.open_issues ≡ all_issues nodes)
        × (a.raw_event_refs ≡ all_event_refs nodes)
        × (length a.summary / 4 ≤ a.token_count)
        × (a.status ≡ NodeStatus.compressed)
        × (a.node_type ≡ NodeType.compressed_branch)
  unfolding branch_of merge_from_nodes union_facts effective_cap
  compress_bounded now k nodes a e =
      let (r, same) = compress_cases now k nodes a e in
      subst
        (λ (n : StateNode fl).
          (length n.facts ≤ 16)
          × IsUnique [] n.facts
          × (length n.decisions ≤ 16)
          × IsUnique [] n.decisions
          × (n.open_issues ≡ all_issues nodes)
          × (n.raw_event_refs ≡ all_event_refs nodes)
          × (length n.summary / 4 ≤ n.token_count)
          × (n.status ≡ NodeStatus.compressed)
          × (n.node_type ≡ NodeType.compressed_branch))
        (sym same)
        (let b = branch_of now nodes r in
          let facts =
            append_unique-bounded (merge_from_nodes nodes 0 0).0
              (strip_trailing_entities_line r.content 16).1 in
          let decisions = dedupe_limited_kept (all_decisions nodes) 15 in
          (
            facts.0,
            facts.1,
            decisions.0,
            decisions.1,
            refl,
            refl,
            (larger (length b.summary / 4) (r.prompt_tokens + r.completion_tokens)).0,
            refl,
            refl,
          ))
