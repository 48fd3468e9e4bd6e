-- ===== src/Compiler/Plan.antt =====
-- internal/compiler: what `compile` renders, against a plan that only selects.
use acgc_project.Common.{
  Option, Map, ℕ, ◌+◌, ◌-◌, ◌≤◌, ◌≡◌, refl, sym, ap, subst, ◌∙◌, Str, List, [], ◌∷◌, ◌++◌, map,
  ◌||◌, arith, inl, inr, Bool-cases, ◌==◌, if◌then◌else◌, sum_by, sum_by-append, is_empty,
  append-nil, append_assoc, codes, join,
}
use acgc_project.Domain.{Floats, StateNode}
use acgc_project.Compiler.{
  Compiler, CompiledPrompt, Bucket, Selection, Assembly, node_cost, select_within_budget,
  format_section, bucket_label, render_order, record_bucket, add_section, fill_bucket, fill_buckets,
  reserved, assemble, start_assembly, finish, priority_buckets, count, compile, sort_by,
  bucket_nodes, SliceSort,
}
use acgc_project.Compiler.Budget.{select_within_budget_greedy}

-- A bucket that is rendered, with its selection.
pub record Part (fl : Floats) : Type 0 where
  pub bucket : Bucket
  pub chosen : Selection fl

excluded-record_bucket :
    (b : Bucket) (s : List Str) (p : CompiledPrompt)
    → (record_bucket b s p).excluded_node_refs ≡ p.excluded_node_refs
unfolding record_bucket
excluded-record_bucket Bucket.decisions s p = refl
excluded-record_bucket _ s p = refl

module _ {fl : Floats} where
  -- The selections bucket by bucket, each within what the ones before it leave.
  unfoldable pub plan : Compiler → (Bucket → List (StateNode fl)) → List Bucket → ℕ → List (Part fl)
  plan c nodes [] room = []
  plan c nodes (b ∷ bs) room =
      let s = select_within_budget c (nodes b) room in
      let skipped = plan c nodes bs room in
      let taken = record { bucket = b; chosen = s } ∷ plan c nodes bs (room - s.tokens_used) in
      if room == 0 || is_empty (nodes b)
      then skipped
      else if is_empty s.selected
      then skipped
      else taken

  -- All the nodes of a plan.
  abbrev pub planned : List (Part fl) → List (StateNode fl)
  planned [] = []
  planned (p ∷ ps) = p.chosen.selected ++ planned ps

  abbrev pub left_out : List (Part fl) → List Str
  left_out [] = []
  left_out (p ∷ ps) = map (λ n. n.node_id) p.chosen.excluded ++ left_out ps

  abbrev pub sections_of : Compiler → List (Part fl) → List Str
  sections_of c [] = []
  sections_of c (p ∷ ps) =
      format_section (bucket_label p.bucket) (render_order c p.chosen.selected) ∷ sections_of c ps

  -- What the loop over the buckets adds, if it follows a plan.
  record Follows (c : Compiler) (ps : List (Part fl)) (a r : Assembly) : Type 0 where
    sections : r.sections ≡ a.sections ++ sections_of c ps
    excluded : r.prompt.excluded_node_refs ≡ a.prompt.excluded_node_refs ++ left_out ps
    used : r.tokens_used ≡ a.tokens_used + sum_by (node_cost c) (planned ps)
    fits : sum_by (node_cost c) (planned ps) ≤ a.remaining

  extend :
      (c : Compiler) (b : Bucket) (s : Selection fl) (a : Assembly) (bs : List Bucket)
      (nodes : Bucket → List (StateNode fl))
      → s.tokens_used ≡ sum_by (node_cost c) s.selected
      → s.tokens_used ≤ a.remaining
      → Follows c
          (plan c nodes bs (a.remaining - s.tokens_used))
          (add_section c b s a)
          (fill_buckets c nodes bs (add_section c b s a))
      → Follows c
          (record { bucket = b; chosen = s } ∷ plan c nodes bs (a.remaining - s.tokens_used))
          a
          (fill_buckets c nodes bs (add_section c b s a))
  unfolding add_section
  extend c b s a bs nodes sum within f =
      let rest = plan c nodes bs (a.remaining - s.tokens_used) in
      let part : Part fl = record { bucket = b; chosen = s } in
      let total : sum_by (node_cost c) (planned (part ∷ rest))
          ≡ sum_by (node_cost c) s.selected + sum_by (node_cost c) (planned rest) =
        sum_by-append (node_cost c) s.selected (planned rest) in
      record {
        sections = f.sections ∙ append_assoc a.sections _ _;
        excluded =
            f.excluded
            ∙ ap (λ (x : List Str). (x ++ map (λ n. n.node_id) s.excluded) ++ left_out rest)
                (excluded-record_bucket b _ a.prompt)
            ∙ append_assoc a.prompt.excluded_node_refs _ _;
        used = omega (arith, f.used, sum, total);
        fits = omega (arith, f.fits, sum, within, total);
      }

  fill_buckets-Follows :
      (c : Compiler) (nodes : Bucket → List (StateNode fl)) (bs : List Bucket) (a : Assembly)
      → Follows c (plan c nodes bs a.remaining) a (fill_buckets c nodes bs a)
  unfolding fill_buckets plan
  fill_buckets-Follows c nodes [] a = record {
    sections = sym (append-nil a.sections);
    excluded = sym (append-nil a.prompt.excluded_node_refs);
    used = omega arith;
    fits = omega arith;
  }
  fill_buckets-Follows c nodes (b ∷ bs) a =
      elim (Bool-cases (a.remaining == 0 || is_empty (nodes b))) [
        | inl e ↦ follow (fill_buckets-Follows c nodes bs a) (rw e) (rw (e, fill_bucket))
        | inr o ↦
            elim (Bool-cases (is_empty (select_within_budget c (nodes b) a.remaining).selected)) [
              | inl e ↦
                  follow (fill_buckets-Follows c nodes bs a) (rw (o, e))
                    (rw (o, fill_bucket) (rw (e, fill_bucket)))
              | inr f ↦
                  let s = select_within_budget c (nodes b) a.remaining in
                  follow
                    (extend c b s a bs nodes (select_within_budget_greedy c a.remaining (nodes b)).1
                      (select_within_budget_greedy c a.remaining (nodes b)).2
                      (fill_buckets-Follows c nodes bs (add_section c b s a)))
                    (rw (o, f)) (rw (o, fill_bucket) (rw (f, fill_bucket)))
            ]
      ]
    where
      follow :
          {ps : List (Part fl)} {x : Assembly}
          → Follows c ps a (fill_buckets c nodes bs x)
          → plan c nodes (b ∷ bs) a.remaining ≡ ps
          → fill_bucket c b (nodes b) a ≡ x
          → Follows c
              (plan c nodes (b ∷ bs) a.remaining)
              a
              (fill_buckets c nodes bs (fill_bucket c b (nodes b) a))
      follow {ps} {x} f p q =
          subst (λ qs. Follows c qs a (fill_buckets c nodes bs (fill_bucket c b (nodes b) a)))
            (sym p) (subst (λ y. Follows c ps a (fill_buckets c nodes bs y)) (sym q) f)

  -- `compile` past its sorting follows the plan for the budget less the tokens of the messages
  -- sent beside the context: the prompt joins the sections of the plan, and nothing else; the
  -- excluded ids are those that the plan leaves out of the buckets that it renders; and the costs
  -- of all the nodes rendered fit in the budget beside the other messages.
  pub assemble-plan :
      (c : Compiler) (sid task user system : Str) (original : ℕ)
      (nodes : Bucket → List (StateNode fl))
      → let room = c.token_budget - reserved c system user in
        let parts = plan c nodes priority_buckets room in
        let prompt = assemble c sid task user system original nodes in
        (prompt.final_prompt ≡ join (codes "\n\n---\n\n") (sections_of c parts))
        × (prompt.excluded_node_refs ≡ left_out parts)
        × (sum_by (node_cost c) (planned parts) ≤ room)
        × (prompt.compiled_token_count
            ≡ count c system + count c prompt.final_prompt + count c user)
  unfolding assemble finish start_assembly
  assemble-plan c sid task user system original nodes =
      let start = start_assembly c sid task user system original nodes in
      let f = fill_buckets-Follows c nodes priority_buckets start in
      (ap (join (codes "\n\n---\n\n")) f.sections, f.excluded, f.fits, refl)

-- `compile`, for any sorting of the buckets: it follows the plan for the budget less the tokens of
-- the messages sent beside the context. The prompt joins the sections of the plan, and nothing
-- else; the excluded ids are those that the plan leaves out of the buckets that it renders, in
-- which not all nodes need fit; the costs of all the nodes rendered fit in the budget beside the
-- other messages; and the
-- compiled tokens are those of the system prompt, of the prompt and of the message.
pub compile-plan :
    {fl : Floats} (sort_slice : SliceSort fl) (c : Compiler) (sid task user system : Str)
    (nodes : List (StateNode fl)) (effective : Option (Map fl.F))
    → let buckets : Bucket → List (StateNode fl) =
        λ b. sort_by sort_slice effective (bucket_nodes b nodes) in
      let room = c.token_budget - reserved c system user in
      let parts = plan c buckets priority_buckets room in
      let prompt = compile sort_slice c sid task user nodes system effective in
      (prompt.final_prompt ≡ join (codes "\n\n---\n\n") (sections_of c parts))
      × (prompt.excluded_node_refs ≡ left_out parts)
      × (sum_by (node_cost c) (planned parts) ≤ room)
      × (prompt.compiled_token_count ≡ count c system + count c prompt.final_prompt + count c user)
unfolding compile
compile-plan sort_slice c sid task user system nodes effective =
    assemble-plan c sid task user system
      (count c system + count c user + sum_by (λ n. n.token_count) nodes)
      (λ b. sort_by sort_slice effective (bucket_nodes b nodes))
