-- ===== src/Facts/Merge.antt =====
-- internal/facts/merge.go.
use acgc_project.Common.{
  ℕ, Str, List, [], ◌∷◌, ◌++◌, Bool, not, ◌&&◌, Option, none, some, ◌==◌, if◌then◌else◌, is_empty,
  codes, map, select, split, join, equal_fold, trim_space, trim_right, is_line_end,
}
use acgc_project.Domain.{Floats, StateNode}
use acgc_project.Facts.Unique.{dedupe_limited, append_unique, effective_cap}

module _ {fl : Floats} where
  unfoldable pub all_facts : List (StateNode fl) → List Str
  all_facts [] = []
  all_facts (n ∷ ns) = n.facts ++ all_facts ns

  unfoldable pub all_decisions : List (StateNode fl) → List Str
  all_decisions [] = []
  all_decisions (n ∷ ns) = n.decisions ++ all_decisions ns

  unfoldable pub merge_from_nodes : List (StateNode fl) → ℕ → ℕ → List Str × List Str
  unfolding all_facts all_decisions effective_cap
  merge_from_nodes nodes cap_facts cap_dec = (
    dedupe_limited (all_facts nodes) (effective_cap cap_facts),
    dedupe_limited (all_decisions nodes) (effective_cap cap_dec),
  )

unfoldable pub verified_facts_prefix : List Str → Str
verified_facts_prefix [] = []
verified_facts_prefix (f ∷ fs) =
    codes "Verified facts (verbatim): " ++ (join (codes ", ") (f ∷ fs) ++ codes "\n\n")

unfoldable pub union_facts : List Str → List Str → ℕ → List Str
union_facts a b limit = append_unique a b limit

-- The text before the last line break, and the line after it.
pub record LastLine : Type 0 where
  pub before : Option Str
  pub line : Str

unfoldable pub last_line : Str → LastLine
last_line [] = record { before = none; line = [] }
last_line (c ∷ s) = extend (last_line s)
  where
    extend : LastLine → LastLine
    extend l = elim l.before [
      | none ↦
          if c == 10
          then record { before = some []; line = l.line }
          else record { before = none; line = c ∷ l.line }
      | some b ↦ record { before = some (c ∷ b); line = l.line }
    ]

-- The keyword in front of the first colon, and what follows the colon.
unfoldable pub cut_colon : Str → Option (Str × Str)
cut_colon [] = none
cut_colon (c ∷ s) = extend (cut_colon s)
  where
    extend : Option (Str × Str) → Option (Str × Str)
    extend later =
        if c == 58 then some ([], s) else elim later [ none ↦ none | some (k, r) ↦ some (c ∷ k, r) ]

is_entities : Str → Bool
is_entities key = not (is_empty key) && equal_fold (trim_space key) (codes "ENTITIES")

prefix_of : Option Str → Str
prefix_of none = []
prefix_of (some b) = trim_right is_line_end b

unfoldable pub strip_parts : Str → Option Str → Option (Str × Str) → ℕ → Str × List Str
unfolding is_entities prefix_of
strip_parts content before none limit = (trim_right is_line_end content, [])
strip_parts content before (some (key, raw)) limit =
    if is_entities key
    then (
      trim_space (prefix_of before),
      dedupe_limited (select (λ p. not (is_empty p)) (map trim_space (split 44 (trim_space raw))))
          limit,
    )
    else (trim_right is_line_end content, [])

unfoldable pub strip_trailing_entities_line : Str → ℕ → Str × List Str
unfolding strip_parts last_line cut_colon
strip_trailing_entities_line content limit =
    let text = trim_right is_line_end content in
    let parts = last_line text in
    let line = trim_space parts.line in
    if is_empty text
    then ([], [])
    else if is_empty line
    then (trim_right is_line_end content, [])
    else strip_parts content parts.before (cut_colon line) limit
