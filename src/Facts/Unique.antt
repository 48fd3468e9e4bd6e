-- ===== src/Facts/Unique.antt =====
-- internal/facts/extract.go, `appendUnique` and `dedupeLimited`: lists of trimmed texts with no
-- two equal up to case, and a cap on their number. `seen` holds the keys of the Go map.
use acgc_project.Common.{
  ℕ, zero, suc, Str, List, [], ◌∷◌, ◌++◌, Bool, ◌||◌, leb, if◌then◌else◌, length, is_empty, any,
  str_eq, trim_space, to_lower,
}

abbrev pub default_max_facts : ℕ
default_max_facts = 16

-- `seen[k]`
unfoldable pub was_seen : Str → List Str → Bool
was_seen k seen = any (λ j. str_eq j k) seen

-- `k == "" || seen[strings.ToLower(k)]` at the trimmed text `k`
unfoldable pub skips : List Str → Str → Bool
unfolding was_seen
skips seen k = is_empty k || was_seen (to_lower k) seen

-- the loop of `dedupeLimited`
unfoldable pub dedupe_loop : ℕ → List Str → List Str → List Str → List Str
dedupe_loop limit seen out [] = out
dedupe_loop limit seen out (s ∷ rest) =
    let k = trim_space s in
    let skipped = dedupe_loop limit seen out rest in
    let taken = dedupe_loop limit (to_lower k ∷ seen) (out ++ k ∷ []) rest in
    if skips seen k
    then skipped
    else if leb limit (length (out ++ k ∷ []))
    then out ++ k ∷ []
    else taken

unfoldable pub dedupe_limited : List Str → ℕ → List Str
unfolding dedupe_loop
dedupe_limited xs limit = dedupe_loop limit [] [] xs

-- the texts and the keys that the first loop of `appendUnique` leaves
pub record Kept : Type 0 where
  pub seen : List Str
  pub out : List Str

unfoldable pub dest_loop : ℕ → Kept → List Str → Kept
dest_loop limit kept [] = kept
dest_loop limit kept (s ∷ rest) =
    let k = trim_space s in
    let skipped = dest_loop limit kept rest in
    let taken =
      dest_loop limit (record { seen = to_lower k ∷ kept.seen; out = kept.out ++ k ∷ [] }) rest in
    if skips kept.seen k || leb limit (length kept.out) then skipped else taken

unfoldable pub add_loop : ℕ → Kept → List Str → List Str
add_loop limit kept [] = kept.out
add_loop limit kept (s ∷ rest) =
    let k = trim_space s in
    let skipped = add_loop limit kept rest in
    let taken =
      add_loop limit (record { seen = to_lower k ∷ kept.seen; out = kept.out ++ k ∷ [] }) rest in
    if leb limit (length kept.out) then kept.out else if skips kept.seen k then skipped else taken

-- A cap that is not positive stands for the default.
unfoldable pub effective_cap : ℕ → ℕ
effective_cap zero = default_max_facts
effective_cap (suc n) = suc n

unfoldable pub append_unique : List Str → List Str → ℕ → List Str
unfolding dest_loop add_loop effective_cap
append_unique dest add limit =
    let c = effective_cap limit in
    add_loop c (dest_loop c (record { seen = []; out = [] }) dest) add
