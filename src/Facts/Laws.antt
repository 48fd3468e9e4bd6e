-- ===== src/Facts/Laws.antt =====
-- internal/facts: the capped lists without repetition against a reference without an accumulator.
use acgc_project.Common.{
  ℕ, zero, suc, ◌+◌, ◌≤◌, ◌<◌, ◌≡◌, refl, sym, ◌∙◌, Str, List, [], ◌∷◌, ◌++◌, false, arith, inl,
  inr, Bool-cases, leb, if◌then◌else◌, length, length-append, append_assoc, append-nil, trim_space,
  to_lower,
}
use acgc_project.Facts.Unique.{
  skips, dedupe_loop, dedupe_limited, Kept, dest_loop, add_loop, effective_cap, append_unique,
}

-- The first `room` texts that are neither blank nor, up to case, among those before.
unfoldable pub firsts : ℕ → List Str → List Str → List Str
firsts zero seen xs = []
firsts (suc room) seen [] = []
firsts (suc room) seen (s ∷ rest) =
    let k = trim_space s in
    let skipped = firsts (suc room) seen rest in
    let taken = k ∷ firsts room (to_lower k ∷ seen) rest in if skips seen k then skipped else taken

length-snoc : (xs : List Str) (k : Str) → length (xs ++ k ∷ []) ≡ length xs + 1
length-snoc xs k = omega (arith, length-append xs (k ∷ []))

leb-false : (a b : ℕ) → b < a → leb a b ≡ false
leb-false a b h = ground arith

dedupe_loop-firsts :
    (limit room : ℕ) (seen out xs : List Str)
    → limit ≡ length out + suc room
    → dedupe_loop limit seen out xs ≡ out ++ firsts (suc room) seen xs
unfolding dedupe_loop firsts
dedupe_loop-firsts limit room seen out [] h = sym (append-nil out)
dedupe_loop-firsts limit zero seen out (s ∷ rest) h =
    elim (Bool-cases (skips seen (trim_space s))) [
      | inl y ↦ rw y (dedupe_loop-firsts limit zero seen out rest h)
      | inr o ↦ rw o (ground (arith, length-snoc out (trim_space s)))
    ]
dedupe_loop-firsts limit (suc room) seen out (s ∷ rest) h =
    let k = trim_space s in
    elim (Bool-cases (skips seen k)) [
      | inl y ↦ rw y (dedupe_loop-firsts limit (suc room) seen out rest h)
      | inr o ↦
          rw (o, leb-false limit (length (out ++ k ∷ [])) (omega (arith, length-snoc out k)))
            (dedupe_loop-firsts limit room (to_lower k ∷ seen) (out ++ k ∷ []) rest
                (omega (arith, length-snoc out k))
              ∙ append_assoc out (k ∷ []) _)
    ]

-- `dedupeLimited` with a positive cap is the reference.
pub dedupe_limited-firsts :
    (xs : List Str) (limit : ℕ) → dedupe_limited xs (suc limit) ≡ firsts (suc limit) [] xs
unfolding dedupe_limited
dedupe_limited-firsts xs limit = dedupe_loop-firsts (suc limit) limit [] [] xs (omega arith)

-- With `limit` texts kept the loops of `appendUnique` keep no more.
dest_loop-full :
    (limit : ℕ) (kept : Kept) (xs : List Str)
    → limit ≤ length kept.out
    → dest_loop limit kept xs ≡ kept
unfolding dest_loop
dest_loop-full limit kept [] h = refl
dest_loop-full limit kept (s ∷ rest) h = ground (arith, dest_loop-full limit kept rest)

add_loop-full :
    (limit : ℕ) (kept : Kept) (xs : List Str)
    → limit ≤ length kept.out
    → add_loop limit kept xs ≡ kept.out
unfolding add_loop
add_loop-full limit kept [] h = refl
add_loop-full limit kept (s ∷ rest) h = ground arith

add_loop-dedupe :
    (limit : ℕ) (seen out xs : List Str)
    → length out < limit
    → add_loop limit (record { seen = seen; out = out }) xs ≡ dedupe_loop limit seen out xs
unfolding add_loop dedupe_loop
add_loop-dedupe limit seen out [] h = refl
add_loop-dedupe limit seen out (s ∷ rest) h =
    let k = trim_space s in
    ground (
      arith,
      length-snoc out k,
      add_loop-dedupe limit seen out rest,
      add_loop-dedupe limit (to_lower k ∷ seen) (out ++ k ∷ []) rest,
      add_loop-full limit (record { seen = to_lower k ∷ seen; out = out ++ k ∷ [] }) rest,
    )

loops-dedupe :
    (limit : ℕ) (seen out xs ys : List Str)
    → length out < limit
    → add_loop limit (dest_loop limit (record { seen = seen; out = out }) xs) ys
      ≡ dedupe_loop limit seen out (xs ++ ys)
unfolding dest_loop dedupe_loop
loops-dedupe limit seen out [] ys h = add_loop-dedupe limit seen out ys h
loops-dedupe limit seen out (s ∷ rest) ys h =
    let k = trim_space s in
    let next : Kept = record { seen = to_lower k ∷ seen; out = out ++ k ∷ [] } in
    ground (
      arith,
      length-snoc out k,
      loops-dedupe limit seen out rest ys,
      loops-dedupe limit (to_lower k ∷ seen) (out ++ k ∷ []) rest ys,
      dest_loop-full limit next rest,
      add_loop-full limit next ys,
    )

effective_cap-pos : (limit : ℕ) → 0 < effective_cap limit
unfolding effective_cap
effective_cap-pos zero = omega arith
effective_cap-pos (suc limit) = omega arith

-- `appendUnique`, and so `UnionFacts`, is `dedupeLimited` of the two lists joined, under the
-- effective cap, though its first loop skips where the loop of `dedupeLimited` breaks.
pub append_unique-dedupe_limited :
    (dest add : List Str) (limit : ℕ)
    → append_unique dest add limit ≡ dedupe_limited (dest ++ add) (effective_cap limit)
unfolding append_unique dedupe_limited
append_unique-dedupe_limited dest add limit =
    loops-dedupe (effective_cap limit) [] [] dest add (effective_cap-pos limit)
