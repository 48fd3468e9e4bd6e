-- ===== src/Facts/Kept.antt =====
-- internal/facts: what a capped list without repetition keeps of its source.
use mathlib.Core.List.{Sublistᴰ}
use acgc_project.Common.{
  ◌⊎◌, ℕ, zero, suc, ◌≤◌, ◌<◌, ◌≡◌, refl, sym, subst, Str, List, [], ◌∷◌, ◌++◌, true, false, arith,
  inl, inr, Bool-cases, length, is_empty, All, trim_space, to_lower, map, str_eq_refl,
}
use acgc_project.Domain.{Floats, Event, StateNode}
use acgc_project.Facts.Unique.{
  was_seen, skips, dedupe_limited, append_unique, effective_cap, default_max_facts,
}
use acgc_project.Facts.Extract.{extract_from_event, event_facts, event_decisions}
use acgc_project.Facts.Laws.{firsts, dedupe_limited-firsts, append_unique-dedupe_limited}

-- No text of the list is blank, in `seen`, or equal to one before it up to case.
abbrev pub IsUnique : List Str → List Str → Type 0
IsUnique seen [] = Unit
IsUnique seen (k ∷ ks) = (skips seen k ≡ false) × IsUnique (to_lower k ∷ seen) ks

-- The keys after the texts of a list.
abbrev pub keys_after : List Str → List Str → List Str
keys_after seen [] = seen
keys_after seen (k ∷ ks) = keys_after (to_lower k ∷ seen) ks

firsts-IsUnique : (room : ℕ) (seen xs : List Str) → IsUnique seen (firsts room seen xs)
unfolding firsts
firsts-IsUnique zero seen xs = tt
firsts-IsUnique (suc room) seen [] = tt
firsts-IsUnique (suc room) seen (s ∷ rest) = elim (Bool-cases (skips seen (trim_space s))) [
  | inl y ↦ rw y (firsts-IsUnique (suc room) seen rest)
  | inr o ↦ rw o (o, firsts-IsUnique room (to_lower (trim_space s) ∷ seen) rest)
]

length-firsts-le : (room : ℕ) (seen xs : List Str) → length (firsts room seen xs) ≤ room
unfolding firsts
length-firsts-le zero seen xs = omega arith
length-firsts-le (suc room) seen [] = omega arith
length-firsts-le (suc room) seen (s ∷ rest) = ground (
  arith,
  length-firsts-le (suc room) seen rest,
  length-firsts-le room (to_lower (trim_space s) ∷ seen) rest,
)

firsts-sublist :
    (room : ℕ) (seen xs : List Str) → Sublistᴰ (firsts room seen xs) (map trim_space xs)
unfolding firsts
firsts-sublist zero seen [] = Sublistᴰ.slnil
firsts-sublist zero seen (s ∷ rest) = Sublistᴰ.cons (firsts-sublist zero seen rest)
firsts-sublist (suc room) seen [] = Sublistᴰ.slnil
firsts-sublist (suc room) seen (s ∷ rest) = elim (Bool-cases (skips seen (trim_space s))) [
  | inl y ↦ rw y (Sublistᴰ.cons (firsts-sublist (suc room) seen rest))
  | inr o ↦
      rw o (Sublistᴰ.cons-cons refl (firsts-sublist room (to_lower (trim_space s) ∷ seen) rest))
]

skips-cons : (j k : Str) (seen : List Str) → skips seen k ≡ true → skips (j ∷ seen) k ≡ true
unfolding skips was_seen
skips-cons j k seen h = ground arith

skips-keys_after :
    (k : Str) (seen ks : List Str) → skips seen k ≡ true → skips (keys_after seen ks) k ≡ true
skips-keys_after k seen [] h = h
skips-keys_after k seen (j ∷ ks) h =
    skips-keys_after k (to_lower j ∷ seen) ks (skips-cons (to_lower j) k seen h)

skips_taken : (k : Str) (seen : List Str) → skips (to_lower k ∷ seen) k ≡ true
unfolding skips was_seen
skips_taken k seen = ground (arith, str_eq_refl (to_lower k))

-- Each text of `xs` is blank or, up to case, in `seen` or among the texts kept.
abbrev pub Covers : List Str → List Str → List Str → Type 0
Covers seen kept xs = All (λ s. skips (keys_after seen kept) (trim_space s) ≡ true) xs

firsts-Covers :
    (room : ℕ) (seen xs : List Str)
    → length (firsts room seen xs) < room
    → Covers seen (firsts room seen xs) xs
unfolding firsts
firsts-Covers zero seen xs h = elim h [ ]
firsts-Covers (suc room) seen [] h = tt
firsts-Covers (suc room) seen (s ∷ rest) h =
    let k = trim_space s in
    elim (Bool-cases (skips seen k)) [
      | inl y ↦
          let kept = firsts (suc room) seen rest in
          let same : firsts (suc room) seen (s ∷ rest) ≡ kept = rw y in
          subst (λ ks. Covers seen ks (s ∷ rest)) (sym same)
            (
              skips-keys_after k seen kept y,
              firsts-Covers (suc room) seen rest (subst (λ ks. length ks < suc room) same h),
            )
      | inr o ↦
          let kept = firsts room (to_lower k ∷ seen) rest in
          let same : firsts (suc room) seen (s ∷ rest) ≡ k ∷ kept = rw o in
          let h' : length kept < room = omega (arith, subst (λ ks. length ks < suc room) same h) in
          subst (λ ks. Covers seen ks (s ∷ rest)) (sym same)
            (
              skips-keys_after k (to_lower k ∷ seen) kept (skips_taken k seen),
              firsts-Covers room (to_lower k ∷ seen) rest h',
            )
    ]

<-cases : (a b : ℕ) → (a < b) ⊎ (b ≤ a)
<-cases a b = ground arith

-- `dedupeLimited` with a positive cap: the result has at most that many texts, none blank and no
-- two equal up to case; they are trimmed texts of the input, in its order; and unless the cap is
-- reached, each text of the input is blank or equal, up to case, to one that is kept.
pub dedupe_limited_kept :
    (xs : List Str) (limit : ℕ)
    → let kept = dedupe_limited xs (suc limit) in
      (length kept ≤ suc limit)
      × IsUnique [] kept
      × Sublistᴰ kept (map trim_space xs)
      × ((length kept ≡ suc limit) ⊎ Covers [] kept xs)
dedupe_limited_kept xs limit = rw (dedupe_limited-firsts xs limit) (
  length-firsts-le (suc limit) [] xs,
  firsts-IsUnique (suc limit) [] xs,
  firsts-sublist (suc limit) [] xs,
  elim (<-cases (length (firsts (suc limit) [] xs)) (suc limit)) [
    | inl lt ↦ inr (firsts-Covers (suc limit) [] xs lt)
    | inr ge ↦ inl (omega (arith, length-firsts-le (suc limit) [] xs))
  ],
)

pub append_unique-bounded :
    (dest add : List Str)
    → (length (append_unique dest add default_max_facts) ≤ 16)
      × IsUnique [] (append_unique dest add default_max_facts)
unfolding effective_cap
append_unique-bounded dest add =
    let kept = dedupe_limited_kept (dest ++ add) 15 in
    rw (append_unique-dedupe_limited dest add default_max_facts) (kept.0, kept.1)

-- `ExtractFromEvent` on a payload that is not blank leaves at most 16 facts and at most 16
-- decisions, none blank and no two equal up to case, and changes nothing else of the node; on a
-- blank payload it changes nothing.
pub extract_from_event_bounded :
    {fl : Floats} (node : StateNode fl) (event : Event)
    → let node' = extract_from_event node event in
      (node' ≡ record node { facts = node'.facts; decisions = node'.decisions })
      × (((is_empty (trim_space event.payload) ≡ true) × (node' ≡ node))
          ⊎ ((is_empty (trim_space event.payload) ≡ false)
              × (length node'.facts ≤ 16)
              × IsUnique [] node'.facts
              × (length node'.decisions ≤ 16)
              × IsUnique [] node'.decisions))
unfolding extract_from_event
extract_from_event_bounded node event = elim (Bool-cases (is_empty (trim_space event.payload))) [
  | inl blank ↦ rw (blank, extract_from_event) (refl, inl (refl, refl))
  | inr text ↦
      let payload = trim_space event.payload in
      let facts = append_unique-bounded node.facts (event_facts event.event_type payload) in
      let decisions =
        append_unique-bounded node.decisions (event_decisions event.event_type payload) in
      rw (text, extract_from_event) (refl, inr (refl, facts.0, facts.1, decisions.0, decisions.1))
]
