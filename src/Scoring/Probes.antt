-- ===== src/Scoring/Probes.antt =====
-- eval/scoring/probe.go: the score of an answer by the rules of its probe. A text is its bytes; the
-- regular expressions and the numbers of an answer are parameters, and the wording of a detail that
-- prints a number or lists words is left out.
use acgc_project.Common.{
  ℕ, ◌+◌, Str, List, [], ◌∷◌, Bool, ◌&&◌, Option, none, some, if◌then◌else◌, is_empty, codes,
  contains, to_lower, trim_space, length, ◌==◌,
}
use acgc_project.Domain.{Floats}

pub data MatchType : Type 0 where
  regex exact contains_all contains_any numeric judge : MatchType
  other_match : Str → MatchType

-- `datasets.Probe`, the fields that are read here
pub record Probe (fl : Floats) : Type 0 where
  pub match_type : MatchType
  pub expected_any : List Str
  pub numeric_value : fl.F
  pub numeric_tol_pct : fl.F

-- `harness.ProbeResult`, the fields that are read here
pub record Answer : Type 0 where
  pub response : Str
  pub error : Str

-- a `Score`: its value, `none` for the -1 that defers to the judge, and the phrase of an abstention
pub record Scored (fl : Floats) : Type 0 where
  pub value : Option fl.F
  pub abstained : Option Str

-- what is outside: `MatchString` of a pattern, `none` if it does not compile; the first number of an
-- answer, `none` if there is none or it is not parsed; and `math.Abs`
pub record Matchers (fl : Floats) : Type 0 where
  pub match_pattern : Str → Str → Option Bool
  pub first_number : Str → Option fl.F
  pub abs : fl.F → fl.F

abbrev pub abstain_phrases : List Str
abstain_phrases =
    codes "i don't have that"
    ∷ codes "i don't have a "
    ∷ codes "i don't have any"
    ∷ codes "i do not have that"
    ∷ codes "i do not have a "
    ∷ codes "don't have that decision"
    ∷ codes "do not have that decision"
    ∷ codes "not in the context"
    ∷ codes "not in the provided context"
    ∷ codes "not in our context"
    ∷ codes "not in the conversation"
    ∷ codes "isn't specified"
    ∷ codes "is not specified"
    ∷ codes "wasn't specified"
    ∷ codes "was not specified"
    ∷ codes "not specified in"
    ∷ codes "not captured"
    ∷ codes "isn't captured"
    ∷ codes "is not captured"
    ∷ codes "not recorded"
    ∷ codes "no decision recorded"
    ∷ codes "no decision was made"
    ∷ codes "no decision has been made"
    ∷ codes "i don't see that"
    ∷ codes "i don't see a "
    ∷ codes "i don't see any"
    ∷ codes "i don't recall"
    ∷ codes "i do not recall"
    ∷ codes "not mentioned"
    ∷ codes "wasn't mentioned"
    ∷ codes "was not mentioned"
    ∷ codes "can you confirm"
    ∷ codes "could you confirm"
    ∷ codes "did we choose"
    ∷ codes "did we agree"
    ∷ codes "if we still need to choose"
    ∷ codes "if we haven't decided"
    ∷ codes "we haven't decided"
    ∷ codes "haven't picked"
    ∷ codes "haven't agreed"
    ∷ []

-- the typographic quotes by their last byte, after the bytes 226 and 128
abbrev pub plain_quote : ℕ → Option ℕ
plain_quote c =
    if c == 152
    then some 39
    else if c == 153
    then some 39
    else if c == 154
    then some 39
    else if c == 155
    then some 39
    else if c == 156
    then some 34
    else if c == 157
    then some 34
    else if c == 158
    then some 34
    else none

-- `quoteNormalizer.Replace`
unfoldable pub normalize_quotes : Str → Str
normalize_quotes (a ∷ b ∷ c ∷ s) = elim (if a == 226 && b == 128 then plain_quote c else none) [
  | none ↦ a ∷ normalize_quotes (b ∷ c ∷ s)
  | some q ↦ q ∷ normalize_quotes s
]
normalize_quotes s = s

unfoldable pub first_phrase : List Str → Str → Option Str
first_phrase [] low = none
first_phrase (p ∷ phrases) low = if contains low p then some p else first_phrase phrases low

unfoldable pub detect_abstain : Str → Option Str
unfolding normalize_quotes first_phrase
detect_abstain response = first_phrase abstain_phrases (to_lower (normalize_quotes response))

module _ (fl : Floats) where
  abbrev full : fl.F
  full = fl.literal 5 0

  abbrev nothing : fl.F
  nothing = fl.literal 0 0

  unfoldable pub match_regex : (Str → Str → Option Bool) → List Str → Str → fl.F
  match_regex matches [] response = nothing
  match_regex matches (p ∷ patterns) response =
      let rest = match_regex matches patterns response in
      elim (matches p response) [ none ↦ rest | some hit ↦ if hit then full else rest ]

  -- the loop of `matchExact`
  unfoldable pub exact_loop : List Str → Str → fl.F
  exact_loop [] low = nothing
  exact_loop (n ∷ needles) low =
      if contains low (to_lower (trim_space n)) then full else exact_loop needles low

  unfoldable pub match_exact : List Str → Str → fl.F
  unfolding exact_loop
  match_exact needles response = exact_loop needles (to_lower (trim_space response))

  unfoldable pub count_matched : List Str → Str → ℕ
  count_matched [] low = 0
  count_matched (n ∷ needles) low =
      let rest = count_matched needles low in if contains low (to_lower n) then rest + 1 else rest

  unfoldable pub match_contains_all : List Str → Str → fl.F
  unfolding count_matched
  match_contains_all needles response =
      if is_empty needles
      then full
      else fl.fmul
          (fl.fdiv (fl.of_int (count_matched needles (to_lower response)))
            (fl.of_int (length needles)))
          full

  -- the loop of `matchContainsAny`
  unfoldable pub any_loop : List Str → Str → fl.F
  any_loop [] low = nothing
  any_loop (n ∷ needles) low = if contains low (to_lower n) then full else any_loop needles low

  unfoldable pub match_contains_any : List Str → Str → fl.F
  unfolding any_loop
  match_contains_any needles response = any_loop needles (to_lower response)

  unfoldable pub match_numeric : Matchers fl → fl.F → fl.F → Str → fl.F
  match_numeric w expected tolerance response = elim (w.first_number response) [
    | none ↦ nothing
    | some got ↦
        if fl.le (w.abs (fl.fsub got expected)) (w.abs (fl.fmul expected tolerance))
        then full
        else nothing
  ]

  -- the `switch` of `ScoreProbe`, `none` for the judge
  unfoldable pub match_value : Matchers fl → Probe fl → Str → Option fl.F
  unfolding match_regex match_exact match_contains_all match_contains_any match_numeric
  match_value w probe response = elim probe.match_type [
    | MatchType.regex ↦ some (match_regex w.match_pattern probe.expected_any response)
    | MatchType.exact ↦ some (match_exact probe.expected_any response)
    | MatchType.contains_all ↦ some (match_contains_all probe.expected_any response)
    | MatchType.contains_any ↦ some (match_contains_any probe.expected_any response)
    | MatchType.numeric ↦ some (match_numeric w probe.numeric_value probe.numeric_tol_pct response)
    | MatchType.judge ↦ none
    | MatchType.other_match t ↦ some nothing
  ]

  -- what follows the `switch` for a value
  unfoldable pub settle : fl.F → Str → Scored fl
  unfolding detect_abstain
  settle value response =
      if is_empty (trim_space response)
      then record { value = some nothing; abstained = none }
      else if fl.lt nothing value
      then elim (detect_abstain response) [
        | none ↦ record { value = some value; abstained = none }
        | some phrase ↦ record { value = some nothing; abstained = some phrase }
      ]
      else record { value = some value; abstained = none }

  unfoldable pub score_probe : Matchers fl → Probe fl → Answer → Scored fl
  unfolding match_value settle
  score_probe w probe result =
      if is_empty result.error
      then elim (match_value w probe result.response) [
        | none ↦ record { value = none; abstained = none }
        | some value ↦ settle value result.response
      ]
      else record { value = some nothing; abstained = none }
