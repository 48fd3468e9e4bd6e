-- ===== src/Scoring/Abstained.antt =====
-- eval/scoring/probe.go: which answers earn a score.
use acgc_project.Common.{
  Str, List, [], ◌∷◌, Bool, true, false, none, some, is_empty, contains, to_lower, trim_space, any,
  ◌≡◌, refl, ap, ◌∙◌, inl, inr, arith, Bool-cases, Option-cases,
}
use acgc_project.Domain.{Floats}
use acgc_project.Scoring.Probes.{
  Matchers, Probe, Answer, abstain_phrases, normalize_quotes, first_phrase, detect_abstain,
  match_value, settle, score_probe,
}

-- whether the answer holds a phrase of an abstention
abbrev pub abstains : Str → Bool
abstains response = any (λ p. contains (to_lower (normalize_quotes response)) p) abstain_phrases

any-first_phrase :
    (phrases : List Str) (low : Str)
    → first_phrase phrases low ≡ none
    → any (λ p. contains low p) phrases ≡ false
unfolding first_phrase
any-first_phrase [] low h = refl
any-first_phrase (p ∷ phrases) low h = ground (arith, h, any-first_phrase phrases low)

abstains-detect_abstain :
    (response : Str) → detect_abstain response ≡ none → abstains response ≡ false
unfolding detect_abstain
abstains-detect_abstain response h =
    any-first_phrase abstain_phrases (to_lower (normalize_quotes response)) h

module _ (fl : Floats) where
  settle-positive :
      (value v : fl.F) (response : Str)
      → fl.lt (fl.literal 0 0) (fl.literal 0 0) ≡ false
      → (settle fl value response).value ≡ some v
      → fl.lt (fl.literal 0 0) v ≡ true
      → (is_empty (trim_space response) ≡ false) × (detect_abstain response ≡ none) × (value ≡ v)
  unfolding settle
  settle-positive value v response zero scored above =
      elim (Bool-cases (is_empty (trim_space response))) [
        | inl e ↦ absurd (ground arith)
        | inr o ↦ elim (Option-cases (detect_abstain response)) [
          | inl e ↦ (o, e, ground arith)
          | inr (p, e) ↦ absurd (ground arith)
        ]
      ]

  -- An answer scores above 0 only if there was no error, it is not blank, and it does not abstain, for
  -- floats of which 0 is not less than itself; the score is then the one of the match.
  pub score_probe-positive :
      (w : Matchers fl) (probe : Probe fl) (result : Answer) (v : fl.F)
      → fl.lt (fl.literal 0 0) (fl.literal 0 0) ≡ false
      → (score_probe fl w probe result).value ≡ some v
      → fl.lt (fl.literal 0 0) v ≡ true
      → (is_empty result.error ≡ true)
        × (is_empty (trim_space result.response) ≡ false)
        × (abstains result.response ≡ false)
        × (match_value fl w probe result.response ≡ some v)
  unfolding score_probe
  score_probe-positive w probe result v zero scored above =
      elim (Bool-cases (is_empty result.error)) [
        | inr e ↦ absurd (ground arith)
        | inl e ↦ elim (Option-cases (match_value fl w probe result.response)) [
          | inl o ↦ absurd (ground arith)
          | inr (value, o) ↦
              let settled : (settle fl value result.response).value ≡ some v = ground arith in
              let (some_text, kept, same) =
                settle-positive value v result.response zero settled above in
              (
                e,
                some_text,
                abstains-detect_abstain result.response kept,
                o ∙ ap (λ (x : fl.F). some x) same,
              )
        ]
      ]
