-- ===== src/Facts/Extract.antt =====
-- internal/facts/extract.go: `ExtractFromEvent` and the extractors. The two regular expressions
-- are written out as matchers: `(?i)\bADR[-_]?\d+\b`, and
-- `(?i)(?m)^\s*decision\s*\d+\s*[:-]\s*(.+)$` on a trimmed line, where each repetition is greedy
-- and giving back a character never helps.
use acgc_project.Common.{
  ℕ, zero, suc, ◌+◌, Str, List, [], ◌∷◌, ◌++◌, map, Bool, false, not, ◌&&◌, ◌||◌, Option, none,
  some, ltb, leb, ◌==◌, if◌then◌else◌, length, take, drop, is_empty, select, codes, to_lower,
  trim_space, trim_left, split, has_prefix, contains, after_byte, equal_fold,
}
use acgc_project.Domain.{Floats, Event, EventType, StateNode}
use acgc_project.Facts.Unique.{default_max_facts, dedupe_limited, append_unique}

abbrev known_entities : List Str
known_entities =
    codes "TimescaleDB"
    ∷ codes "JetStream"
    ∷ codes "InfluxDB"
    ∷ codes "PostgreSQL"
    ∷ codes "MongoDB"
    ∷ codes "Kafka"
    ∷ codes "Kubernetes"
    ∷ codes "CockroachDB"
    ∷ codes "Cockroach"
    ∷ codes "RabbitMQ"
    ∷ codes "DataMatrix"
    ∷ []

-- `unicode.IsLetter(rune(b)) || unicode.IsDigit(rune(b)) || b == '_'` on a byte, read as Latin-1
unfoldable pub is_alphanum_ascii : ℕ → Bool
is_alphanum_ascii b =
    (leb 65 b && leb b 90)
    || (leb 97 b && leb b 122)
    || b == 0xaa
    || b == 0xb5
    || b == 0xba
    || (leb 0xc0 b && leb b 0xd6)
    || (leb 0xd8 b && leb b 0xf6)
    || leb 0xf8 b
    || (leb 48 b && leb b 57)
    || b == 95

is_digit : ℕ → Bool
is_digit b = leb 48 b && leb b 57

-- a word character of a regular expression, for `\b`
is_word : ℕ → Bool
unfolding is_digit
is_word b = is_digit b || (leb 65 b && leb b 90) || (leb 97 b && leb b 122) || b == 95

-- whether the text begins with a byte of the class; false at its end
begins : (ℕ → Bool) → Str → Bool
begins p [] = false
begins p (b ∷ s) = p b

-- `standaloneToken`: at each suffix, `before` tells if the byte in front is alphanumeric
unfoldable pub token_loop : Bool → Str → Str → Option Str
unfolding is_alphanum_ascii begins
token_loop before [] tok = none
token_loop before (b ∷ s) tok =
    let later = token_loop (is_alphanum_ascii b) s tok in
    if has_prefix (to_lower (b ∷ s)) (to_lower tok)
      && not before
      && not (begins is_alphanum_ascii (drop (length tok) (b ∷ s)))
    then some (take (length tok) (b ∷ s))
    else later

unfoldable pub standalone_token : Str → Str → Option Str
unfolding token_loop
standalone_token line tok = token_loop false line tok

found_token : Option Str → List Str
found_token none = []
found_token (some t) = t ∷ []

unfoldable pub extract_lexicon_refs : Str → List Str
unfolding standalone_token found_token
extract_lexicon_refs line =
    dedupe_limited
      (select (λ kw. contains (to_lower line) (to_lower kw)) known_entities
        ++ (found_token (standalone_token line (codes "NATS"))
            ++ found_token (standalone_token line (codes "Hetzner"))))
      default_max_facts

-- the digits at the front
digits_prefix : Str → Str
unfolding is_digit
digits_prefix [] = []
digits_prefix (b ∷ s) = if is_digit b then b ∷ digits_prefix s else []

is_separator : ℕ → Bool
is_separator b = b == 45 || b == 95

-- `ADR[-_]?\d+\b` at the front of the text: the text matched
adr_match : Str → Option Str
unfolding digits_prefix is_separator begins is_word
adr_match s =
    let sep = if begins is_separator (drop 3 s) then 1 else zero in
    let ds = digits_prefix (drop (3 + sep) s) in
    let n = 3 + sep + length ds in
    if has_prefix (to_lower s) (codes "adr") && not (is_empty ds) && not (begins is_word (drop n s))
    then some (take n s)
    else none

-- `reADR.FindAllString`: `skip` counts the bytes left of the match found last
adr_loop : ℕ → Bool → Str → List Str
unfolding adr_match is_word
adr_loop skip before [] = []
adr_loop (suc skip) before (b ∷ s) = adr_loop skip (is_word b) s
adr_loop zero before (b ∷ s) = elim (if before then none else adr_match (b ∷ s)) [
  | none ↦ adr_loop zero (is_word b) s
  | some m ↦ m ∷ adr_loop (length (drop 1 m)) (is_word b) s
]

-- `\s` of a regular expression
is_regexp_space : ℕ → Bool
is_regexp_space c = c == 9 || c == 10 || c == 12 || c == 13 || c == 32

is_colon_or_dash : ℕ → Bool
is_colon_or_dash c = c == 58 || c == 45

-- The group of `reDecisionLine` on a trimmed line that begins with `decision`.
decision_text : Str → Option Str
unfolding digits_prefix is_regexp_space is_colon_or_dash begins
decision_text line =
    let s = trim_left is_regexp_space (drop 8 line) in
    let ds = digits_prefix s in
    let t = trim_left is_regexp_space (drop (length ds) s) in
    let group = trim_left is_regexp_space (drop 1 t) in
    if not (is_empty ds) && begins is_colon_or_dash t && not (is_empty group)
    then some group
    else none

unfoldable pub user_line_facts : Str → List Str
unfolding decision_text found_token
user_line_facts raw =
    let line = trim_space raw in
    let decided =
      if has_prefix (to_lower line) (codes "decision")
      then map trim_space (found_token (decision_text line))
      else [] in
    if is_empty line then [] else decided ++ extract_lexicon_refs line

concat_map : (Str → List Str) → List Str → List Str
concat_map f [] = []
concat_map f (w ∷ ws) = f w ++ concat_map f ws

unfoldable pub extract_user_facts : Str → List Str
unfolding user_line_facts concat_map adr_loop
extract_user_facts text =
    dedupe_limited
      (concat_map user_line_facts (split 10 text) ++ map trim_space (adr_loop zero false text))
      default_max_facts

-- `rest` of a line that begins with `noted`
noted_rest : Str → Option Str → Str
noted_rest line (some rest) = trim_space rest
noted_rest line none =
    if leb 7 (length (to_lower line)) && has_prefix (to_lower line) (codes "noted -")
    then trim_space (drop 7 line)
    else line

unfoldable pub noted_line : Str → List Str
unfolding noted_rest
noted_line raw =
    let line = trim_space raw in
    let rest = noted_rest line (after_byte 58 line) in
    if not (is_empty line)
      && has_prefix (to_lower line) (codes "noted")
      && not (is_empty rest)
      && not (equal_fold (trim_space rest) (codes "noted"))
    then rest ∷ []
    else []

-- `truncateRunes`, where a rune is a byte
truncate_runes : Str → ℕ → Str
truncate_runes s max_r = if leb (length s) max_r then s else take max_r s

-- the loop that stops at a line break; `pre` is `text[:i]`
first_line : Str → Str → Option Str
unfolding truncate_runes
first_line pre [] = none
first_line pre (b ∷ s) =
    let later = first_line (pre ++ b ∷ []) s in
    if b == 10 && not (is_empty (trim_space pre))
    then some (truncate_runes (trim_space pre) 220)
    else later

ends_sentence : ℕ → Str → Bool
unfolding begins
ends_sentence b s = b == 46 && (is_empty s || begins (λ c. c == 32 || c == 10) s)

-- the loop that stops at a full stop
first_stop : Str → Str → Option Str
unfolding truncate_runes ends_sentence
first_stop pre [] = none
first_stop pre (b ∷ s) =
    let later = first_stop (pre ++ b ∷ []) s in
    if ends_sentence b s && not (is_empty (trim_space pre)) && ltb 30 (length (trim_space pre))
    then some (truncate_runes (trim_space pre) 220)
    else later

first_of_loops : Str → Option Str → Option Str → Str
unfolding truncate_runes
first_of_loops text (some s) _ = s
first_of_loops text none (some s) = s
first_of_loops text none none = truncate_runes text 220

unfoldable pub assistant_first_sentence : Str → Str
unfolding first_line first_stop first_of_loops
assistant_first_sentence raw =
    let text = trim_space raw in
    if is_empty text then [] else first_of_loops text (first_line [] text) (first_stop [] text)

unfoldable pub extract_assistant_decisions : Str → List Str
unfolding noted_line assistant_first_sentence concat_map
extract_assistant_decisions text =
    let noted = concat_map noted_line (split 10 text) in
    let first = assistant_first_sentence text in
    dedupe_limited (if is_empty noted then (if is_empty first then [] else first ∷ []) else noted)
      default_max_facts

unfoldable pub event_facts : EventType → Str → List Str
unfolding extract_user_facts
event_facts EventType.user_prompt text = extract_user_facts text
event_facts _ text = extract_lexicon_refs text

unfoldable pub event_decisions : EventType → Str → List Str
unfolding extract_assistant_decisions
event_decisions EventType.llm_response text = extract_assistant_decisions text
event_decisions _ text = []

unfoldable pub extract_from_event : {fl : Floats} → StateNode fl → Event → StateNode fl
unfolding event_facts event_decisions
extract_from_event node event =
    let text = trim_space event.payload in
    if is_empty text then node else record node {
      facts = append_unique node.facts (event_facts event.event_type text) default_max_facts;
      decisions =
          append_unique node.decisions (event_decisions event.event_type text) default_max_facts;
    }
