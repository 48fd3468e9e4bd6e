-- ===== src/Config.antt =====
-- internal/config/config.go: the variables of the environment, the `.env` file, and the defaults. A
-- text is its bytes; `ParseFloat` is a parameter, and a file that cannot be read is `none`.
use acgc_project.Common.{
  ℕ, ◌+◌, ◌-◌, ◌*◌, ◌<◌, Str, List, [], ◌∷◌, ◌++◌, Bool, true, false, ◌&&◌, ◌||◌, not, Option, none,
  some, if◌then◌else◌, is_empty, Map, get, put, codes, ltb, leb, ◌==◌, length, any, str_eq,
  to_lower, trim_space, has_prefix, split, ℤ, pos, negsuc,
}
use acgc_project.Domain.{Floats}
pub mod DotEnv
pub mod Numbers
pub mod Load

-- the variables that are set
abbrev pub Env : Type 0
Env = Map Str

-- `os.Getenv`
unfoldable pub getenv : Str → Env → Str
getenv k env = elim (get k env) [ none ↦ [] | some v ↦ v ]

-- whether `os.Setenv` takes the name and the value
unfoldable pub can_set : Str → Str → Bool
can_set k v =
    not (is_empty k) && not (any (λ c. c == b'=' || c == 0) k) && not (any (λ c. c == 0) v)

-- `os.Setenv`, whose error is dropped
unfoldable pub setenv : Str → Str → Env → Env
unfolding can_set
setenv k v env = if can_set k v then put k v env else env

-- `strings.SplitN(line, "=", 2)`, `none` for one part
unfoldable pub cut_equals : Str → Option (Str × Str)
cut_equals [] = none
cut_equals (c ∷ s) =
    if c == b'='
    then some ([], s)
    else elim (cut_equals s) [ none ↦ none | some (k, v) ↦ some (c ∷ k, v) ]

-- the text without its last byte, and that byte
unfoldable pub pop_last : ℕ → Str → Str × ℕ
pop_last c [] = ([], c)
pop_last c (d ∷ s) = (c ∷ (pop_last d s).0, (pop_last d s).1)

-- the text without surrounding quotes, if it has them
unfoldable pub strip_quotes : Str → Str
unfolding pop_last
strip_quotes (c ∷ d ∷ s) =
    let (inner, last) = pop_last d s in
    if (c == 34 && last == 34) || (c == 39 && last == 39) then inner else c ∷ d ∷ s
strip_quotes s = s

-- the assignment of a line
unfoldable pub parse_line : Str → Option (Str × Str)
unfolding cut_equals strip_quotes
parse_line raw =
    let line = trim_space raw in
    if is_empty line || has_prefix line (codes "#") then none else elim (cut_equals line) [
      | none ↦ none
      | some (k, v) ↦ some (trim_space k, strip_quotes (trim_space v))
    ]

-- one round of the loop over the lines
unfoldable pub apply_line : Str → Env → Env
unfolding parse_line getenv setenv
apply_line line env = elim (parse_line line) [
  | none ↦ env
  | some (k, v) ↦ if is_empty (getenv k env) then setenv k v env else env
]

unfoldable pub apply_lines : List Str → Env → Env
unfolding apply_line
apply_lines [] env = env
apply_lines (line ∷ lines) env = apply_lines lines (apply_line line env)

unfoldable pub load_dot_env : Option Str → Env → Env
unfolding apply_lines
load_dot_env none env = env
load_dot_env (some text) env = apply_lines (split 10 text) env

unfoldable pub env_or_default : Env → Str → Str → Str
unfolding getenv
env_or_default env key fallback = let v = getenv key env in if is_empty v then fallback else v

unfoldable pub env_or_default_bool : Env → Str → Bool → Bool
unfolding getenv
env_or_default_bool env key fallback =
    let v = to_lower (trim_space (getenv key env)) in
    if is_empty v
    then fallback
    else str_eq v (codes "1")
      || str_eq v (codes "true")
      || str_eq v (codes "yes")
      || str_eq v (codes "on")

-- the value of decimal digits after `acc`, `none` at any other byte
unfoldable pub digits_value : ℕ → Str → Option ℕ
digits_value acc [] = some acc
digits_value acc (c ∷ s) =
    if leb 48 c && leb c 57 then digits_value (acc * 10 + (c - 48)) s else none

-- `strconv.Atoi` on 64 bits: a sign at most, then digits, in the range of `int`
unfoldable pub atoi_digits : Bool → Str → Option ℤ
unfolding digits_value
atoi_digits negative s = if is_empty s then none else elim (digits_value 0 s) [
  | none ↦ none
  | some n ↦
      if negative
      then (if ltb 9223372036854775808 n
          then none
          else if n == 0
          then some (pos 0)
          else some (negsuc (n - 1)))
      else if ltb n 9223372036854775808
      then some (pos n)
      else none
]

unfoldable pub atoi : Str → Option ℤ
unfolding atoi_digits
atoi [] = none
atoi (c ∷ s) =
    if c == b'-'
    then atoi_digits true s
    else if c == b'+'
    then atoi_digits false s
    else atoi_digits false (c ∷ s)

unfoldable pub env_or_default_int : Env → Str → ℤ → ℤ
unfolding getenv
env_or_default_int env key fallback =
    let v = getenv key env in
    if is_empty v then fallback else elim (atoi v) [ none ↦ fallback | some n ↦ n ]

unfoldable pub env_or_default_float : (fl : Floats) → (Str → Option fl.F) → Env → Str → fl.F → fl.F
unfolding getenv
env_or_default_float fl parse_float env key fallback =
    let v = getenv key env in
    if is_empty v then fallback else elim (parse_float v) [ none ↦ fallback | some x ↦ x ]
