-- ===== src/Config/DotEnv.antt =====
-- internal/config/config.go: what `loadDotEnv` leaves under each name.
use acgc_project.Common.{
  Str, List, [], ◌∷◌, false, Option, none, some, if◌then◌else◌, is_empty, split, ◌&&◌, ◌≡◌, refl,
  ap, ◌∙◌, inl, inr, Option-cases, arith, str_eq, str_eq_iff, get-put,
}
use acgc_project.Config.{
  Env, getenv, can_set, setenv, parse_line, apply_line, apply_lines, load_dot_env,
}

-- the value that a line gives to the name `k`, empty if it gives none
unfoldable pub given : Str → Str → Str
unfolding parse_line can_set
given k line = elim (parse_line line) [
  | none ↦ []
  | some (j, v) ↦ if str_eq j k && can_set j v then v else []
]

-- the first text that is not empty
unfoldable pub first_given : Str → Str → List Str → Str
unfolding given
first_given k v [] = v
first_given k v (line ∷ lines) = first_given k (if is_empty v then given k line else v) lines

getenv-setenv :
    (j k v : Str) (env : Env)
    → getenv k (setenv j v env) ≡ (if str_eq j k && can_set j v then v else getenv k env)
unfolding getenv setenv
getenv-setenv j k v env = ground (arith, get-put j k v env)

getenv-apply_line :
    (k line : Str) (env : Env)
    → getenv k (apply_line line env)
      ≡ (if is_empty (getenv k env) then given k line else getenv k env)
unfolding apply_line given
getenv-apply_line k line env = elim (Option-cases (parse_line line)) [
  | inl e ↦ ground (arith, e)
  | inr ((j, v), e) ↦ ground (arith, e, getenv-setenv j k v env, str_eq_iff j k)
]

getenv-apply_lines :
    (k : Str) (lines : List Str) (env : Env)
    → getenv k (apply_lines lines env) ≡ first_given k (getenv k env) lines
unfolding apply_lines first_given
getenv-apply_lines k [] env = refl
getenv-apply_lines k (line ∷ lines) env =
    getenv-apply_lines k lines (apply_line line env)
    ∙ ap (λ v. first_given k v lines) (getenv-apply_line k line env)

-- What a variable reads after `loadDotEnv`: its value if that is not empty, or else the first value
-- that is not empty of the lines of the file that set it; without a file, its value.
pub getenv-load_dot_env :
    (k : Str) (text : Option Str) (env : Env)
    → getenv k (load_dot_env text env) ≡ elim text as (λ _. Str) [
      | none ↦ getenv k env
      | some t ↦ first_given k (getenv k env) (split 10 t)
    ]
unfolding load_dot_env
getenv-load_dot_env k none env = refl
getenv-load_dot_env k (some t) env = getenv-apply_lines k (split 10 t) env

first_given_kept : (k v : Str) (lines : List Str) → is_empty v ≡ false → first_given k v lines ≡ v
unfolding first_given
first_given_kept k v [] h = refl
first_given_kept k v (line ∷ lines) h = rw h (first_given_kept k v lines h)

-- A variable that is not empty keeps its value, whatever the file says.
pub getenv-load_dot_env-kept :
    (k : Str) (text : Option Str) (env : Env)
    → is_empty (getenv k env) ≡ false
    → getenv k (load_dot_env text env) ≡ getenv k env
unfolding load_dot_env
getenv-load_dot_env-kept k none env h = refl
getenv-load_dot_env-kept k (some t) env h =
    getenv-apply_lines k (split 10 t) env ∙ first_given_kept k (getenv k env) (split 10 t) h
