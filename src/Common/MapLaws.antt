-- ===== src/Common/MapLaws.antt =====
-- Predicates over the entries of a map, and maps with one entry to a key.
use mathlib.Core.Path.{◌≡◌, refl, subst}
use mathlib.Core.Logic.{◌≢◌, inl, inr}
use mathlib.Core.List.{Memᴰ, [], ◌∷◌}
use mathlib.Core.Option.{none, some}
use native.Mathlib.Omega.{arith}
use acgc_project.Common.Tests.{if◌then◌else◌, Bool-cases}
use acgc_project.Common.Lists.{length, All, All-mono}
use acgc_project.Common.Text.{Str, str_eq, str_eq_iff, str_eq_refl}
use acgc_project.Common.Maps.{
  Map, get, put, update, delete, keys, values, map_option, get-put, get-update, get-delete,
}

module _ {ℓ} {V : Type ℓ} where
  pub get-put_self : (k : Str) (v : V) (m : Map V) → get k (put k v m) ≡ some v
  get-put_self k v m = rw (get-put k k v m, str_eq_refl k)

  pub get-put_ne : (k j : Str) (v : V) (m : Map V) → k ≢ j → get j (put k v m) ≡ get j m
  get-put_ne k j v m h = ground (arith, get-put k j v m, str_eq_iff k j)

  pub get-update_self :
      (k : Str) (f : V → V) (m : Map V) → get k (update k f m) ≡ map_option f (get k m)
  get-update_self k f m = rw (get-update k k f m, str_eq_refl k)

  pub get-update_ne : (k j : Str) (f : V → V) (m : Map V) → k ≢ j → get j (update k f m) ≡ get j m
  get-update_ne k j f m h = ground (arith, get-update k j f m, str_eq_iff k j)

  pub keys-update : (k : Str) (f : V → V) (m : Map V) → keys (update k f m) ≡ keys m
  unfolding update
  keys-update k f [] = refl
  keys-update k f ((j, w) ∷ m) = ground (arith, keys-update k f m)

  pub length-update : (k : Str) (f : V → V) (m : Map V) → length (update k f m) ≡ length m
  unfolding update
  length-update k f [] = refl
  length-update k f ((j, w) ∷ m) = ground (arith, length-update k f m)

  module _ {κ} (P : Str × V → Type κ) where
    pub All-put : (k : Str) (v : V) (m : Map V) → P (k, v) → All P m → All P (put k v m)
    unfolding put
    All-put k v [] h a = (h, tt)
    All-put k v ((j, w) ∷ m) h a = elim (Bool-cases (str_eq j k)) [
      | inl e ↦ rw e (rw ((str_eq_iff j k).0 e) h, a.1)
      | inr e ↦ rw e (a.0, All-put k v m h a.1)
    ]

    pub All-update :
        (k : Str) (f : V → V) (m : Map V)
        → ((v : V) → P (k, v) → P (k, f v))
        → All P m
        → All P (update k f m)
    unfolding update
    All-update k f [] h a = tt
    All-update k f ((j, w) ∷ m) h a = elim (Bool-cases (str_eq j k)) [
      | inl e ↦
          let same = (str_eq_iff j k).0 e in
          rw e (rw same (h w (subst (λ i. P (i, w)) same a.0)), a.1)
      | inr e ↦ rw e (a.0, All-update k f m h a.1)
    ]

    pub All-get : (k : Str) {v : V} (m : Map V) → All P m → get k m ≡ some v → P (k, v)
    unfolding get
    All-get k [] a h = cc
    All-get k {v} ((j, w) ∷ m) a h = elim (Bool-cases (str_eq j k)) [
      | inl e ↦
          let same = (str_eq_iff j k).0 e in
          let this : w ≡ v = ground arith in
          subst (λ u. P (k, u)) this (subst (λ i. P (i, w)) same a.0)
      | inr e ↦ All-get k m a.1 (rw e at h)
    ]

  -- No key twice.
  abbrev pub IsDistinct : Map V → Type ℓ
  IsDistinct [] = Unit
  IsDistinct ((k, v) ∷ m) = (get k m ≡ none) × IsDistinct m

  pub put-IsDistinct : (k : Str) (v : V) (m : Map V) → IsDistinct m → IsDistinct (put k v m)
  unfolding get put
  put-IsDistinct k v [] d = (refl, tt)
  put-IsDistinct k v ((j, w) ∷ m) d =
      ground (arith, put-IsDistinct k v m d.1, get-put k j v m, str_eq_iff k j, str_eq_iff j k)

  pub update-IsDistinct :
      (k : Str) (f : V → V) (m : Map V) → IsDistinct m → IsDistinct (update k f m)
  unfolding get update
  update-IsDistinct k f [] d = tt
  update-IsDistinct k f ((j, w) ∷ m) d =
      ground (arith, update-IsDistinct k f m d.1, get-update k j f m)

  pub delete-IsDistinct : (k : Str) (m : Map V) → IsDistinct m → IsDistinct (delete k m)
  unfolding get delete
  delete-IsDistinct k [] d = tt
  delete-IsDistinct k ((j, w) ∷ m) d = ground (arith, delete-IsDistinct k m d.1, get-delete k j m)

  -- A missing key is the key of no entry.
  pub absent-All : (k : Str) (m : Map V) → get k m ≡ none → All (λ e. e.0 ≢ k) m
  unfolding get
  absent-All k [] h = tt
  absent-All k ((j, w) ∷ m) h = elim (Bool-cases (str_eq j k)) [
    | inl e ↦ absurd (ground arith)
    | inr e ↦ (λ same. cc ((str_eq_iff j k).1 same), absent-All k m (rw e at h))
  ]

  -- Each entry is found under its key.
  pub stored-All : (m : Map V) → IsDistinct m → All (λ e. get e.0 m ≡ some e.1) m
  unfolding get
  stored-All [] d = tt
  stored-All ((k, v) ∷ m) d = (
    rw (str_eq_refl k),
    All-mono (λ e. get e.0 m ≡ some e.1)
        (λ e. (if str_eq k e.0 then some v else get e.0 m) ≡ some e.1) m
        (λ e found. ground (arith, str_eq_iff k e.0)) (stored-All m d.1),
  )

  pub All-values {κ} : (P : V → Type κ) (m : Map V) → All (λ e. P e.1) m → All P (values m)
  All-values P [] a = tt
  All-values P ((k, v) ∷ m) a = (a.0, All-values P m a.1)

  pub get-mem : (k : Str) {v : V} (m : Map V) → get k m ≡ some v → Memᴰ v (values m)
  unfolding get
  get-mem k [] h = cc
  get-mem k {v} ((j, w) ∷ m) h = elim (Bool-cases (str_eq j k)) [
    | inl e ↦ Memᴰ.head (ground arith)
    | inr e ↦ Memᴰ.tail (get-mem k m (rw e at h))
  ]
