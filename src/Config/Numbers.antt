-- ===== src/Config/Numbers.antt =====
-- internal/config/config.go: the integers that `envOrDefaultInt` reads.
use acgc_project.Common.{
  ℕ, suc, zero, ◌+◌, ◌-◌, ◌*◌, ◌/◌, ◌%◌, ◌<◌, Str, [], ◌∷◌, ◌++◌, true, false, ◌&&◌, some, is_empty,
  ltb, leb, ◌≡◌, refl, ap, ◌∙◌, inl, inr, Bool-cases, arith, if_both, decimal, decimal_digits, pos,
}
use acgc_project.Config.{digits_value, atoi_digits, atoi}

digits_value-append :
    (acc : ℕ) (s : Str) (c m : ℕ)
    → digits_value acc s ≡ some m
    → (leb 48 c && leb c 57) ≡ true
    → digits_value acc (s ++ c ∷ []) ≡ some (m * 10 + (c - 48))
unfolding digits_value
digits_value-append acc [] c m e h = ground (arith, e, h)
digits_value-append acc (d ∷ s) c m e h =
    ground (arith, e, h, digits_value-append (acc * 10 + (d - 48)) s c m)

digits_value-decimal_digits : (f n : ℕ) → n < f → digits_value 0 (decimal_digits f n) ≡ some n
unfolding decimal_digits digits_value
digits_value-decimal_digits zero n h = elim h [ ]
digits_value-decimal_digits (suc f) n h = elim (Bool-cases (ltb n 10)) [
  | inl e ↦ rw e (ground (arith, e))
  | inr e ↦ rw e (
      digits_value-append 0 (decimal_digits f (n / 10)) (48 + n % 10) (n / 10)
        (digits_value-decimal_digits f (n / 10) (ground (arith, e, h))) (ground arith)
      ∙ ap (λ (m : ℕ). some m) (ground arith))
]

append-nonempty : (s : Str) (c : ℕ) → is_empty (s ++ c ∷ []) ≡ false
append-nonempty [] c = refl
append-nonempty (d ∷ s) c = refl

decimal-nonempty : (n : ℕ) → is_empty (decimal n) ≡ false
unfolding decimal decimal_digits
decimal-nonempty n =
    if_both (λ (s : Str). is_empty s ≡ false) (ltb n 10) refl
      (append-nonempty (decimal_digits n (n / 10)) (48 + n % 10))

atoi-digits :
    (s : Str) (n : ℕ)
    → is_empty s ≡ false
    → digits_value 0 s ≡ some n
    → n < 9223372036854775808
    → atoi s ≡ some (pos n)
unfolding atoi atoi_digits digits_value
atoi-digits [] n h e small = absurd (ground (arith, h))
atoi-digits (c ∷ s) n h e small = ground (arith, e, small)

-- `Atoi` reads a number below 2^63 back from its decimal digits.
pub atoi-decimal : (n : ℕ) → n < 9223372036854775808 → atoi (decimal n) ≡ some (pos n)
unfolding decimal
atoi-decimal n small =
    atoi-digits (decimal n) n (decimal-nonempty n)
      (digits_value-decimal_digits (suc n) n (omega arith)) small
