-- ===== src/Prelude/Decimal.antt =====
-- `int(text, 10)` of ASCII digits, and that it reads `str(n)` back.
use opsforge.Prelude.{
  ℕ, zero, suc, ◌+◌, ◌-◌, ◌*◌, ◌/◌, ◌%◌, ◌<◌, ◌≡◌, refl, ◌∙◌, Bool, true, false, ◌&&◌, [], ◌∷◌,
  ◌++◌, arith, Text, decimal, decimal_digits, between, all, ltb, Bool-cases, inl, inr,
}

-- `text.isascii() and text.isdecimal()`
unfoldable pub is_decimal : Text → Bool
is_decimal [] = false
is_decimal (c ∷ text) = all (between 48 57) (c ∷ text)

-- The number that the digits stand for behind the ones that were read.
unfoldable pub number_from : ℕ → Text → ℕ
number_from n [] = n
number_from n (c ∷ text) = number_from (n * 10 + (c - 48)) text

unfoldable pub number : Text → ℕ
unfolding number_from
number text = number_from 0 text

number_from-append :
    (n : ℕ) (s : Text) (c : ℕ) → number_from n (s ++ c ∷ []) ≡ number_from n s * 10 + (c - 48)
unfolding number_from
number_from-append n [] c = refl
number_from-append n (d ∷ s) c = number_from-append (n * 10 + (d - 48)) s c

all-append : (p : ℕ → Bool) (s t : Text) → all p (s ++ t) ≡ (all p s && all p t)
all-append p [] t = refl
all-append p (c ∷ s) t = ground (arith, all-append p s t)

number-digits : (fuel n : ℕ) → n < fuel → number_from 0 (decimal_digits fuel n) ≡ n
unfolding decimal_digits
number-digits zero n h = absurd (omega arith)
number-digits (suc fuel) n h = elim (Bool-cases (ltb n 10)) [
  | inl small ↦ rw small (unfold number_from in omega arith)
  | inr large ↦
      let prefix = number-digits fuel (n / 10) (ground arith) in
      rw large (
        number_from-append 0 (decimal_digits fuel (n / 10)) (48 + n % 10)
        ∙ (rw prefix (omega arith)))
]

digits-all : (fuel n : ℕ) → all (between 48 57) (decimal_digits fuel n) ≡ true
unfolding decimal_digits
digits-all zero n = refl
digits-all (suc fuel) n = elim (Bool-cases (ltb n 10)) [
  | inl small ↦ rw small (ground arith)
  | inr large ↦
      let prefix = digits-all fuel (n / 10) in
      let last : between 48 57 (48 + n % 10) ≡ true = ground arith in
      rw large (
        all-append (between 48 57) (decimal_digits fuel (n / 10)) ((48 + n % 10) ∷ [])
        ∙ (rw (prefix, last)))
]

-- The digits of a number read back as it.
pub number-decimal : (n : ℕ) → number (decimal n) ≡ n
unfolding number decimal
number-decimal n = number-digits (suc n) n (omega arith)

pub all-decimal : (n : ℕ) → all (between 48 57) (decimal n) ≡ true
unfolding decimal
all-decimal n = digits-all (suc n) n
