-- ===== src/Escape/Hex.antt =====
-- Reading back the hexadecimal digits of common/text.py.
use opsforge.Prelude.{
  ℕ, zero, suc, ◌+◌, ◌-◌, ◌*◌, ◌/◌, ◌%◌, ◌<◌, ◌≡◌, refl, ap, [], ◌∷◌, ◌++◌, Text, take, drop,
  length, length-append, ltb, arith, if◌then◌else◌,
}
use opsforge.Escape.{digit, hex}

-- The value of a digit in lower case.
abbrev pub digit_value : ℕ → ℕ
digit_value c = if ltb c 58 then c - 48 else c - 87

abbrev pub hex_value : ℕ → Text → ℕ
hex_value acc [] = acc
hex_value acc (c ∷ s) = hex_value (acc * 16 + digit_value c) s

-- 16 ** width
abbrev pub limit : ℕ → ℕ
limit zero = 1
limit (suc width) = 16 * limit width

pub length-hex : (width n : ℕ) → length (hex width n) ≡ width
unfolding hex
length-hex zero n = refl
length-hex (suc width) n =
    omega
      (arith, length-append (hex width (n / 16)) (digit (n % 16) ∷ []), length-hex width (n / 16))

hex_value-append :
    (acc : ℕ) (s : Text) (c : ℕ)
    → hex_value acc (s ++ c ∷ []) ≡ hex_value acc s * 16 + digit_value c
hex_value-append acc [] c = refl
hex_value-append acc (d ∷ s) c = hex_value-append (acc * 16 + digit_value d) s c

digit_value-digit : (n : ℕ) → n < 16 → digit_value (digit n) ≡ n
unfolding digit
digit_value-digit n h = ground arith

pub hex_value-hex : (width n : ℕ) → n < limit width → hex_value 0 (hex width n) ≡ n
unfolding hex
hex_value-hex zero n h = omega arith
hex_value-hex (suc width) n h =
    let ih = hex_value-hex width (n / 16) (omega arith) in
    let last = digit_value-digit (n % 16) (omega arith) in
    omega (arith, hex_value-append 0 (hex width (n / 16)) (digit (n % 16)), ih, last)

pub take-append : (s t : Text) (n : ℕ) → length s ≡ n → take n (s ++ t) ≡ s
take-append [] t zero h = refl
take-append [] t (suc n) h = absurd (omega arith)
take-append (c ∷ s) t zero h = absurd (omega arith)
take-append (c ∷ s) t (suc n) h = ap (λ l. c ∷ l) (take-append s t n (omega arith))

pub drop-append : (s t : Text) (n : ℕ) → length s ≡ n → drop n (s ++ t) ≡ t
drop-append [] t zero h = refl
drop-append [] t (suc n) h = absurd (omega arith)
drop-append (c ∷ s) t zero h = absurd (omega arith)
drop-append (c ∷ s) t (suc n) h = drop-append s t n (omega arith)
