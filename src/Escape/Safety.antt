-- ===== src/Escape/Safety.antt =====
-- What common/text.py escapes can be shown on a terminal.
use opsforge.Prelude.{
  ℕ, zero, suc, ◌-◌, ◌/◌, ◌%◌, ◌≤◌, ◌<◌, ◌≡◌, refl, ap, ◌∙◌, Bool, true, false, ◌||◌, List, [], ◌∷◌,
  ◌++◌, Text, ltb, leb, eqb, between, any, arith, Bool-cases, inl, inr,
}
use opsforge.Escape.{
  digit, hex, backslash, is_unsafe, has_unsafe_characters, control_piece, piece, pieces,
  sanitize_text,
}
use opsforge.Escape.Reading.{sanitize_text-pieces}

pub any-append {ℓ} :
    {A : Type ℓ} (p : A → Bool) (xs ys : List A) → any p (xs ++ ys) ≡ (any p xs || any p ys)
any-append p [] ys = refl
any-append p (x ∷ xs) ys = ground (arith, any-append p xs ys)

module _ (category : ℕ → Text)
    (visible : (c : ℕ) → 32 ≤ c → c < 127 → is_unsafe category c ≡ false) where
  any-hex : (width n : ℕ) → any (is_unsafe category) (hex width n) ≡ false
  unfolding hex digit
  any-hex zero n = refl
  any-hex (suc width) n =
      let shown = visible (digit (n % 16)) (ground arith) (ground arith) in
      any-append (is_unsafe category) (hex width (n / 16)) (digit (n % 16) ∷ [])
      ∙ rw (any-hex width (n / 16), shown)

  any-mark :
      (mark : ℕ) (s : Text)
      → 32 ≤ mark
      → mark < 127
      → any (is_unsafe category) s ≡ false
      → any (is_unsafe category) (backslash ∷ mark ∷ s) ≡ false
  any-mark mark s low high h =
      rw (visible backslash (omega arith) (omega arith), visible mark low high) h

  any-control_piece : (c : ℕ) → any (is_unsafe category) (control_piece category c) ≡ false
  unfolding control_piece
  any-control_piece c = elim (Bool-cases (ltb c 128)) [
    | inl low ↦ rw low (any-mark 120 (hex 2 c) (omega arith) (omega arith) (any-hex 2 c))
    | inr high ↦ elim (Bool-cases (leb c 65535)) [
      | inl short ↦
          rw (high, short) (any-mark 117 (hex 4 c) (omega arith) (omega arith) (any-hex 4 c))
      | inr long ↦ rw (high, long) (any-mark 85 (hex 8 c) (omega arith) (omega arith) (any-hex 8 c))
    ]
  ]

  any-piece : (c : ℕ) → any (is_unsafe category) (piece category c) ≡ false
  unfolding piece
  any-piece c = elim (Bool-cases (eqb c backslash)) [
    | inl slash ↦ rw slash (any-mark backslash [] (omega arith) (omega arith) refl)
    | inr other ↦ elim (Bool-cases (between 56448 56575 c)) [
      | inl raw ↦
          rw (other, raw)
            (any-mark 120 (hex 2 (c - 56320)) (omega arith) (omega arith) (any-hex 2 (c - 56320)))
      | inr decoded ↦ elim (Bool-cases (is_unsafe category c)) [
        | inr safe ↦ rw (other, decoded, safe) (rw safe)
        | inl unsafe ↦ rw (other, decoded, unsafe) (any-control_piece c)
      ]
    ]
  ]

  any-pieces : (text : Text) → any (is_unsafe category) (pieces category text) ≡ false
  unfolding pieces
  any-pieces [] = refl
  any-pieces (c ∷ text) =
      any-append (is_unsafe category) (piece category c) (pieces category text)
      ∙ rw (any-piece c, any-pieces text)

  -- If visible ASCII characters are not unsafe, and printable ones neither, what `sanitize_text`
  -- returns has no unsafe character.
  pub has_unsafe_characters-sanitize_text :
      (printable : ℕ → Bool)
      → ((c : ℕ) → printable c ≡ true → is_unsafe category c ≡ false)
      → (text : Text)
      → has_unsafe_characters category (sanitize_text category printable text) ≡ false
  unfolding has_unsafe_characters
  has_unsafe_characters-sanitize_text printable shown text =
      ap (any (is_unsafe category)) (sanitize_text-pieces category printable shown text)
      ∙ any-pieces text
