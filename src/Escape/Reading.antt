-- ===== src/Escape/Reading.antt =====
-- The escapes of common/text.py can be read back.
use opsforge.Prelude.{
  ℕ, zero, suc, ◌+◌, ◌-◌, ◌<◌, ◌≡◌, refl, ap, sym, ◌∙◌, Bool, true, false, Option, none, some, [],
  ◌∷◌, ◌++◌, Text, lit, All, take, drop, length, ltb, leb, eqb, between, all, arith, Bool-cases,
  inl, inr, if◌then◌else◌,
}
use opsforge.Escape.{
  hex, backslash, is_unsafe, control_piece, piece, pieces, is_plain, sanitize_text,
}
use opsforge.Escape.Hex.{hex_value, limit, length-hex, hex_value-hex, take-append, drop-append}

-- The number that the first characters spell, and what follows.
abbrev number : ℕ → Text → ℕ × Text
number width s = (hex_value 0 (take width s), drop width s)

-- `\xNN` from 80 on is a byte that was not decoded, a surrogate.
abbrev byte : ℕ × Text → Option (ℕ × Text)
byte (n, s) = some ((if ltb n 128 then n else 56320 + n), s)

-- What follows a backslash.
abbrev escape : ℕ → Text → Option (ℕ × Text)
escape mark s =
    if eqb mark backslash
    then some (backslash, s)
    else if eqb mark 120
    then byte (number 2 s)
    else if eqb mark 117
    then some (number 4 s)
    else if eqb mark 85
    then some (number 8 s)
    else none

abbrev after_backslash : Text → Option (ℕ × Text)
after_backslash [] = none
after_backslash (mark ∷ s) = escape mark s

-- The first character that an escaped text spells, and the rest.
abbrev first : Text → Option (ℕ × Text)
first [] = none
first (c ∷ s) = if eqb c backslash then after_backslash s else some (c, s)

abbrev then_read : (Text → Text) → Option (ℕ × Text) → Text
then_read read none = []
then_read read (some (c, s)) = c ∷ read s

-- The text that an escaped text spells, up to a number of characters.
abbrev pub unescape : ℕ → Text → Text
unescape zero s = []
unescape (suc count) s = then_read (unescape count) (first s)

number-hex : (width n : ℕ) (s : Text) → n < limit width → number width (hex width n ++ s) ≡ (n, s)
number-hex width n s h = rw (
  take-append (hex width n) s width (length-hex width n),
  drop-append (hex width n) s width (length-hex width n),
  hex_value-hex width n h,
)

first-hex_byte :
    (n c : ℕ) (s : Text)
    → n < 256
    → (if ltb n 128 then n else 56320 + n) ≡ c
    → first ((lit "\\x" ++ hex 2 n) ++ s) ≡ some (c, s)
first-hex_byte n c s h e = ap byte (number-hex 2 n s (omega arith)) ∙ ap (λ x. some (x, s)) e

module _ (category : ℕ → Text) where
  first-control_piece :
      (c : ℕ) (s : Text) → c < 1114112 → first (control_piece category c ++ s) ≡ some (c, s)
  unfolding control_piece
  first-control_piece c s h = elim (Bool-cases (ltb c 128)) [
    | inl low ↦ rw low (first-hex_byte c c s (ground arith) (rw low))
    | inr high ↦ elim (Bool-cases (leb c 65535)) [
      | inl short ↦ rw (high, short) (ap some (number-hex 4 c s (ground arith)))
      | inr long ↦ rw (high, long) (ap some (number-hex 8 c s (omega arith)))
    ]
  ]

  first-piece : (c : ℕ) (s : Text) → c < 1114112 → first (piece category c ++ s) ≡ some (c, s)
  unfolding piece
  first-piece c s h = elim (Bool-cases (eqb c backslash)) [
    | inl slash ↦ let e : c ≡ backslash = ground arith in rw e
    | inr other ↦ elim (Bool-cases (between 56448 56575 c)) [
      | inl raw ↦ rw (other, raw) (first-hex_byte (c - 56320) c s (ground arith) (ground arith))
      | inr decoded ↦ elim (Bool-cases (is_unsafe category c)) [
        | inr safe ↦ rw (other, decoded, safe) (rw other)
        | inl unsafe ↦ rw (other, decoded, unsafe) (first-control_piece c s h)
      ]
    ]
  ]

  unescape-pieces :
      (text : Text)
      → All (λ c. c < 1114112) text
      → unescape (length text) (pieces category text) ≡ text
  unfolding pieces
  unescape-pieces [] h = refl
  unescape-pieces (c ∷ text) h =
      rw (first-piece c (pieces category text) h.0, then_read)
        (ap (λ l. c ∷ l) (unescape-pieces text h.1))

  plain_pieces :
      (printable : ℕ → Bool) (text : Text)
      → ((c : ℕ) → printable c ≡ true → is_unsafe category c ≡ false)
      → all (is_plain category printable) text ≡ true
      → pieces category text ≡ text
  unfolding pieces piece is_plain
  plain_pieces printable [] shown h = refl
  plain_pieces printable (c ∷ text) shown h =
      let ih = plain_pieces printable text shown (ground arith) in
      let safe = shown c (ground arith) in
      let other : eqb c backslash ≡ false = ground arith in
      let decoded : between 56448 56575 c ≡ false = ground arith in
      rw (other, decoded, safe) (ap (λ l. c ∷ l) ih)

  -- If printable characters are not unsafe, the fast path for plain ASCII gives what the loop
  -- would: the result is that of the loop.
  pub sanitize_text-pieces :
      (printable : ℕ → Bool)
      → ((c : ℕ) → printable c ≡ true → is_unsafe category c ≡ false)
      → (text : Text) → sanitize_text category printable text ≡ pieces category text
  unfolding sanitize_text
  sanitize_text-pieces printable shown text =
      elim (Bool-cases (all (is_plain category printable) text)) [
        | inl plain ↦ rw plain (sym (plain_pieces printable text shown plain))
        | inr other ↦ rw other
      ]

  -- If printable characters are not unsafe, reading the escapes back gives the text, whose
  -- characters are code points.
  pub unescape-sanitize_text :
      (printable : ℕ → Bool)
      → ((c : ℕ) → printable c ≡ true → is_unsafe category c ≡ false)
      → (text : Text) → All (λ c. c < 1114112) text
      → unescape (length text) (sanitize_text category printable text) ≡ text
  unescape-sanitize_text printable shown text h =
      ap (unescape (length text)) (sanitize_text-pieces printable shown text)
      ∙ unescape-pieces text h
