-- ===== src/Escape.antt =====
-- common/text.py: `sanitize_text` and `has_unsafe_characters`. `unicodedata.category` and
-- `str.isprintable` of one character are the arguments `category` and `printable`.
pub mod Hex
pub mod Reading
pub mod Safety
mod Tests
use opsforge.Prelude.{
  ℕ, zero, suc, ◌+◌, ◌-◌, ◌*◌, ◌/◌, ◌%◌, Bool, true, false, ◌&&◌, not, List, [], ◌∷◌, ◌++◌, Text,
  lit, contains, ltb, leb, eqb, between, any, all, if◌then◌else◌,
}

-- A hexadecimal digit, in lower case.
pub digit : ℕ → ℕ
digit n = if ltb n 10 then 48 + n else 87 + n

-- `f"{n:0{width}x}"` of a number below 16 ** width.
unfoldable pub hex : (width : ℕ) → ℕ → Text
unfolding digit
hex zero n = []
hex (suc width) n = hex width (n / 16) ++ digit (n % 16) ∷ []

abbrev pub backslash : ℕ
backslash = 92

-- `ESCAPED_CATEGORIES`
abbrev pub escaped_categories : List Text
escaped_categories = lit "Cc" ∷ lit "Cf" ∷ lit "Cs" ∷ lit "Zl" ∷ lit "Zp" ∷ []

module _ (category : ℕ → Text) where
  -- The test on a character that both functions make.
  pub is_unsafe : ℕ → Bool
  is_unsafe character = contains escaped_categories (category character)

  unfoldable pub has_unsafe_characters : Text → Bool
  unfolding is_unsafe
  has_unsafe_characters value = any is_unsafe value

  pub control_piece : ℕ → Text
  control_piece codepoint =
      if ltb codepoint 128
      then lit "\\x" ++ hex 2 codepoint
      else if leb codepoint 65535
      then lit "\\u" ++ hex 4 codepoint
      else lit "\\U" ++ hex 8 codepoint

  -- What the loop appends for one character.
  unfoldable pub piece : ℕ → Text
  unfolding control_piece is_unsafe hex
  piece character =
      if eqb character backslash
      then backslash ∷ backslash ∷ []
      else if between 56448 56575 character
      then lit "\\x" ++ hex 2 (character - 56320)
      else if is_unsafe character
      then control_piece character
      else character ∷ []

  -- The loop, with the join.
  unfoldable pub pieces : Text → Text
  pieces [] = []
  pieces (character ∷ text) = piece character ++ pieces text

  module _ (printable : ℕ → Bool) where
    -- `text.isascii() and text.isprintable() and "\\" not in text`
    pub is_plain : ℕ → Bool
    is_plain character = ltb character 128 && (printable character && not (eqb character backslash))

    unfoldable pub sanitize_text : Text → Text
    unfolding pieces is_plain
    sanitize_text text = if all is_plain text then text else pieces text
