-- ===== src/Escape/Tests.antt =====
-- Runs of the escaping of common/text.py, and the theorems at concrete data.
use opsforge.Prelude.{
  ℕ, ◌≤◌, ◌<◌, ◌≡◌, refl, Bool, true, false, [], ◌∷◌, Text, lit, ◌==◌, length, ltb, between,
  contains, arith, if◌then◌else◌,
}
use opsforge.Escape.{is_unsafe, hex, piece, pieces, has_unsafe_characters, sanitize_text}
use opsforge.Escape.Reading.{unescape, unescape-sanitize_text}
use opsforge.Escape.Safety.{has_unsafe_characters-sanitize_text}

-- Latin-1: the control characters, and letters.
abbrev latin : ℕ → Text
latin c = if between 32 126 c then lit "Lo" else if ltb c 160 then lit "Cc" else lit "Lo"

abbrev printable : ℕ → Bool
printable c = between 32 126 c

-- A tab, a backslash, an undecoded byte and a letter.
abbrev sample : Text
sample = 9 ∷ 92 ∷ 56575 ∷ 97 ∷ []

escaped : sanitize_text latin printable sample ≡ lit "\\x09\\\\\\xffa"
unfolding sanitize_text piece pieces hex contains ◌==◌
escaped = refl

shown : (c : ℕ) → printable c ≡ true → is_unsafe latin c ≡ false
unfolding is_unsafe contains ◌==◌
shown c h = rw h

visible : (c : ℕ) → 32 ≤ c → c < 127 → is_unsafe latin c ≡ false
visible c low high = shown c (ground arith)

unescape-sanitize_text_example :
    unescape (length sample) (sanitize_text latin printable sample) ≡ sample
unescape-sanitize_text_example =
    unescape-sanitize_text latin printable shown sample
      (omega arith, (omega arith, (omega arith, (omega arith, tt))))

has_unsafe_characters-sanitize_text_example :
    has_unsafe_characters latin (sanitize_text latin printable sample) ≡ false
has_unsafe_characters-sanitize_text_example =
    has_unsafe_characters-sanitize_text latin visible printable shown sample
