-- ===== src/Drift/Contents/Lines.antt =====
-- The comment comparison of configdiff.py, line by line.
use opsforge.Prelude.{
  ℕ, ◌≡◌, ap, sym, ◌∙◌, Bool, false, ◌||◌, [], ◌∷◌, ◌++◌, arith, Text, keep, eqb, any,
  if◌then◌else◌,
}
use mathlib.Core.List.{append-nil, append_assoc}
use opsforge.Drift.Contents.{lines_from, splitlines, is_meaningful, meaningful}

-- A line feed or a carriage return.
abbrev pub is_break : ℕ → Bool
is_break c = eqb c 10 || eqb c 13

lines_from_line :
    (begun line rest : Text)
    → any is_break line ≡ false
    → lines_from false begun (line ++ 10 ∷ rest) ≡ (begun ++ line) ∷ lines_from false [] rest
unfolding lines_from
lines_from_line begun [] rest h = ap (λ l. l ∷ lines_from false [] rest) (sym (append-nil begun))
lines_from_line begun (c ∷ line) rest h =
    let plain : (eqb c 10 ≡ false) × (eqb c 13 ≡ false) = (ground arith, ground arith) in
    rw (plain.0, plain.1)
      (lines_from_line (begun ++ c ∷ []) line rest (ground arith)
        ∙ ap (λ l. l ∷ lines_from false [] rest) (append_assoc begun (c ∷ []) line))

-- A line without line breaks that a line feed ends counts as such if it is meaningful; a blank
-- line or a comment does not change what is compared. What follows is compared for itself.
pub meaningful_line :
    (line rest : Text)
    → any is_break line ≡ false
    → meaningful (line ++ 10 ∷ rest)
      ≡ (if is_meaningful line then line ∷ meaningful rest else meaningful rest)
unfolding meaningful splitlines
meaningful_line line rest h = ap (keep is_meaningful) (lines_from_line [] line rest h)
