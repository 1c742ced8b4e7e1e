-- ===== src/Prelude/Splitting.antt =====
-- `str.partition`, `str.rpartition` and `str.split`. `str.isspace` of a character is an argument.
use opsforge.Prelude.{
  ℕ, zero, suc, Bool, Option, none, some, List, [], ◌∷◌, ◌++◌, Text, eqb, if◌then◌else◌,
}

abbrev pub prepend : ℕ → Option (Text × Text) → Option (Text × Text)
prepend c none = none
prepend c (some (before, after)) = some (c ∷ before, after)

-- `text.partition(c)` and `text.rpartition(c)`, where the character is there.
unfoldable pub partition : ℕ → Text → Option (Text × Text)
partition separator [] = none
partition separator (c ∷ text) =
    let rest = partition separator text in
    if eqb c separator then some ([], text) else prepend c rest

abbrev pub or_here : Bool → Text → Option (Text × Text) → Option (Text × Text)
or_here here text (some p) = some p
or_here here text none = if here then some ([], text) else none

unfoldable pub rpartition : ℕ → Text → Option (Text × Text)
rpartition separator [] = none
rpartition separator (c ∷ text) =
    or_here (eqb c separator) text (prepend c (rpartition separator text))

abbrev pub skip_spaces : (ℕ → Bool) → Text → Text
skip_spaces is_space [] = []
skip_spaces is_space (c ∷ text) =
    let rest = skip_spaces is_space text in if is_space c then rest else c ∷ text

-- The first word, and what follows it.
unfoldable pub take_word : (ℕ → Bool) → Text → Text × Text
take_word is_space [] = ([], [])
take_word is_space (c ∷ text) =
    let rest = take_word is_space text in
    if is_space c then ([], c ∷ text) else (c ∷ rest.0, rest.1)

-- `text.split(None, n)`
unfoldable pub split_fields : (ℕ → Bool) → ℕ → Text → List Text
unfolding take_word
split_fields is_space zero text = elim (skip_spaces is_space text) [
  | [] ↦ []
  | c ∷ rest ↦ (c ∷ rest) ∷ []
]
split_fields is_space (suc n) text = elim (skip_spaces is_space text) [
  | [] ↦ []
  | c ∷ rest ↦
      (take_word is_space (c ∷ rest)).0 ∷ split_fields is_space n (take_word is_space (c ∷ rest)).1
]

abbrev pub token : Text → List Text → List Text
token [] words = words
token (c ∷ word) words = (c ∷ word) ∷ words

-- `text.split()`
unfoldable pub words_from : (ℕ → Bool) → Text → Text → List Text
words_from is_space word [] = token word []
words_from is_space word (c ∷ text) =
    let after = words_from is_space (if is_space c then [] else word ++ c ∷ []) text in
    if is_space c then token word after else after
