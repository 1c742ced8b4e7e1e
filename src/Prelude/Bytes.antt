-- ===== src/Prelude/Bytes.antt =====
-- `bytes.split()` and `bytes.strip()`.
use opsforge.Prelude.{
  ℕ, Bool, ◌&&◌, ◌||◌, List, [], ◌∷◌, ◌++◌, Text, ◌==◌, eqb, between, if◌then◌else◌,
}

-- The ASCII white space of `bytes.split()` and `bytes.strip()`.
unfoldable pub is_space_byte : ℕ → Bool
is_space_byte c = eqb c 32 || between 9 13 c

abbrev pub flush : Text → List Text → List Text
flush [] words = words
flush (c ∷ word) words = (c ∷ word) ∷ words

-- `data.split()`, with the word that has begun.
unfoldable pub words_from : Text → Text → List Text
words_from word [] = flush word []
words_from word (c ∷ text) =
    let after = words_from (if is_space_byte c then [] else word ++ c ∷ []) text in
    if is_space_byte c then flush word after else after

unfoldable pub lstrip : Text → Text
lstrip [] = []
lstrip (c ∷ text) = let rest = lstrip text in if is_space_byte c then rest else c ∷ text

unfoldable pub rstrip : Text → Text
rstrip [] = []
rstrip (c ∷ text) = let rest = rstrip text in if is_space_byte c && rest == [] then [] else c ∷ rest
