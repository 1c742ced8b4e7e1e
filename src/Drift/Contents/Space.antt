-- ===== src/Drift/Contents/Space.antt =====
-- The whitespace comparison of configdiff.py compares the bytes that are no white space.
use opsforge.Prelude.{
  ◌≡◌, refl, ap, sym, ◌∙◌, not, List, [], ◌∷◌, ◌++◌, Text, join, keep, Bool-cases, inl, inr,
}
use mathlib.Core.List.{append-nil, append_assoc}
use opsforge.Prelude.Bytes.{is_space_byte, flush, words_from}
use opsforge.Drift.Contents.{without_space}

join-cons : (word : Text) (words : List Text) → join [] (word ∷ words) ≡ word ++ join [] words
unfolding join
join-cons word [] = sym (append-nil word)
join-cons word (w ∷ words) = refl

join-flush : (word : Text) (words : List Text) → join [] (flush word words) ≡ word ++ join [] words
join-flush [] words = refl
join-flush (c ∷ word) words = join-cons (c ∷ word) words

join-words_from :
    (word text : Text)
    → join [] (words_from word text) ≡ word ++ keep (λ c. not (is_space_byte c)) text
unfolding words_from
join-words_from word [] = join-flush word [] ∙ unfold join in refl
join-words_from word (c ∷ text) = elim (Bool-cases (is_space_byte c)) [
  | inl space ↦
      rw space
        (join-flush word (words_from [] text) ∙ ap (λ l. word ++ l) (join-words_from [] text))
  | inr other ↦ rw other (join-words_from (word ++ c ∷ []) text ∙ append_assoc word (c ∷ []) _)
]

-- Splitting at white space and joining the words again leaves exactly the bytes that are no white
-- space, in their order.
pub without_space-keep : (text : Text) → without_space text ≡ keep (λ c. not (is_space_byte c)) text
unfolding without_space
without_space-keep text = join-words_from [] text
