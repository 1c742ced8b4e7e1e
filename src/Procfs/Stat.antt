-- ===== src/Procfs/Stat.antt =====
-- `split_stat` of common/procfs.py takes any process name.
use opsforge.Prelude.{
  ℕ, ◌≤◌, ◌≡◌, refl, ap, sym, ◌∙◌, true, false, none, some, [], ◌∷◌, ◌++◌, arith, Text, lit, ◌==◌,
  decimal, between, all, any, eqb,
}
use opsforge.Prelude.Decimal.{is_decimal, number, number-decimal, all-decimal}
use opsforge.Prelude.Bytes.{is_space_byte, lstrip, rstrip, words_from}
use opsforge.Procfs.{cut_first, cut_last, stat_of, split_behind, split_stat}

cut_first_lem :
    (c : ℕ) (before behind : Text)
    → any (λ d. eqb d c) before ≡ false
    → cut_first c (before ++ c ∷ behind) ≡ some (before, behind)
unfolding cut_first
cut_first_lem c [] behind h = ground arith
cut_first_lem c (d ∷ before) behind h =
    let other : eqb d c ≡ false = ground arith in
    let rest = cut_first_lem c before behind (ground arith) in rw (other, rest)

cut_last_of_absent :
    (c : ℕ) (text : Text) → any (λ d. eqb d c) text ≡ false → cut_last c text ≡ none
unfolding cut_last
cut_last_of_absent c [] h = refl
cut_last_of_absent c (d ∷ text) h =
    let other : eqb d c ≡ false = ground arith in
    let rest = cut_last_of_absent c text (ground arith) in rw (rest, other)

cut_last_lem :
    (c : ℕ) (before behind : Text)
    → any (λ d. eqb d c) behind ≡ false
    → cut_last c (before ++ c ∷ behind) ≡ some (before, behind)
unfolding cut_last
cut_last_lem c [] behind h =
    let rest = cut_last_of_absent c behind h in
    let same : eqb c c ≡ true = ground arith in rw (rest, same)
cut_last_lem c (d ∷ before) behind h = rw (cut_last_lem c before behind h)

digit_lem : (c : ℕ) → between 48 57 c ≡ true → (is_space_byte c ≡ false) × (eqb c 40 ≡ false)
unfolding is_space_byte
digit_lem c h = (ground arith, ground arith)

lstrip-digits : (c : ℕ) (text : Text) → between 48 57 c ≡ true → lstrip (c ∷ text) ≡ c ∷ text
unfolding lstrip
lstrip-digits c text h = rw (digit_lem c h).0

rstrip-digits : (text : Text) → all (between 48 57) text ≡ true → rstrip (text ++ 32 ∷ []) ≡ text
unfolding rstrip ◌==◌
rstrip-digits [] h = unfold is_space_byte in refl
rstrip-digits (c ∷ text) h =
    let plain : is_space_byte c ≡ false = (digit_lem c (ground arith)).0 in
    let rest = rstrip-digits text (ground arith) in rw (plain, rest)

no_opening :
    (text : Text) → all (between 48 57) text ≡ true → any (λ d. eqb d 40) (text ++ 32 ∷ []) ≡ false
no_opening [] h = refl
no_opening (c ∷ text) h = ground (arith, no_opening text, digit_lem c)

number_nil : number [] ≡ 0
unfolding number
number_nil = refl

stat_of_digits :
    (c : ℕ) (digits name rest : Text)
    → all (between 48 57) (c ∷ digits) ≡ true
    → stat_of (c ∷ (digits ++ 32 ∷ [])) (some (name, rest))
      ≡ some (number (c ∷ digits), name, words_from [] rest)
unfolding stat_of is_decimal
stat_of_digits c digits name rest h =
    let left = lstrip-digits c (digits ++ 32 ∷ []) (ground arith) in
    let right = rstrip-digits (c ∷ digits) h in rw (left, right, h)

split_stat_digits :
    (digits name rest : Text)
    → all (between 48 57) digits ≡ true
    → (0 ≡ number digits → ⊥)
    → any (λ d. eqb d 41) rest ≡ false
    → split_stat ((digits ++ 32 ∷ []) ++ 40 ∷ (name ++ 41 ∷ rest))
      ≡ some (number digits, name, words_from [] rest)
unfolding split_stat split_behind
split_stat_digits [] name rest h p free = absurd (p (sym number_nil))
split_stat_digits (c ∷ digits) name rest h p free =
    let opening =
      cut_first_lem 40 ((c ∷ digits) ++ 32 ∷ []) (name ++ 41 ∷ rest) (no_opening (c ∷ digits) h) in
    let closing = cut_last_lem 41 name rest free in
    rw (opening, closing) (stat_of_digits c digits name rest h)

-- The line of a process of any name, with parentheses, white space and line feeds in it too, is split
-- into its number, its name and the words of its fields, if the number is positive and the fields
-- have no closing parenthesis.
pub split_stat_lem :
    (pid : ℕ) (name rest : Text)
    → 1 ≤ pid
    → any (λ d. eqb d 41) rest ≡ false
    → split_stat ((decimal pid ++ lit " ") ++ 40 ∷ (name ++ 41 ∷ rest))
      ≡ some (pid, name, words_from [] rest)
split_stat_lem pid name rest pos free =
    split_stat_digits (decimal pid) name rest (all-decimal pid)
      (λ e. omega (arith, number-decimal pid)) free
    ∙ ap (λ n. some (n, name, words_from [] rest)) (number-decimal pid)
