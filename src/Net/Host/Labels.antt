-- ===== src/Net/Host/Labels.antt =====
-- The regular expressions `HOST_LABEL` and `NUMERIC_LABEL` of common/net.py, and the words of
-- Net.Host.Names for them.
use opsforge.Prelude.{
  ◌≢◌, leb, Bool-cases, ℕ, ◌≤◌, ◌≡◌, ◌⊎◌, refl, ap, ◌∙◌, Bool, true, false, ◌||◌, [], ◌∷◌, ◌++◌,
  Text, All, all, arith, eqb, length, inl, inr,
}
use opsforge.Net.Host.{is_digit, is_alnum, is_hex_digit, last_or, is_host_label, is_numeric_label}
use opsforge.Net.Host.Names.{IsDigit, IsAlnum, IsHexDigit, IsLabel, IsNumber}

last_or_lem : (c d : ℕ) (before : Text) → last_or c (before ++ d ∷ []) ≡ d
last_or_lem c d [] = refl
last_or_lem c d (b ∷ before) = last_or_lem b d before

pub last_or-append :
    (c d : ℕ) (text before : Text) → c ∷ text ≡ before ++ d ∷ [] → last_or c text ≡ d
last_or-append c d text [] e = ground arith
last_or-append c d text (b ∷ before) e =
    let rest : text ≡ before ++ d ∷ [] = cc in ap (last_or c) rest ∙ last_or_lem c d before

is_alnum_lem : (c : ℕ) → is_alnum c ≡ true → IsAlnum c
is_alnum_lem c h = ground arith

label_characters :
    (label : Text)
    → all (λ d. is_alnum d || eqb d 45) label ≡ true
    → All (λ c. IsAlnum c ⊎ (c ≡ 45)) label
label_characters [] h = tt
label_characters (c ∷ label) h = (ground arith, label_characters label (ground arith))

pub is_host_label-IsLabel : (l : Text) → is_host_label l ≡ true → IsLabel l
unfolding is_host_label
is_host_label-IsLabel [] h = absurd (ground arith)
is_host_label-IsLabel (c ∷ label) h = record {
  some_character = omega arith;
  at_most = ground arith;
  characters = (inl (ground arith), label_characters label (ground arith));
  no_first = λ rest e. let hyphen : c ≡ 45 = cc in ground arith;
  no_last = λ before e. let l = last_or-append c 45 label before e in ground arith;
}

all_digits :
    (p : ℕ → Bool) (P : ℕ → Type 0)
    → ((c : ℕ) → P c → p c ≡ true)
    → (l : Text) → All P l
    → all p l ≡ true
all_digits p P f [] h = refl
all_digits p P f (c ∷ l) (here, rest) = ground (arith, f c here, all_digits p P f l rest)

numeric_of_digits : (l : Text) → 1 ≤ length l → All IsDigit l → is_numeric_label l ≡ true
unfolding is_numeric_label
numeric_of_digits [] h digits = absurd (omega arith)
numeric_of_digits (c ∷ []) h (here, _) = ground arith
numeric_of_digits (c ∷ d ∷ l) h digits =
    let decimal = all_digits is_digit IsDigit (λ x here. ground arith) (c ∷ d ∷ l) digits in
    rw decimal refl

hex_digits : (l : Text) → All IsHexDigit l → all is_hex_digit l ≡ true
hex_digits l digits = all_digits is_hex_digit IsHexDigit (λ x here. ground arith) l digits

pub numeric_of_IsNumber : (l : Text) → IsNumber l → is_numeric_label l ≡ true
numeric_of_IsNumber l (inl (some_digit, digits)) = numeric_of_digits l some_digit digits
numeric_of_IsNumber l (inr (digits, inl e, hex)) =
    ap is_numeric_label e ∙ unfold is_numeric_label in (rw (hex_digits digits hex) refl)
numeric_of_IsNumber l (inr (digits, inr e, hex)) =
    ap is_numeric_label e ∙ unfold is_numeric_label in (rw (hex_digits digits hex) refl)

pub not-IsNumber : (l : Text) → is_numeric_label l ≡ false → ¬ IsNumber l
not-IsNumber l h n = let e = numeric_of_IsNumber l n in cc

-- A text ends with its last character.
pub append-last_or :
    (c : ℕ) (text : Text) → (before : Text) × (c ∷ text ≡ before ++ last_or c text ∷ [])
append-last_or c [] = ([], refl)
append-last_or c (d ∷ text) =
    let (before, e) = append-last_or d text in (c ∷ before, ap (λ t. c ∷ t) e)

pub All-last_or {κ} : (P : ℕ → Type κ) (c : ℕ) (text : Text) → All P (c ∷ text) → P (last_or c text)
All-last_or P c [] h = h.0
All-last_or P c (d ∷ text) h = All-last_or P d text h.1

character_lem : (c : ℕ) → IsAlnum c ⊎ (c ≡ 45) → (is_alnum c || eqb c 45) ≡ true
character_lem c h = ground arith

alnum_of_character : (c : ℕ) → IsAlnum c ⊎ (c ≡ 45) → c ≢ 45 → is_alnum c ≡ true
alnum_of_character c h k = ground arith

pub is_host_label_of_IsLabel : (l : Text) → IsLabel l → is_host_label l ≡ true
unfolding is_host_label
is_host_label_of_IsLabel [] h = absurd (let s = h.some_character in omega arith)
is_host_label_of_IsLabel (c ∷ label) h =
    let (before, e) = append-last_or c label in
    let first =
      alnum_of_character c h.characters.0
        (λ hyphen. h.no_first label (ap (λ d. d ∷ label) hyphen)) in
    let last =
      alnum_of_character (last_or c label)
        (All-last_or (λ d. IsAlnum d ⊎ (d ≡ 45)) c label h.characters)
        (λ hyphen. h.no_last before (e ∙ ap (λ d. before ++ d ∷ []) hyphen)) in
    let inner =
      all_digits (λ d. is_alnum d || eqb d 45) (λ d. IsAlnum d ⊎ (d ≡ 45)) character_lem label
        h.characters.1 in
    let short : leb (length label) 62 ≡ true = (let s = h.at_most in ground arith) in
    rw (first, last, inner, short) refl

All-of_all :
    (p : ℕ → Bool) (P : ℕ → Type 0)
    → ((c : ℕ) → p c ≡ true → P c)
    → (l : Text) → all p l ≡ true
    → All P l
All-of_all p P f [] h = tt
All-of_all p P f (c ∷ l) h = (f c (ground arith), All-of_all p P f l (ground arith))

pub numeric-IsNumber : (l : Text) → is_numeric_label l ≡ true → IsNumber l
unfolding is_numeric_label
numeric-IsNumber [] h = absurd (ground arith)
numeric-IsNumber (c ∷ []) h = inl (omega arith, (ground arith, tt))
numeric-IsNumber (c ∷ d ∷ l) h = elim (Bool-cases (all is_digit (c ∷ d ∷ l))) [
  | inl digits ↦
      inl (omega arith, All-of_all is_digit IsDigit (λ x k. ground arith) (c ∷ d ∷ l) digits)
  | inr other ↦
      let hex = All-of_all is_hex_digit IsHexDigit (λ x k. ground arith) l (ground arith) in
      let zero_first : c ≡ 48 = ground arith in
      inr (
        l,
        elim (Bool-cases (eqb d 120)) [
          | inl small ↦ inl (let x : d ≡ 120 = ground arith in cc)
          | inr big ↦ inr (let x : d ≡ 88 = ground arith in cc)
        ],
        hex,
      )
]
