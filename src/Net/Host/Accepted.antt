-- ===== src/Net/Host/Accepted.antt =====
-- The host names in the words of Net.Host.Names are accepted by common/net.py.
use mathlib.Core.List.{append-nil, append_assoc}
use opsforge.Prelude.{
  ℕ, ◌≡◌, ◌≢◌, ◌⊎◌, refl, ap, sym, ◌∙◌, Bool, true, false, not, none, List, [], ◌∷◌, ◌++◌, Text,
  lit, ◌==◌, All, All-map, join, length, eqb, ltb, any, all, arith, Bool-cases, inl, inr,
}
use opsforge.Net.Host.{
  last_or, is_host_label, is_numeric_label, last_label, split_from, split, without_root,
  name_objection, check_labels,
}
use opsforge.Net.Host.Names.{IsAlnum, IsLabel, IsNumber, IsHostname}
use opsforge.Net.Host.Labels.{All-last_or, is_host_label_of_IsLabel, numeric-IsNumber}

abbrev Undotted : Text → Type 0
Undotted l = All (λ c. c ≢ 46) l

label-Undotted : (l : Text) → IsLabel l → Undotted l
label-Undotted l h = All-map l character_undotted h.characters
  where
    character_undotted : (c : ℕ) → IsAlnum c ⊎ (c ≡ 45) → c ≢ 46
    character_undotted c h e = ground arith

split_from-label : (begun l : Text) → Undotted l → split_from begun l ≡ (begun ++ l) ∷ []
unfolding split_from
split_from-label begun [] h = ap (λ t. t ∷ []) (sym (append-nil begun))
split_from-label begun (c ∷ l) (here, h) =
    let other : eqb c 46 ≡ false = ground arith in
    rw other
      (split_from-label (begun ++ c ∷ []) l h ∙ ap (λ t. t ∷ []) (append_assoc begun (c ∷ []) l))

split_from-dot :
    (begun l rest : Text)
    → Undotted l
    → split_from begun (l ++ 46 ∷ rest) ≡ (begun ++ l) ∷ split_from [] rest
unfolding split_from
split_from-dot begun [] rest h = ap (λ t. t ∷ split_from [] rest) (sym (append-nil begun))
split_from-dot begun (c ∷ l) rest (here, h) =
    let other : eqb c 46 ≡ false = ground arith in
    rw other (
      split_from-dot (begun ++ c ∷ []) l rest h
      ∙ ap (λ t. t ∷ split_from [] rest) (append_assoc begun (c ∷ []) l))

split-join :
    (first : Text) (more : List Text)
    → All IsLabel (first ∷ more)
    → split_from [] (join (lit ".") (first ∷ more)) ≡ first ∷ more
unfolding join
split-join first [] (h, _) = split_from-label [] first (label-Undotted first h)
split-join first (l ∷ more) (h, rest) =
    split_from-dot [] first (join (lit ".") (l ∷ more)) (label-Undotted first h)
    ∙ ap (λ ls. first ∷ ls) (split-join l more rest)

-- A text with a last character that is no dot.
abbrev EndsWell : Text → Type 0
EndsWell [] = ⊥
EndsWell (c ∷ text) = last_or c text ≢ 46

append-EndsWell : (begun text : Text) → EndsWell text → EndsWell (begun ++ text)
append-EndsWell [] text h = h
append-EndsWell (b ∷ []) [] h = absurd h
append-EndsWell (b ∷ []) (c ∷ text) h = h
append-EndsWell (b ∷ c ∷ begun) text h = append-EndsWell (c ∷ begun) text h

label-EndsWell : (l : Text) → IsLabel l → EndsWell l
label-EndsWell [] h = let s = h.some_character in absurd (omega arith)
label-EndsWell (c ∷ l) h = All-last_or (λ d. d ≢ 46) c l (label-Undotted (c ∷ l) h)

join-EndsWell :
    (first : Text) (more : List Text)
    → All IsLabel (first ∷ more)
    → EndsWell (join (lit ".") (first ∷ more))
unfolding join
join-EndsWell first [] (h, _) = label-EndsWell first h
join-EndsWell first (l ∷ more) (h, rest) =
    append-EndsWell first (46 ∷ join (lit ".") (l ∷ more))
      (append-EndsWell (46 ∷ []) (join (lit ".") (l ∷ more)) (join-EndsWell l more rest))

without_root-EndsWell : (text : Text) → EndsWell text → without_root text ≡ text
unfolding without_root
without_root-EndsWell [] h = absurd h
without_root-EndsWell (c ∷ []) h = let other : eqb c 46 ≡ false = ground arith in rw other refl
without_root-EndsWell (c ∷ d ∷ text) h = ap (λ t. c ∷ t) (without_root-EndsWell (d ∷ text) h)

without_root-dot : (text : Text) → without_root (text ++ lit ".") ≡ text
unfolding without_root
without_root-dot [] = refl
without_root-dot (c ∷ []) = refl
without_root-dot (c ∷ d ∷ text) = ap (λ t. c ∷ t) (without_root-dot (d ∷ text))

all-append : (p : ℕ → Bool) (s t : Text) → all p s ≡ true → all p t ≡ true → all p (s ++ t) ≡ true
all-append p [] t h k = k
all-append p (c ∷ s) t h k = ground (arith, all-append p s t)

label-ascii : (l : Text) → All (λ c. IsAlnum c ⊎ (c ≡ 45)) l → all (λ c. ltb c 128) l ≡ true
label-ascii [] h = refl
label-ascii (c ∷ l) (here, h) =
    let low : ltb c 128 ≡ true = ground arith in rw (low, label-ascii l h) refl

join-ascii :
    (first : Text) (more : List Text)
    → All IsLabel (first ∷ more)
    → all (λ c. ltb c 128) (join (lit ".") (first ∷ more)) ≡ true
unfolding join
join-ascii first [] (h, _) = label-ascii first h.characters
join-ascii first (l ∷ more) (h, rest) =
    all-append (λ c. ltb c 128) first (46 ∷ join (lit ".") (l ∷ more))
      (label-ascii first h.characters) (join-ascii l more rest)

no_bad_label :
    (labels : List Text) → All IsLabel labels → any (λ l. not (is_host_label l)) labels ≡ false
no_bad_label [] h = refl
no_bad_label (l ∷ labels) (here, h) =
    rw (is_host_label_of_IsLabel l here, no_bad_label labels h) refl

append-last_label :
    (first : Text) (more : List Text)
    → (before : List Text) × (first ∷ more ≡ before ++ last_label first more ∷ [])
append-last_label first [] = ([], refl)
append-last_label first (l ∷ more) =
    let (before, e) = append-last_label l more in (first ∷ before, ap (λ ls. first ∷ ls) e)

check_labels_of_IsLabel :
    (first : Text) (more : List Text)
    → All IsLabel (first ∷ more)
    → ((before : List Text) (l : Text) → first ∷ more ≡ before ++ l ∷ [] → ¬ IsNumber l)
    → check_labels (first ∷ more) ≡ none
unfolding check_labels
check_labels_of_IsLabel first more h last =
    let (before, e) = append-last_label first more in
    let no_number : is_numeric_label (last_label first more) ≡ false =
      elim (Bool-cases (is_numeric_label (last_label first more))) [
        | inl number ↦ absurd (last before _ e (numeric-IsNumber _ number))
        | inr fine ↦ fine
      ] in
    rw (no_bad_label (first ∷ more) h, no_number) refl

some_text : (text : Text) → EndsWell text → (text == []) ≡ false
unfolding ◌==◌
some_text [] h = absurd h
some_text (c ∷ text) h = refl

pub name_objection_of_IsHostname : (name : Text) → IsHostname name → name_objection name ≡ none
unfolding name_objection split
name_objection_of_IsHostname name h =
    let body = join (lit ".") (h.first ∷ h.more) in
    let ends = join-EndsWell h.first h.more h.labels in
    let low = join-ascii h.first h.more h.labels in
    let rootless : without_root name ≡ body = elim h.form [
      | inl e ↦ ap without_root e ∙ without_root-EndsWell body ends
      | inr e ↦ ap without_root e ∙ without_root-dot body
    ] in
    let ascii : all (λ c. ltb c 128) name ≡ true = elim h.form [
      | inl e ↦ ap (all (λ c. ltb c 128)) e ∙ low
      | inr e ↦ ap (all (λ c. ltb c 128)) e ∙ all-append (λ c. ltb c 128) body (lit ".") low refl
    ] in
    let short : ltb 253 (length name) ≡ false = (let s = h.short in ground arith) in
    let whole = split-join h.first h.more h.labels in
    let fine = check_labels_of_IsLabel h.first h.more h.labels h.last in
    rw (ascii, short, rootless, some_text body ends, whole) fine
