-- ===== src/Svc/Slices.antt =====
-- The chain of slices in svcdoctor.py ends.
use opsforge.Prelude.{
  ℕ, zero, suc, ◌+◌, ◌-◌, ◌<◌, ◌≡◌, refl, ap, ◌∙◌, ◌⊎◌, subst, Bool, true, false, Option, none,
  some, List, [], ◌∷◌, arith, Text, lit, ◌==◌, eq_iff, eq_refl, length, length-append, length-take,
  eqb, Bool-cases, Option-cases, inl, inr,
}
use opsforge.Prelude.Splitting.{prepend, or_here, rpartition}
use opsforge.Svc.{root_slice, stem_of, parent_stem, parent_slice, ancestors_from, slice_ancestors}

abbrev Shorter : ℕ → Option (Text × Text) → Type 0
Shorter n none = Unit
Shorter n (some p) = length p.0 < n

prepend-Shorter : (n c : ℕ) (o : Option (Text × Text)) → Shorter n o → Shorter (suc n) (prepend c o)
prepend-Shorter n c none h = tt
prepend-Shorter n c (some (a, b)) h = omega arith

or_here-Shorter :
    (n : ℕ) (here : Bool) (text : Text) (o : Option (Text × Text))
    → Shorter (suc n) o
    → Shorter (suc n) (or_here here text o)
or_here-Shorter n here text (some p) h = h
or_here-Shorter n true text none h = omega arith
or_here-Shorter n false text none h = tt

rpartition-Shorter : (c : ℕ) (text : Text) → Shorter (length text) (rpartition c text)
unfolding rpartition
rpartition-Shorter c [] = tt
rpartition-Shorter c (d ∷ text) =
    or_here-Shorter (length text) (eqb d c) text _
      (prepend-Shorter (length text) d (rpartition c text) (rpartition-Shorter c text))

stem_shorter : (name : Text) → length (stem_of name) ≡ length name - 6
unfolding stem_of
stem_shorter name = omega (arith, length-take (length name - 6) name)

-- The parent is the root, or its name is shorter.
parent_slice_lem :
    (name : Text) → (parent_slice name ≡ root_slice) ⊎ (length (parent_slice name) < length name)
unfolding parent_slice
parent_slice_lem name = elim (Option-cases (rpartition 45 (stem_of name))) [
  | inl absent ↦ inl (ap parent_stem absent)
  | inr (p, found) ↦
      let short : length p.0 < length (stem_of name) =
        subst (Shorter (length (stem_of name))) found (rpartition-Shorter 45 (stem_of name)) in
      let size = stem_shorter name in
      let parent : length (parent_stem (some p)) ≡ length p.0 + 6 =
        length-append p.0 (lit ".slice") in
      inr (omega (arith, ap (λ o. length (parent_stem o)) found))
]

-- The names from the given one to the root, each the parent of the one before it.
abbrev pub IsChain : Text → List Text → Type 0
IsChain name [] = ⊥
IsChain name (n ∷ []) = (name ≡ n) × (n ≡ root_slice)
IsChain name (n ∷ m ∷ names) =
    (name ≡ n) × ((n == root_slice) ≡ false) × IsChain (parent_slice n) (m ∷ names)

IsChain-cons :
    (name : Text) (names : List Text)
    → (name == root_slice) ≡ false
    → IsChain (parent_slice name) names
    → IsChain name (name ∷ names)
IsChain-cons name [] h c = absurd c
IsChain-cons name (m ∷ names) h c = (refl, h, c)

root-ancestors : (fuel : ℕ) → ancestors_from (suc fuel) root_slice ≡ some (root_slice ∷ [])
unfolding ancestors_from
root-ancestors fuel = rw (eq_refl root_slice)

ancestors_from-IsChain :
    (fuel : ℕ) (name : Text)
    → suc (length name) < fuel
    → (names : List Text) × (ancestors_from fuel name ≡ some names) × IsChain name names
unfolding ancestors_from
ancestors_from-IsChain zero name h = absurd (omega arith)
ancestors_from-IsChain (suc zero) name h = absurd (omega arith)
ancestors_from-IsChain (suc (suc fuel)) name h = elim (Bool-cases (name == root_slice)) [
  | inl root ↦ (name ∷ [], rw root, (refl, (eq_iff name root_slice).0 root))
  | inr other ↦ elim (parent_slice_lem name) [
    | inl top ↦
        let rest : ancestors_from (suc fuel) (parent_slice name) ≡ some (root_slice ∷ []) =
          ap (ancestors_from (suc fuel)) top ∙ root-ancestors fuel in
        (
          name ∷ root_slice ∷ [],
          rw (other, rest),
          IsChain-cons name (root_slice ∷ []) other (top, refl),
        )
    | inr shorter ↦
        let (names, e, c) = ancestors_from-IsChain (suc fuel) (parent_slice name) (omega arith) in
        (name ∷ names, rw (other, e), IsChain-cons name names other c)
  ]
]

-- The loop over the parents of a slice ends, whatever the name is: the names lead from the given one
-- to `-.slice`, each the parent of the one before it, with the root only at the end.
pub slice_ancestors-IsChain :
    (name : Text) → (names : List Text) × (slice_ancestors name ≡ some names) × IsChain name names
unfolding slice_ancestors
slice_ancestors-IsChain name = ancestors_from-IsChain (suc (suc (length name))) name (omega arith)
