-- ===== src/Svc/Limits/Levels.antt =====
-- From the amounts of `effective_limits` in svcdoctor.py back to the levels that have them.
use opsforge.Prelude.{
  ◌≡◌, refl, ap, sym, ◌∙◌, subst, ◌⊎◌, Bool, true, false, not, ◌||◌, any, Option, none, some, List,
  [], ◌∷◌, arith, Text, All, inl, inr,
}
use opsforge.Svc.{Properties, property}
use opsforge.Svc.Limits.{Fraction, less, limit_amount, amounts_of, finite_of, with_amount}
use opsforge.Svc.Limits.Order.{Picks}

-- The amount is recognized, and it has no limit or a limit that passes.
abbrev pub within : (Fraction → Bool) → Option (Option Fraction) → Bool
within test none = false
within test (some none) = true
within test (some (some amount)) = test amount

-- The limit of the levels is that of this one: no level has a smaller one, and the levels before it
-- have larger ones.
abbrev pub IsTightest : Text → Fraction → Properties → List Properties → Type 0
IsTightest name f level [] = ⊥
IsTightest name f level (l ∷ levels) =
    ((level ≡ l)
      × (limit_amount name (property name l) ≡ some (some f))
      × All (λ m. within (λ g. not (less g f)) (limit_amount name (property name m)) ≡ true) levels)
    ⊎ ((within (less f) (limit_amount name (property name l)) ≡ true)
        × IsTightest name f level levels)

-- What the amounts of a level and of those behind it come from.
with_amount_lem :
    (level : Properties) (a : Option (Option Fraction))
    (o : Option (List (Option Fraction × Properties))) (all : List (Option Fraction × Properties))
    → with_amount level a o ≡ some all
    → (amount : Option Fraction) × (amounts : List (Option Fraction × Properties)) × (a
        ≡ some amount)
      × (o ≡ some amounts)
      × ((amount, level) ∷ amounts ≡ all)
with_amount_lem level none o all h = absurd (ground arith)
with_amount_lem level (some amount) none all h = absurd (ground arith)
with_amount_lem level (some amount) (some amounts) all h = (amount, amounts, refl, refl, cc)

-- The amounts that are not below one, by level.
within_of_above :
    (name : Text) (f : Fraction) (levels : List Properties)
    (amounts : List (Option Fraction × Properties))
    → amounts_of name levels ≡ some amounts
    → All (λ y. less (y.0) f ≡ false) (finite_of amounts)
    → All (λ m. within (λ g. not (less g f)) (limit_amount name (property name m)) ≡ true) levels
unfolding amounts_of finite_of
within_of_above name f [] amounts h above = tt
within_of_above name f (l ∷ levels) amounts h above =
    let (amount, rest, ea, eo, e) =
      with_amount_lem l (limit_amount name (property name l)) (amounts_of name levels) amounts h in
    split amount rest ea (λ a. within_of_above name f levels rest eo a)
      (subst (λ a. All (λ y. less (y.0) f ≡ false) (finite_of a)) (sym e) above)
  where
    split :
        (amount : Option Fraction) (rest : List (Option Fraction × Properties))
        → limit_amount name (property name l) ≡ some amount
        → (All (λ y. less (y.0) f ≡ false) (finite_of rest)
            → All
                (λ m. within (λ g. not (less g f)) (limit_amount name (property name m)) ≡ true)
                levels)
        → All (λ y. less (y.0) f ≡ false) (finite_of ((amount, l) ∷ rest))
        → All
            (λ m. within (λ g. not (less g f)) (limit_amount name (property name m)) ≡ true)
            (l ∷ levels)
    split none rest ea above_rest a = (ap (within (λ g. not (less g f))) ea, above_rest a)
    split (some g) rest ea above_rest (b, a) =
        (ap (within (λ h. not (less h f))) ea ∙ ap not b, above_rest a)

pub finite_of-IsTightest :
    (name : Text) (r : Fraction × Properties) (levels : List Properties)
    (amounts : List (Option Fraction × Properties))
    → amounts_of name levels ≡ some amounts
    → Picks r (finite_of amounts)
    → IsTightest name (r.0) (r.1) levels
unfolding amounts_of finite_of
finite_of-IsTightest name r [] amounts h picks = absurd (none_picked amounts h picks)
  where
    none_picked :
        (amounts : List (Option Fraction × Properties))
        → ◌≡◌ {A = Option (List (Option Fraction × Properties))} (some []) (some amounts)
        → ¬ Picks r (finite_of amounts)
    none_picked [] h picks = picks
    none_picked (a ∷ amounts) h picks = absurd (ground arith)
finite_of-IsTightest name r (l ∷ levels) amounts h picks =
    let (amount, rest, ea, eo, e) =
      with_amount_lem l (limit_amount name (property name l)) (amounts_of name levels) amounts h in
    split amount rest ea (λ p. finite_of-IsTightest name r levels rest eo p)
      (within_of_above name (r.0) levels rest eo) (subst (λ a. Picks r (finite_of a)) (sym e) picks)
  where
    split :
        (amount : Option Fraction) (rest : List (Option Fraction × Properties))
        → limit_amount name (property name l) ≡ some amount
        → (Picks r (finite_of rest) → IsTightest name (r.0) (r.1) levels)
        → (All (λ y. less (y.0) (r.0) ≡ false) (finite_of rest)
            → All
                (λ m. within (λ g. not (less g (r.0))) (limit_amount name (property name m)) ≡ true)
                levels)
        → Picks r (finite_of ((amount, l) ∷ rest))
        → IsTightest name (r.0) (r.1) (l ∷ levels)
    split none rest ea picked above_rest p = inr (ap (within (less (r.0))) ea, picked p)
    split (some g) rest ea picked above_rest (inl (same, above)) =
        inl (ap (λ x. x.1) same, ea ∙ ap (λ x. some (some (x.0))) (sym same), above_rest above)
    split (some g) rest ea picked above_rest (inr (low, p)) =
        inr (ap (within (less (r.0))) ea ∙ low, picked p)

-- Every level without limit, where none is finite.
pub unlimited_of_empty :
    (name : Text) (levels : List Properties) (amounts : List (Option Fraction × Properties))
    → amounts_of name levels ≡ some amounts
    → finite_of amounts ≡ []
    → All (λ l. limit_amount name (property name l) ≡ some none) levels
unfolding amounts_of finite_of
unlimited_of_empty name [] amounts h e = tt
unlimited_of_empty name (l ∷ levels) amounts h e =
    let (amount, rest, ea, eo, same) =
      with_amount_lem l (limit_amount name (property name l)) (amounts_of name levels) amounts h in
    split amount rest ea (unlimited_of_empty name levels rest eo) (ap finite_of same ∙ e)
  where
    split :
        (amount : Option Fraction) (rest : List (Option Fraction × Properties))
        → limit_amount name (property name l) ≡ some amount
        → (finite_of rest ≡ [] → All (λ l. limit_amount name (property name l) ≡ some none) levels)
        → finite_of ((amount, l) ∷ rest) ≡ []
        → All (λ l. limit_amount name (property name l) ≡ some none) (l ∷ levels)
    split none rest ea free f = (ea, free f)
    split (some g) rest ea free f = absurd (ground arith)

-- A level is not recognized, where there are no amounts.
pub unknown_of_none :
    (name : Text) (levels : List Properties)
    → amounts_of name levels ≡ none
    → any (λ l. not (within (λ g. true) (limit_amount name (property name l)))) levels ≡ true
unfolding amounts_of finite_of
unknown_of_none name [] h = absurd (ground arith)
unknown_of_none name (l ∷ levels) h =
    split (limit_amount name (property name l)) (amounts_of name levels) h
      (unknown_of_none name levels)
  where
    split :
        (a : Option (Option Fraction)) (o : Option (List (Option Fraction × Properties)))
        → with_amount l a o ≡ none
        → (o ≡ none
            → any (λ l. not (within (λ g. true) (limit_amount name (property name l)))) levels
              ≡ true)
        → (not (within (λ g. true) a)
            || any (λ l. not (within (λ g. true) (limit_amount name (property name l)))) levels)
          ≡ true
    split none o h rest = refl
    split (some none) none h rest = rest refl
    split (some (some f)) none h rest = rest refl
    split (some a) (some amounts) h rest = absurd (ground arith)
