-- ===== src/Svc/Limits/Tightest.antt =====
-- Which level `effective_limits` of svcdoctor.py takes a limit from.
use opsforge.Prelude.{
  ◌≡◌, refl, ap, sym, ◌∙◌, subst, true, split_on, not, any, Option, none, some, List, [], ◌∷◌,
  arith, Text, lit, ◌==◌, All, Bool-cases, Option-cases, inl, inr, get_or,
}
use opsforge.Prelude.Dict.{lookup}
use opsforge.Result.{value}
use opsforge.Prelude.Decimal.{is_decimal}
use opsforge.Svc.{Properties, property}
use opsforge.Svc.Limits.{
  Fraction, limit_amount, amounts_of, finite_of, min_from, Limit, unknown, unlimited, limited,
  effective_limit, limit_from, timespan_microseconds,
}
use opsforge.Svc.Limits.Order.{Picks, min_from-Picks}
use opsforge.Svc.Limits.Levels.{
  within, IsTightest, finite_of-IsTightest, unlimited_of_empty, unknown_of_none,
}

abbrev pub HasId : Properties → Type 0
HasId level = (source : Text) × (lookup (lit "Id") level ≡ some source)

no_amount : (name : Text) → limit_amount name [] ≡ none
unfolding limit_amount ◌==◌ timespan_microseconds is_decimal split_on
no_amount name = elim (Bool-cases (name == lit "CPUQuotaPerSecUSec")) [
  | inl cpu ↦ rw cpu refl
  | inr other ↦ rw other refl
]

-- A limit stands in its level.
text_of_amount :
    (name : Text) (f : Fraction) (level : Properties)
    → limit_amount name (property name level) ≡ some (some f)
    → (text : Text) × (lookup name level ≡ some text)
text_of_amount name f level h = elim (Option-cases (lookup name level)) [
  | inl absent ↦
      let none_there : limit_amount name (property name level) ≡ none =
        ap (λ o. limit_amount name (get_or o [])) absent ∙ no_amount name in
      absurd (clash (sym none_there ∙ h))
  | inr found ↦ found
]
  where
    clash : ¬ ◌≡◌ {A = Option (Option Fraction)} none (some (some f))
    clash e = absurd (ground arith)

tightest-IsNamed :
    (name : Text) (f : Fraction) (level : Properties) (levels : List Properties)
    → All HasId levels
    → IsTightest name f level levels
    → HasId level × ((text : Text) × (lookup name level ≡ some text))
tightest-IsNamed name f level [] ids top = absurd top
tightest-IsNamed name f level (l ∷ levels) (id, ids) (inl (e, a, _)) = (
  subst HasId (sym e) id,
  text_of_amount name f level (ap (λ m. limit_amount name (property name m)) e ∙ a),
)
tightest-IsNamed name f level (l ∷ levels) (id, ids) (inr (_, rest)) =
    tightest-IsNamed name f level levels ids rest

-- What each limit says: a level is not recognized; or no level has a limit; or the limit and its
-- source are those of the tightest level.
abbrev pub Says : Text → List Properties → Limit → Type 0
Says name levels unknown =
    any (λ l. not (within (λ g. true) (limit_amount name (property name l)))) levels ≡ true
Says name levels unlimited = All (λ l. limit_amount name (property name l) ≡ some none) levels
Says name levels (limited text source) =
    (f : Fraction) × (level : Properties) × IsTightest name f level levels
    × (lookup name level ≡ some text)
    × (lookup (lit "Id") level ≡ some source)

-- `effective_limits` has a result for every property where all levels have an `Id`, with no
-- `KeyError`: the limit is unknown only where the value of some level is not recognized, it is
-- infinite only where no level has a limit, and otherwise it is the value and the `Id` of the level
-- such that no level has a smaller amount and all levels before it have larger ones.
pub effective_limit-Says :
    (name : Text) (levels : List Properties)
    → All HasId levels
    → (limit : Limit) × (effective_limit name levels ≡ value limit) × Says name levels limit
unfolding effective_limit
effective_limit-Says name levels ids = elim (Option-cases (amounts_of name levels)) [
  | inl absent ↦ (unknown, rw absent refl, unknown_of_none name levels absent)
  | inr (amounts, e) ↦ taken amounts (finite_of amounts) e refl
]
  where
    taken :
        (amounts : List (Option Fraction × Properties)) (items : List (Fraction × Properties))
        → amounts_of name levels ≡ some amounts
        → finite_of amounts ≡ items
        → (limit : Limit) × (limit_from name (amounts_of name levels) ≡ value limit)
          × Says name levels limit
    taken amounts [] e f = (unlimited, rw (e, f) refl, unlimited_of_empty name levels amounts e f)
    taken amounts (item ∷ items) e f =
        let r = min_from item items in
        let top =
          finite_of-IsTightest name r levels amounts e
            (subst (Picks r) (sym f) (min_from-Picks item items)) in
        let ((source, i), (text, t)) = tightest-IsNamed name (r.0) (r.1) levels ids top in
        (limited text source, rw (e, f, t, i) refl, (r.0, r.1, top, t, i))
