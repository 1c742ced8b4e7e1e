-- ===== src/Svc/Limits.antt =====
-- The limits of svcdoctor.py: `timespan_microseconds`, `limit_amount` and `effective_limits`.
pub mod Order
pub mod Levels
pub mod Tightest
mod Tests
use opsforge.Prelude.{
  ℕ, zero, suc, ◌+◌, ◌*◌, ◌^◌, Bool, true, false, ◌&&◌, not, Option, none, some, List, [], ◌∷◌,
  ◌++◌, Text, lit, ◌==◌, split_on, length, eqb, ltb, between, if◌then◌else◌,
}
use opsforge.Prelude.Dict.{Dict, lookup}
use opsforge.Prelude.Decimal.{is_decimal, number}
use opsforge.Result.{Result, value, error, ◌>>=◌}
use opsforge.Svc.{Properties, property}
use opsforge.Svc.Chain.{limit_properties}

-- `Fraction`; the denominators are powers of ten here, 10 ^ places.
pub record Fraction : Type 0 where
  pub numerator : ℕ
  pub places : ℕ

-- `a < b` of fractions.
unfoldable pub less : Fraction → Fraction → Bool
less a b = ltb (a.numerator * 10 ^ b.places) (b.numerator * 10 ^ a.places)

unfoldable pub plus : Fraction → Fraction → Fraction
plus a b = record {
  numerator = a.numerator * 10 ^ b.places + b.numerator * 10 ^ a.places;
  places = a.places + b.places;
}

-- `[0-9]*` and the rest.
unfoldable pub take_digits : Text → Text × Text
take_digits [] = ([], [])
take_digits (c ∷ text) =
    let rest = take_digits text in if between 48 57 c then (c ∷ rest.0, rest.1) else ([], c ∷ text)

-- `TIMESPAN_MICROSECONDS`
unfoldable pub microseconds : Text → Option ℕ
microseconds name =
    if name == lit "us"
    then some 1
    else if name == lit "ms"
    then some 1000
    else if name == lit "s"
    then some 1000000
    else if name == lit "min"
    then some 60000000
    else if name == lit "h"
    then some 3600000000
    else none

abbrev pub scaled : Fraction → Option ℕ → Option Fraction
scaled a none = none
scaled a (some n) = some (record { numerator = a.numerator * n; places = a.places })

-- `(?:\.[0-9]+)?` and the name of a unit, behind `[0-9]+`.
unfoldable pub amount_of : (whole rest : Text) → Option Fraction
unfolding take_digits microseconds
amount_of [] rest = none
amount_of (d ∷ whole) [] = none
amount_of (d ∷ whole) (c ∷ rest) =
    let part = take_digits rest in
    if eqb c 46
    then (elim (part.0) [
      | [] ↦ none
      | e ∷ digits ↦
          scaled
            (record { numerator = number (d ∷ whole ++ e ∷ digits); places = length (e ∷ digits) })
            (microseconds (part.1))
    ])
    else scaled (record { numerator = number (d ∷ whole); places = 0 }) (microseconds (c ∷ rest))

-- `TIMESPAN_TOKEN.fullmatch`, and what a token stands for.
unfoldable pub token_amount : Text → Option Fraction
unfolding amount_of take_digits
token_amount text = let digits = take_digits text in amount_of (digits.0) (digits.1)

-- The loop; none is a `ValueError`.
unfoldable pub add_tokens : Fraction → List Text → Option Fraction
unfolding token_amount plus
add_tokens total [] = some total
add_tokens total (text ∷ texts) = elim (token_amount text) [
  | none ↦ none
  | some amount ↦ add_tokens (plus total amount) texts
]

unfoldable pub timespan_microseconds : Text → Option Fraction
unfolding add_tokens
timespan_microseconds text = add_tokens (record { numerator = 0; places = 0 }) (split_on 32 text)

abbrev pub finite : Option Fraction → Option (Option Fraction)
finite none = none
finite (some amount) = some (some amount)

-- No value is a `ValueError`, and `some none` is the `None` of no limit.
unfoldable pub limit_amount : (name text : Text) → Option (Option Fraction)
unfolding timespan_microseconds
limit_amount name text =
    if text == lit "infinity"
    then some none
    else if name == lit "CPUQuotaPerSecUSec"
    then finite (timespan_microseconds text)
    else if is_decimal text
    then some (some (record { numerator = number text; places = 0 }))
    else none

abbrev pub with_amount :
    Properties
    → Option (Option Fraction)
    → Option (List (Option Fraction × Properties))
    → Option (List (Option Fraction × Properties))
with_amount level (some amount) (some amounts) = some ((amount, level) ∷ amounts)
with_amount level _ _ = none

unfoldable pub amounts_of : Text → List Properties → Option (List (Option Fraction × Properties))
unfolding limit_amount
amounts_of name [] = some []
amounts_of name (level ∷ levels) =
    with_amount level (limit_amount name (property name level)) (amounts_of name levels)

unfoldable pub finite_of : List (Option Fraction × Properties) → List (Fraction × Properties)
finite_of [] = []
finite_of ((none, level) ∷ amounts) = finite_of amounts
finite_of ((some amount, level) ∷ amounts) = (amount, level) ∷ finite_of amounts

-- `min(finite, key=...)`: the first of the smallest ones.
unfoldable pub min_from :
    Fraction × Properties → List (Fraction × Properties) → Fraction × Properties
unfolding less
min_from best [] = best
min_from best (item ∷ items) = min_from (if less (item.0) (best.0) then item else best) items

pub data Limit : Type 0 where
  unknown unlimited : Limit
  limited : (text source : Text) → Limit

pub data KeyError : Type 0 where
  key_error : Text → KeyError

-- `level[name]`
abbrev pub item_of : Text → Option Text → Result KeyError Text
item_of name none = error (key_error name)
item_of name (some text) = value text

abbrev pub limit_at : Text → Properties → Result KeyError Limit
limit_at name level = do
  text ← item_of name (lookup name level)
  source ← item_of (lit "Id") (lookup (lit "Id") level)
  value (limited text source)

abbrev pub tightest : Text → List (Fraction × Properties) → Result KeyError Limit
tightest name [] = value unlimited
tightest name (item ∷ items) = limit_at name (min_from item items).1

abbrev pub limit_from : Text → Option (List (Option Fraction × Properties)) → Result KeyError Limit
limit_from name none = value unknown
limit_from name (some amounts) = tightest name (finite_of amounts)

-- The body of the loop.
unfoldable pub effective_limit : Text → List Properties → Result KeyError Limit
unfolding amounts_of finite_of min_from
effective_limit name levels = limit_from name (amounts_of name levels)

unfoldable pub limits_of : List Text → List Properties → Result KeyError (Dict Limit)
unfolding effective_limit
limits_of [] levels = value []
limits_of (name ∷ names) levels = do
  limit ← effective_limit name levels
  limits ← limits_of names levels
  value ((name, limit) ∷ limits)

unfoldable pub effective_limits : List Properties → Result KeyError (Dict Limit)
unfolding limits_of
effective_limits levels = limits_of limit_properties levels
