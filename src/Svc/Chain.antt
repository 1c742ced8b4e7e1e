-- ===== src/Svc/Chain.antt =====
-- The slices above a unit in svcdoctor.py: `collect_slice_chain`. What systemctl prints for some
-- units, or the error, is an argument.
use opsforge.Prelude.{
  Bool, true, false, ◌&&◌, Option, none, some, List, [], ◌∷◌, ◌++◌, Text, lit, ◌==◌, eqb,
  if◌then◌else◌,
}
use opsforge.Prelude.Dict.{lookup}
use opsforge.Result.{Result, value, error, ◌>>=◌}
use opsforge.Units.{ends_with}
use opsforge.Svc.{
  SvcError, malformed_name, malformed_slice, Properties, parse_properties, slice_ancestors,
}

-- `SLICE_PROPERTIES`, `LIMIT_PROPERTIES`
abbrev pub limit_properties : List Text
limit_properties =
    lit "MemoryMax" ∷ lit "MemoryHigh" ∷ lit "CPUQuotaPerSecUSec" ∷ lit "TasksMax" ∷ []

abbrev pub slice_properties : List Text
slice_properties = lit "Id" ∷ lit "Slice" ∷ limit_properties

-- `text.split("\n\n")`, behind what was read of the record.
unfoldable pub split_records : (begun text : Text) → List Text
split_records begun [] = begun ∷ []
split_records begun (c ∷ []) = (begun ++ c ∷ []) ∷ []
split_records begun (c ∷ d ∷ text) = elim (eqb c 10 && eqb d 10) [
  | true ↦ begun ∷ split_records [] text
  | false ↦ split_records (begun ++ c ∷ []) (d ∷ text)
]

unfoldable pub parse_records : List Text → Result SvcError (List Properties)
parse_records [] = value []
parse_records (record_text ∷ records) = do
  level ← parse_properties slice_properties record_text
  levels ← parse_records records
  value (level ∷ levels)

abbrev pub is_value : Option Text → Text → Bool
is_value none expected = false
is_value (some text) expected = text == expected

-- The levels have the names as `Id`, and the next name, or none, as `Slice`.
unfoldable pub fits : List Text → List Properties → Bool
fits [] [] = true
fits (name ∷ []) (level ∷ levels) =
    is_value (lookup (lit "Id") level) name
    && is_value (lookup (lit "Slice") level) []
    && fits [] levels
fits (name ∷ next ∷ names) (level ∷ levels) =
    is_value (lookup (lit "Id") level) name
    && is_value (lookup (lit "Slice") level) next
    && fits (next ∷ names) levels
fits _ _ = false

unfoldable pub checked_chain :
    (show : List Text → Result SvcError Text)
    → Option (List Text)
    → Result SvcError (List Properties)
unfolding parse_records
checked_chain show none = error malformed_name
checked_chain show (some names) = do
  output ← show names
  levels ← parse_records (split_records [] output)
  if fits names levels then value levels else error malformed_slice

unfoldable pub collect_slice_chain :
    (show : List Text → Result SvcError Text) → Text → Result SvcError (List Properties)
unfolding checked_chain
collect_slice_chain show [] = value []
collect_slice_chain show (c ∷ name) =
    if ends_with (c ∷ name) (lit ".slice")
    then checked_chain show (slice_ancestors (c ∷ name))
    else error malformed_name
