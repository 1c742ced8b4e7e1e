-- ===== src/Svc/Tests.antt =====
-- Runs of svcdoctor.py, and its theorems at concrete data.
use opsforge.Prelude.Dict.{keys, lookup, put}
use opsforge.Prelude.Splitting.{partition, rpartition, words_from}
use opsforge.Prelude.{
  contains, split_on, ◌≡◌, refl, ◌↔◌, false, none, some, List, [], ◌∷◌, Text, lit, ◌==◌, eqb,
}
use opsforge.Status.{exit_ok, exit_failure}
use opsforge.Result.{value, error}
use opsforge.Svc.{
  Properties, malformed, inconsistent, missing_properties, parse_properties, validate_properties,
  dependency_names, find_failed_dependencies, slice_ancestors, incomplete, assess_service,
}
use opsforge.Svc.Properties.{IsRecord, print_record, parse_properties-print_record}
use opsforge.Svc.Slices.{IsChain, slice_ancestors-IsChain}
use opsforge.Svc.Assessed.{IsSettled, IsExplained, assess_service_ok_iff}

-- A unit that stopped after success, which requires another one.
abbrev stopped : Properties
stopped =
    (lit "Id", lit "a.service")
    ∷ (lit "ActiveState", lit "inactive")
    ∷ (lit "Requires", lit "b.service")
    ∷ []

abbrev allowed : List Text
allowed = lit "Id" ∷ lit "ActiveState" ∷ lit "Requires" ∷ []

stopped-IsRecord : IsRecord allowed [] stopped
unfolding contains ◌==◌ keys
stopped-IsRecord = (
  refl,
  refl,
  refl,
  refl,
  refl,
  (refl, refl, refl, refl, refl, (refl, refl, refl, refl, refl, tt)),
)

parse_properties-print_record_example :
    parse_properties allowed (print_record stopped) ≡ value stopped
parse_properties-print_record_example =
    parse_properties-print_record allowed (lit "Id", lit "a.service")
      ((lit "ActiveState", lit "inactive") ∷ (lit "Requires", lit "b.service") ∷ [])
      stopped-IsRecord

-- A second record and a repeated name are refused.
second_record : parse_properties allowed (lit "Id=a\n\nId=b") ≡ error malformed
unfolding parse_properties split_on partition contains ◌==◌ keys put
second_record = refl

repeated_name : parse_properties allowed (lit "Id=a\nId=b") ≡ error malformed
unfolding parse_properties split_on partition contains ◌==◌ keys put
repeated_name = refl

missing_load : validate_properties stopped ≡ error (missing_properties (lit "LoadState" ∷ []))
unfolding validate_properties ◌==◌ lookup
missing_load = refl

one_dependency : dependency_names (λ c. eqb c 32) stopped ≡ (lit "b.service" ∷ [], false)
unfolding dependency_names words_from lookup ◌==◌ contains
one_dependency = refl

failed_dependency :
    find_failed_dependencies (lit "b.service" ∷ []) 0 (lit "failed" ∷ [])
    ≡ value (lit "b.service" ∷ [])
unfolding find_failed_dependencies contains ◌==◌
failed_dependency = refl

inconsistent_status :
    find_failed_dependencies (lit "b.service" ∷ []) 1 (lit "failed" ∷ []) ≡ error inconsistent
unfolding find_failed_dependencies contains ◌==◌
inconsistent_status = refl

nested_slices :
    slice_ancestors (lit "a-b.slice") ≡ some (lit "a-b.slice" ∷ lit "a.slice" ∷ lit "-.slice" ∷ [])
unfolding slice_ancestors ◌==◌ rpartition
nested_slices = refl

slice_ancestors-IsChain_example :
    (names : List Text) × (slice_ancestors (lit "a-b.slice") ≡ some names)
    × IsChain (lit "a-b.slice") names
slice_ancestors-IsChain_example = slice_ancestors-IsChain (lit "a-b.slice")

assess_service_ok_iff_example :
    ((assess_service stopped (some []) false).1 ≡ exit_ok)
    ↔ (IsSettled stopped × IsExplained stopped (some []) false)
assess_service_ok_iff_example = assess_service_ok_iff stopped (some []) false

unknown_dependencies : assess_service stopped none false ≡ (incomplete, exit_failure)
unfolding assess_service ◌==◌ lookup
unknown_dependencies = refl
