-- ===== src/Health/Config/Document.antt =====
-- `parse_config_document` of healthctl.py.
pub mod Known
pub mod Accepted
mod Tests
use opsforge.Prelude.{
  ℕ, zero, suc, Bool, true, false, ◌&&◌, ◌||◌, not, Option, none, some, List, [], ◌∷◌, ◌++◌, Text,
  lit, ◌==◌, contains, length, ltb, eqb, if◌then◌else◌,
}
use opsforge.Prelude.Dict
use opsforge.Result.{Result, value, error, ◌>>=◌}
use opsforge.Health.Json.{Json, natural, array, Fields, get, elements}
use opsforge.Health.Types.{HealthCheck, HealthConfig}
use opsforge.Health.Config.{
  System, ConfigError, Parsed, Common, expect_mapping, reject_unknown_keys, require_string,
  get_default, nonnegative_int, parse_check_name, common_check_fields, make_check, max_checks,
  unsupported_version, checks_not_an_array, no_checks, too_many_checks, bad_workers, duplicate_name,
  unsupported_type,
}
use opsforge.Health.Config.Checks.{CheckType, check_types}
use opsforge.Health.Depends
use opsforge.Health.Depends.{DependencyError, validate_dependencies}

abbrev common_fields : List Text
common_fields = lit "severity" ∷ lit "group" ∷ lit "profile" ∷ lit "depends_on" ∷ lit "retries" ∷ []

fresh_name : List Text → Text → Parsed Text
fresh_name seen name = if contains seen name then error (duplicate_name name) else value name

abbrev max_workers_allowed : ℕ
max_workers_allowed = 8

pub positive_workers : ℕ → Parsed ℕ
positive_workers n = if ltb n 1 then error bad_workers else value n

bounded_checks : {F : Type 0} → List (Json F) → Parsed (List (Json F))
bounded_checks [] = error no_checks
bounded_checks (c ∷ checks) =
    if ltb max_checks (length (c ∷ checks)) then error too_many_checks else value (c ∷ checks)

checks_of : {F : Type 0} → Option (Json F) → Parsed (List (Json F))
checks_of (some (array items)) = bounded_checks (elements items)
checks_of _ = error checks_not_an_array

version_one : {F : Type 0} → Option (Json F) → Parsed ℕ
version_one (some (natural n)) = if eqb n 1 then value n else error unsupported_version
version_one _ = error unsupported_version

-- The errors of `_validate_dependencies`; the last two do not occur.
config_error : DependencyError → ConfigError
config_error (Depends.invalid_dependency check dependency) =
    ConfigError.invalid_dependency check dependency
config_error _ = ConfigError.circular_dependency

validated : {F : Type 0} → HealthConfig F → Option DependencyError → Parsed (HealthConfig F)
validated config none = value config
validated config (some e) = error (config_error e)

module _ {F : Type 0} (system : System F) where
  abbrev spec_of : Text → Option (CheckType system) → Parsed (CheckType system)
  spec_of type none = error (unsupported_type)
  spec_of type (some spec) = value spec

  -- The loop body.
  pub parse_check : List Text → Json F → Parsed (HealthCheck F)
  parse_check seen raw_check = do
    check ← expect_mapping raw_check
    given ← require_string check (lit "name")
    valid ← parse_check_name given
    name ← fresh_name seen valid
    type ← require_string check (lit "type")
    common ← common_check_fields check
    spec ← spec_of type (Dict.lookup type (check_types system))
    known ← reject_unknown_keys check (lit "name" ∷ lit "type" ∷ spec.fields ++ common_fields)
    probe ← spec.parse check type
    value (make_check name type common probe)

  -- `seen` is `names`.
  pub parse_checks : List Text → List (Json F) → Parsed (List (HealthCheck F))
  parse_checks seen [] = value []
  parse_checks seen (raw_check ∷ raw_checks) = do
    check ← parse_check seen raw_check
    checks ← parse_checks (check.name ∷ seen) raw_checks
    value (check ∷ checks)

  -- `path` is `os.path.abspath` of the path.
  unfoldable pub parse_config_document : Json F → Text → Parsed (HealthConfig F)
  unfolding parse_checks parse_check validated positive_workers checks_of bounded_checks version_one
      fresh_name config_error
  parse_config_document document path = do
    root ← expect_mapping document
    known ← reject_unknown_keys root (lit "version" ∷ lit "checks" ∷ lit "max_workers" ∷ [])
    version ← version_one (get (lit "version") root)
    raw_checks ← checks_of (get (lit "checks") root)
    given ←
        nonnegative_int (lit "max_workers") max_workers_allowed
          (get_default (lit "max_workers") root (natural 4))
    max_workers ← positive_workers given
    checks ← parse_checks [] raw_checks
    validated (record { path = path; checks = checks; max_workers = max_workers })
        (validate_dependencies checks)
