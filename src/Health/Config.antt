-- ===== src/Health/Config.antt =====
-- The reading of one check of a configuration document in healthctl.py: `_parse_*`,
-- `_common_check_fields` and `CHECK_TYPES`. What Python's library decides is in `System`.
pub mod Checks
pub mod Document
use opsforge.Prelude.{
  ℕ, zero, suc, Bool, true, false, ◌&&◌, ◌||◌, not, Option, none, some, List, [], ◌∷◌, ◌++◌, Text,
  lit, ◌==◌, contains, decimal, length, ltb, leb, eqb, between, any, all, get_or, keep,
  if◌then◌else◌,
}
use opsforge.Result.{Result, value, error, ◌>>=◌}
use opsforge.Net.Host.{HostError, Kind, ipv4, ipv6, hostname, parse_host}
use opsforge.Units.{UnitName, UnitNameError, unit, invalid, normalize_service_name}
use opsforge.Health.Json.{
  Json, null, boolean, natural, below_zero, real, string, array, object, Items, Fields, elements,
  get, keys,
}
use opsforge.Health.Types.{
  Severity, OptionValue, number, text, Probe, disk_free, tcp_connect, generic, HealthCheck,
  tcp_target,
}

-- `urllib.parse.urlsplit` with `parsed.port`.
pub record Url : Type 0 where
  pub scheme : Text
  pub hostname : Option Text
  pub port : Option ℕ
  pub has_credentials : Bool
  pub fragment : Text
  pub query : Text

-- Floats, character tables, and library functions.
pub record System (F : Type 0) : Type 0 where
  pub float : ℕ → F
  pub tenth : F
  pub at_most : F → F → Bool
  pub category : ℕ → Text
  pub is_space : ℕ → Bool
  pub parse_ipv4 : Text → Option Text
  pub parse_ipv6 : Text → Option Text
  -- nothing where `urlsplit` or `port` raises
  pub urlsplit : Text → Option Url
  pub lower : Text → Text
  -- `os.fsencode` takes the path
  pub encodable : Text → Bool

-- The `ConfigError`s, with the field.
pub data ConfigError : Type 0 where
  not_an_object unsupported_version checks_not_an_array no_checks too_many_checks : ConfigError
  bad_workers invalid_name bad_severity bad_group bad_dependencies : ConfigError
  repeated_dependency unsupported_type bad_url bad_status bad_thresholds bad_pid : ConfigError
  bad_bounds bad_digest empty_path nul_in_path path_not_encodable : ConfigError
  unsupported_field not_a_string bad_number : (name : Text) → ConfigError
  duplicate_name : (name : Text) → ConfigError
  bad_host : HostError → ConfigError
  bad_service : UnitNameError → ConfigError
  invalid_dependency : (check dependency : Text) → ConfigError
  circular_dependency : ConfigError

abbrev pub Parsed : Type 0 → Type 0
Parsed A = Result ConfigError A

abbrev pub max_checks : ℕ
max_checks = 32

abbrev pub max_retries : ℕ
max_retries = 3

abbrev pub max_file_bytes : ℕ
max_file_bytes = 9223372036854775807

abbrev pub max_pid : ℕ
max_pid = 2147483647

abbrev pub max_certificate_days : ℕ
max_certificate_days = 36500

abbrev pub is_name_character : ℕ → Bool
is_name_character c =
    between 48 57 c || between 65 90 c || between 97 122 c || eqb c 46 || eqb c 95 || eqb c 45

-- `CHECK_NAME_RE`
pub is_check_name : Text → Bool
is_check_name [] = false
is_check_name (c ∷ name) =
    (between 48 57 c || between 65 90 c || between 97 122 c)
    && (leb (length name) 63 && all is_name_character name)

pub parse_check_name : Text → Parsed Text
parse_check_name name = if is_check_name name then value name else error invalid_name

-- Python's order of strings.
before : Text → Text → Bool
before s [] = false
before [] (d ∷ t) = true
before (c ∷ s) (d ∷ t) = ltb c d || (eqb c d && before s t)

-- `sorted(...)[0]`
least : Text → List Text → Text
least k [] = k
least k (l ∷ keys) = if before l k then least l keys else least k keys

first_unknown : List Text → Option Text
first_unknown [] = none
first_unknown (k ∷ keys) = some (least k keys)

check_names : List Text → Parsed (List Text)
check_names [] = value []
check_names (n ∷ names) = do
  name ← parse_check_name n
  rest ← check_names names
  value (name ∷ rest)

repeats : List Text → Bool
repeats [] = false
repeats (n ∷ names) = contains names n || repeats names

dependency_names : Option (List Text) → Parsed (List Text)
dependency_names none = error bad_dependencies
dependency_names (some strings) = do
  names ← check_names strings
  if repeats names then error repeated_dependency else value names

-- What all types of checks have.
pub record Common : Type 0 where
  pub severity : Severity
  pub group : Text
  pub profile : Text
  pub depends_on : List Text
  pub retries : ℕ

module _ {F : Type 0} where
  pub expect_mapping : Json F → Parsed (Fields F)
  expect_mapping (object fields) = value fields
  expect_mapping _ = error not_an_object

  pub reject_unknown_keys : Fields F → List Text → Parsed Unit
  reject_unknown_keys fields allowed =
      elim (first_unknown (keep (λ k. not (contains allowed k)) (keys fields))) [
        | none ↦ value tt
        | some k ↦ error (unsupported_field k)
      ]

  string_of : Text → Option (Json F) → Parsed Text
  string_of key (some (string s)) = value s
  string_of key _ = error (not_a_string key)

  pub require_string : Fields F → Text → Parsed Text
  require_string fields key = string_of key (get key fields)

  -- `mapping.get(key, default)`
  abbrev pub get_default : Text → Fields F → Json F → Json F
  get_default key fields d = get_or (get key fields) d

  abbrev pub get_null : Text → Fields F → Json F
  get_null key fields = get_default key fields null

  pub nonnegative_int : Text → ℕ → Json F → Parsed ℕ
  nonnegative_int name maximum (natural n) =
      if leb n maximum then value n else error (bad_number name)
  nonnegative_int name maximum _ = error (bad_number name)

  pub parse_port : Json F → Parsed ℕ
  parse_port (natural n) = if between 1 65535 n then value n else error (bad_number (lit "port"))
  parse_port _ = error (bad_number (lit "port"))

  strings_of : List (Json F) → Option (List Text)
  strings_of [] = some []
  strings_of (string s ∷ items) = elim (strings_of items) [
    | some rest ↦ some (s ∷ rest)
    | none ↦ none
  ]
  strings_of (_ ∷ items) = none

  pub dependencies_of : Json F → Parsed (List Text)
  dependencies_of (array items) =
      if ltb max_checks (length (elements items))
      then error bad_dependencies
      else dependency_names (strings_of (elements items))
  dependencies_of _ = error bad_dependencies

  -- `SEVERITY_NAMES`
  pub severity_of : Json F → Parsed Severity
  severity_of (string s) =
      if s == lit "WARN" || s == lit "WARNING"
      then value Severity.warning
      else if s == lit "CRITICAL"
      then value Severity.critical
      else error bad_severity
  severity_of _ = error bad_severity

  group_names : Json F → Json F → Parsed (Text × Text)
  group_names (string group) (string profile) = do
    g ← parse_check_name group
    p ← parse_check_name profile
    value (g, p)
  group_names _ _ = error bad_group

  pub common_check_fields : Fields F → Parsed Common
  common_check_fields check = do
    severity ← severity_of (get_default (lit "severity") check (string (lit "CRITICAL")))
    names ←
        group_names (get_default (lit "group") check (string (lit "default")))
          (get_default (lit "profile") check (string (lit "default")))
    depends_on ← dependencies_of (get_default (lit "depends_on") check (array Items.nil))
    retries ←
        nonnegative_int (lit "retries") max_retries (get_default (lit "retries") check (natural 0))
    value (record {
      severity = severity;
      group = names.0;
      profile = names.1;
      depends_on = depends_on;
      retries = retries;
    })

  pub make_check : Text → Text → Common → Probe F → HealthCheck F
  make_check name type common probe = record {
    name = name;
    type = type;
    probe = probe;
    severity = common.severity;
    group = common.group;
    profile = common.profile;
    depends_on = common.depends_on;
    retries = common.retries;
  }
