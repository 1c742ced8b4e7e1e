-- ===== src/Health/Config/Checks.antt =====
-- The types of checks in healthctl.py: `_parse_disk_check` to `_parse_file_check`, `CHECK_TYPES`.
use opsforge.Prelude.{
  ℕ, Bool, false, ◌&&◌, ◌||◌, not, Option, none, some, List, [], ◌∷◌, ◌++◌, Text, lit, ◌==◌,
  decimal, length, ltb, leb, eqb, between, any, all, if◌then◌else◌,
}
use opsforge.Prelude.Dict.{Dict}
use opsforge.Result.{Result, value, error, ◌>>=◌}
use opsforge.Net.Host.{HostError, Kind, ipv4, ipv6, hostname, parse_host}
use opsforge.Units.{UnitName, unit, invalid, normalize_service_name}
use opsforge.Health.Json.{Json, natural, real, Fields}
use opsforge.Health.Types.{
  OptionValue, number, text, Probe, disk_free, tcp_connect, generic, tcp_target,
}
use opsforge.Health.Config.{
  Url, System, bad_number, bad_host, bad_service, bad_url, bad_status, bad_thresholds, bad_pid,
  bad_bounds, bad_digest, empty_path, nul_in_path, path_not_encodable, Parsed, require_string,
  get_default, get_null, nonnegative_int, parse_port, max_pid, max_file_bytes, max_certificate_days,
}

abbrev is_hex_digit : ℕ → Bool
is_hex_digit c = between 48 57 c || between 97 102 c

-- `URL_RE`: letters, digits and these marks.
abbrev url_marks : Text
url_marks = lit "-._~:/?#[]@!$&'()*+,;=%"

abbrev is_url_character : ℕ → Bool
is_url_character c = between 48 57 c || between 65 90 c || between 97 122 c || any (eqb c) url_marks

is_url : Text → Bool
is_url url = between 1 2048 (length url) && all is_url_character url

-- `not parsed.hostname`
host_of : Option Text → Option Text
host_of none = none
host_of (some []) = none
host_of (some host) = some host

is_zero_port : Option ℕ → Bool
is_zero_port none = false
is_zero_port (some port) = eqb port 0

kind_text : Kind → Text
kind_text ipv4 = lit "ipv4"
kind_text ipv6 = lit "ipv6"
kind_text hostname = lit "hostname"

module _ {F : Type 0} (system : System F) where
  abbrev in_range : F → F → F → Bool
  in_range low high x = system.at_most low x && system.at_most x high

  pub parse_percent : Json F → Parsed F
  parse_percent (natural n) =
      if leb n 100 then value (system.float n) else error (bad_number (lit "minimum_free_percent"))
  parse_percent (real x) =
      if in_range (system.float 0) (system.float 100) x
      then value x
      else error (bad_number (lit "minimum_free_percent"))
  parse_percent _ = error (bad_number (lit "minimum_free_percent"))

  -- From 0.1 through 5.0: an int from 1 through 5.
  pub parse_timeout : Json F → Parsed F
  parse_timeout (natural n) =
      if between 1 5 n then value (system.float n) else error (bad_number (lit "timeout_seconds"))
  parse_timeout (real x) =
      if in_range system.tenth (system.float 5) x
      then value x
      else error (bad_number (lit "timeout_seconds"))
  parse_timeout _ = error (bad_number (lit "timeout_seconds"))

  abbrev default_timeout : F
  default_timeout = system.float 1

  abbrev timeout_of : Fields F → Parsed F
  timeout_of check =
      parse_timeout (get_default (lit "timeout_seconds") check (real default_timeout))

  host_or_error : Result HostError (Text × Kind) → Parsed (Text × Kind)
  host_or_error (value host) = value host
  host_or_error (error e) = error (bad_host e)

  -- `parse_host` of healthctl.py
  pub parse_config_host : Text → Parsed (Text × Kind)
  parse_config_host host =
      host_or_error
        (parse_host system.category system.is_space system.parse_ipv4 system.parse_ipv6 host)

  valid_path : Text → Parsed Text
  valid_path path =
      if path == []
      then error empty_path
      else if any (eqb 0) path
      then error nul_in_path
      else if system.encodable path
      then value path
      else error path_not_encodable

  pub parse_path : Fields F → Parsed Text
  parse_path check = require_string check (lit "path") >>= valid_path

  pub parse_disk_check : Fields F → Text → Parsed (Probe F)
  parse_disk_check check type = do
    path ← parse_path check
    minimum ← parse_percent (get_null (lit "minimum_free_percent") check)
    value (disk_free path minimum)

  pub parse_tcp_check : Fields F → Text → Parsed (Probe F)
  parse_tcp_check check type = do
    given ← require_string check (lit "host")
    host ← parse_config_host given
    port ← parse_port (get_null (lit "port") check)
    timeout ← timeout_of check
    value (tcp_connect host.0 (kind_text host.1) port timeout)

  -- The host of an acceptable URL.
  pub url_host : Text → Option Url → Parsed Text
  url_host type none = error bad_url
  url_host type (some url) = elim (host_of url.hostname) [
    | none ↦ error bad_url
    | some host ↦
        if not (url.scheme == type)
          || (url.has_credentials
              || (is_zero_port url.port || not (url.fragment == [] && url.query == [])))
        then error bad_url
        else value host
  ]

  checked_url : Text → Text → Parsed Text
  checked_url type url = if is_url url then url_host type (system.urlsplit url) else error bad_url

  valid_status : ℕ → Parsed ℕ
  valid_status status = if ltb status 100 then error bad_status else value status

  pub parse_http_check : Fields F → Text → Parsed (Probe F)
  parse_http_check check type = do
    url ← require_string check (lit "url")
    host ← checked_url type url
    parsed ← parse_config_host host
    timeout ← timeout_of check
    given ←
        nonnegative_int (lit "expected_status") 599
          (get_default (lit "expected_status") check (natural 200))
    expected ← valid_status given
    value (generic url timeout ((lit "expected_status", number expected) ∷ []))

  pub parse_dns_check : Fields F → Text → Parsed (Probe F)
  parse_dns_check check type = do
    given ← require_string check (lit "host")
    host ← parse_config_host given
    value (generic host.0 default_timeout [])

  pub parse_certificate_check : Fields F → Text → Parsed (Probe F)
  parse_certificate_check check type = do
    given ← require_string check (lit "host")
    host ← parse_config_host given
    port ← parse_port (get_default (lit "port") check (natural 443))
    timeout ← timeout_of check
    warn ←
        nonnegative_int (lit "warn_days") max_certificate_days
          (get_default (lit "warn_days") check (natural 30))
    critical ←
        nonnegative_int (lit "critical_days") max_certificate_days
          (get_default (lit "critical_days") check (natural 7))
    if ltb warn critical
        then error bad_thresholds
        else value (
            generic (tcp_target host.0 (kind_text host.1) port) timeout (
              (lit "host", text host.0)
              ∷ (lit "port", number port)
              ∷ (lit "warn_days", number warn)
              ∷ (lit "critical_days", number critical)
              ∷ []))

  unfoldable pub parse_process_check : Fields F → Text → Parsed (Probe F)
  parse_process_check check type = do
    pid ← nonnegative_int (lit "pid") max_pid (get_null (lit "pid") check)
    if ltb pid 1
        then error bad_pid
        else value (generic (decimal pid) default_timeout ((lit "pid", number pid) ∷ []))

  service_of : UnitName → Parsed Text
  service_of (unit name) = value name
  service_of (invalid e) = error (bad_service e)

  pub parse_service_check : Fields F → Text → Parsed (Probe F)
  parse_service_check check type = do
    given ← require_string check (lit "service")
    service ← service_of (normalize_service_name system.category system.is_space given)
    timeout ← timeout_of check
    value (generic service timeout [])

  metadata_options : Fields F → Text → Parsed (List (Text × OptionValue))
  metadata_options check type = if not (type == lit "file_metadata") then value [] else do
    minimum ←
        nonnegative_int (lit "minimum_bytes") max_file_bytes
          (get_default (lit "minimum_bytes") check (natural 0))
    maximum ←
        nonnegative_int (lit "maximum_bytes") max_file_bytes
          (get_default (lit "maximum_bytes") check (natural max_file_bytes))
    if ltb maximum minimum
        then error bad_bounds
        else value
            ((lit "minimum_bytes", number minimum) ∷ (lit "maximum_bytes", number maximum) ∷ [])

  valid_digest : Text → Parsed (List (Text × OptionValue))
  valid_digest digest =
      if eqb (length digest) 64 && all is_hex_digit digest
      then value ((lit "sha256", text digest) ∷ [])
      else error bad_digest

  digest_options : Fields F → Text → Parsed (List (Text × OptionValue))
  digest_options check type =
      if not (type == lit "config_hash")
      then value []
      else do given ← require_string check (lit "sha256"); valid_digest (system.lower given)

  pub parse_file_check : Fields F → Text → Parsed (Probe F)
  parse_file_check check type = do
    path ← parse_path check
    bounds ← metadata_options check type
    digest ← digest_options check type
    value (generic path default_timeout (bounds ++ digest))

  -- The fields and the parser of a type.
  pub record CheckType : Type 0 where
    pub fields : List Text
    pub parse : Fields F → Text → Parsed (Probe F)

  abbrev check_type : List Text → (Fields F → Text → Parsed (Probe F)) → CheckType
  check_type fields parse = record { fields = fields; parse = parse }

  -- `CHECK_TYPES`
  abbrev pub check_types : Dict CheckType
  check_types =
      (
        lit "disk_free_percent",
        check_type (lit "path" ∷ lit "minimum_free_percent" ∷ []) parse_disk_check,
      )
      ∷ (
        lit "tcp_connect",
        check_type (lit "host" ∷ lit "port" ∷ lit "timeout_seconds" ∷ []) parse_tcp_check,
      )
      ∷ (
        lit "http",
        check_type (lit "url" ∷ lit "timeout_seconds" ∷ lit "expected_status" ∷ [])
            parse_http_check,
      )
      ∷ (
        lit "https",
        check_type (lit "url" ∷ lit "timeout_seconds" ∷ lit "expected_status" ∷ [])
            parse_http_check,
      )
      ∷ (lit "dns", check_type (lit "host" ∷ []) parse_dns_check)
      ∷ (
        lit "certificate_expiry",
        check_type
            (lit "host"
              ∷ lit "port"
              ∷ lit "timeout_seconds"
              ∷ lit "warn_days"
              ∷ lit "critical_days"
              ∷ [])
            parse_certificate_check,
      )
      ∷ (lit "process", check_type (lit "pid" ∷ []) parse_process_check)
      ∷ (
        lit "systemd_service",
        check_type (lit "service" ∷ lit "timeout_seconds" ∷ []) parse_service_check,
      )
      ∷ (lit "file_exists", check_type (lit "path" ∷ []) parse_file_check)
      ∷ (
        lit "file_metadata",
        check_type (lit "path" ∷ lit "minimum_bytes" ∷ lit "maximum_bytes" ∷ []) parse_file_check,
      )
      ∷ (lit "config_hash", check_type (lit "path" ∷ lit "sha256" ∷ []) parse_file_check)
      ∷ []
