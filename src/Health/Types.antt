-- ===== src/Health/Types.antt =====
-- The data of healthctl.py: severities, statuses, the three kinds of check, and results.
-- `F` is the type of Python's floats. `_display_path` asks the operating system for the working
-- directory and is an argument, `display_path`.
use opsforge.Prelude.{
  ℕ, Bool, true, false, ◌||◌, Option, none, some, List, [], ◌∷◌, ◌++◌, Text, lit, ◌==◌, starts_with,
  decimal, if◌then◌else◌,
}

-- OK, WARNING and CRITICAL, as severities.
pub data Severity : Type 0 where
  ok warning critical : Severity

-- PASS, FAIL, ERROR and SKIPPED. An executor can return a result with any other string.
pub data Status : Type 0 where
  pass fail error skipped : Status
  other : Text → Status

abbrev pub is_pass : Status → Bool
is_pass Status.pass = true
is_pass _ = false

abbrev pub is_fail : Status → Bool
is_fail Status.fail = true
is_fail _ = false

-- `status in {PASS, FAIL, ERROR, SKIPPED}`
abbrev pub is_known : Status → Bool
is_known (Status.other _) = false
is_known _ = true

abbrev pub is_warning : Option Severity → Bool
is_warning (some Severity.warning) = true
is_warning _ = false

-- A value of `GenericCheck.options`.
pub data OptionValue : Type 0 where
  number : ℕ → OptionValue
  text : Text → OptionValue

module _ (F : Type 0) where
  -- The fields in which `DiskFreeCheck`, `TcpConnectCheck` and `GenericCheck` differ.
  pub data Probe : Type 0 where
    disk_free : (path : Text) (minimum_free_percent : F) → Probe
    tcp_connect : (host host_kind : Text) (port : ℕ) (timeout_seconds : F) → Probe
    generic : (target : Text) (timeout_seconds : F) (options : List (Text × OptionValue)) → Probe

  -- `HealthCheck`: the fields that the three classes share, and the rest.
  pub record HealthCheck : Type 0 where
    pub name : Text
    pub type : Text
    pub probe : Probe
    pub severity : Severity
    pub group : Text
    pub profile : Text
    pub depends_on : List Text
    pub retries : ℕ

  pub record HealthConfig : Type 0 where
    pub path : Text
    pub checks : List HealthCheck
    pub max_workers : ℕ

-- `elapsed_seconds` counts ticks of the monotonic clock.
pub record CheckResult : Type 0 where
  pub name : Text
  pub type : Text
  pub status : Status
  pub target : Text
  pub evidence : Text
  pub severity : Option Severity
  pub elapsed_seconds : ℕ
  pub attempts : ℕ

abbrev pub names : {F : Type 0} → List (HealthCheck F) → List Text
names [] = []
names (c ∷ checks) = c.name ∷ names checks

-- `host:port`, with an IPv6 literal in brackets.
unfoldable pub tcp_target : Text → Text → ℕ → Text
tcp_target host host_kind port =
    if host_kind == lit "ipv6"
    then lit "[" ++ (host ++ (lit "]:" ++ decimal port))
    else host ++ (lit ":" ++ decimal port)

module _ {F : Type 0} (display_path : Text → Text) where
  probe_target : Text → Probe F → Text
  probe_target type (disk_free path _) = display_path path
  probe_target type (tcp_connect host host_kind port _) = tcp_target host host_kind port
  probe_target type (generic target _ _) =
      if starts_with type (lit "file_") || type == lit "config_hash"
      then display_path target
      else target

  -- `_check_target`
  unfoldable pub check_target : HealthCheck F → Text
  unfolding probe_target tcp_target
  check_target check = probe_target check.type check.probe

-- What an `except Exception` caught, with `str(error)` or the name of its class.
pub data Failure : Type 0 where
  observation_error : (message : Text) → Failure
  os_error : (class_name : Text) → Failure
  other_exception : (class_name : Text) → Failure

failure_evidence : Failure → Text
failure_evidence (observation_error message) = message
failure_evidence (os_error class_name) =
    lit "operating-system observation failed (" ++ (class_name ++ lit ")")
failure_evidence (other_exception class_name) =
    lit "check could not be evaluated (" ++ (class_name ++ lit ")")

-- `_error_result`
unfoldable pub error_result : {F : Type 0} → (Text → Text) → HealthCheck F → Failure → CheckResult
unfolding failure_evidence
error_result display_path check failure = record {
  name = check.name;
  type = check.type;
  status = Status.error;
  target = check_target display_path check;
  evidence = failure_evidence failure;
  severity = none;
  elapsed_seconds = 0;
  attempts = 1;
}
