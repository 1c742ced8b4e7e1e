-- ===== src/Health/Retry.antt =====
-- `run_check` of healthctl.py: the retries of one check. `probe k` is what the k-th attempt does:
-- the dispatch on the kind of check and the probe itself. The waits between attempts take no part
-- in the result; `elapsed` is the difference of the two clock readings.
use opsforge.Prelude.{
  ℕ, zero, suc, ◌+◌, ◌≤◌, ◌<◌, ◌≡◌, ◌≢◌, refl, Bool, true, false, Option, none, some, arith, Text,
  Bool-cases, inl, inr, eq_refl, if◌then◌else◌,
}
use opsforge.Health.Types.{
  Severity, Status, HealthCheck, CheckResult, Failure, is_pass, error_result,
}
use opsforge.Health.Schedule.{Reply, returned, raised, no_result, is_valid}
pub mod Attempts

-- What ends an attempt: a result, or a `BaseException` that is no `Exception`, which goes on up.
pub data Attempt : Type 0 where
  finished : CheckResult → Attempt
  escaped : Attempt

-- The severity that the result is given at the end.
pub settled_severity : Severity → Status → Option Severity → Option Severity
settled_severity own Status.pass s = some Severity.ok
settled_severity own Status.fail (some Severity.warning) = some Severity.warning
settled_severity own Status.fail (some Severity.critical) = some Severity.critical
settled_severity own Status.fail _ = some own
settled_severity own _ s = none

module _ {F : Type 0} (display_path : Text → Text) (check : HealthCheck F) (probe : ℕ → Reply) where
  unfoldable pub attempt : ℕ → Attempt
  attempt k = elim (probe k) [
    | returned result ↦ finished result
    | raised failure ↦ finished (error_result display_path check failure)
    | no_result ↦ escaped
  ]

  abbrev pub settle : ℕ → ℕ → CheckResult → CheckResult
  settle elapsed k result = record result {
    severity = settled_severity check.severity result.status result.severity;
    elapsed_seconds = elapsed;
    attempts = k;
  }

  -- The loop, from attempt `k` on, with `more` attempts behind it.
  pub retry : ℕ → ℕ → ℕ → Option CheckResult
  retry elapsed zero k = elim (attempt k) [
    | finished result ↦ some (settle elapsed k result)
    | escaped ↦ none
  ]
  retry elapsed (suc more) k =
      let rest = retry elapsed more (k + 1) in
      elim (attempt k) [
        | finished result ↦ if is_pass result.status then some (settle elapsed k result) else rest
        | escaped ↦ none
      ]

  -- `none` where an exception goes on up.
  unfoldable pub run_check : ℕ → Option CheckResult
  unfolding retry attempt settled_severity
  run_check elapsed = retry elapsed check.retries 1
