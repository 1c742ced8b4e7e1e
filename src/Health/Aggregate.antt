-- ===== src/Health/Aggregate.antt =====
-- `aggregate_status` and `result_exit_code` of healthctl.py, and the counts of its summary.
use opsforge.Prelude.{
  ℕ, zero, suc, ◌+◌, Bool, true, false, ◌&&◌, not, Option, List, [], ◌∷◌, map, length, any, all,
  keep, if◌then◌else◌,
}
use opsforge.Status.{exit_ok, exit_finding, exit_failure}
use opsforge.Health.Types.{Severity, Status, CheckResult, is_pass, is_fail, is_warning}
pub mod Verdict

pub data Aggregate : Type 0 where
  ok warning critical incomplete error : Aggregate

abbrev pub failed : CheckResult → Bool
failed r = is_fail r.status

abbrev pub passed : CheckResult → Bool
passed r = is_pass r.status

-- `[result.severity for result in results if result.status == FAIL]`
failed_severities : List CheckResult → List (Option Severity)
failed_severities results = map (λ r. r.severity) (keep failed results)

verdict_of_failures : List CheckResult → List (Option Severity) → Aggregate
verdict_of_failures results (s ∷ rest) =
    if all is_warning (s ∷ rest) then Aggregate.warning else Aggregate.critical
verdict_of_failures results [] =
    if all passed results
    then Aggregate.ok
    else if any passed results
    then Aggregate.incomplete
    else Aggregate.error

unfoldable pub aggregate_status : List CheckResult → Aggregate
unfolding failed_severities verdict_of_failures
aggregate_status results = verdict_of_failures results (failed_severities results)

-- `AGGREGATE_EXIT_CODES`
abbrev aggregate_exit_code : Aggregate → ℕ
aggregate_exit_code Aggregate.ok = exit_ok
aggregate_exit_code Aggregate.warning = exit_finding
aggregate_exit_code Aggregate.critical = exit_finding
aggregate_exit_code Aggregate.incomplete = exit_failure
aggregate_exit_code Aggregate.error = exit_failure

unfoldable pub result_exit_code : List CheckResult → ℕ
unfolding aggregate_status
result_exit_code results = aggregate_exit_code (aggregate_status results)
