-- ===== src/Health/Main.antt =====
-- `main` of healthctl.py, from the loaded configuration to the exit code: the selection of checks,
-- the run, the counts of the summary, or the exception that leaves it. `_cli_workers` reads the option for the workers.
pub mod Selected
pub mod Counts
use opsforge.Prelude.{
  ℕ, zero, suc, ◌+◌, ◌*◌, ◌-◌, Bool, true, false, ◌&&◌, ◌||◌, not, Option, none, some, List, [],
  ◌∷◌, Text, ◌==◌, contains, length, between, any, all, keep, get_or, if◌then◌else◌,
}
use opsforge.Result.{Result, value, error}
use opsforge.Status.{exit_usage, exit_failure, exit_interrupted}
use opsforge.Output.Files.{
  Raised, os_error, keyboard_interrupt, base_exception, Written, written, output_error, uncaught,
  Exit,
}
use opsforge.Health.Types.{
  Severity, Status, HealthCheck, HealthConfig, CheckResult, names, is_pass, is_fail, is_warning,
}
use opsforge.Health.Aggregate.{result_exit_code}
use opsforge.Health.Schedule.{Reply, Evaluation, evaluated, evaluate}
use opsforge.Health.Config.{Parsed}

pub record Arguments : Type 0 where
  pub profile : Option Text
  pub group : Option Text
  pub workers : Option ℕ

digits_value : ℕ → Text → ℕ
digits_value n [] = n
digits_value n (c ∷ digits) = digits_value (n * 10 + (c - 48)) digits

-- `_cli_workers`: nothing where it raises. ASCII and decimal characters are the digits.
unfoldable pub cli_workers : Text → Option ℕ
unfolding digits_value
cli_workers [] = none
cli_workers (c ∷ text) =
    let n = digits_value 0 (c ∷ text) in
    if all (between 48 57) (c ∷ text) && between 1 8 n then some n else none

-- `args.profile is None or check.profile == args.profile`
abbrev pub is_chosen : Option Text → Text → Bool
is_chosen none name = true
is_chosen (some chosen) name = name == chosen

pub data Selection (F : Type 0) : Type 0 where
  chosen : HealthConfig F → Selection F
  no_checks omitted_dependency : Selection F

-- The counts of `summary`.
pub record Summary : Type 0 where
  pub pass : ℕ
  pub fail_warning : ℕ
  pub fail_critical : ℕ
  pub error : ℕ
  pub skipped : ℕ

abbrev pub is_error : Status → Bool
is_error Status.error = true
is_error _ = false

abbrev pub is_skipped : Status → Bool
is_skipped Status.skipped = true
is_skipped _ = false

-- `sum(test(result) for result in results)`
abbrev pub total : (CheckResult → Bool) → List CheckResult → ℕ
total test results = length (keep test results)

unfoldable pub summary : List CheckResult → Summary
summary results = record {
  pass = total (λ r. is_pass r.status) results;
  fail_warning = total (λ r. is_fail r.status && is_warning r.severity) results;
  fail_critical = total (λ r. is_fail r.status && not (is_warning r.severity)) results;
  error = total (λ r. is_error r.status) results;
  skipped = total (λ r. is_skipped r.status) results;
}

-- The end of `main`: an exception that is neither an `OutputError` nor a `KeyboardInterrupt` leaves it.
abbrev pub exit_of : Written → List CheckResult → Exit
exit_of written results = value (result_exit_code results)
exit_of (output_error e) results = value exit_failure
exit_of (uncaught keyboard_interrupt) results = value exit_interrupted
exit_of (uncaught raised) results = error raised

-- `evaluate_config` raises an `ObservationError` in its other cases.
pub exit_of_evaluation : (List CheckResult → Written) → Evaluation → Exit
exit_of_evaluation emit (evaluated results) = exit_of (emit results) results
exit_of_evaluation emit _ = value exit_failure

module _ {F : Type 0} where
  abbrev pub selected_checks : Arguments → List (HealthCheck F) → List (HealthCheck F)
  selected_checks args checks =
      keep (λ c. is_chosen args.profile c.profile && is_chosen args.group c.group) checks

  -- A selected check has a dependency that is not selected.
  abbrev pub omits : List (HealthCheck F) → Bool
  omits selected = any (λ c. any (λ d. not (contains (names selected) d)) c.depends_on) selected

  pub select_from : Arguments → HealthConfig F → List (HealthCheck F) → Selection F
  select_from args config [] = no_checks
  select_from args config (c ∷ selected) =
      if omits (c ∷ selected)
      then omitted_dependency
      else chosen (record {
        path = config.path;
        checks = c ∷ selected;
        max_workers = get_or args.workers config.max_workers;
      })

  unfoldable pub select : Arguments → HealthConfig F → Selection F
  unfolding select_from
  select args config = select_from args config (selected_checks args config.checks)

  module _ (display_path : Text → Text) (executor : HealthCheck F → Reply) (picks : ℕ → ℕ)
      (emit : List CheckResult → Written) where
    pub exit_of_selection : Selection F → Exit
    exit_of_selection (chosen config) =
        exit_of_evaluation emit
          (evaluate display_path executor config.max_workers config.checks picks)
    exit_of_selection _ = value exit_usage

    -- From the loaded configuration on. `emit` is `emit_output` with the results.
    unfoldable pub main : Parsed (HealthConfig F) → Arguments → Exit
    unfolding exit_of_selection exit_of_evaluation
    main (error e) args = value exit_usage
    main (value config) args = exit_of_selection (select args config)
