-- ===== src/Health/Tests.antt =====
-- Runs of the models of healthctl.py, and the theorems at concrete data.
use opsforge.Prelude.{
  ℕ, zero, suc, ◌+◌, ◌<◌, ◌≡◌, ◌≢◌, refl, true, false, none, some, List, [], ◌∷◌, map, arith, Text,
  lit, ◌==◌, contains, any, all, ◌↔◌, if◌then◌else◌,
}
use opsforge.Prelude.Counting.{Distinct}
use opsforge.Health.Types.{
  error_result, observation_error, Severity, Status, generic, HealthCheck, HealthConfig,
  CheckResult, names,
}
use opsforge.Health.Aggregate.{failed, passed, aggregate_status, result_exit_code}
use opsforge.Health.Aggregate.Verdict.{worst, aggregate_status-eq-worst, result_exit_code_iff}
use opsforge.Result.{value}
use opsforge.Output.Files.{written}
use opsforge.Health.Main.{Arguments, select, chosen, cli_workers, main}
use opsforge.Health.Main.Selected.{main-IsVerdict}
use opsforge.Health.Retry.{escaped, attempt, run_check}
use opsforge.Health.Retry.Attempts.{IsSettled, Decides, run_check-Decides, run_check_returns}
use opsforge.Health.Depends.{no_such_key, no_fuel, validate_dependencies, dependency_cycle}
use opsforge.Health.Depends.Entries.{IsRanked}
use opsforge.Health.Depends.Accepted.{validate_dependencies-ends, validate_dependencies-IsRanked}
use opsforge.Health.Depends.Acyclic.{validate_dependencies_of_rank}
use opsforge.Health.Schedule.{Reply, returned, raised, evaluate, evaluated, work, is_valid}
use opsforge.Health.Schedule.Verdict.{IsHonest, IsVerdict}
use opsforge.Health.Schedule.Judge.{evaluate_of_validated}

abbrev sample_check : Text → List Text → HealthCheck ℕ
sample_check name depends_on = record {
  name = name;
  type = lit "process";
  probe = generic (lit "1") 1000 [];
  severity = Severity.critical;
  group = lit "default";
  profile = lit "default";
  depends_on = depends_on;
  retries = 0;
}

-- `web` needs `db`, which fails; `disk` needs nothing.
abbrev web : HealthCheck ℕ
web = sample_check (lit "web") (lit "db" ∷ [])

abbrev db : HealthCheck ℕ
db = sample_check (lit "db") []

abbrev disk : HealthCheck ℕ
disk = sample_check (lit "disk") []

abbrev sample : List (HealthCheck ℕ)
sample = web ∷ db ∷ disk ∷ []

abbrev circular : List (HealthCheck ℕ)
circular = sample_check (lit "a") (lit "b" ∷ []) ∷ sample_check (lit "b") (lit "a" ∷ []) ∷ []

abbrev sample_result : HealthCheck ℕ → Status → CheckResult
sample_result c status = record {
  name = c.name;
  type = c.type;
  status = status;
  target = lit "1";
  evidence = [];
  severity = none;
  elapsed_seconds = 0;
  attempts = 1;
}

abbrev executor : HealthCheck ℕ → Reply
executor c = returned (sample_result c (if c.name == lit "db" then Status.fail else Status.pass))

abbrev same_path : Text → Text
same_path path = path

validate-sample : validate_dependencies sample ≡ none
unfolding validate_dependencies contains ◌==◌
validate-sample = refl

validate-circular : validate_dependencies circular ≡ some dependency_cycle
unfolding validate_dependencies contains ◌==◌
validate-circular = refl

sample-Distinct : Distinct (names sample)
unfolding contains ◌==◌
sample-Distinct = (refl, (refl, (refl, tt)))

sample-IsHonest : IsHonest same_path executor sample
unfolding work is_valid ◌==◌
sample-IsHonest = (
  (sample_result web Status.pass, refl, refl),
  ((sample_result db Status.fail, refl, refl), ((sample_result disk Status.pass, refl, refl), tt)),
)

evaluate_of_validated_example :
    (verdict : Text → CheckResult) × IsVerdict same_path executor sample verdict
    × ((max_workers : ℕ) (picks : ℕ → ℕ)
        → 0 < max_workers
        → evaluate same_path executor max_workers sample picks
          ≡ evaluated (map verdict (names sample)))
evaluate_of_validated_example =
    evaluate_of_validated same_path executor sample sample-Distinct validate-sample sample-IsHonest

validate_dependencies-IsRanked_example : (rank : Text → ℕ) × IsRanked rank (names sample) sample
validate_dependencies-IsRanked_example =
    validate_dependencies-IsRanked sample sample-Distinct validate-sample

abbrev sample_rank : Text → ℕ
sample_rank n = if n == lit "web" then 1 else 0

sample-IsRanked : IsRanked sample_rank (names sample) sample
unfolding contains ◌==◌
sample-IsRanked = (((refl, omega arith), tt), (tt, (tt, tt)))

validate_dependencies_of_rank_example : validate_dependencies sample ≡ none
validate_dependencies_of_rank_example =
    validate_dependencies_of_rank sample_rank sample sample-IsRanked

validate_dependencies-ends_example :
    (validate_dependencies circular ≢ some no_such_key)
    × (validate_dependencies circular ≢ some no_fuel)
validate_dependencies-ends_example = validate_dependencies-ends circular

-- `db` fails with no severity of its own, `disk` passes, `web` is skipped.
abbrev sample_results : List CheckResult
sample_results =
    sample_result web Status.skipped
    ∷ sample_result db Status.fail
    ∷ sample_result disk Status.pass
    ∷ []

abbrev swapped_results : List CheckResult
swapped_results =
    sample_result db Status.fail
    ∷ sample_result web Status.skipped
    ∷ sample_result disk Status.pass
    ∷ []

sample_exit_code : result_exit_code sample_results ≡ 1
unfolding result_exit_code
sample_exit_code = refl

aggregate_status-eq-worst_example : aggregate_status sample_results ≡ worst sample_results
aggregate_status-eq-worst_example = aggregate_status-eq-worst sample_results

result_exit_code_iff_example :
    ((result_exit_code sample_results ≡ 1) ↔ (any failed sample_results ≡ true))
    × ((result_exit_code sample_results ≡ 0) ↔ (all passed sample_results ≡ true))
    × ((result_exit_code sample_results ≡ 3)
        ↔ ((any failed sample_results ≡ false) × (all passed sample_results ≡ false)))
result_exit_code_iff_example = result_exit_code_iff sample_results

-- The first attempt raises, the second fails, the third would pass.
abbrev flaky : ℕ → Reply
flaky (suc zero) = raised (observation_error (lit "refused"))
flaky (suc (suc zero)) = returned (sample_result db Status.fail)
flaky _ = returned (sample_result db Status.pass)

abbrev retried : ℕ → HealthCheck ℕ
retried retries = record db { retries = retries }

retried_result : CheckResult
retried_result = record (sample_result db Status.pass) { severity = some Severity.ok; attempts = 3 }

run_check-flaky : run_check same_path (retried 2) flaky 0 ≡ some retried_result
unfolding run_check retried_result error_result
run_check-flaky = refl

run_check-Decides_example : (k : ℕ) × Decides same_path (retried 2) flaky 1 (1 + 2) k retried_result
run_check-Decides_example =
    run_check-Decides same_path (retried 2) flaky 0 retried_result run_check-flaky

flaky_calm : (k : ℕ) → attempt same_path (retried 1) flaky k ≢ escaped
unfolding attempt
flaky_calm zero = λ e. cc
flaky_calm (suc zero) = λ e. cc
flaky_calm (suc (suc zero)) = λ e. cc
flaky_calm (suc (suc (suc k))) = λ e. cc

run_check_returns_example :
    (result : CheckResult) × (run_check same_path (retried 1) flaky 5 ≡ some result)
    × IsSettled Severity.critical result
run_check_returns_example = run_check_returns same_path (retried 1) flaky 5 (λ e. cc) flaky_calm

abbrev config : HealthConfig ℕ
config = record { path = lit "/c"; checks = sample; max_workers = 4 }

abbrev everything : Arguments
everything = record { profile = none; group = some (lit "default"); workers = some 2 }

abbrev same_config : HealthConfig ℕ
same_config = record config { max_workers = 2 }

all_selected : select everything config ≡ chosen same_config
unfolding select contains ◌==◌
all_selected = refl

three : cli_workers (lit "3") ≡ some 3
unfolding cli_workers
three = refl

nine : cli_workers (lit "9") ≡ none
unfolding cli_workers
nine = refl

main-IsVerdict_example :
    (verdict : Text → CheckResult) × IsVerdict same_path executor sample verdict
    × ((picks : ℕ → ℕ)
        → main same_path executor picks (λ results. written) (value config) everything
          ≡ value (result_exit_code (map verdict (names sample))))
main-IsVerdict_example =
    main-IsVerdict same_path executor (λ results. written) everything config same_config
      sample-Distinct validate-sample all_selected (omega arith) sample-IsHonest (λ results. refl)
