-- ===== src/Health/Schedule/Verdict.antt =====
-- `evaluate_config` against its meaning: a check with a dependency that did not pass is skipped,
-- any other is what the executor answers. This holds for every order in which threads finish and
-- every number of workers.
use opsforge.Prelude.{
  ℕ, suc, ◌<◌, ◌≡◌, true, some, List, map, arith, Text, eq_iff, length, All, All-map, All-map₂,
}
use opsforge.Prelude.Counting.{Distinct, count}
use opsforge.Prelude.Dict
use opsforge.Health.Types.{HealthCheck, CheckResult, names}
use opsforge.Health.Names.{All-of_names}
use opsforge.Health.Depends.Entries.{IsRanked}
use opsforge.Health.Schedule.{Reply, unmet, is_valid, work, evaluate, evaluated}
use opsforge.Health.Schedule.Invariant.{outcome, passes}
use opsforge.Health.Schedule.Outcome.{loop_lem}

module _ {F : Type 0} (display_path : Text → Text) (executor : HealthCheck F → Reply) where
  -- `verdict` says of each check what its dependencies and the executor decide.
  abbrev pub IsVerdict : List (HealthCheck F) → (Text → CheckResult) → Type 0
  IsVerdict checks verdict =
      All
        (λ c.
          (outcome display_path executor c (unmet (passes verdict) c.depends_on)
            ≡ some (verdict c.name))
          × (is_valid c (verdict c.name) ≡ true))
        checks

  -- The executor gives each check a result with its own name and type, and a known status.
  abbrev pub IsHonest : List (HealthCheck F) → Type 0
  IsHonest =
      All (λ c. (r : CheckResult) × (work display_path executor c ≡ some r) × (is_valid c r ≡ true))

  name_of_valid : (c : HealthCheck F) (r : CheckResult) → is_valid c r ≡ true → r.name ≡ c.name
  unfolding is_valid
  name_of_valid c r h = (eq_iff r.name c.name).0 (ground arith)

  -- With distinct names and known dependencies without a cycle, and at least one worker, the run
  -- ends with the verdicts in the order of the configuration, however the threads finish.
  pub evaluate-IsVerdict :
      (max_workers : ℕ) (rank : Text → ℕ) (checks : List (HealthCheck F))
      (verdict : Text → CheckResult) (picks : ℕ → ℕ)
      → 0 < max_workers
      → Distinct (names checks)
      → IsRanked rank (names checks) checks
      → IsVerdict checks verdict
      → evaluate display_path executor max_workers checks picks
        ≡ evaluated (map verdict (names checks))
  unfolding evaluate count Dict.keys
  evaluate-IsVerdict max_workers rank checks verdict picks workers distinct ranked right =
      loop_lem display_path executor max_workers verdict rank checks distinct workers
        (All-of_names _ checks
          (All-map checks (λ c both. name_of_valid c (verdict c.name) both.1) right))
        (suc (length checks)) picks _
        (record {
          counted = λ n. omega arith;
          agrees = tt;
          due = tt;
          waiting_judged =
              All-map₂ checks
                (λ c low both. record { judged = both.0; valid = both.1; ranked = low }) ranked
                right;
          rest_judged = tt;
        })
        (omega arith)
