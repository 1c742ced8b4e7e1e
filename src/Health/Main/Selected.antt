-- ===== src/Health/Main/Selected.antt =====
-- A selection of checks in healthctl.py can be evaluated like the configuration.
use opsforge.Prelude.{
  ℕ, ◌<◌, ◌≡◌, refl, sym, subst, Bool, true, false, ◌&&◌, not, none, List, [], ◌∷◌, map, Text,
  contains, any, keep, get_or, All, All-map₂, arith, Bool-cases, inl, inr,
}
use opsforge.Prelude.Counting.{Distinct}
use opsforge.Result.{value}
use opsforge.Output.Files.{Written, written}
use opsforge.Health.Types.{HealthCheck, HealthConfig, CheckResult, names}
use opsforge.Health.Aggregate.{result_exit_code}
use opsforge.Health.Depends.{validate_dependencies}
use opsforge.Health.Depends.Accepted.{validate_dependencies-IsRanked}
use opsforge.Health.Depends.Acyclic.{validate_dependencies_of_rank}
use opsforge.Health.Depends.Entries.{IsRanked}
use opsforge.Health.Schedule.{Reply}
use opsforge.Health.Schedule.Verdict.{IsVerdict, IsHonest}
use opsforge.Health.Schedule.Judge.{evaluate_of_validated}
use opsforge.Health.Main.{
  Arguments, is_chosen, chosen, selected_checks, omits, select_from, select, exit_of,
  exit_of_evaluation, exit_of_selection, main,
}

All-keep {ℓ} :
    {A : Type ℓ} (P : A → Type 0) (p : A → Bool) (xs : List A) → All P xs → All P (keep p xs)
All-keep P p [] h = tt
All-keep P p (x ∷ xs) h = elim (Bool-cases (p x)) [
  | inl kept ↦ rw kept (h.0, All-keep P p xs h.1)
  | inr dropped ↦ rw dropped (All-keep P p xs h.1)
]

All-of_none {ℓ} :
    {A : Type ℓ} (p : A → Bool) (xs : List A) → any p xs ≡ false → All (λ x. p x ≡ false) xs
All-of_none p [] h = tt
All-of_none p (x ∷ xs) h = (ground arith, All-of_none p xs (ground arith))

module _ {F : Type 0} where
  absent_keep :
      (p : HealthCheck F → Bool) (checks : List (HealthCheck F)) (n : Text)
      → contains (names checks) n ≡ false
      → contains (names (keep p checks)) n ≡ false
  unfolding contains
  absent_keep p [] n h = refl
  absent_keep p (c ∷ checks) n h = let ih = absent_keep p checks n (ground arith) in ground arith

  Distinct-keep :
      (p : HealthCheck F → Bool) (checks : List (HealthCheck F))
      → Distinct (names checks)
      → Distinct (names (keep p checks))
  Distinct-keep p [] h = tt
  Distinct-keep p (c ∷ checks) h = elim (Bool-cases (p c)) [
    | inl kept ↦ rw kept (absent_keep p checks c.name h.0, Distinct-keep p checks h.1)
    | inr dropped ↦ rw dropped (Distinct-keep p checks h.1)
  ]

  -- The checks of a selection with all of its dependencies have a rank if the configuration's do.
  IsRanked-keep :
      (p : HealthCheck F → Bool) (rank : Text → ℕ) (checks : List (HealthCheck F))
      → IsRanked rank (names checks) checks
      → omits (keep p checks) ≡ false
      → IsRanked rank (names (keep p checks)) (keep p checks)
  IsRanked-keep p rank checks ranked whole =
      All-map₂ (keep p checks)
        (λ c low inside.
          All-map₂ c.depends_on
            (λ d (both : (contains (names checks) d ≡ true) × (rank d < rank c.name)) here.
              (ground arith, both.1))
            low (All-of_none (λ d. not (contains (names (keep p checks)) d)) c.depends_on inside))
        (All-keep
          (λ c. All (λ d. (contains (names checks) d ≡ true) × (rank d < rank c.name)) c.depends_on)
          p checks ranked)
        (All-of_none (λ c. any (λ d. not (contains (names (keep p checks)) d)) c.depends_on)
          (keep p checks) whole)

  select_from-chosen :
      (args : Arguments) (config config' : HealthConfig F) (selected : List (HealthCheck F))
      → select_from args config selected ≡ chosen config'
      → (omits selected ≡ false)
        × (config'.checks ≡ selected)
        × (config'.max_workers ≡ get_or args.workers config.max_workers)
  unfolding select_from
  select_from-chosen args config config' [] h = cc
  select_from-chosen args config config' (c ∷ selected) h =
      elim (Bool-cases (omits (c ∷ selected))) [
        | inl gap ↦ cc (rw gap at h)
        | inr whole ↦ let form = rw whole at h in (whole, ground arith, ground arith)
      ]

  -- A selection from a configuration with distinct names and validated dependencies has distinct
  -- names and validated dependencies itself.
  pub select-validated :
      (args : Arguments) (config config' : HealthConfig F)
      → Distinct (names config.checks)
      → validate_dependencies config.checks ≡ none
      → select args config ≡ chosen config'
      → Distinct (names config'.checks)
        × (validate_dependencies config'.checks ≡ none)
        × (config'.max_workers ≡ get_or args.workers config.max_workers)
  unfolding select
  select-validated args config config' distinct valid h =
      let p =
        λ (c : HealthCheck F). is_chosen args.profile c.profile && is_chosen args.group c.group in
      let (whole, same, workers) =
        select_from-chosen args config config' (selected_checks args config.checks) h in
      let (rank, ranked) = validate_dependencies-IsRanked config.checks distinct valid in
      (
        subst (λ l. Distinct (names l)) (sym same) (Distinct-keep p config.checks distinct),
        subst (λ l. validate_dependencies l ≡ none) (sym same)
            (validate_dependencies_of_rank rank (keep p config.checks)
              (IsRanked-keep p rank config.checks ranked whole)),
        workers,
      )

  -- With a validated configuration, a selection, an executor that answers for each check with its
  -- name and type and a known status, at least one worker, and output that can be written, `main`
  -- returns the exit code of the verdicts on the selected checks, however the threads run.
  pub main-IsVerdict :
      (display_path : Text → Text) (executor : HealthCheck F → Reply)
      (emit : List CheckResult → Written) (args : Arguments) (config config' : HealthConfig F)
      → Distinct (names config.checks)
      → validate_dependencies config.checks ≡ none
      → select args config ≡ chosen config'
      → 0 < get_or args.workers config.max_workers
      → IsHonest display_path executor config'.checks
      → ((results : List CheckResult) → emit results ≡ written)
      → (verdict : Text → CheckResult) × IsVerdict display_path executor config'.checks verdict
        × ((picks : ℕ → ℕ)
            → main display_path executor picks emit (value config) args
              ≡ value (result_exit_code (map verdict (names config'.checks))))
  unfolding main exit_of_selection exit_of_evaluation
  main-IsVerdict display_path executor emit args config config' distinct valid h some_worker honest
        prints =
      let (distinct', valid', workers) = select-validated args config config' distinct valid h in
      let (verdict, right, runs) =
        evaluate_of_validated display_path executor config'.checks distinct' valid' honest in
      (
        verdict,
        right,
        λ picks.
            rw (h, exit_of_selection)
              (rw (runs config'.max_workers picks (omega (arith, workers)), exit_of_evaluation)
                (rw (prints (map verdict (names config'.checks)), exit_of))),
      )
