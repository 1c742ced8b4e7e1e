-- ===== src/Health/Aggregate/Verdict.antt =====
-- What the aggregate status and the exit code of healthctl.py say of the results.
use mathlib.Core.List.{Permᴰ}
use opsforge.Prelude.{
  ◌≡◌, refl, ap, ◌∙◌, ◌↔◌, Bool, true, false, ◌&&◌, not, Option, List, [], ◌∷◌, any, all, arith,
  if◌then◌else◌,
}
use opsforge.Health.Types.{Severity, CheckResult, is_warning}
use opsforge.Health.Aggregate.{
  Aggregate, failed, passed, failed_severities, verdict_of_failures, aggregate_status,
  result_exit_code,
}

-- A FAIL whose severity is not WARNING.
abbrev grave : CheckResult → Bool
grave r = failed r && not (is_warning r.severity)

-- The worst of what the results show: a grave failure, then any failure, then a gap.
abbrev pub worst : List CheckResult → Aggregate
worst results =
    if any grave results
    then Aggregate.critical
    else if any failed results
    then Aggregate.warning
    else if all passed results
    then Aggregate.ok
    else if any passed results
    then Aggregate.incomplete
    else Aggregate.error

any-grave :
    (results : List CheckResult)
    → any grave results ≡ not (all is_warning (failed_severities results))
unfolding failed_severities
any-grave [] = refl
any-grave (r ∷ results) = ground (arith, any-grave results)

abbrev is_empty {ℓ} : {A : Type ℓ} → List A → Bool
is_empty [] = true
is_empty (_ ∷ _) = false

failed-eq-not_empty :
    (results : List CheckResult) → any failed results ≡ not (is_empty (failed_severities results))
unfolding failed_severities
failed-eq-not_empty [] = refl
failed-eq-not_empty (r ∷ results) = ground (arith, failed-eq-not_empty results)

verdict_of_failures-eq-worst :
    (results : List CheckResult) (severities : List (Option Severity))
    → any grave results ≡ not (all is_warning severities)
    → any failed results ≡ not (is_empty severities)
    → verdict_of_failures results severities ≡ worst results
unfolding verdict_of_failures
verdict_of_failures-eq-worst results [] g f = rw (g, f)
verdict_of_failures-eq-worst results (s ∷ rest) g f = rw (g, f) (ground arith)

-- The aggregate status is the worst that any result shows: CRITICAL with a FAIL that is not a
-- WARNING, else WARNING with a FAIL, else OK if every check passed, else INCOMPLETE if one did.
pub aggregate_status-eq-worst :
    (results : List CheckResult) → aggregate_status results ≡ worst results
unfolding aggregate_status
aggregate_status-eq-worst results =
    verdict_of_failures-eq-worst results (failed_severities results) (any-grave results)
      (failed-eq-not_empty results)

failed-not_passed :
    (results : List CheckResult) → any failed results ≡ true → all passed results ≡ false
failed-not_passed [] h = cc
failed-not_passed (r ∷ results) h = ground (arith, failed-not_passed results)

failed_of_grave :
    (results : List CheckResult) → any grave results ≡ true → any failed results ≡ true
failed_of_grave [] h = cc
failed_of_grave (r ∷ results) h = ground (arith, failed_of_grave results)

-- An established FAIL decides the exit, whatever else could not be observed; a gap with no FAIL is
-- never reported as success; and only a run in which every check passed exits 0.
pub result_exit_code_iff :
    (results : List CheckResult)
    → ((result_exit_code results ≡ 1) ↔ (any failed results ≡ true))
      × ((result_exit_code results ≡ 0) ↔ (all passed results ≡ true))
      × ((result_exit_code results ≡ 3)
          ↔ ((any failed results ≡ false) × (all passed results ≡ false)))
unfolding result_exit_code
result_exit_code_iff results =
    rw aggregate_status-eq-worst
      (ground (arith, failed-not_passed results, failed_of_grave results))

any-Permᴰ {ℓ} : {A : Type ℓ} (p : A → Bool) {xs ys : List A} → Permᴰ xs ys → any p xs ≡ any p ys
any-Permᴰ p Permᴰ.nil = refl
any-Permᴰ p (Permᴰ.cons e q) = cc (ap p e, any-Permᴰ p q)
any-Permᴰ p (Permᴰ.swap e f) = ground (arith, ap p e, ap p f)
any-Permᴰ p (Permᴰ.trans q r) = any-Permᴰ p q ∙ any-Permᴰ p r

all-Permᴰ {ℓ} : {A : Type ℓ} (p : A → Bool) {xs ys : List A} → Permᴰ xs ys → all p xs ≡ all p ys
all-Permᴰ p Permᴰ.nil = refl
all-Permᴰ p (Permᴰ.cons e q) = cc (ap p e, all-Permᴰ p q)
all-Permᴰ p (Permᴰ.swap e f) = ground (arith, ap p e, ap p f)
all-Permᴰ p (Permᴰ.trans q r) = all-Permᴰ p q ∙ all-Permᴰ p r

-- The aggregate status of a permutation of the results is that of the results.
pub aggregate_status-Permᴰ :
    (xs ys : List CheckResult) → Permᴰ xs ys → aggregate_status xs ≡ aggregate_status ys
aggregate_status-Permᴰ xs ys q = rw (
  aggregate_status-eq-worst xs,
  aggregate_status-eq-worst ys,
  any-Permᴰ grave q,
  any-Permᴰ failed q,
  any-Permᴰ passed q,
  all-Permᴰ passed q,
)
