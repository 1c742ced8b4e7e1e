-- ===== src/Health/Main/Counts.antt =====
-- What the counts of healthctl.py's summary say.
use opsforge.Prelude.{
  ℕ, suc, ◌+◌, ◌≡◌, refl, ap, ◌∙◌, true, ◌&&◌, not, List, [], ◌∷◌, length, All, arith, Bool-cases,
  inl, inr,
}
use opsforge.Health.Types.{Status, CheckResult, is_known, is_pass, is_fail, is_warning}
use opsforge.Health.Main.{is_error, is_skipped, total, summary}

abbrev counted : List CheckResult → ℕ
counted results =
    total (λ r. is_pass r.status) results
    + total (λ r. is_fail r.status && is_warning r.severity) results
    + total (λ r. is_fail r.status && not (is_warning r.severity)) results
    + total (λ r. is_error r.status) results
    + total (λ r. is_skipped r.status) results

one_kind :
    (r : CheckResult) (status : Status) (results : List CheckResult)
    → r.status ≡ status
    → is_known status ≡ true
    → counted (r ∷ results) ≡ suc (counted results)
one_kind r Status.pass results e h = rw e (omega arith)
one_kind r Status.fail results e h = elim (Bool-cases (is_warning r.severity)) [
  | inl mild ↦ rw (e, mild) (omega arith)
  | inr grave ↦ rw (e, grave) (omega arith)
]
one_kind r Status.error results e h = rw e (omega arith)
one_kind r Status.skipped results e h = rw e (omega arith)
one_kind r (Status.other s) results e h = cc

-- Every result with a known status is counted in exactly one of the five counts.
pub summary-length :
    (results : List CheckResult)
    → All (λ r. is_known r.status ≡ true) results
    → (summary results).pass
        + (summary results).fail_warning
        + (summary results).fail_critical
        + (summary results).error
        + (summary results).skipped
      ≡ length results
unfolding summary
summary-length [] h = refl
summary-length (r ∷ results) h =
    one_kind r r.status results refl h.0 ∙ ap suc (summary-length results h.1)
