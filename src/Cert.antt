-- ===== src/Cert.antt =====
-- certwatch/certwatch.py: the assessment of a certificate's validity, the status of a target and
-- of a run. A `datetime` has a time zone and is a number of microseconds.
pub mod Verdict
mod Tests
use opsforge.Prelude.{
  ℕ, ◌-◌, ◌*◌, Bool, true, false, not, Option, none, some, List, [], ◌∷◌, ◌++◌, ltb, leb, any, all,
  keep, if◌then◌else◌,
}
use opsforge.Status.{exit_ok, exit_finding, exit_failure}

pub data ValidityStatus : Type 0 where
  normal warning critical not_yet expired : ValidityStatus

-- The statuses of a target, and `incomplete` of a run.
pub data TargetStatus : Type 0 where
  valid warning drift critical not_yet_valid expired error skipped incomplete : TargetStatus

-- `STATUS_RANK.get(status, 0)`
abbrev pub rank : TargetStatus → ℕ
rank TargetStatus.warning = 1
rank TargetStatus.drift = 2
rank TargetStatus.critical = 3
rank TargetStatus.not_yet_valid = 4
rank TargetStatus.expired = 5
rank _ = 0

-- `status == VALID`
abbrev pub is_valid_status : TargetStatus → Bool
is_valid_status TargetStatus.valid = true
is_valid_status _ = false

-- `days * 86400` seconds
abbrev pub window : ℕ → ℕ
window days = days * 86400000000

in_window : Option ℕ → ℕ → Bool
in_window none remaining = false
in_window (some days) remaining = leb remaining (window days)

unfoldable pub assess_validity :
    (not_before not_after warn_days now : ℕ) (critical_days : Option ℕ) → ValidityStatus
unfolding in_window
assess_validity not_before not_after warn_days now critical_days =
    if ltb now not_before
    then ValidityStatus.not_yet
    else if ltb not_after now
    then ValidityStatus.expired
    else if in_window critical_days (not_after - now)
    then ValidityStatus.critical
    else if in_window (some warn_days) (not_after - now)
    then ValidityStatus.warning
    else ValidityStatus.normal

-- `max(statuses, key=STATUS_RANK.__getitem__)`, the first of the greatest.
pub most_severe : TargetStatus → List TargetStatus → TargetStatus
most_severe s [] = s
most_severe s (t ∷ statuses) =
    if ltb (rank s) (rank t) then most_severe t statuses else most_severe s statuses

-- `validity`
abbrev validity_condition : ValidityStatus → List TargetStatus
validity_condition ValidityStatus.normal = []
validity_condition ValidityStatus.warning = TargetStatus.warning ∷ []
validity_condition ValidityStatus.critical = TargetStatus.critical ∷ []
validity_condition ValidityStatus.not_yet = TargetStatus.not_yet_valid ∷ []
validity_condition ValidityStatus.expired = TargetStatus.expired ∷ []

abbrev drift_condition : Option Bool → List TargetStatus
drift_condition (some true) = TargetStatus.drift ∷ []
drift_condition _ = []

abbrev identity_condition : Bool → Option Bool → List TargetStatus
identity_condition true (some true) = []
identity_condition _ _ = TargetStatus.warning ∷ []

unfoldable pub classify_target :
    ValidityStatus
    → (trust_verified : Bool) (hostname_verified baseline_changed : Option Bool) → TargetStatus
unfolding most_severe
classify_target status trust_verified hostname_verified baseline_changed =
    most_severe TargetStatus.valid (
      validity_condition status
      ++ (drift_condition baseline_changed ++ identity_condition trust_verified hostname_verified))

-- The status of a run without findings.
pub without_findings : List TargetStatus → TargetStatus
without_findings statuses =
    if not (any is_valid_status statuses)
    then TargetStatus.error
    else if all is_valid_status statuses
    then TargetStatus.valid
    else TargetStatus.incomplete

pub of_findings : List TargetStatus → List TargetStatus → TargetStatus
of_findings statuses [] = without_findings statuses
of_findings statuses (f ∷ findings) = most_severe f findings

unfoldable pub aggregate_targets : List TargetStatus → TargetStatus
unfolding of_findings without_findings most_severe
aggregate_targets statuses = of_findings statuses (keep (λ s. ltb 0 (rank s)) statuses)
