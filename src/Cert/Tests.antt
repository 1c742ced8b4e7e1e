-- ===== src/Cert/Tests.antt =====
-- Runs of the models of certwatch/certwatch.py, and the theorems at concrete data.
use opsforge.Prelude.{◌≡◌, refl, ◌↔◌, Bool, true, Option, none, some, List, [], ◌∷◌}
use opsforge.Cert.{
  ValidityStatus, TargetStatus, assess_validity, window, classify_target, aggregate_targets,
}
use opsforge.Cert.Verdict.{classify_target_iff}

near_the_end : assess_validity 0 (window 40) 30 (window 35) (some 7) ≡ ValidityStatus.critical
unfolding assess_validity
near_the_end = refl

abbrev statuses : List TargetStatus
statuses = TargetStatus.error ∷ TargetStatus.drift ∷ TargetStatus.expired ∷ TargetStatus.valid ∷ []

the_worst : aggregate_targets statuses ≡ TargetStatus.expired
unfolding aggregate_targets
the_worst = refl

classify_target_iff_example :
    ((classify_target ValidityStatus.expired true none (some true) ≡ TargetStatus.expired)
      ↔ (ValidityStatus.expired ≡ ValidityStatus.expired))
    × ((classify_target ValidityStatus.expired true none (some true) ≡ TargetStatus.not_yet_valid)
        ↔ (ValidityStatus.expired ≡ ValidityStatus.not_yet))
    × ((classify_target ValidityStatus.expired true none (some true) ≡ TargetStatus.valid) ↔ (
        (ValidityStatus.expired ≡ ValidityStatus.normal)
        × (true ≡ true)
        × (◌≡◌ {A = Option Bool} none (some true))
        × ((some true ≡ some true) → ⊥)))
classify_target_iff_example = classify_target_iff ValidityStatus.expired true none (some true)
