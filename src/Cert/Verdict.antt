-- ===== src/Cert/Verdict.antt =====
-- What the statuses of certwatch/certwatch.py say.
use opsforge.Prelude.{
  ℕ, ◌≤◌, ◌≡◌, sym, subst, ◌↔◌, Bool, true, Option, some, List, [], ◌∷◌, ltb, keep, All, arith,
  Bool-cases, inl, inr,
}
use opsforge.Cert.{
  ValidityStatus, TargetStatus, rank, most_severe, classify_target, of_findings, aggregate_targets,
}

-- A target is EXPIRED or NOT_YET_VALID exactly if its certificate is, whatever drifted, and VALID
-- exactly if the validity is normal, trust and host name were verified, and nothing drifted.
pub classify_target_iff :
    (status : ValidityStatus) (trust : Bool) (hostname baseline : Option Bool)
    → ((classify_target status trust hostname baseline ≡ TargetStatus.expired)
        ↔ (status ≡ ValidityStatus.expired))
      × ((classify_target status trust hostname baseline ≡ TargetStatus.not_yet_valid)
          ↔ (status ≡ ValidityStatus.not_yet))
      × ((classify_target status trust hostname baseline ≡ TargetStatus.valid) ↔ (
          (status ≡ ValidityStatus.normal)
          × (trust ≡ true)
          × (hostname ≡ some true)
          × ((baseline ≡ some true) → ⊥)))
unfolding classify_target most_severe
classify_target_iff status trust hostname baseline = ground arith

abbrev Bounds : TargetStatus → TargetStatus → List TargetStatus → TargetStatus → Type 0
Bounds s t statuses m = (rank s ≤ rank m) × All (λ x. rank x ≤ rank m) (t ∷ statuses)

most_severe-bound :
    (s : TargetStatus) (statuses : List TargetStatus)
    → (rank s ≤ rank (most_severe s statuses))
      × All (λ t. rank t ≤ rank (most_severe s statuses)) statuses
unfolding most_severe
most_severe-bound s [] = (omega arith, tt)
most_severe-bound s (t ∷ statuses) = elim (Bool-cases (ltb (rank s) (rank t))) [
  | inl worse ↦
      let step : most_severe s (t ∷ statuses) ≡ most_severe t statuses = rw worse in
      let (own, rest) = most_severe-bound t statuses in
      subst (Bounds s t statuses) (sym step) (ground arith, (own, rest))
  | inr milder ↦
      let step : most_severe s (t ∷ statuses) ≡ most_severe s statuses = rw milder in
      let (own, rest) = most_severe-bound s statuses in
      subst (Bounds s t statuses) (sym step) (own, (ground arith, rest))
]

All-of_findings :
    (k : ℕ) (statuses : List TargetStatus)
    → All (λ s. rank s ≤ k) (keep (λ s. ltb 0 (rank s)) statuses)
    → All (λ s. rank s ≤ k) statuses
All-of_findings k [] h = tt
All-of_findings k (s ∷ statuses) h = elim (Bool-cases (ltb 0 (rank s))) [
  | inl counts ↦ let kept = rw counts at h in (kept.0, All-of_findings k statuses kept.1)
  | inr gap ↦ (ground arith, All-of_findings k statuses (rw gap at h))
]

of_findings-bound :
    (statuses findings : List TargetStatus)
    → All (λ s. rank s ≤ rank (of_findings statuses findings)) findings
unfolding of_findings
of_findings-bound statuses [] = tt
of_findings-bound statuses (f ∷ findings) = most_severe-bound f findings

-- The status of a run is at least as severe as that of every target: no finding is hidden by a
-- milder one or by a target that could not be observed.
pub aggregate_targets-bound :
    (statuses : List TargetStatus) → All (λ s. rank s ≤ rank (aggregate_targets statuses)) statuses
unfolding aggregate_targets
aggregate_targets-bound statuses =
    All-of_findings (rank (of_findings statuses (keep (λ s. ltb 0 (rank s)) statuses))) statuses
      (of_findings-bound statuses (keep (λ s. ltb 0 (rank s)) statuses))
