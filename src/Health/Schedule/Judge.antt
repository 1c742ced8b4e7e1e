-- ===== src/Health/Schedule/Judge.antt =====
-- A validated configuration has a verdict on each check, and every run returns the verdicts.
use opsforge.Prelude.{
  ℕ, zero, suc, ◌<◌, ◌≡◌, refl, ◌∙◌, sym, subst, ap, true, false, Option, none, some, List, [], ◌∷◌,
  map, arith, Text, ◌==◌, eq_iff, eq_refl, contains, All-of_contains, get_or, All, All-map,
  All-map₂, Bool-cases, inl, inr, if◌then◌else◌,
}
use opsforge.Prelude.Counting.{Distinct}
use opsforge.Health.Types.{Status, HealthCheck, CheckResult, names, is_pass}
use opsforge.Health.Names.{All-names}
use opsforge.Health.Depends.{validate_dependencies}
use opsforge.Health.Depends.Accepted.{validate_dependencies-IsRanked}
use opsforge.Health.Depends.Entries.{IsRanked}
use opsforge.Health.Schedule.{Reply, unmet, is_valid, work, skipped_result, evaluate, evaluated}
use opsforge.Health.Schedule.Invariant.{outcome, passes}
use opsforge.Health.Schedule.Verdict.{IsVerdict, IsHonest, evaluate-IsVerdict}

-- `{check.name: check}[n]`, with distinct names.
find : {F : Type 0} → List (HealthCheck F) → Text → Option (HealthCheck F)
find [] n = none
find (c ∷ checks) n = if c.name == n then some c else find checks n

nothing : CheckResult
nothing = record {
  name = [];
  type = [];
  status = Status.error;
  target = [];
  evidence = [];
  severity = none;
  elapsed_seconds = 0;
  attempts = 0;
}

module _ {F : Type 0} (display_path : Text → Text) (executor : HealthCheck F → Reply)
    (checks : List (HealthCheck F)) where
  conclude : Option (HealthCheck F) → (Text → CheckResult) → CheckResult
  conclude none verdict = nothing
  conclude (some c) verdict =
      get_or (outcome display_path executor c (unmet (passes verdict) c.depends_on)) nothing

  -- What the check of a name comes to, judging dependencies to a depth.
  judge : ℕ → Text → CheckResult
  judge zero n = nothing
  judge (suc depth) n = conclude (find checks n) (judge depth)

  find-All :
      (P : HealthCheck F → Type 0) (l : List (HealthCheck F)) (n : Text) (c : HealthCheck F)
      → All P l
      → find l n ≡ some c
      → (c.name ≡ n) × P c
  unfolding find
  find-All P [] n c h e = cc
  find-All P (d ∷ l) n c h e = elim (Bool-cases (d.name == n)) [
    | inl same ↦
        let found : d ≡ c = ground arith in
        subst (λ x. (x.name ≡ n) × P x) found ((eq_iff d.name n).0 same, h.0)
    | inr other ↦ find-All P l n c h.1 (rw other at e)
  ]

  unmet_congr :
      (v w : Text → CheckResult) (deps : List Text)
      → All (λ d. v d ≡ w d) deps
      → unmet (passes v) deps ≡ unmet (passes w) deps
  unfolding unmet
  unmet_congr v w [] h = refl
  unmet_congr v w (d ∷ deps) h =
      let same : passes v d ≡ passes w d = ap (λ r. is_pass r.status) h.0 in
      let rest = unmet_congr v w deps h.1 in ground arith

  conclude_congr :
      (o : Option (HealthCheck F)) (v w : Text → CheckResult)
      → ((c : HealthCheck F) → o ≡ some c → All (λ d. v d ≡ w d) c.depends_on)
      → conclude o v ≡ conclude o w
  unfolding conclude
  conclude_congr none v w h = refl
  conclude_congr (some c) v w h =
      ap (λ l. get_or (outcome display_path executor c l) nothing)
        (unmet_congr v w c.depends_on (h c refl))

  -- With distinct names each check is found by its own.
  find_own : (l : List (HealthCheck F)) → Distinct (names l) → All (λ c. find l c.name ≡ some c) l
  unfolding find
  find_own [] h = tt
  find_own (c ∷ l) h = (
    rw (eq_refl c.name),
    All-map₂ l (λ d found differs. rw (found_later c.name d.name differs h.0) found)
        (find_own l h.1)
        (All-names (λ n. contains (names l) n ≡ true) l (All-of_contains (names l) (λ n e. e))),
  )
    where
      found_later :
          (a b : Text)
          → contains (names l) b ≡ true
          → contains (names l) a ≡ false
          → (a == b) ≡ false
      found_later a b listed fresh = elim (Bool-cases (a == b)) [
        | inr other ↦ other
        | inl same ↦
            let e : contains (names l) a ≡ contains (names l) b =
              ap (contains (names l)) ((eq_iff a b).0 same) in
            cc
      ]

  skipped-is_valid :
      (c : HealthCheck F) (n : Text) (ns : List Text)
      → is_valid c (skipped_result display_path c (n ∷ ns)) ≡ true
  unfolding is_valid
  skipped-is_valid c n ns = rw (eq_refl c.name, eq_refl c.type)

  outcome-honest :
      (c : HealthCheck F) (l : List Text)
      → (r : CheckResult) × (work display_path executor c ≡ some r) × (is_valid c r ≡ true)
      → (outcome display_path executor c l
          ≡ some (get_or (outcome display_path executor c l) nothing))
        × (is_valid c (get_or (outcome display_path executor c l) nothing) ≡ true)
  outcome-honest c [] (r, e, v) = (rw e, rw e v)
  outcome-honest c (n ∷ ns) honest = (refl, skipped-is_valid c n ns)

  module _ (rank : Text → ℕ) (ranked : IsRanked rank (names checks) checks) where
    -- Judging deeper than the rank makes no difference.
    judge_stable : (j k : ℕ) (n : Text) → rank n < j → rank n < k → judge j n ≡ judge k n
    unfolding judge
    judge_stable zero k n h i = absurd (omega arith)
    judge_stable (suc j) zero n h i = absurd (omega arith)
    judge_stable (suc j) (suc k) n h i = conclude_congr (find checks n) (judge j) (judge k) λ c e.
        let (named, low) = find-All _ checks n c ranked e in
        let same : rank c.name ≡ rank n = ap rank named in
        All-map c.depends_on
          (λ d (both : (contains (names checks) d ≡ true) × (rank d < rank c.name)).
            judge_stable j k d (let below : rank d < rank c.name = both.1 in omega arith)
              (let below : rank d < rank c.name = both.1 in omega arith))
          low

    abbrev verdict : Text → CheckResult
    verdict n = judge (suc (rank n)) n

    verdict-eq :
        (c : HealthCheck F)
        → find checks c.name ≡ some c
        → All (λ d. (contains (names checks) d ≡ true) × (rank d < rank c.name)) c.depends_on
        → verdict c.name
          ≡ get_or (outcome display_path executor c (unmet (passes verdict) c.depends_on)) nothing
    unfolding judge conclude
    verdict-eq c found low =
        rw (found, conclude)
          (ap (λ l. get_or (outcome display_path executor c l) nothing)
            (unmet_congr (judge (rank c.name)) verdict c.depends_on (
              All-map c.depends_on
                (λ d (both : (contains (names checks) d ≡ true) × (rank d < rank c.name)).
                  judge_stable (rank c.name) (suc (rank d)) d both.1 (omega arith))
                low)))

    abbrev Right : HealthCheck F → Type 0
    Right c =
        (outcome display_path executor c (unmet (passes verdict) c.depends_on)
          ≡ some (verdict c.name))
        × (is_valid c (verdict c.name) ≡ true)

    verdict-Right :
        (c : HealthCheck F)
        → find checks c.name ≡ some c
        → All (λ d. (contains (names checks) d ≡ true) × (rank d < rank c.name)) c.depends_on
        → (r : CheckResult) × (work display_path executor c ≡ some r) × (is_valid c r ≡ true)
        → Right c
    verdict-Right c found low honest =
        let e = verdict-eq c found low in
        let (concluded, valid) = outcome-honest c (unmet (passes verdict) c.depends_on) honest in
        (concluded ∙ ap some (sym e), subst (λ r. is_valid c r ≡ true) (sym e) valid)

    verdict-IsVerdict :
        Distinct (names checks)
        → IsHonest display_path executor checks
        → IsVerdict display_path executor checks verdict
    verdict-IsVerdict distinct honest =
        All-map₂ checks (λ c (found : find checks c.name ≡ some c) right. right found)
          (find_own checks distinct)
          (All-map₂ {R = λ c. find checks c.name ≡ some c → Right c} checks
            (λ c low h found. verdict-Right c found low h) ranked honest)

-- A configuration with distinct names that passes the validation of its dependencies, with an
-- executor that answers for each check with its name and type and a known status, has a verdict on
-- each check, and with at least one worker every run returns these verdicts in the order of the
-- configuration: the number of workers, from one on, and the order in which the threads finish do
-- not show.
pub evaluate_of_validated :
    {F : Type 0} (display_path : Text → Text) (executor : HealthCheck F → Reply)
    (checks : List (HealthCheck F))
    → Distinct (names checks)
    → validate_dependencies checks ≡ none
    → IsHonest display_path executor checks
    → (verdict : Text → CheckResult) × IsVerdict display_path executor checks verdict
      × ((max_workers : ℕ) (picks : ℕ → ℕ)
          → 0 < max_workers
          → evaluate display_path executor max_workers checks picks
            ≡ evaluated (map verdict (names checks)))
evaluate_of_validated display_path executor checks distinct valid honest =
    let (rank, ranked) = validate_dependencies-IsRanked checks distinct valid in
    let right = verdict-IsVerdict display_path executor checks rank ranked distinct honest in
    (
      verdict display_path executor checks rank ranked,
      right,
      λ max_workers picks workers.
          evaluate-IsVerdict display_path executor max_workers rank checks _ picks workers distinct
            ranked right,
    )
