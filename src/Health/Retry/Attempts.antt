-- ===== src/Health/Retry/Attempts.antt =====
-- What the retries of healthctl.py amount to.
use opsforge.Prelude.{
  ℕ, zero, suc, ◌+◌, ◌≤◌, ◌<◌, ◌≡◌, ◌≢◌, ◌↔◌, ◌⊎◌, ltb, ltb→lt, sym, subst, refl, Bool, true, false,
  Option, some, arith, Text, Bool-cases, inl, inr,
}
use opsforge.Health.Types.{Severity, Status, HealthCheck, CheckResult, is_pass, is_fail}
use opsforge.Health.Schedule.{Reply}
use opsforge.Health.Retry.{
  Attempt, finished, escaped, settled_severity, attempt, settle, retry, run_check,
}

-- A result's severity says what its status established: OK for PASS, WARNING or CRITICAL for FAIL
-- (or what the check gives), nothing for the rest.
abbrev pub IsSettled : Severity → CheckResult → Type 0
IsSettled own r =
    ((is_pass r.status ≡ true) ↔ (r.severity ≡ some Severity.ok))
    × ((is_fail r.status ≡ true)
        ↔ ((r.severity ≡ some Severity.warning) ⊎ (r.severity ≡ some Severity.critical)))

settled_severity-IsSettled :
    (own : Severity) (status : Status) (s : Option Severity) (r : CheckResult)
    → own ≢ Severity.ok
    → r.status ≡ status
    → r.severity ≡ settled_severity own status s
    → IsSettled own r
unfolding settled_severity
settled_severity-IsSettled own status s r h e f = ground arith

Attempt-cases : (a : Attempt) → (a ≡ escaped) ⊎ ((r : CheckResult) × (a ≡ finished r))
Attempt-cases escaped = inl refl
Attempt-cases (finished r) = inr (r, refl)

module _ {F : Type 0} (display_path : Text → Text) (check : HealthCheck F) (probe : ℕ → Reply) where
  abbrev passes_at : ℕ → Bool
  passes_at k = elim (attempt display_path check probe k) [
    | finished r ↦ is_pass r.status
    | escaped ↦ false
  ]

  -- The attempt that decides: no earlier one passed or let an exception up, and it passed or was the last.
  pub record Decides (first last k : ℕ) (result : CheckResult) : Type 0 where
    pub from_first : first ≤ k
    pub to_last : k ≤ last
    pub tried : CheckResult
    pub ended : attempt display_path check probe k ≡ finished tried
    pub earlier : (j : ℕ) → first ≤ j → j < k → passes_at j ≡ false
    pub last_or_pass : (is_pass tried.status ≡ true) ⊎ (k ≡ last)
    pub kept_name : result.name ≡ tried.name
    pub kept_type : result.type ≡ tried.type
    pub kept_status : result.status ≡ tried.status
    pub kept_target : result.target ≡ tried.target
    pub kept_evidence : result.evidence ≡ tried.evidence
    pub counted : result.attempts ≡ k

  decided :
      (elapsed k last : ℕ) (r result : CheckResult)
      → attempt display_path check probe k ≡ finished r
      → some (settle display_path check probe elapsed k r) ≡ some result
      → k ≤ last
      → (is_pass r.status ≡ true) ⊎ (k ≡ last)
      → Decides k last k result
  decided elapsed k last r result ended e le end = record {
    from_first = omega arith;
    to_last = le;
    tried = r;
    ended = ended;
    earlier = λ j low high. absurd (omega arith);
    last_or_pass = end;
    kept_name = cc;
    kept_type = cc;
    kept_status = cc;
    kept_target = cc;
    kept_evidence = cc;
    counted = cc;
  }

  later :
      (k more j : ℕ) (r result : CheckResult)
      → attempt display_path check probe k ≡ finished r
      → is_pass r.status ≡ false
      → Decides (k + 1) (k + 1 + more) j result
      → Decides k (k + suc more) j result
  later k more j r result ended bad d = record {
    from_first = omega (arith, d.from_first);
    to_last = omega (arith, d.to_last);
    tried = d.tried;
    ended = d.ended;
    earlier = λ i low high. elim (Bool-cases (ltb k i)) [
      | inl above ↦ d.earlier i (let lt = ltb→lt k i above in omega arith) high
      | inr below ↦
          let same : i ≡ k = ground arith in
          subst (λ m. passes_at m ≡ false) (sym same) (rw (ended, passes_at) bad)
    ];
    last_or_pass = elim d.last_or_pass [ inl p ↦ inl p | inr e ↦ inr (omega arith) ];
    kept_name = d.kept_name;
    kept_type = d.kept_type;
    kept_status = d.kept_status;
    kept_target = d.kept_target;
    kept_evidence = d.kept_evidence;
    counted = d.counted;
  }

  retry-Decides :
      (elapsed more k : ℕ) (result : CheckResult)
      → retry display_path check probe elapsed more k ≡ some result
      → (j : ℕ) × Decides k (k + more) j result
  unfolding retry
  retry-Decides elapsed zero k result h =
      elim (Attempt-cases (attempt display_path check probe k)) [
        | inl gone ↦ cc (rw (gone, retry) at h)
        | inr (r, ended) ↦ (
          k,
          decided elapsed k (k + 0) r result ended (rw (ended, retry) at h) (omega arith)
              (inr (omega arith)),
        )
      ]
  retry-Decides elapsed (suc more) k result h =
      elim (Attempt-cases (attempt display_path check probe k)) [
        | inl gone ↦ cc (rw (gone, retry) at h)
        | inr (r, ended) ↦ elim (Bool-cases (is_pass r.status)) [
          | inl good ↦ (
            k,
            decided elapsed k (k + suc more) r result ended (rw good at (rw (ended, retry) at h))
                (omega arith) (inl good),
          )
          | inr bad ↦
              let (j, d) =
                retry-Decides elapsed more (k + 1) result (rw bad at (rw (ended, retry) at h)) in
              (j, later k more j r result ended bad d)
        ]
      ]

  retry_returns :
      (elapsed more k : ℕ)
      → check.severity ≢ Severity.ok
      → ((j : ℕ) → attempt display_path check probe j ≢ escaped)
      → (result : CheckResult) × (retry display_path check probe elapsed more k ≡ some result)
        × IsSettled check.severity result
  unfolding retry
  retry_returns elapsed zero k own calm =
      elim (Attempt-cases (attempt display_path check probe k)) [
        | inl gone ↦ absurd (calm k gone)
        | inr (r, ended) ↦ (
          settle display_path check probe elapsed k r,
          rw (ended, retry),
          settled_severity-IsSettled check.severity r.status r.severity
              (settle display_path check probe elapsed k r) own refl refl,
        )
      ]
  retry_returns elapsed (suc more) k own calm =
      elim (Attempt-cases (attempt display_path check probe k)) [
        | inl gone ↦ absurd (calm k gone)
        | inr (r, ended) ↦ elim (Bool-cases (is_pass r.status)) [
          | inl good ↦ (
            settle display_path check probe elapsed k r,
            rw (ended, retry) (rw good),
            settled_severity-IsSettled check.severity r.status r.severity
                (settle display_path check probe elapsed k r) own refl refl,
          )
          | inr bad ↦
              let (result, e, settled) = retry_returns elapsed more (k + 1) own calm in
              (result, rw (ended, retry) (rw bad e), settled)
        ]
      ]

  -- A result of `run_check` has the name, the type, the status, the target and the evidence of the
  -- first attempt that passes, or of the last of the retries + 1 attempts if none does; it counts
  -- the attempts made.
  pub run_check-Decides :
      (elapsed : ℕ) (result : CheckResult)
      → run_check display_path check probe elapsed ≡ some result
      → (k : ℕ) × Decides 1 (1 + check.retries) k result
  unfolding run_check
  run_check-Decides elapsed result h = retry-Decides elapsed check.retries 1 result h

  -- If the check's severity is not OK and no attempt lets an exception go on up, `run_check`
  -- returns, and the severity of its result says what the status established.
  pub run_check_returns :
      (elapsed : ℕ)
      → check.severity ≢ Severity.ok
      → ((k : ℕ) → attempt display_path check probe k ≢ escaped)
      → (result : CheckResult) × (run_check display_path check probe elapsed ≡ some result)
        × IsSettled check.severity result
  unfolding run_check
  run_check_returns elapsed own calm = retry_returns elapsed check.retries 1 own calm
