-- ===== src/Health/Schedule/Passes.antt =====
-- The dispatch loop of `evaluate_config`: what a pass keeps, and that the loop ends with nothing
-- left to start or skip.
use mathlib.Core.List.{append-nil, append_assoc}
use opsforge.Prelude.{
  ℕ, zero, suc, ◌+◌, ◌≤◌, ◌<◌, ◌≡◌, refl, ◌∙◌, sym, subst, ap, Bool, true, false, ◌||◌, List, [],
  ◌∷◌, ◌++◌, arith, Text, length, length-append, All, Bool-cases, inl, inr,
}
use opsforge.Health.Types.{HealthCheck}
use opsforge.Health.Schedule.{
  Reply, Board, Move, hold, skip, start, decide, carry_out, progresses, pass_over, one_pass,
  dispatch,
}

module _ {F : Type 0} (display_path : Text → Text) (executor : HealthCheck F → Reply)
    (max_workers : ℕ) where
  abbrev pub act : HealthCheck F → Board F → Board F
  act c b =
      carry_out display_path executor max_workers (decide display_path executor max_workers b c) c b

  -- A fact about the board and what is left of the snapshot, kept by one check, is kept by a pass.
  pub pass_rule :
      (P : Board F → List (HealthCheck F) → Type 0)
      → ((b : Board F) (c : HealthCheck F) (rest : List (HealthCheck F))
          → P b (c ∷ rest)
          → P (act c b) rest)
      → (rest : List (HealthCheck F)) (b : Board F) (progressed : Bool) → P b rest
      → P (pass_over display_path executor max_workers rest b progressed).0 []
  unfolding pass_over
  pass_rule P keep [] b progressed h = h
  pass_rule P keep (c ∷ rest) b progressed h = pass_rule P keep rest (act c b) _ (keep b c rest h)

  module _ (P : Board F → List (HealthCheck F) → Type 0)
      (keep : (b : Board F) (c : HealthCheck F) (rest : List (HealthCheck F))
        → P b (c ∷ rest)
        → P (act c b) rest)
      (restart : (b : Board F) → P b [] → P (record b { waiting = [] }) b.waiting) where
    pub dispatch_rule :
        (fuel : ℕ) (b : Board F) → P b [] → P (dispatch display_path executor max_workers fuel b) []
    unfolding dispatch
    dispatch_rule zero b h = h
    dispatch_rule (suc fuel) b h =
        let kept = pass_rule P keep b.waiting (record b { waiting = [] }) false (restart b h) in
        elim (Bool-cases (one_pass display_path executor max_workers b).1) [
          | inl more ↦ rw more (dispatch_rule fuel _ kept)
          | inr done ↦ rw done kept
        ]

  abbrev decision : Board F → HealthCheck F → Move
  decision = decide display_path executor max_workers

  abbrev pass : List (HealthCheck F) → Board F → Bool → Board F × Bool
  pass = pass_over display_path executor max_workers

  abbrev bit : Bool → ℕ
  bit true = 1
  bit false = 0

  carry_out-waiting :
      (m : Move) (c : HealthCheck F) (b : Board F) (p : Bool)
      → length (carry_out display_path executor max_workers m c b).waiting
          + bit (p || progresses display_path executor max_workers m)
        ≤ length b.waiting + 1 + bit p
  carry_out-waiting hold c b p = ground (arith, length-append b.waiting (c ∷ []))
  carry_out-waiting (skip names) c b p = ground arith
  carry_out-waiting start c b p = ground arith

  -- A pass that makes progress leaves fewer checks waiting.
  pass-shrinks :
      (rest : List (HealthCheck F)) (b : Board F) (p : Bool)
      → length (pass rest b p).0.waiting + bit (pass rest b p).1
        ≤ length b.waiting + length rest + bit p
  unfolding pass_over
  pass-shrinks [] b p = omega arith
  pass-shrinks (c ∷ rest) b p = omega (
    arith,
    carry_out-waiting (decision b c) c b p,
    pass-shrinks rest (act c b) (p || progresses display_path executor max_workers (decision b c)),
  )

  -- Nothing that waits can be started or skipped.
  abbrev pub Quiet : Board F → Type 0
  Quiet b = All (λ c. decision b c ≡ hold) b.waiting

  abbrev postpone : Board F → List (HealthCheck F) → Board F
  postpone b cs = record b { waiting = b.waiting ++ cs }

  abbrev done_by : Move → HealthCheck F → Board F → Board F
  done_by = carry_out display_path executor max_workers

  idle_step :
      (m : Move) (b r : Board F) (c : HealthCheck F) (rest : List (HealthCheck F)) (p : Bool)
      → decision b c ≡ m
      → ((p || progresses display_path executor max_workers m) ≡ false)
        × All (λ d. decision (done_by m c b) d ≡ hold) rest
        × (r ≡ postpone (done_by m c b) rest)
      → (p ≡ false) × All (λ d. decision b d ≡ hold) (c ∷ rest) × (r ≡ postpone b (c ∷ rest))
  unfolding decide
  idle_step hold b r c rest p e (quiet, held, same) = (
    ground arith,
    (e, held),
    same ∙ ap (λ w. record b { waiting = w }) (append_assoc b.waiting (c ∷ []) rest),
  )
  idle_step (skip names) b r c rest p e (quiet, held, same) = ground arith
  idle_step start b r c rest p e (quiet, held, same) = ground arith

  -- A pass without progress has held every check, and changed nothing.
  pass-idle :
      (rest : List (HealthCheck F)) (b : Board F) (p : Bool)
      → (pass rest b p).1 ≡ false
      → (p ≡ false) × All (λ c. decision b c ≡ hold) rest × ((pass rest b p).0 ≡ postpone b rest)
  unfolding pass_over
  pass-idle [] b p h = (h, tt, ap (λ w. record b { waiting = w }) (sym (append-nil b.waiting)))
  pass-idle (c ∷ rest) b p h = idle_step (decision b c) b _ c rest p refl (
      pass-idle rest (act c b) (p || progresses display_path executor max_workers (decision b c)) h)

  Quiet-of_idle :
      (b : Board F) (r : Board F) → r ≡ b → All (λ c. decision b c ≡ hold) b.waiting → Quiet r
  Quiet-of_idle b r e h = subst Quiet (sym e) h

  -- With more fuel than checks wait, the dispatch loop ends by its test: nothing is left to do.
  pub dispatch-Quiet :
      (fuel : ℕ) (b : Board F)
      → length b.waiting < fuel
      → Quiet (dispatch display_path executor max_workers fuel b)
  unfolding dispatch
  dispatch-Quiet zero b h = absurd (omega arith)
  dispatch-Quiet (suc fuel) b h =
      let shrinks = pass-shrinks b.waiting (record b { waiting = [] }) false in
      elim (Bool-cases (one_pass display_path executor max_workers b).1) [
        | inl more ↦ rw more (
            dispatch-Quiet fuel (one_pass display_path executor max_workers b).0 (
              let full : bit (pass b.waiting (record b { waiting = [] }) false).1 ≡ 1 =
                ap bit more in
              omega arith))
        | inr done ↦
            let (_, held, same) = pass-idle b.waiting (record b { waiting = [] }) false done in
            rw done (Quiet-of_idle b _ same (unfold decide in held))
      ]
