-- ===== src/Health/Schedule/Invariant.antt =====
-- The invariant of `evaluate_config`: every check is completed, running or waiting, exactly once,
-- and what is completed is what the verdict says.
use opsforge.Prelude.{
  ℕ, ◌+◌, ◌≤◌, ◌<◌, ◌≡◌, ◌≢◌, refl, ◌∙◌, sym, ap, Bool, true, false, Option, some, List, [], ◌∷◌,
  ◌++◌, arith, Text, ◌==◌, eq_iff, eq_refl, contains, length, all, All, Bool-cases, inl, inr,
}
use opsforge.Prelude.Dict
use opsforge.Prelude.Dict.{Dict, put_of_absent}
use opsforge.Prelude.Counting.{count, count-append, absent_of_count}
use opsforge.Health.Types.{HealthCheck, CheckResult, names, is_pass}
use opsforge.Health.Names.{names-append}
use opsforge.Health.Schedule.{
  Reply, Board, Move, hold, skip, start, unmet, is_completed, passed_in, is_valid, work,
  skipped_result, move_when_ready, decide, carry_out, dispatch,
}
use opsforge.Health.Schedule.Passes.{act, dispatch_rule}

pub keys-append : {V : Type 0} (d e : Dict V) → Dict.keys (d ++ e) ≡ Dict.keys d ++ Dict.keys e
unfolding Dict.keys
keys-append [] e = refl
keys-append ((k, v) ∷ d) e = ap (λ l. k ∷ l) (keys-append d e)

pub All-append {ℓ} :
    {A : Type ℓ} (P : A → Type 0) (xs ys : List A) → All P xs → All P ys → All P (xs ++ ys)
All-append P [] ys h k = k
All-append P (x ∷ xs) ys h k = (h.0, All-append P xs ys h.1 k)

-- Every completed result is the one that `verdict` gives for its name.
abbrev pub Agrees : (Text → CheckResult) → Dict CheckResult → Type 0
Agrees verdict = All (λ entry. entry.1 ≡ verdict entry.0)

lookup-Agrees :
    (verdict : Text → CheckResult) (d : Dict CheckResult) (n : Text)
    → Agrees verdict d
    → is_completed d n ≡ true
    → Dict.lookup n d ≡ some (verdict n)
unfolding Dict.lookup
lookup-Agrees verdict [] n h e = cc
lookup-Agrees verdict ((k, v) ∷ d) n h e = elim (Bool-cases (k == n)) [
  | inl same ↦ rw same (ap some (h.0 ∙ ap verdict ((eq_iff k n).0 same)))
  | inr other ↦ rw other (lookup-Agrees verdict d n h.1 (rw (other, is_completed) at e))
]

abbrev pub passes : (Text → CheckResult) → Text → Bool
passes verdict n = is_pass (verdict n).status

passed_in-Agrees :
    (verdict : Text → CheckResult) (d : Dict CheckResult) (n : Text)
    → Agrees verdict d
    → is_completed d n ≡ true
    → passed_in d n ≡ passes verdict n
passed_in-Agrees verdict d n h e = rw (lookup-Agrees verdict d n h e, passed_in)

-- With all dependencies completed the unmet ones are those that the verdict does not pass.
unmet-Agrees :
    (verdict : Text → CheckResult) (d : Dict CheckResult) (deps : List Text)
    → Agrees verdict d
    → all (is_completed d) deps ≡ true
    → unmet (passed_in d) deps ≡ unmet (passes verdict) deps
unfolding unmet
unmet-Agrees verdict d [] h e = refl
unmet-Agrees verdict d (n ∷ deps) h e = elim (Bool-cases (is_completed d n)) [
  | inl one ↦ rw (passed_in-Agrees verdict d n h one, unmet-Agrees verdict d deps h (rw one at e))
  | inr gap ↦ cc
]

module _ {F : Type 0} (display_path : Text → Text) (executor : HealthCheck F → Reply) where
  -- What becomes of a check whose dependencies finished, from those of them that did not pass.
  abbrev pub outcome : HealthCheck F → List Text → Option CheckResult
  outcome c [] = work display_path executor c
  outcome c (n ∷ ns) = some (skipped_result display_path c (n ∷ ns))

  module _ (verdict : Text → CheckResult) (rank : Text → ℕ) (known : List Text) where
    -- `verdict` is right about a check, given that it is right about its dependencies.
    pub record IsJudged (c : HealthCheck F) : Type 0 where
      pub judged : outcome c (unmet (passes verdict) c.depends_on) ≡ some (verdict c.name)
      pub valid : is_valid c (verdict c.name) ≡ true
      pub ranked : All (λ d. (contains known d ≡ true) × (rank d < rank c.name)) c.depends_on

    -- The check runs, and its result will be the verdict.
    pub record IsDue (c : HealthCheck F) : Type 0 where
      pub answers : work display_path executor c ≡ some (verdict c.name)
      pub valid : is_valid c (verdict c.name) ≡ true

    pub record Inv (b : Board F) (rest : List (HealthCheck F)) : Type 0 where
      pub counted :
          (n : Text)
          → count n (Dict.keys b.completed)
              + count n (names b.running)
              + count n (names b.waiting)
              + count n (names rest)
            ≡ count n known
      pub agrees : Agrees verdict b.completed
      pub due : All IsDue b.running
      pub waiting_judged : All IsJudged b.waiting
      pub rest_judged : All IsJudged rest

    module _ (distinct : (n : Text) → count n known ≤ 1) where
      hold-Inv :
          (b : Board F) (c : HealthCheck F) (rest : List (HealthCheck F))
          → Inv b (c ∷ rest)
          → Inv (record b { waiting = b.waiting ++ c ∷ [] }) rest
      unfolding count
      hold-Inv b c rest h = record {
        counted = λ n.
            rw names-append
              (ground (arith, h.counted n, count-append n (names b.waiting) (c.name ∷ [])));
        agrees = h.agrees;
        due = h.due;
        waiting_judged =
            All-append IsJudged b.waiting (c ∷ []) h.waiting_judged (h.rest_judged.0, tt);
        rest_judged = h.rest_judged.1;
      }

      start-Inv :
          (b : Board F) (c : HealthCheck F) (rest : List (HealthCheck F))
          → Inv b (c ∷ rest)
          → unmet (passes verdict) c.depends_on ≡ []
          → Inv (record b { running = b.running ++ c ∷ [] }) rest
      unfolding count
      start-Inv b c rest h e = record {
        counted = λ n.
            rw names-append
              (ground (arith, h.counted n, count-append n (names b.running) (c.name ∷ [])));
        agrees = h.agrees;
        due = All-append IsDue b.running (c ∷ []) h.due (
          record { answers = rw e at (h.rest_judged.0).judged; valid = (h.rest_judged.0).valid },
          tt,
        );
        waiting_judged = h.waiting_judged;
        rest_judged = h.rest_judged.1;
      }

      -- A name that is still to come is no key yet.
      not_completed :
          (b : Board F) (c : HealthCheck F) (rest : List (HealthCheck F))
          → Inv b (c ∷ rest)
          → contains (Dict.keys b.completed) c.name ≡ false
      unfolding count
      not_completed b c rest h =
          absent_of_count c.name (Dict.keys b.completed)
            (ground (arith, h.counted c.name, distinct c.name, eq_refl c.name))

      skip-Inv :
          (b : Board F) (c : HealthCheck F) (rest : List (HealthCheck F)) (r : CheckResult)
          → Inv b (c ∷ rest)
          → r ≡ verdict c.name
          → Inv (record b { completed = Dict.put c.name r b.completed }) rest
      unfolding count Dict.keys
      skip-Inv b c rest r h e =
          rw (put_of_absent c.name r b.completed (not_completed b c rest h)) (record {
            counted = λ n.
                rw keys-append (
                  ground
                    (arith, h.counted n, count-append n (Dict.keys b.completed) (c.name ∷ [])));
            agrees = All-append _ b.completed ((c.name, r) ∷ []) h.agrees (e, tt);
            due = h.due;
            waiting_judged = h.waiting_judged;
            rest_judged = h.rest_judged.1;
          })

      module _ (max_workers : ℕ) where
        decision : Board F → HealthCheck F → Move
        unfolding decide
        decision = decide display_path executor max_workers

        move_when_ready-skip :
            (l : List Text) (k : ℕ) (ns : List Text) (c : HealthCheck F)
            → move_when_ready display_path executor max_workers l k ≡ skip ns
            → outcome c l ≡ some (skipped_result display_path c ns)
        unfolding move_when_ready
        move_when_ready-skip [] k ns c e = ground arith
        move_when_ready-skip (n ∷ l) k ns c e = cc

        move_when_ready-start :
            (l : List Text) (k : ℕ)
            → move_when_ready display_path executor max_workers l k ≡ start
            → l ≡ []
        unfolding move_when_ready
        move_when_ready-start [] k e = refl
        move_when_ready-start (n ∷ l) k e = cc

        -- A check that is not held has all of its dependencies completed.
        decide-ready :
            (b : Board F) (c : HealthCheck F)
            → decision b c ≢ hold
            → (all (is_completed b.completed) c.depends_on ≡ true)
              × (decision b c
                  ≡ move_when_ready display_path executor max_workers
                      (unmet (passed_in b.completed) c.depends_on)
                      (length b.running))
        unfolding decision
        decide-ready b c h = elim (Bool-cases (all (is_completed b.completed) c.depends_on)) [
          | inl ready ↦ (ready, rw (ready, decide))
          | inr waits ↦ absurd (h (rw (waits, decide)))
        ]

        step_by :
            (m : Move) (b : Board F) (c : HealthCheck F) (rest : List (HealthCheck F))
            → decision b c ≡ m
            → Inv b (c ∷ rest)
            → Inv (carry_out display_path executor max_workers m c b) rest
        step_by hold b c rest e h = hold-Inv b c rest h
        step_by (skip ns) b c rest e h =
            let (ready, moved) = decide-ready b c (λ k. cc) in
            let same = unmet-Agrees verdict b.completed c.depends_on h.agrees ready in
            skip-Inv b c rest (skipped_result display_path c ns) h (
              let skipped =
                move_when_ready-skip (unmet (passed_in b.completed) c.depends_on) (length b.running)
                  ns c (sym moved ∙ e) in
              cc (skipped, same, (h.rest_judged.0).judged))
        step_by start b c rest e h =
            let (ready, moved) = decide-ready b c (λ k. cc) in
            let same = unmet-Agrees verdict b.completed c.depends_on h.agrees ready in
            start-Inv b c rest h (
              sym same
              ∙ move_when_ready-start (unmet (passed_in b.completed) c.depends_on)
                  (length b.running) (sym moved ∙ e))

        step-Inv :
            (b : Board F) (c : HealthCheck F) (rest : List (HealthCheck F))
            → Inv b (c ∷ rest)
            → Inv (act display_path executor max_workers c b) rest
        unfolding decision
        step-Inv b c rest h = step_by (decide display_path executor max_workers b c) b c rest refl h

        restart-Inv : (b : Board F) → Inv b [] → Inv (record b { waiting = [] }) b.waiting
        unfolding count
        restart-Inv b h = record {
          counted = λ n. omega (arith, h.counted n);
          agrees = h.agrees;
          due = h.due;
          waiting_judged = tt;
          rest_judged = h.waiting_judged;
        }

        -- The dispatch loop keeps the invariant.
        pub dispatch-Inv :
            (fuel : ℕ) (b : Board F)
            → Inv b []
            → Inv (dispatch display_path executor max_workers fuel b) []
        dispatch-Inv = dispatch_rule display_path executor max_workers (Inv) step-Inv restart-Inv
