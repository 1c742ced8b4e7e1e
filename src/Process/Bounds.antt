-- ===== src/Process/Bounds.antt =====
-- The output of a child in common/process.py is bounded.
use opsforge.Prelude.{
  ℕ, ◌≤◌, ◌≡◌, refl, Bool, true, Option, none, some, List, [], ◌∷◌, ◌++◌, Text, ◌==◌, length,
  length-take, drop, ltb, arith, Bool-cases, inl, inr,
}
use opsforge.Process.{
  Event, stdout_read, stderr_read, stdin_wrote, broken_pipe, blocked, Round, Streams, Outcome,
  finished, Step, going, cut, over_limit, wrote, read_stdout, read_stderr, take_event, go_on,
  take_events, wait_for, after_round, is_open, run_rounds, run_bounded,
}

module _ (max_output_bytes : ℕ) (truncate_stdout : Bool) (killed : ℕ) (waited : Option ℕ) where
  abbrev Fits : Streams → Type 0
  Fits s = (length s.stdout ≤ max_output_bytes) × (length s.stderr ≤ max_output_bytes)

  abbrev StepFits : Step → Type 0
  StepFits (going s) = Fits s
  StepFits (cut s) = Fits s × (truncate_stdout ≡ true) × (length s.stdout ≡ max_output_bytes)
  StepFits (over_limit on_stdout) = Unit

  -- A result is within the bounds, and truncated only if that is allowed, and then full.
  abbrev pub IsBounded : Outcome → Type 0
  IsBounded (finished returncode stdout stderr truncated) =
      (length stdout ≤ max_output_bytes)
      × (length stderr ≤ max_output_bytes)
      × (truncated ≡ true → (truncate_stdout ≡ true) × (length stdout ≡ max_output_bytes))
  IsBounded _ = Unit

  read_stdout-StepFits :
      (chunk : Text) (s : Streams)
      → Fits s
      → StepFits (read_stdout max_output_bytes truncate_stdout killed waited chunk s)
  unfolding read_stdout
  read_stdout-StepFits chunk s h = elim (Bool-cases (chunk == [])) [
    | inl ended ↦ rw ended h
    | inr more ↦ elim (Bool-cases (ltb max_output_bytes (length (s.stdout ++ chunk)))) [
      | inr fits ↦ rw (more, fits) (ground arith, h.1)
      | inl long ↦ elim (Bool-cases truncate_stdout) [
        | inl cuts ↦
            let size = length-take max_output_bytes (s.stdout ++ chunk) in
            rw (more, long, cuts) ((ground arith, h.1), refl, ground arith)
        | inr refuses ↦ rw (more, long, refuses) tt
      ]
    ]
  ]

  read_stderr-StepFits :
      (chunk : Text) (s : Streams)
      → Fits s
      → StepFits (read_stderr max_output_bytes truncate_stdout killed waited chunk s)
  unfolding read_stderr
  read_stderr-StepFits chunk s h = elim (Bool-cases (chunk == [])) [
    | inl ended ↦ rw ended h
    | inr more ↦ elim (Bool-cases (ltb max_output_bytes (length (s.stderr ++ chunk)))) [
      | inr fits ↦ rw (more, fits) (h.0, ground arith)
      | inl long ↦ rw (more, long) tt
    ]
  ]

  wrote-Fits : (pending : Text) (s : Streams) → Fits s → Fits (wrote pending s)
  wrote-Fits [] s h = h
  wrote-Fits (c ∷ pending) s h = h

  take_event-StepFits :
      (e : Event) (s : Streams)
      → Fits s
      → StepFits (take_event max_output_bytes truncate_stdout killed waited e s)
  unfolding take_event
  take_event-StepFits (stdout_read chunk) s h = read_stdout-StepFits chunk s h
  take_event-StepFits (stderr_read chunk) s h = read_stderr-StepFits chunk s h
  take_event-StepFits (stdin_wrote n) s h = wrote-Fits (drop n s.pending) s h
  take_event-StepFits broken_pipe s h = wrote-Fits [] s h
  take_event-StepFits blocked s h = h

  go_on-StepFits :
      (f : Streams → Step) (step : Step)
      → ((s : Streams) → Fits s → StepFits (f s))
      → StepFits step
      → StepFits (go_on max_output_bytes truncate_stdout killed waited f step)
  go_on-StepFits f (going s) h k = h s k
  go_on-StepFits f (cut s) h k = k
  go_on-StepFits f (over_limit b) h k = tt

  take_events-StepFits :
      (events : List Event) (s : Streams)
      → Fits s
      → StepFits (take_events max_output_bytes truncate_stdout killed waited events s)
  unfolding take_events
  take_events-StepFits [] s h = h
  take_events-StepFits (e ∷ events) s h =
      go_on-StepFits _ (take_event max_output_bytes truncate_stdout killed waited e s)
        (take_events-StepFits events) (take_event-StepFits e s h)

  wait_for-IsBounded :
      (w : Option ℕ) (s : Streams)
      → Fits s
      → IsBounded (wait_for max_output_bytes truncate_stdout killed waited w s)
  unfolding wait_for
  wait_for-IsBounded none s h = tt
  wait_for-IsBounded (some returncode) s h = (h.0, h.1, λ e. cc)

  after_round-IsBounded :
      (f : Streams → Outcome) (step : Step)
      → ((s : Streams) → Fits s → IsBounded (f s))
      → StepFits step
      → IsBounded (after_round max_output_bytes truncate_stdout killed waited f step)
  after_round-IsBounded f (going s) h k = h s k
  after_round-IsBounded f (cut s) h ((out, err), cuts, full) = (out, err, λ e. (cuts, full))
  after_round-IsBounded f (over_limit b) h k = tt

  run_rounds-IsBounded :
      (rounds : List Round) (s : Streams)
      → Fits s
      → IsBounded (run_rounds max_output_bytes truncate_stdout killed waited rounds s)
  unfolding run_rounds
  run_rounds-IsBounded [] s h =
      elim (Bool-cases (is_open max_output_bytes truncate_stdout killed waited s)) [
        | inl active ↦ rw active tt
        | inr over ↦ rw over (wait_for-IsBounded waited s h)
      ]
  run_rounds-IsBounded (r ∷ rounds) s h =
      elim (Bool-cases (is_open max_output_bytes truncate_stdout killed waited s)) [
        | inr over ↦ rw over (wait_for-IsBounded waited s h)
        | inl active ↦ elim (Bool-cases r.is_late) [
          | inl late ↦ rw (active, late) tt
          | inr early ↦
              rw (active, early)
                (after_round-IsBounded _ _ (run_rounds-IsBounded rounds)
                  (take_events-StepFits r.events s h))
        ]
      ]

  -- A result's output streams are within the byte bound, and it is truncated only where that is
  -- allowed, with its standard output at the bound.
  pub run_bounded-IsBounded :
      (stdin_data : Text) (rounds : List Round)
      → IsBounded (run_bounded max_output_bytes truncate_stdout killed waited stdin_data rounds)
  unfolding run_bounded
  run_bounded-IsBounded stdin_data rounds = run_rounds-IsBounded rounds _ (omega arith, omega arith)
