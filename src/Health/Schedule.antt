-- ===== src/Health/Schedule.antt =====
-- `evaluate_config` of healthctl.py. The caller's thread starts each check once its dependencies
-- have finished, at most `max_workers` at a time, and takes the results off a queue. A started
-- thread runs `executor` once on its check, so a function says what it answers; the order in which
-- the threads finish is free, and is an argument: `picks k` is the place, among the running
-- checks, of the one whose result the caller gets in its k-th wait.
pub mod Passes
pub mod Invariant
pub mod Ordered
pub mod Waiting
pub mod Outcome
pub mod Verdict
pub mod Judge
use opsforge.Prelude.{
  ℕ, zero, suc, ◌+◌, Bool, true, false, ◌&&◌, ◌||◌, not, Option, none, some, List, [], ◌∷◌, ◌++◌,
  Text, lit, ◌==◌, join, length, all, keep, get_or, ltb, if◌then◌else◌,
}
use opsforge.Prelude.Dict
use opsforge.Prelude.Dict.{Dict}
use opsforge.Prelude.Sorting.{sorted}
use opsforge.Health.Types.{
  Status, HealthCheck, CheckResult, Failure, is_pass, is_known, check_target, error_result,
}

-- What `executor(check)` does: it returns, it raises an `Exception`, or it ends with anything else
-- (another kind of object, or an exception that is no `Exception`), which leaves no result.
pub data Reply : Type 0 where
  returned : CheckResult → Reply
  raised : Failure → Reply
  no_result : Reply

abbrev pub is_completed : Dict CheckResult → Text → Bool
is_completed completed n = elim (Dict.lookup n completed) [ none ↦ false | some r ↦ true ]

abbrev pub passed_in : Dict CheckResult → Text → Bool
passed_in completed n = elim (Dict.lookup n completed) [ none ↦ false | some r ↦ is_pass r.status ]

-- `[name for name in check.depends_on if completed[name].status != PASS]`
unfoldable pub unmet : (Text → Bool) → List Text → List Text
unmet passed depends_on = keep (λ n. not (passed n)) depends_on

pub data Evaluation : Type 0 where
  evaluated : List CheckResult → Evaluation
  invalid_result dependency_cycle : Evaluation
  -- not an outcome of the program: `evaluate` never gives it
  no_fuel : Evaluation

pub record Board (F : Type 0) : Type 0 where
  pub completed : Dict CheckResult
  pub running : List (HealthCheck F)
  pub waiting : List (HealthCheck F)

pub data Move : Type 0 where
  hold : Move
  skip : List Text → Move
  start : Move

module _ {F : Type 0} where
  -- `{check.name: index for index, check in enumerate(checks, first)}`
  pub order_from : ℕ → List (HealthCheck F) → Text → Option ℕ
  order_from first [] n = none
  order_from first (c ∷ checks) n = elim (order_from (suc first) checks n) [
    | some index ↦ some index
    | none ↦ if c.name == n then some first else none
  ]

  -- `order[result.name]`: every result has the name of a check.
  abbrev pub order : List (HealthCheck F) → CheckResult → ℕ
  order checks result = get_or (order_from 0 checks result.name) 0

  -- The running check at a place, and the others. A place past the end is the last one.
  pub take_out : ℕ → HealthCheck F → List (HealthCheck F) → HealthCheck F × List (HealthCheck F)
  take_out i c [] = (c, [])
  take_out zero c (d ∷ rest) = (c, d ∷ rest)
  take_out (suc i) c (d ∷ rest) = let (e, others) = take_out i d rest in (e, c ∷ others)

  -- The test on a result taken off the queue.
  unfoldable pub is_valid : HealthCheck F → CheckResult → Bool
  is_valid check result =
      result.name == check.name && result.type == check.type && is_known result.status

  module _ (display_path : Text → Text) where
    abbrev pub skipped_result : HealthCheck F → List Text → CheckResult
    skipped_result check names = record {
      name = check.name;
      type = check.type;
      status = Status.skipped;
      target = check_target display_path check;
      evidence = lit "dependency did not pass: " ++ join (lit ", ") names;
      severity = none;
      elapsed_seconds = 0;
      attempts = 0;
    }

    -- `work`: what the thread puts into the queue.
    unfoldable pub work : (HealthCheck F → Reply) → HealthCheck F → Option CheckResult
    work executor check = elim (executor check) [
      | returned result ↦ some result
      | raised failure ↦ some (error_result display_path check failure)
      | no_result ↦ none
    ]

  module _ (display_path : Text → Text) (executor : HealthCheck F → Reply) (max_workers : ℕ) where
    pub move_when_ready : List Text → ℕ → Move
    move_when_ready [] running = if ltb running max_workers then start else hold
    move_when_ready (n ∷ names) running = skip (n ∷ names)

    -- What the loop body does with a waiting check.
    pub decide : Board F → HealthCheck F → Move
    decide b check =
        if all (is_completed b.completed) check.depends_on
        then move_when_ready (unmet (passed_in b.completed) check.depends_on) (length b.running)
        else hold

    abbrev pub carry_out : Move → HealthCheck F → Board F → Board F
    carry_out hold check b = record b { waiting = b.waiting ++ check ∷ [] }
    carry_out (skip names) check b = record b {
      completed = Dict.put check.name (skipped_result display_path check names) b.completed;
    }
    carry_out start check b = record b { running = b.running ++ check ∷ [] }

    abbrev pub progresses : Move → Bool
    progresses hold = false
    progresses _ = true

    -- `for check in list(waiting)`: the board's `waiting` collects the checks that stay, so it is
    -- what the calls of `waiting.remove` leave (names are distinct).
    pub pass_over : List (HealthCheck F) → Board F → Bool → Board F × Bool
    pass_over [] b progressed = (b, progressed)
    pass_over (c ∷ snapshot) b progressed =
        pass_over snapshot (carry_out (decide b c) c b) (progressed || progresses (decide b c))

    abbrev pub one_pass : Board F → Board F × Bool
    one_pass b = pass_over b.waiting (record b { waiting = [] }) false

    -- `while progressed`
    pub dispatch : ℕ → Board F → Board F
    dispatch zero b = b
    dispatch (suc fuel) b =
        let (b', progressed) = one_pass b in
        let rest = dispatch fuel b' in if progressed then rest else b'

    -- A pass that makes progress leaves fewer checks waiting.
    abbrev pub dispatch_all : Board F → Board F
    dispatch_all b = dispatch (suc (length b.waiting)) b

    abbrev pub finish : List (HealthCheck F) → Board F → List (HealthCheck F) → Evaluation
    finish checks b [] = evaluated (sorted (order checks) (Dict.values b.completed))
    finish checks b (_ ∷ _) = dependency_cycle

    abbrev pub store : HealthCheck F → CheckResult → Board F → Board F
    store check result b = record b { completed = Dict.put check.name result b.completed }

    -- The test of a result, and the rest of the loop behind it.
    abbrev pub receive :
        HealthCheck F → Option CheckResult → Board F → (Board F → Evaluation) → Evaluation
    receive check none b continue = invalid_result
    receive check (some result) b continue =
        if is_valid check result then continue (store check result b) else invalid_result

    -- Behind the dispatch loop: stop when nothing runs, else wait for the next result.
    abbrev pub next :
        List (HealthCheck F)
        → ℕ
        → (Board F → Evaluation)
        → Board F
        → List (HealthCheck F)
        → Evaluation
    next checks pick continue b [] = finish checks b b.waiting
    next checks pick continue b (c ∷ rest) =
        let (check, others) = take_out pick c rest in
        receive check (work display_path executor check) (record b { running = others }) continue

    -- The outer `while True`.
    pub loop : List (HealthCheck F) → ℕ → (ℕ → ℕ) → Board F → Evaluation
    loop checks zero picks b = no_fuel
    loop checks (suc fuel) picks b =
        let b' = dispatch_all b in
        next checks (picks 0) (loop checks fuel (λ k. picks (suc k))) b' b'.running

    unfoldable pub evaluate : List (HealthCheck F) → (ℕ → ℕ) → Evaluation
    unfolding loop dispatch pass_over decide move_when_ready work take_out is_valid order_from
    evaluate checks picks =
        loop checks (suc (length checks)) picks
          (record { completed = []; running = []; waiting = checks })
