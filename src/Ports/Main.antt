-- ===== src/Ports/Main.antt =====
-- `main` of portlens.py: the test on the process name, the bounded watch and the exit status. What the
-- emission comes to is an argument; `main` catches an `OutputError` of it, and every other exception
-- leaves it.
pub mod Status
use opsforge.Prelude.{
  ℕ, zero, suc, Bool, true, false, ◌||◌, Option, none, some, List, [], ◌∷◌, Text, length, ltb,
  if◌then◌else◌,
}
use opsforge.Status.{exit_ok, exit_finding, exit_usage, exit_failure, exit_interrupted}
use opsforge.Result.{Result, value, error}
use opsforge.Output.Files.{Raised, Written, written, output_error, uncaught, Exit}
use opsforge.Ports.{PortError}
use opsforge.Ports.Display.{DisplayObservation}
use opsforge.Ports.Inspect.{Inspection}

-- How one snapshot ends.
pub data Snapshot : Type 0 where
  inspected : Result PortError Inspection → Snapshot
  interrupted crashed : Snapshot

-- All snapshots, or the exit status of the first that failed.
pub data Watched : Type 0 where
  watched : List Inspection → Watched
  stopped : (code : ℕ) → Watched

abbrev also : Inspection → Watched → Watched
also i (watched inspections) = watched (i ∷ inspections)
also i (stopped code) = stopped code

unfoldable pub after_snapshot : Snapshot → Watched → Watched
after_snapshot (inspected (value i)) rest = also i rest
after_snapshot (inspected (error e)) rest = stopped exit_failure
after_snapshot interrupted rest = stopped exit_interrupted
after_snapshot crashed rest = stopped exit_failure

abbrev pub is_matched : Inspection → Bool
is_matched i = elim i.observations [ [] ↦ false | d ∷ ds ↦ true ]

unfoldable pub any_matched : List Inspection → Bool
any_matched [] = false
any_matched (i ∷ inspections) = is_matched i || any_matched inspections

module _ (has_unsafe : Text → Bool) (snapshot : (index : ℕ) → Snapshot) (out : Written) where
  -- `for index in range(watch_count)`
  unfoldable pub watch_from : (index count : ℕ) → Watched
  unfolding after_snapshot
  watch_from index zero = watched []
  watch_from index (suc count) = after_snapshot (snapshot index) (watch_from (suc index) count)

  abbrev pub after_emission : Written → ℕ → Exit
  after_emission written code = value code
  after_emission (output_error e) code = value exit_failure
  after_emission (uncaught raised) code = error raised

  unfoldable pub finish_watch : Watched → Exit
  unfolding any_matched
  finish_watch (stopped code) = value code
  finish_watch (watched inspections) =
      after_emission out (if any_matched inspections then exit_ok else exit_finding)

  abbrev pub bad_process : Option Text → Bool
  bad_process none = false
  bad_process (some []) = true
  bad_process (some (c ∷ name)) = ltb 127 (length name) || has_unsafe (c ∷ name)

  -- `arguments.watch or 1`
  abbrev pub watch_count : Option ℕ → ℕ
  watch_count none = 1
  watch_count (some zero) = 1
  watch_count (some (suc n)) = suc n

  unfoldable pub main : (process : Option Text) (watch : Option ℕ) → Exit
  unfolding watch_from finish_watch
  main process watch =
      if bad_process process
      then value exit_usage
      else finish_watch (watch_from 0 (watch_count watch))
