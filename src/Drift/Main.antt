-- ===== src/Drift/Main.antt =====
-- `main` of configdiff.py from the parsed arguments on: the tests on them, the mode, the comparison,
-- and the exit status or the exception that leaves it. What the emission of the output comes to is an argument.
pub mod Status
use opsforge.Prelude.{
  ℕ, Bool, true, false, ◌&&◌, ◌||◌, not, Option, none, some, List, [], ◌∷◌, map, Text, length, any,
  split_on, ltb, if◌then◌else◌,
}
use opsforge.Status.{exit_ok, exit_finding, exit_usage, exit_failure, exit_interrupted}
use opsforge.Result.{Result, value, error, ◌>>=◌}
use opsforge.Output.Files.{
  Raised, os_error, keyboard_interrupt, base_exception, Written, written, output_error, uncaught,
  Exit,
}
use opsforge.Drift.{Failure, invalid_target, observation}
use opsforge.Drift.Directory.{DirectoryComparison, is_empty}
use opsforge.Drift.Modes.{Mode, exact, whitespace, comments, json, metadata, ComparisonResult}

pub record Arguments : Type 0 where
  pub keys : Option Text
  pub json_semantic : Bool
  pub ignore_whitespace : Bool
  pub ignore_comments : Bool
  pub metadata_only : Bool
  pub unified : Bool
  pub directory : Bool

abbrev is_given : Option Text → Bool
is_given none = false
is_given (some text) = true

-- `tuple(item.strip() for item in arguments.keys.split(","))`
unfoldable pub selected_keys : (strip : Text → Text) → Option Text → List Text
selected_keys strip none = []
selected_keys strip (some text) = map strip (split_on 44 text)

abbrev pub is_bad_key : Text → Bool
is_bad_key [] = true
is_bad_key (c ∷ key) = ltb 255 (length key)

-- Whether `parser.error` is called.
unfoldable pub usage_error : (strip : Text → Text) → Arguments → Bool
unfolding selected_keys
usage_error strip arguments =
    (is_given arguments.keys && not arguments.json_semantic)
    || ((arguments.directory
          && (arguments.unified
              || arguments.json_semantic
              || arguments.ignore_comments
              || arguments.ignore_whitespace
              || arguments.metadata_only
              || is_given arguments.keys))
        || (ltb 64 (length (selected_keys strip arguments.keys))
            || any is_bad_key (selected_keys strip arguments.keys)))

unfoldable pub mode_of : Arguments → Mode
mode_of arguments =
    if arguments.ignore_whitespace
    then whitespace
    else if arguments.ignore_comments
    then comments
    else if arguments.json_semantic
    then json
    else if arguments.metadata_only
    then metadata
    else exact

-- How a comparison may end: with a result, an exception, or an interruption.
pub data Compared (A : Type 0) : Type 0 where
  compared : Result Failure A → Compared A
  interrupted : Compared A

-- `EXIT_FINDING if drift else EXIT_FAILURE if incomplete else EXIT_OK`
abbrev pub exit_code : (drift incomplete : Bool) → ℕ
exit_code drift incomplete =
    if drift then exit_finding else if incomplete then exit_failure else exit_ok

unfoldable pub failure_code : Failure → ℕ
failure_code (invalid_target reason e) = exit_usage
failure_code (observation reason e) = exit_failure
failure_code (Failure.uncaught e) = exit_failure

-- The end of `main`: an exception that is neither an `OutputError` nor a `KeyboardInterrupt` leaves it.
unfoldable pub emit : Written → ℕ → Exit
emit written code = value code
emit (output_error e) code = value exit_failure
emit (uncaught keyboard_interrupt) code = value exit_interrupted
emit (uncaught raised) code = error raised

unfoldable pub finish_directory : Written → Compared DirectoryComparison → Exit
unfolding emit failure_code
finish_directory out interrupted = value exit_interrupted
finish_directory out (compared (error failure)) = value (failure_code failure)
finish_directory out (compared (value r)) =
    emit out (exit_code r.drift_detected (not (is_empty r.unexamined) && not r.drift_detected))

unfoldable pub finish_files : Written → Compared ComparisonResult → Exit
unfolding emit failure_code
finish_files out interrupted = value exit_interrupted
finish_files out (compared (error failure)) = value (failure_code failure)
finish_files out (compared (value r)) = emit out (exit_code r.drift_detected false)

module _ (strip : Text → Text) (compare_trees : Compared DirectoryComparison)
    (compare_files : Mode → List Text → Compared ComparisonResult) (out : Written) where
  unfoldable pub main : Arguments → Exit
  unfolding usage_error mode_of finish_directory finish_files
  main arguments =
      if usage_error strip arguments
      then value exit_usage
      else if arguments.directory
      then finish_directory out compare_trees
      else finish_files out (compare_files (mode_of arguments) (selected_keys strip arguments.keys))
