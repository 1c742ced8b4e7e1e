-- ===== src/Drift.antt =====
-- ConfigDiff, opsforge/configdiff/configdiff.py: its two exceptions and its observations. A failure
-- keeps the error of the operating system that it was raised from (`__cause__`).
pub mod Snapshot
pub mod Directory
pub mod Collect
pub mod Contents
pub mod Values
pub mod Modes
pub mod Main
mod FileTests
mod TreeTests
use opsforge.Prelude.{ℕ, Bool, true, false, Option, none, some, Text, eqb}
use opsforge.Result.{Result, value, error}
use opsforge.Fs.{OsError, os_error, value_error, Answer}

-- What the message says.
pub data Reason : Type 0 where
  cannot_normalize cannot_open not_regular cannot_inspect changed_opening : Reason
  invalid_size too_large cannot_read cannot_finish changed_reading : Reason
  cannot_verify changed_comparing out_of_rounds : Reason
  not_a_directory directory_changed symlink_changed file_changed entry_limit over_budget : Reason
  cannot_observe nesting_too_deep invalid_content not_text : Reason

pub data Failure : Type 0 where
  -- `InvalidTargetError` and `ObservationError`
  invalid_target : Reason → Option OsError → Failure
  observation : Reason → Option OsError → Failure
  -- an `OSError` that no handler has seen yet
  uncaught : OsError → Failure

pub record FileObservation : Type 0 where
  pub path : Text
  pub size : ℕ
  pub sha256 : Text
  pub mode : Option ℕ
  pub uid : Option ℕ
  pub gid : Option ℕ
  pub symlink_target : Option Text

unfoldable pub same_number? : Option ℕ → Option ℕ → Bool
same_number? none none = true
same_number? (some m) (some n) = eqb m n
same_number? _ _ = false

-- `try: … except (OSError, ValueError) as error: raise … from error`
abbrev pub or_fail {ℓ} : {A : Type ℓ} → (OsError → Failure) → Answer A → Result Failure A
or_fail failure (value a) = value a
or_fail failure (error e) = error (failure e)

-- `try: … except OSError as error: raise … from error`
abbrev pub raise_from : (Option OsError → Failure) → OsError → Failure
raise_from failure (os_error errno) = failure (some (os_error errno))
raise_from failure value_error = uncaught value_error
