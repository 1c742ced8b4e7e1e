-- ===== src/Process.antt =====
-- `run_bounded` of common/process.py, from the started child on. Each round of its loop asks for
-- the time and then handles the ready streams; what the operating system answers in a round is a
-- `Round`. The child's group is killed on every way out but the regular one.
pub mod Bounds
mod Tests
use opsforge.Prelude.{
  ℕ, Bool, true, false, ◌||◌, not, Option, none, some, List, [], ◌∷◌, ◌++◌, Text, ◌==◌, length,
  take, drop, ltb, if◌then◌else◌,
}

-- A ready stream: the bytes read, none at its end; the number of bytes written; or an error.
pub data Event : Type 0 where
  stdout_read : Text → Event
  stderr_read : Text → Event
  stdin_wrote : ℕ → Event
  broken_pipe blocked : Event

pub record Round : Type 0 where
  -- no time remains
  pub is_late : Bool
  pub events : List Event

-- The buffers, what is still to be written, and which streams are registered.
pub record Streams : Type 0 where
  pub stdout : Text
  pub stderr : Text
  pub pending : Text
  pub stdout_open : Bool
  pub stderr_open : Bool
  pub stdin_open : Bool

pub data Outcome : Type 0 where
  finished : (returncode : ℕ) (stdout stderr : Text) (truncated : Bool) → Outcome
  timed_out : Outcome
  output_limit : (on_stdout : Bool) → Outcome
  -- the rounds given are over, and the loop is not
  unfinished : Outcome

pub data Step : Type 0 where
  going : Streams → Step
  cut : Streams → Step
  over_limit : (on_stdout : Bool) → Step

-- `pending = pending[written:]`, with the end of the input.
abbrev wrote : Text → Streams → Streams
wrote [] s = record s { pending = []; stdin_open = false }
wrote (c ∷ pending) s = record s { pending = c ∷ pending }

-- The number that stands for the return code of a killed child is `killed`; `waited` is what
-- `process.wait` gives in the time that remains.
module _ (max_output_bytes : ℕ) (truncate_stdout : Bool) (killed : ℕ) (waited : Option ℕ) where
  pub read_stdout : Text → Streams → Step
  read_stdout chunk s =
      let buffer = s.stdout ++ chunk in
      if chunk == []
      then going (record s { stdout_open = false })
      else if not (ltb max_output_bytes (length buffer))
      then going (record s { stdout = buffer })
      else if truncate_stdout
      then cut (record s { stdout = take max_output_bytes buffer })
      else over_limit true

  pub read_stderr : Text → Streams → Step
  read_stderr chunk s =
      let buffer = s.stderr ++ chunk in
      if chunk == []
      then going (record s { stderr_open = false })
      else if ltb max_output_bytes (length buffer)
      then over_limit false
      else going (record s { stderr = buffer })

  pub take_event : Event → Streams → Step
  take_event (stdout_read chunk) s = read_stdout chunk s
  take_event (stderr_read chunk) s = read_stderr chunk s
  take_event (stdin_wrote n) s = going (wrote (drop n s.pending) s)
  take_event broken_pipe s = going (wrote [] s)
  take_event blocked s = going s

  abbrev go_on : (Streams → Step) → Step → Step
  go_on f (going s) = f s
  go_on f step = step

  -- `for key, _ in selector.select(remaining)`
  pub take_events : List Event → Streams → Step
  take_events [] s = going s
  take_events (e ∷ events) s = go_on (take_events events) (take_event e s)

  -- Behind the loop.
  pub wait_for : Option ℕ → Streams → Outcome
  wait_for none s = timed_out
  wait_for (some returncode) s = finished returncode s.stdout s.stderr false

  abbrev after_round : (Streams → Outcome) → Step → Outcome
  after_round f (going s) = f s
  after_round f (cut s) = finished killed s.stdout s.stderr true
  after_round f (over_limit on_stdout) = output_limit on_stdout

  -- `selector.get_map()`
  abbrev is_open : Streams → Bool
  is_open s = s.stdout_open || s.stderr_open || s.stdin_open

  pub run_rounds : List Round → Streams → Outcome
  run_rounds [] s = if is_open s then unfinished else wait_for waited s
  run_rounds (r ∷ rounds) s =
      let rest = after_round (run_rounds rounds) (take_events r.events s) in
      if not (is_open s) then wait_for waited s else if r.is_late then timed_out else rest

  -- With `capture`; an empty `stdin_data` is closed at once.
  unfoldable pub run_bounded : Text → List Round → Outcome
  unfolding run_rounds take_events take_event read_stdout read_stderr wait_for
  run_bounded stdin_data rounds = run_rounds rounds (record {
    stdout = [];
    stderr = [];
    pending = stdin_data;
    stdout_open = true;
    stderr_open = true;
    stdin_open = not (stdin_data == []);
  })
