-- ===== src/Fs/Reading.antt =====
-- The loop that reads exactly the size a file had when it was opened, and no byte more:
-- `read_exact_snapshot` of configdiff.py and the loop of `read_config_bytes` of healthctl.py. What
-- `os.read` answers is a function of the offset and the number of bytes asked for: a read that does
-- not end the loop moves the offset on.
pub mod Exact
use opsforge.Prelude.{ℕ, zero, suc, ◌-◌, min, List, [], ◌∷◌, ◌++◌, Text, length}
use opsforge.Result.{value, error}
use opsforge.Fs.{OsError, Answer}

pub data Reading : Type 0 where
  complete : Text → Reading
  unreadable : OsError → Reading
  changed : Reading
  unverified : OsError → Reading
  -- the rounds given are over, and the loop is not
  unfinished : Reading

-- `os.read(descriptor, 1)` behind the loop.
unfoldable pub finish : Text → Answer Text → Reading
finish bytes (value []) = complete bytes
finish bytes (value (c ∷ extra)) = changed
finish bytes (error e) = unverified e

unfoldable pub next : (Text → Reading) → Answer Text → Reading
next more (error e) = unreadable e
next more (value []) = changed
next more (value (c ∷ chunk)) = more (c ∷ chunk)

module _ (chunk_bytes : ℕ) (read : (offset count : ℕ) → Answer Text) where
  -- `while remaining`
  unfoldable pub read_loop : (fuel remaining : ℕ) → Text → Reading
  unfolding next finish
  read_loop zero remaining bytes = unfinished
  read_loop (suc fuel) zero bytes = finish bytes (read (length bytes) 1)
  read_loop (suc fuel) (suc remaining) bytes =
      next (λ chunk. read_loop fuel (suc remaining - length chunk) (bytes ++ chunk))
        (read (length bytes) (min chunk_bytes (suc remaining)))

  -- Each round takes a byte at least, so there is one round more than bytes.
  unfoldable pub read_exact : (size : ℕ) → Reading
  unfolding read_loop
  read_exact size = read_loop (suc size) size []
