-- ===== src/Drift/Snapshot.antt =====
-- The reading of files in configdiff.py: `open_regular_file`, `read_exact_snapshot`,
-- `hash_exact_snapshot`, `verify_unchanged` and `read_file_pair`.
pub mod Faithful
pub mod Hashing
use opsforge.Prelude.{
  ℕ, zero, suc, ◌+◌, ◌-◌, min, Bool, not, Option, none, some, List, [], ◌∷◌, ◌++◌, Text, length,
  ltb, if◌then◌else◌,
}
use opsforge.Result.{Result, value, error, ◌>>=◌}
use opsforge.Fs.{
  ℤ, pos, negsuc, FileKind, Metadata, OsError, Answer, is_regular, same_inode, same_identity,
}
use opsforge.Fs.Reading.{Reading, complete, unreadable, changed, unverified, unfinished, read_exact}
use opsforge.Drift.{
  Reason, Failure, invalid_target, observation, FileObservation, or_fail, raise_from,
  cannot_normalize, cannot_open, not_regular, cannot_inspect, changed_opening, invalid_size,
  too_large, cannot_read, cannot_finish, changed_reading, cannot_verify, changed_comparing,
  out_of_rounds,
}

-- `MAX_FILE_BYTES`
abbrev pub max_file_bytes : ℕ
max_file_bytes = 16777216

-- `READ_CHUNK_BYTES`
abbrev pub read_chunk_bytes : ℕ
read_chunk_bytes = 65536

-- What the system answers about one path: `os.path.abspath`, `os.stat`, `os.open`, `os.fstat`, the
-- reads, and `os.fstat` again.
pub record FileAnswers : Type 0 where
  pub path : Answer Text
  pub inspected : Answer Metadata
  pub opened : Answer (Unit {0})
  pub observed : Answer Metadata
  pub read : (offset count : ℕ) → Answer Text
  pub verified : Answer Metadata

-- The tests on the size of the opened file, which give it as a number.
unfoldable pub accept_size : ℤ → Result Failure ℕ
accept_size (negsuc n) = error (observation invalid_size none)
accept_size (pos n) =
    if ltb max_file_bytes n then error (invalid_target too_large none) else value n

abbrev pub require : Bool → Failure → Result Failure (Unit {0})
require test failure = if test then value tt else error failure

-- The opened file's metadata, and its size.
unfoldable pub open_regular_file : FileAnswers → Result Failure (Metadata × ℕ)
unfolding accept_size
open_regular_file file = do
  inspected ← or_fail (λ e. invalid_target cannot_open (some e)) file.inspected
  named ← require (is_regular inspected.kind) (invalid_target not_regular none)
  descriptor ← or_fail (λ e. invalid_target cannot_open (some e)) file.opened
  metadata ← or_fail (raise_from (observation cannot_inspect)) file.observed
  regular ← require (is_regular metadata.kind) (invalid_target not_regular none)
  same ← require (same_inode metadata inspected) (observation changed_opening none)
  size ← accept_size metadata.size
  value (metadata, size)

unfoldable pub snapshot : Reading → Result Failure Text
snapshot (complete bytes) = value bytes
snapshot (unreadable e) = error (raise_from (observation cannot_read) e)
snapshot changed = error (observation changed_reading none)
snapshot (unverified e) = error (raise_from (observation cannot_finish) e)
snapshot unfinished = error (observation out_of_rounds none)

unfoldable pub read_exact_snapshot :
    ((offset count : ℕ) → Answer Text) → (size : ℕ) → Result Failure Text
unfolding snapshot
read_exact_snapshot read size = snapshot (read_exact read_chunk_bytes read size)

unfoldable pub verify_unchanged : FileAnswers → Metadata → Result Failure (Unit {0})
verify_unchanged file initial = do
  final ← or_fail (raise_from (observation cannot_verify)) file.verified
  require (same_identity final initial) (observation changed_comparing none)

-- `hashlib.sha256`: its state, `update` and `hexdigest`.
module _ {H : Type 0} (new : H) (update : H → Text → H) (hexdigest : H → Text) where
  unfoldable pub finish_hash : H → Answer Text → Result Failure Text
  finish_hash digest (value []) = value (hexdigest digest)
  finish_hash digest (value (c ∷ extra)) = error (observation changed_reading none)
  finish_hash digest (error e) = error (raise_from (observation cannot_read) e)

  unfoldable pub next_hash : (Text → Result Failure Text) → Answer Text → Result Failure Text
  next_hash more (value []) = error (observation changed_reading none)
  next_hash more (value (c ∷ chunk)) = more (c ∷ chunk)
  next_hash more (error e) = error (raise_from (observation cannot_read) e)

  -- `while remaining`, at an offset
  pub hash_loop :
      ((offset count : ℕ) → Answer Text) → (fuel offset remaining : ℕ) → H → Result Failure Text
  unfolding finish_hash next_hash
  hash_loop read zero offset remaining digest = error (observation out_of_rounds none)
  hash_loop read (suc fuel) offset zero digest = finish_hash digest (read offset 1)
  hash_loop read (suc fuel) offset (suc remaining) digest =
      next_hash
        (λ chunk.
          hash_loop read fuel (offset + length chunk) (suc remaining - length chunk)
            (update digest chunk))
        (read offset (min read_chunk_bytes (suc remaining)))

  unfoldable pub hash_exact_snapshot :
      ((offset count : ℕ) → Answer Text) → (size : ℕ) → Result Failure Text
  unfolding hash_loop
  hash_exact_snapshot read size = hash_loop read (suc size) 0 size new

  unfoldable pub make_observation : FileAnswers → Text → Metadata → Result Failure FileObservation
  make_observation file content metadata = do
    path ← or_fail (raise_from (invalid_target cannot_normalize)) file.path
    value (record {
      path = path;
      size = length content;
      sha256 = hexdigest (update new content);
      mode = some metadata.permissions;
      uid = some metadata.uid;
      gid = some metadata.gid;
      symlink_target = none;
    })

  -- The two contents and the two observations.
  unfoldable pub read_file_pair :
      (baseline current : FileAnswers)
      → Result Failure (Text × Text × FileObservation × FileObservation)
  unfolding make_observation
  read_file_pair baseline current = do
    (baseline_metadata, baseline_size) ← open_regular_file baseline
    (current_metadata, current_size) ← open_regular_file current
    baseline_content ← read_exact_snapshot baseline.read baseline_size
    current_content ← read_exact_snapshot current.read current_size
    baseline_verified ← verify_unchanged baseline baseline_metadata
    current_verified ← verify_unchanged current current_metadata
    baseline_observation ← make_observation baseline baseline_content baseline_metadata
    current_observation ← make_observation current current_content current_metadata
    value (baseline_content, current_content, baseline_observation, current_observation)
