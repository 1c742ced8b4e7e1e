-- ===== src/Drift/Collect.antt =====
-- `collect_directory` of configdiff.py, over a tree of what the system answers. The entries of a
-- directory come in the order of `os.scandir`; names are the bytes that `os.fsencode` gives. What
-- the nested functions of the source change by `nonlocal` is `Walk`; it stays changed where an
-- exception is raised.
pub mod Visit
pub mod Root
pub mod Bounds
use opsforge.Prelude.{
  ℕ, suc, ◌-◌, Bool, true, false, ◌&&◌, ◌||◌, not, Option, none, some, List, [], ◌∷◌, ◌++◌, Text,
  lit, ltb, leb, eqb, if◌then◌else◌,
}
use opsforge.Prelude.Ordered.{before}
use opsforge.Result.{Result, value, error, ◌>>=◌}
use opsforge.Fs.{
  ℤ, pos, FileKind, regular, directory, symlink, fifo, socket, char_device, block_device, unknown,
  Metadata, OsError, os_error, value_error, Answer, same_inode, same_identity,
}
use opsforge.Drift.{
  Failure, uncaught, invalid_target, observation, or_fail, raise_from, cannot_normalize,
  cannot_open, cannot_inspect, not_a_directory, directory_changed, symlink_changed, file_changed,
  entry_limit, over_budget, cannot_observe,
}
use opsforge.Drift.Snapshot.{
  FileAnswers, require, open_regular_file, hash_exact_snapshot, verify_unchanged,
}
use opsforge.Drift.Directory.{DirectoryEntry, Collected}

-- An entry: its `os.stat` in the scan, the later answers about its name (`inspected` is the second
-- `os.stat`), what `os.readlink` gives, and its children.
mutual
  pub data Node : Type 0 where
    node :
        (scanned : Answer Metadata) (answers : FileAnswers) (link : Answer Text) → Children → Node

  pub data Children : Type 0 where
    nil : Children
    child : (name : Text) → Node → Children → Children
    -- `os.scandir` raises, or its iterator does
    broken : OsError → Children

pub record Walk : Type 0 where
  pub entries : List DirectoryEntry
  pub depth_limited : List Text
  pub other_filesystems : List Text
  pub unreadable : List (Text × Text)
  pub observed : ℕ
  pub read_budget : ℕ

-- A step, with the exception that leaves it.
abbrev pub Action : Type 0
Action = Walk → Walk × Option Failure

-- `MAX_DIRECTORY_READ_BYTES`
abbrev pub max_directory_read_bytes : ℕ
max_directory_read_bytes = 536870912

-- `UNREADABLE_ERRNOS`: `EACCES`, `EPERM` and `ENOENT`
abbrev pub is_unreadable : ℕ → Bool
is_unreadable errno = eqb errno 13 || eqb errno 1 || eqb errno 2

abbrev pub cause : Failure → Option OsError
cause (uncaught e) = some e
cause (invalid_target reason e) = e
cause (observation reason e) = e

-- `os.path.join(prefix, name)`
unfoldable pub join_path : Text → Text → Text
join_path [] name = name
join_path (c ∷ prefix) name = (c ∷ prefix) ++ (lit "/" ++ name)

-- `_special_kind`
unfoldable pub special_kind : FileKind → Text
special_kind fifo = lit "fifo"
special_kind socket = lit "socket"
special_kind char_device = lit "char-device"
special_kind block_device = lit "block-device"
special_kind _ = lit "special"

abbrev pub device_of : FileKind → ℕ → Option ℕ
device_of char_device rdev = some rdev
device_of block_device rdev = some rdev
device_of _ rdev = none

abbrev pub is_directory : FileKind → Bool
is_directory directory = true
is_directory _ = false

unfoldable pub add_entry : DirectoryEntry → Walk → Walk
add_entry e w = record w { entries = w.entries ++ e ∷ [] }

-- `verify_directory`
unfoldable pub verify_directory : Answer Metadata → Metadata → Result Failure (Unit {0})
verify_directory observed expected = do
  opened ← or_fail uncaught observed
  require (is_directory opened.kind && same_inode opened expected)
      (observation directory_changed none)

unfoldable pub open_folder : FileAnswers → Metadata → Result Failure (Unit {0})
unfolding verify_directory
open_folder answers expected = do
  descriptor ← or_fail uncaught answers.opened
  verify_directory answers.observed expected

-- Behind the opening of a child directory.
abbrev pub entering : Result Failure (Unit {0}) → Action → Action
entering (value u) enter w = enter w
entering (error failure) enter w = (w, some failure)

-- `has_entries`, and what follows
unfoldable pub note_depth : Text → Children → Action
note_depth relative nil w = (w, none)
note_depth relative (child name n rest) w =
    (record w { depth_limited = w.depth_limited ++ relative ∷ [] }, none)
note_depth relative (broken e) w = (w, some (uncaught e))

-- An entry without content, as `DirectoryEntry` is called for it.
abbrev pub bare_entry : Text → Text → ℤ → Metadata → Option Text → Option ℕ → DirectoryEntry
bare_entry relative kind size metadata target device = record {
  relative_path = relative;
  kind = kind;
  size = size;
  sha256 = none;
  mode = metadata.permissions;
  uid = metadata.uid;
  gid = metadata.gid;
  symlink_target = target;
  device = device;
}

unfoldable pub read_link : Answer Text → Answer Metadata → Metadata → Result Failure Text
read_link link again metadata = do
  target ← or_fail uncaught link
  current ← or_fail uncaught again
  same ← require (same_identity current metadata) (observation symlink_changed none)
  value target

unfoldable pub put_link : Text → Metadata → Result Failure Text → Action
put_link relative metadata (error failure) w = (w, some failure)
put_link relative metadata (value target) w = (
  add_entry (bare_entry relative (lit "symlink") metadata.size metadata (some target) none) w,
  none,
)

-- An entry that is neither link, directory nor regular file.
unfoldable pub put_special : Text → Metadata → Action
put_special relative metadata w = (
  add_entry
      (bare_entry relative (special_kind metadata.kind) (pos 0) metadata none
        (device_of metadata.kind metadata.rdev))
      w,
  none,
)

module _ {H : Type 0} (new : H) (update : H → Text → H) (hexdigest : H → Text) where
  unfoldable pub hash_file : FileAnswers → Metadata → ℕ → Result Failure Text
  hash_file answers opened size = do
    digest ← hash_exact_snapshot new update hexdigest answers.read size
    unchanged ← verify_unchanged answers opened
    value digest

  unfoldable pub put_file : Text → Metadata → Metadata → ℕ → Result Failure Text → Action
  put_file relative metadata opened size (error failure) w = (w, some failure)
  put_file relative metadata opened size (value digest) w = (
    add_entry
        (record {
          relative_path = relative;
          kind = lit "file";
          size = pos size;
          sha256 = some digest;
          mode = metadata.permissions;
          uid = opened.uid;
          gid = opened.gid;
          symlink_target = none;
          device = none;
        })
        w,
    none,
  )

  unfoldable pub read_file : FileAnswers → Text → Metadata → Result Failure (Metadata × ℕ) → Action
  unfolding hash_file put_file
  read_file answers relative metadata (error failure) w = (w, some failure)
  read_file answers relative metadata (value (opened, size)) w =
      if not (same_identity opened metadata)
      then (w, some (observation file_changed none))
      else if ltb w.read_budget size
      then (w, some (observation over_budget none))
      else put_file relative metadata opened size (hash_file answers opened size)
          (record w { read_budget = w.read_budget - size })
