-- ===== src/Fs.antt =====
-- opsforge/common/fs.py: `open_regular_file`, over what the system calls answer. The metadata of a
-- file and its identity are those of configdiff.py and healthctl.py too.
pub mod Reading
mod Tests
use opsforge.Prelude.{ℕ, Bool, true, false, ◌&&◌, ◌||◌, not, Text, eqb, if◌then◌else◌}
use opsforge.Result.{Result, value, error, ◌>>=◌}

-- `negsuc n` is -(n + 1).
pub data ℤ : Type 0 where
  pos : ℕ → ℤ
  negsuc : ℕ → ℤ

unfoldable pub same_int : ℤ → ℤ → Bool
same_int (pos m) (pos n) = eqb m n
same_int (negsuc m) (negsuc n) = eqb m n
same_int _ _ = false

-- What a system call raises: an `OSError` with its number, or a `ValueError`.
pub data OsError : Type 0 where
  os_error : (errno : ℕ) → OsError
  value_error : OsError

abbrev pub Answer {ℓ} : Type ℓ → Type ℓ
Answer A = Result OsError A

-- The file type bits of `st_mode`.
pub data FileKind : Type 0 where
  regular directory symlink fifo socket char_device block_device unknown : FileKind

pub record Metadata : Type 0 where
  pub kind : FileKind
  pub permissions : ℕ
  pub uid : ℕ
  pub gid : ℕ
  pub device : ℕ
  pub inode : ℕ
  pub rdev : ℕ
  pub size : ℤ
  pub mtime : ℤ
  pub ctime : ℤ

abbrev pub is_regular : FileKind → Bool
is_regular regular = true
is_regular _ = false

-- `(a.st_dev, a.st_ino) == (b.st_dev, b.st_ino)`
unfoldable pub same_inode : Metadata → Metadata → Bool
same_inode a b = eqb a.device b.device && eqb a.inode b.inode

-- `metadata_identity(a) == metadata_identity(b)`
unfoldable pub same_identity : Metadata → Metadata → Bool
unfolding same_inode
same_identity a b =
    same_inode a b && same_int a.size b.size && same_int a.mtime b.mtime && same_int a.ctime b.ctime

pub data OpenFault : Type 0 where
  raised : OsError → OpenFault
  not_regular identity_changed : OpenFault

abbrev pub or_raise {ℓ} : {A : Type ℓ} → Answer A → Result OpenFault A
or_raise (value a) = value a
or_raise (error e) = error (raised e)

abbrev pub must_be_regular : FileKind → Result OpenFault (Unit {0})
must_be_regular kind = if is_regular kind then value tt else error not_regular

-- `os.fstat` behind the opening, against the file that was inspected.
unfoldable pub confirm : Metadata → Metadata → Result OpenFault Metadata
confirm before after =
    if not (is_regular after.kind) || not (same_inode after before)
    then error identity_changed
    else value after

-- The answers of `os.stat`, `os.open` and `os.fstat`.
unfoldable pub open_regular_file :
    Answer Metadata → Answer (Unit {0}) → Answer Metadata → Result OpenFault Metadata
unfolding confirm
open_regular_file inspected opened observed = do
  before ← or_raise inspected
  tested ← must_be_regular before.kind
  descriptor ← or_raise opened
  after ← or_raise observed
  confirm before after
