-- ===== src/Output/Files.antt =====
-- `_create_exclusive`, `_write_and_sync`, `_write_new` and `_replace_atomically` of
-- common/output.py over a file system: what stands at each path. `Faults` says which calls to the
-- operating system raise, and what.
pub mod Views
pub mod Smooth
pub mod Writing
pub mod Replacing
pub mod Keeping
use opsforge.Prelude.{
  ℕ, Bool, true, false, ◌||◌, not, Option, none, some, List, [], ◌∷◌, ◌++◌, Text, lit, ◌==◌, take,
  drop, eqb, if◌then◌else◌,
}
use opsforge.Result.{Result}

-- A directory entry: a regular file with its bytes and number of links, a symbolic link, or
-- another object.
pub data File : Type 0 where
  regular : (bytes : Text) (links : ℕ) → File
  symbolic_link : File
  special : File

abbrev pub Files : Type 0
Files = Text → Option File

abbrev pub set : Text → Option File → Files → Files
set path file files p = if p == path then file else files p

-- What a call raises: an `OSError`, a `KeyboardInterrupt`, or an exception of another kind.
pub data Raised : Type 0 where
  os_error keyboard_interrupt base_exception : Raised

-- How the `main` of a utility ends: it returns an exit status, or an exception leaves it.
abbrev pub Exit : Type 0
Exit = Result Raised ℕ

pub record Faults : Type 0 where
  pub inspect : Option Raised
  pub create : Option Raised
  -- how many bytes each `os.write` takes, and what the call behind these raises
  pub counts : List ℕ
  pub write : Raised
  pub sync : Option Raised
  pub close : Option Raised
  pub replace : Option Raised
  pub unlink : Bool

pub data OutputError : Type 0 where
  already_exists could_not_open could_not_write could_not_inspect : OutputError
  not_regular multiply_linked no_temporary too_large : OutputError

pub data Written : Type 0 where
  written : Written
  output_error : OutputError → Written
  -- an exception that is no `OutputError` goes on up
  uncaught : Raised → Written

pub data Created : Type 0 where
  created : Files → Created
  exists : Created
  not_created : Raised → Created

module _ (faults : Faults) where
  -- `os.open` with `O_CREAT | O_EXCL | O_NOFOLLOW`: nothing may stand at the path.
  pub create_at : Text → Files → Option File → Created
  create_at path files none = created (set path (some (regular [] 1)) files)
  create_at path files (some _) = exists

  pub create_exclusive : Text → Files → Created
  create_exclusive path files = elim faults.create [
    | some raised ↦ not_created raised
    | none ↦ create_at path files (files path)
  ]

  -- `while view`: the bytes in the file behind those that are there, and what was raised.
  unfoldable pub write_view : (counts : List ℕ) (begun view : Text) → Text × Option Raised
  write_view counts begun [] = (begun, none)
  write_view [] begun (c ∷ view) = (begun, some faults.write)
  write_view (count ∷ counts) begun (c ∷ view) =
      write_view counts (begun ++ take count (c ∷ view)) (drop count (c ∷ view))

  -- `os.fsync`, which is not reached where a write has raised.
  abbrev pub synced : Option Raised → Option Raised
  synced none = faults.sync
  synced (some raised) = some raised

  -- `_write_and_sync` on the new file at a path, with what it raises.
  pub write_and_sync : Text → Text → Files → Files × Option Raised
  unfolding write_view
  write_and_sync path encoded files =
      let (bytes, raised) = write_view faults.counts [] encoded in
      (set path (some (regular bytes 1)) files, synced raised)

  -- `os.unlink`, with its `OSError` passed over.
  pub unlink : Text → Files → Files
  unlink path files = if faults.unlink then files else set path none files

  abbrev pub reported : OutputError → Raised → Written
  reported e os_error = output_error e
  reported e raised = uncaught raised

  -- `_write_new` behind the write: `os.close` is outside of every `try`.
  pub after_write : Text → Files → Option Raised → Option Raised → Written × Files
  after_write path files raised (some closing) = (uncaught closing, files)
  after_write path files none none = (written, files)
  after_write path files (some raised) none = (reported could_not_write raised, unlink path files)

  pub write_created : Text → Text → Files → Created → Written × Files
  write_created path encoded files exists = (output_error already_exists, files)
  write_created path encoded files (not_created raised) = (reported could_not_open raised, files)
  write_created path encoded files (created files') =
      let (files'', raised) = write_and_sync path encoded files' in
      after_write path files'' raised faults.close

  unfoldable pub write_new : Text → Text → Files → Written × Files
  unfolding write_created create_exclusive create_at write_and_sync after_write unlink
  write_new path encoded files = write_created path encoded files (create_exclusive path files)

  -- The tests of `_replace_atomically` on what stands at the path.
  pub target_objection : Option File → Option OutputError
  target_objection none = none
  target_objection (some (regular bytes links)) = if eqb links 1 then none else some multiply_linked
  target_objection (some _) = some not_regular

  abbrev pub moved : Files → Text → Text → Files
  moved files temporary path = set path (files temporary) (set temporary none files)

  -- Behind the write: `os.close`, then `os.replace`.
  pub after_temporary :
      Text → Text → Files → Option Raised → Option Raised → Option Raised → Written × Files
  after_temporary path temporary files raised (some closing) replacing =
      (reported could_not_write closing, unlink temporary files)
  after_temporary path temporary files (some raised) none replacing =
      (reported could_not_write raised, unlink temporary files)
  after_temporary path temporary files none none (some replacing) =
      (reported could_not_write replacing, unlink temporary files)
  after_temporary path temporary files none none none = (written, moved files temporary path)

  pub replace_by : Text → Text → Text → Files → Created → Written × Files
  replace_by path temporary encoded files exists = (output_error no_temporary, files)
  replace_by path temporary encoded files (not_created raised) =
      (reported no_temporary raised, files)
  replace_by path temporary encoded files (created files') =
      let (files'', raised) = write_and_sync temporary encoded files' in
      after_temporary path temporary files'' raised faults.close faults.replace

  pub replace_target : Text → Text → Text → Files → Option OutputError → Written × Files
  replace_target path temporary encoded files (some e) = (output_error e, files)
  replace_target path temporary encoded files none =
      replace_by path temporary encoded files (create_exclusive temporary files)

  -- Behind `os.lstat`, with what it raises.
  pub replace_inspected : Text → Text → Text → Files → Option Raised → Written × Files
  replace_inspected path temporary encoded files (some raised) =
      (reported could_not_inspect raised, files)
  replace_inspected path temporary encoded files none =
      replace_target path temporary encoded files (target_objection (files path))

  -- `_replace_atomically`, given the name of its temporary file.
  unfoldable pub replace_atomically : Text → Text → Text → Files → Written × Files
  unfolding replace_inspected replace_target target_objection replace_by after_temporary
  replace_atomically path temporary encoded files =
      replace_inspected path temporary encoded files faults.inspect

-- `temporary`, from what `os.path.split` and `secrets.token_hex` give. `join_path` is
-- `os.path.join`.
pub temporary_name : (join_path : Text → Text → Text) → Text × Text → Text → Text
temporary_name join_path (directory, name) token =
    join_path directory (lit "." ++ (take 128 name ++ (lit "." ++ (token ++ lit ".tmp"))))
