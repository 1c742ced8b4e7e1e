-- ===== src/Output/Files/Smooth.antt =====
-- When the writing of a file in common/output.py goes well.
use opsforge.Prelude.{ℕ, ◌≤◌, ◌<◌, ◌≡◌, Option, none, some, [], arith, Text, All, length}
use opsforge.Output.Files.{
  regular, Files, set, Raised, Faults, written, created, create_at, create_exclusive,
  write_and_sync, after_write, write_created, write_new, target_objection, after_temporary,
  replace_by, replace_target, replace_inspected, replace_atomically,
}
use opsforge.Output.Files.Views.{write_view_of_end, write_view-ends}

-- No call on the new file raises before as many bytes are written as there are: the calls of
-- `os.write` may take few of them, but each takes some.
pub record IsSmooth (faults : Faults) (size : ℕ) : Type 0 where
  pub creates : faults.create ≡ none
  pub progress : All (λ count. 0 < count) faults.counts
  pub enough : size ≤ length faults.counts
  pub syncs : faults.sync ≡ none
  pub closes : faults.close ≡ none

module _ (faults : Faults) where
  write_and_sync-full :
      (path encoded : Text) (files : Files)
      → IsSmooth faults (length encoded)
      → write_and_sync faults path encoded files ≡ (set path (some (regular encoded 1)) files, none)
  unfolding write_and_sync
  write_and_sync-full path encoded files s =
      let ends = write_view-ends faults faults.counts [] encoded s.progress s.enough in
      let whole = write_view_of_end faults faults.counts [] encoded ends in
      rw (ends, s.syncs, whole)

  write_created-written :
      (path encoded : Text) (files files' : Files)
      → IsSmooth faults (length encoded)
      → (write_created faults path encoded files (created files')).0 ≡ written
  unfolding write_created after_write
  write_created-written path encoded files files' s =
      let full = write_and_sync-full path encoded files' s in rw (full, s.closes)

  pub write_new-written :
      (path encoded : Text) (files : Files)
      → IsSmooth faults (length encoded)
      → files path ≡ none
      → (write_new faults path encoded files).0 ≡ written
  unfolding write_new create_exclusive create_at
  write_new-written path encoded files s free =
      rw (s.creates, free) (write_created-written path encoded files _ s)

  replace_by-written :
      (path temporary encoded : Text) (files files' : Files)
      → IsSmooth faults (length encoded)
      → faults.replace ≡ none
      → (replace_by faults path temporary encoded files (created files')).0 ≡ written
  unfolding replace_by after_temporary
  replace_by-written path temporary encoded files files' s moves =
      let full = write_and_sync-full temporary encoded files' s in rw (full, s.closes, moves)

  create_exclusive-created :
      (path : Text) (files : Files)
      → faults.create ≡ none
      → files path ≡ none
      → create_exclusive faults path files ≡ created (set path (some (regular [] 1)) files)
  unfolding create_exclusive create_at
  create_exclusive-created path files creates free = rw (creates, free)

  replace_inspected-written :
      (path temporary encoded : Text) (files : Files) (inspected : Option Raised)
      → IsSmooth faults (length encoded)
      → inspected ≡ none
      → faults.replace ≡ none
      → target_objection faults (files path) ≡ none
      → files temporary ≡ none
      → (replace_inspected faults path temporary encoded files inspected).0 ≡ written
  unfolding replace_inspected replace_target
  replace_inspected-written path temporary encoded files (some r) s seen moves fine free =
      absurd (ground arith)
  replace_inspected-written path temporary encoded files none s seen moves fine free =
      let made = create_exclusive-created temporary files s.creates free in
      rw (fine, replace_target)
        (rw made (replace_by-written path temporary encoded files _ s moves))

  pub replace_atomically-written :
      (path temporary encoded : Text) (files : Files)
      → IsSmooth faults (length encoded)
      → faults.inspect ≡ none
      → faults.replace ≡ none
      → target_objection faults (files path) ≡ none
      → files temporary ≡ none
      → (replace_atomically faults path temporary encoded files).0 ≡ written
  unfolding replace_atomically
  replace_atomically-written path temporary encoded files s seen moves fine free =
      replace_inspected-written path temporary encoded files faults.inspect s seen moves fine free
