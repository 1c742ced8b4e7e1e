-- ===== src/Output/Files/Writing.antt =====
-- What the output files of common/output.py hold, with calls that fail and writes that are short.
use opsforge.Prelude.{
  ◌≡◌, refl, ap, sym, ◌∙◌, false, Option, none, some, [], Text, ◌==◌, eq_iff, eq_refl, length,
  Bool-cases, Option-cases, ◌⊎◌, inl, inr,
}
use opsforge.Output.Files.{
  File, regular, Files, set, Raised, os_error, keyboard_interrupt, base_exception, Faults,
  OutputError, Written, written, created, exists, not_created, create_at, create_exclusive,
  write_view, write_and_sync, unlink, reported, after_write, write_created, write_new,
}
use opsforge.Output.Files.Views.{write_view_of_end}
use opsforge.Output.Files.Smooth.{IsSmooth, write_new-written}

abbrev pub Same : Files → Files → Type 0
Same files files' = (p : Text) → files' p ≡ files p

-- The path holds exactly the bytes, and every other path what it held.
pub record Holds (path encoded : Text) (files files' : Files) : Type 0 where
  pub content : files' path ≡ some (regular encoded 1)
  pub others : (p : Text) → (p == path) ≡ false → files' p ≡ files p

-- All or nothing.
abbrev pub IsAtomic : Text → Text → Files → Written × Files → Type 0
IsAtomic path encoded files (written, files') = Holds path encoded files files'
IsAtomic path encoded files (_, files') = Same files files'

set_here : (path : Text) (f : Option File) (files : Files) → set path f files path ≡ f
set_here path f files = rw (eq_refl path)

set_other :
    (path : Text) (f : Option File) (files : Files) (p : Text)
    → (p == path) ≡ false
    → set path f files p ≡ files p
set_other path f files p h = rw h

-- Removing a new file restores what was there.
Same-removed :
    (path : Text) (f g : Option File) (files : Files)
    → files path ≡ none
    → Same files (set path none (set path f (set path g files)))
Same-removed path f g files h p = elim (Bool-cases (p == path)) [
  | inl same ↦ rw same (sym (ap files ((eq_iff p path).0 same) ∙ h))
  | inr other ↦ rw other
]

-- What the write leaves at the path of a new file: all of the bytes where nothing was raised.
pub write_and_sync-cases :
    (faults : Faults) (path encoded : Text) (files : Files)
    → (write_and_sync faults path encoded files ≡ (set path (some (regular encoded 1)) files, none))
      ⊎ ((f : Option File) × (r : Raised) × (write_and_sync faults path encoded files
            ≡ (set path f files, some r)))
unfolding write_and_sync
write_and_sync-cases faults path encoded files =
    let bytes = (write_view faults faults.counts [] encoded).0 in
    elim (Option-cases (write_view faults faults.counts [] encoded).1) [
      | inr (r, bad) ↦ inr (some (regular bytes 1), r, rw bad)
      | inl fine ↦
          let whole = write_view_of_end faults faults.counts [] encoded fine in
          elim (Option-cases faults.sync) [
            | inl steady ↦ inl (rw (fine, steady, whole))
            | inr (r, lost) ↦ inr (some (regular bytes 1), r, rw (fine, lost))
          ]
    ]

module _ (faults : Faults) where
  pub create_exclusive-cases :
      (path : Text) (files : Files)
      → ((files path ≡ none)
          × (create_exclusive faults path files ≡ created (set path (some (regular [] 1)) files)))
        ⊎ ((create_exclusive faults path files ≡ exists)
            ⊎ ((r : Raised) × (create_exclusive faults path files ≡ not_created r)))
  unfolding create_exclusive create_at
  create_exclusive-cases path files = elim (Option-cases faults.create) [
    | inr (r, bad) ↦ inr (inr (r, rw bad))
    | inl fine ↦ elim (Option-cases (files path)) [
      | inl free ↦ inl (free, rw (fine, free))
      | inr (f, there) ↦ inr (inl (rw (fine, there)))
    ]
  ]

module _ (faults : Faults) (works : faults.unlink ≡ false) where
  pub reported-IsAtomic :
      (path encoded : Text) (files files' : Files) (e : OutputError) (r : Raised)
      → Same files files'
      → IsAtomic path encoded files (reported faults e r, files')
  reported-IsAtomic path encoded files files' e os_error h = h
  reported-IsAtomic path encoded files files' e keyboard_interrupt h = h
  reported-IsAtomic path encoded files files' e base_exception h = h

  pub unlink-Same :
      (path : Text) (f g : Option File) (files : Files)
      → files path ≡ none
      → Same files (unlink faults path (set path f (set path g files)))
  unfolding unlink
  unlink-Same path f g files h = rw works (Same-removed path f g files h)

  after_write-IsAtomic :
      (path encoded : Text) (files : Files) (f g : Option File) (raised closing : Option Raised)
      → closing ≡ none
      → files path ≡ none
      → (raised ≡ none → f ≡ some (regular encoded 1))
      → IsAtomic path encoded files
          (after_write faults path (set path f (set path g files)) raised closing)
  unfolding after_write
  after_write-IsAtomic path encoded files f g raised (some r) closes free full = cc
  after_write-IsAtomic path encoded files f g none none closes free full = rw (full refl) (record {
    content = set_here path (some (regular encoded 1)) (set path g files);
    others = λ p other. rw other;
  })
  after_write-IsAtomic path encoded files f g (some r) none closes free full =
      reported-IsAtomic path encoded files _ _ r (unlink-Same path f g files free)

  write_created-IsAtomic :
      (path encoded : Text) (files : Files)
      → faults.close ≡ none
      → files path ≡ none
      → IsAtomic path encoded files
          (write_created faults path encoded files (created (set path (some (regular [] 1)) files)))
  unfolding write_created
  write_created-IsAtomic path encoded files closes free =
      elim (write_and_sync-cases faults path encoded (set path (some (regular [] 1)) files)) [
        | inl done ↦
            rw done (
              after_write-IsAtomic path encoded files _ _ none faults.close closes free (λ e. refl))
        | inr (f, r, bad) ↦ rw bad (
            after_write-IsAtomic path encoded files f _ (some r) faults.close closes free (λ e. cc))
      ]

  all_or_nothing :
      (path encoded : Text) (files : Files)
      → faults.close ≡ none
      → IsAtomic path encoded files (write_new faults path encoded files)
  unfolding write_new write_created
  all_or_nothing path encoded files closes = elim (create_exclusive-cases faults path files) [
    | inr (inl there) ↦ rw there (λ p. refl)
    | inr (inr (r, bad)) ↦ rw bad (reported-IsAtomic path encoded files files _ r (λ p. refl))
    | inl (free, made) ↦ rw made (write_created-IsAtomic path encoded files closes free)
  ]

  -- Where a file can be closed and removed, `_write_new` reports success with a file that has all
  -- of the bytes, however few of them each `os.write` takes, and no other path changed, or reports a
  -- failure with no path changed. It reports success where nothing stands at the path, no call
  -- raises and each `os.write` takes a byte at least.
  pub write_new-IsAtomic :
      (path encoded : Text) (files : Files)
      → faults.close ≡ none
      → IsAtomic path encoded files (write_new faults path encoded files)
        × (IsSmooth faults (length encoded)
            → files path ≡ none
            → (write_new faults path encoded files).0 ≡ written)
  write_new-IsAtomic path encoded files closes =
      (all_or_nothing path encoded files closes, write_new-written faults path encoded files)
