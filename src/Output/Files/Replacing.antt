-- ===== src/Output/Files/Replacing.antt =====
-- What `_replace_atomically` of common/output.py leaves at its paths.
use opsforge.Prelude.{
  ◌≡◌, refl, ap, sym, ◌∙◌, false, Option, none, some, [], Text, ◌==◌, eq_iff, eq_refl, length,
  Bool-cases, Option-cases, inl, inr,
}
use opsforge.Output.Files.{
  File, regular, Files, set, Raised, Faults, written, created, target_objection, moved,
  after_temporary, replace_by, replace_target, replace_inspected, replace_atomically,
}
use opsforge.Output.Files.Smooth.{IsSmooth, replace_atomically-written}
use opsforge.Output.Files.Writing.{
  Holds, IsAtomic, write_and_sync-cases, create_exclusive-cases, reported-IsAtomic, unlink-Same,
}

-- A file that was made and then moved over another path.
Holds-moved :
    (faults : Faults) (path temporary encoded : Text) (g : Option File) (files : Files)
    → files temporary ≡ none
    → (temporary == path) ≡ false
    → Holds path encoded files (
        moved faults
          (set temporary (some (regular encoded 1)) (set temporary g files))
          temporary
          path)
Holds-moved faults path temporary encoded g files free apart = record {
  content = rw (eq_refl path, eq_refl temporary);
  others = λ p other. rw other (elim (Bool-cases (p == temporary)) [
    | inl same ↦ rw same (sym (ap files ((eq_iff p temporary).0 same) ∙ free))
    | inr different ↦ rw different
  ]);
}

module _ (faults : Faults) (works : faults.unlink ≡ false) where
  after_temporary-IsAtomic :
      (path temporary encoded : Text) (files : Files) (f g : Option File)
      (raised closing replacing : Option Raised)
      → files temporary ≡ none
      → (temporary == path) ≡ false
      → (raised ≡ none → f ≡ some (regular encoded 1))
      → IsAtomic path encoded files (
          after_temporary faults path temporary
            (set temporary f (set temporary g files))
            raised
            closing
            replacing)
  unfolding after_temporary
  after_temporary-IsAtomic path temporary encoded files f g raised (some c) replacing free apart
        full =
      reported-IsAtomic faults works path encoded files _ _ c
        (unlink-Same faults works temporary f g files free)
  after_temporary-IsAtomic path temporary encoded files f g (some r) none replacing free apart
        full =
      reported-IsAtomic faults works path encoded files _ _ r
        (unlink-Same faults works temporary f g files free)
  after_temporary-IsAtomic path temporary encoded files f g none none (some r) free apart full =
      reported-IsAtomic faults works path encoded files _ _ r
        (unlink-Same faults works temporary f g files free)
  after_temporary-IsAtomic path temporary encoded files f g none none none free apart full =
      rw (full refl) (Holds-moved faults path temporary encoded g files free apart)

  replace_by-IsAtomic :
      (path temporary encoded : Text) (files : Files)
      → (temporary == path) ≡ false
      → files temporary ≡ none
      → IsAtomic path encoded files (
          replace_by faults path temporary encoded files
            (created (set temporary (some (regular [] 1)) files)))
  unfolding replace_by
  replace_by-IsAtomic path temporary encoded files apart free =
      elim (write_and_sync-cases faults temporary encoded
        (set temporary (some (regular [] 1)) files)) [
          | inl done ↦ rw done (
              after_temporary-IsAtomic path temporary encoded files _ _ none faults.close
                faults.replace free apart (λ e. refl))
          | inr (f, r, bad) ↦ rw bad (
              after_temporary-IsAtomic path temporary encoded files f _ (some r) faults.close
                faults.replace free apart (λ e. cc))
        ]

  replace_inspected-IsAtomic :
      (path temporary encoded : Text) (files : Files) (inspected : Option Raised)
      → (temporary == path) ≡ false
      → IsAtomic path encoded files
          (replace_inspected faults path temporary encoded files inspected)
  unfolding replace_inspected replace_target replace_by
  replace_inspected-IsAtomic path temporary encoded files (some r) apart =
      reported-IsAtomic faults works path encoded files files _ r (λ p. refl)
  replace_inspected-IsAtomic path temporary encoded files none apart =
      elim (Option-cases (target_objection faults (files path))) [
        | inr (e, refused) ↦ rw (refused, replace_target) (λ p. refl)
        | inl fine ↦ elim (create_exclusive-cases faults temporary files) [
          | inr (inl there) ↦ rw (fine, replace_target) (rw there (λ p. refl))
          | inr (inr (r, bad)) ↦
              rw (fine, replace_target)
                (rw bad (reported-IsAtomic faults works path encoded files files _ r (λ p. refl)))
          | inl (free, made) ↦
              rw (fine, replace_target)
                (rw made (replace_by-IsAtomic path temporary encoded files apart free))
        ]
      ]

  -- Where a file can be removed and the temporary name is another than the path,
  -- `_replace_atomically` reports success with a file at the path that has all of the bytes, however
  -- few of them each `os.write` takes, and no other path changed, or reports a failure with no path
  -- changed, whatever other calls fail. It reports success where the path has no other object and no
  -- second link, nothing stands at the temporary name, no call raises and each `os.write` takes a
  -- byte at least.
  pub replace_atomically-IsAtomic :
      (path temporary encoded : Text) (files : Files)
      → (temporary == path) ≡ false
      → IsAtomic path encoded files (replace_atomically faults path temporary encoded files)
        × (IsSmooth faults (length encoded)
            → faults.inspect ≡ none
            → faults.replace ≡ none
            → target_objection faults (files path) ≡ none
            → files temporary ≡ none
            → (replace_atomically faults path temporary encoded files).0 ≡ written)
  unfolding replace_atomically
  replace_atomically-IsAtomic path temporary encoded files apart = (
    replace_inspected-IsAtomic path temporary encoded files faults.inspect apart,
    replace_atomically-written faults path temporary encoded files,
  )
