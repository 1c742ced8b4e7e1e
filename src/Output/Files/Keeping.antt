-- ===== src/Output/Files/Keeping.antt =====
-- What the output files of common/output.py leave alone.
use opsforge.Prelude.{◌≡◌, ap, Option, none, some, [], Text, ◌==◌, eq_iff, Bool-cases, inl, inr}
use opsforge.Output.Files.{
  File, Files, regular, set, Raised, Faults, unlink, after_write, created, write_created, write_new,
}
use opsforge.Output.Files.Writing.{create_exclusive-cases, write_and_sync-cases}

-- Entries that exist stay as they are.
abbrev pub Keeps : Files → Files → Type 0
Keeps files files' = (p : Text) (f : File) → files p ≡ some f → files' p ≡ some f

-- Only a path at which nothing stood is changed.
Keeps-set :
    (path : Text) (f : Option File) (files files' : Files)
    → files path ≡ none
    → Keeps files files'
    → Keeps files (set path f files')
Keeps-set path f files files' free h p g there = elim (Bool-cases (p == path)) [
  | inl same ↦ let e = ap files ((eq_iff p path).0 same) in cc
  | inr other ↦ rw other (h p g there)
]

module _ (faults : Faults) where
  after_write-Keeps :
      (path : Text) (files files' : Files) (raised closing : Option Raised)
      → files path ≡ none
      → Keeps files files'
      → Keeps files (after_write faults path files' raised closing).1
  unfolding after_write unlink
  after_write-Keeps path files files' raised (some c) free h = h
  after_write-Keeps path files files' none none free h = h
  after_write-Keeps path files files' (some r) none free h = elim (Bool-cases faults.unlink) [
    | inl stays ↦ rw stays h
    | inr goes ↦ rw goes (Keeps-set path none files files' free h)
  ]

  write_created-Keeps :
      (path encoded : Text) (files files' : Files)
      → files path ≡ none
      → Keeps files files'
      → Keeps files (write_created faults path encoded files (created files')).1
  unfolding write_created
  write_created-Keeps path encoded files files' free h =
      elim (write_and_sync-cases faults path encoded files') [
        | inl done ↦ rw done (
            after_write-Keeps path files _ none faults.close free
              (Keeps-set path _ files files' free h))
        | inr (f, r, bad) ↦ rw bad (
            after_write-Keeps path files _ (some r) faults.close free
              (Keeps-set path f files files' free h))
      ]

  pub write_new-Keeps :
      (path encoded : Text) (files : Files) → Keeps files (write_new faults path encoded files).1
  unfolding write_new write_created
  write_new-Keeps path encoded files = elim (create_exclusive-cases faults path files) [
    | inr (inl there) ↦ rw there (λ p f e. e)
    | inr (inr (r, bad)) ↦ rw bad (λ p f e. e)
    | inl (free, made) ↦ rw made (
        write_created-Keeps path encoded files (set path (some (regular [] 1)) files) free
          (Keeps-set path (some (regular [] 1)) files files free (λ p f e. e)))
  ]
