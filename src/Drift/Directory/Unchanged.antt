-- ===== src/Drift/Directory/Unchanged.antt =====
-- What it means that `configdiff --directory` finds nothing: `directory_status` and the exit status
-- of `main` in configdiff.py.
use opsforge.Prelude.{
  ◌≡◌, refl, ap, sym, ◌∙◌, Bool, true, false, ◌&&◌, not, Option, none, some, List, [], ◌∷◌, ◌++◌,
  arith, Text, eq_iff, contains, ℕ,
}
use opsforge.Prelude.Dict.{lookup}
use opsforge.Fs.{ℤ, pos, negsuc, same_int}
use opsforge.Drift.{same_number?}
use opsforge.Drift.Directory.{
  DirectoryEntry, Collected, drift_in, same_text?, same_content, unexamined_path, index, differ,
  differ?, compare, is_empty,
}
use opsforge.Drift.Directory.Exact.{compare-IsExact, is_there}

same_int_lem : (a b : ℤ) → same_int a b ≡ true → a ≡ b
unfolding same_int
same_int_lem (pos m) (pos n) h = ground arith
same_int_lem (pos m) (negsuc n) h = cc
same_int_lem (negsuc m) (pos n) h = cc
same_int_lem (negsuc m) (negsuc n) h = ground arith

same_text?_lem : (a b : Option Text) → same_text? a b ≡ true → a ≡ b
unfolding same_text?
same_text?_lem none none h = refl
same_text?_lem none (some t) h = cc
same_text?_lem (some s) none h = cc
same_text?_lem (some s) (some t) h = ap some ((eq_iff s t).0 h)

same_number?_lem : (a b : Option ℕ) → same_number? a b ≡ true → a ≡ b
unfolding same_number?
same_number?_lem none none h = refl
same_number?_lem none (some t) h = cc
same_number?_lem (some s) none h = cc
same_number?_lem (some s) (some t) h = ground arith

-- Two entries of one path that a comparison takes to be the same, the permissions and the owners
-- as far as they are compared.
pub record IsSameEntry (permissions ownership : Bool) (a b : DirectoryEntry) : Type 0 where
  pub kind_lem : a.kind ≡ b.kind
  pub size_lem : a.size ≡ b.size
  pub sha256_lem : a.sha256 ≡ b.sha256
  pub symlink_target_lem : a.symlink_target ≡ b.symlink_target
  pub device_lem : a.device ≡ b.device
  pub mode_lem : permissions ≡ true → a.mode ≡ b.mode
  pub owner_lem : ownership ≡ true → (a.uid ≡ b.uid) × (a.gid ≡ b.gid)

-- Neither tree records the path, or both record the same entry.
abbrev pub Agrees :
    (permissions ownership : Bool) → Option DirectoryEntry → Option DirectoryEntry → Type 0
Agrees permissions ownership none none = Unit
Agrees permissions ownership none (some b) = ⊥
Agrees permissions ownership (some a) none = ⊥
Agrees permissions ownership (some a) (some b) = IsSameEntry permissions ownership a b

is_empty_lem : (names : List Text) → is_empty names ≡ true → (n : Text) → contains names n ≡ false
unfolding contains
is_empty_lem [] h n = refl
is_empty_lem (m ∷ names) h n = cc

nothing_reported :
    (a r c : List Text)
    → drift_in a r c ≡ false
    → (n : Text) → (contains a n ≡ false) × (contains r n ≡ false) × (contains c n ≡ false)
unfolding drift_in
nothing_reported a r c h n = (
  is_empty_lem a (ground arith) n,
  is_empty_lem r (ground arith) n,
  is_empty_lem c (ground arith) n,
)

module _ (permissions ownership : Bool) where
  differ_lem :
      (a b : DirectoryEntry)
      → differ permissions ownership a b ≡ false
      → IsSameEntry permissions ownership a b
  unfolding differ same_content
  differ_lem a b h = record {
    kind_lem = ground (arith, eq_iff a.kind b.kind);
    size_lem = ground (arith, same_int_lem a.size b.size);
    sha256_lem = ground (arith, same_text?_lem a.sha256 b.sha256);
    symlink_target_lem = ground (arith, same_text?_lem a.symlink_target b.symlink_target);
    device_lem = ground (arith, same_number?_lem a.device b.device);
    mode_lem = λ p. ground arith;
    owner_lem = λ o. ground arith;
  }

  agrees_lem :
      (a b : Option DirectoryEntry)
      → (is_there a && not (is_there b)) ≡ false
      → (is_there b && not (is_there a)) ≡ false
      → differ? permissions ownership a b ≡ false
      → Agrees permissions ownership a b
  unfolding differ?
  agrees_lem none none h k d = tt
  agrees_lem none (some b) h k d = cc
  agrees_lem (some a) none h k d = cc
  agrees_lem (some a) (some b) h k d = differ_lem a b d

  compare-drift_in :
      (b c : Collected)
      → (compare permissions ownership b c).drift_detected
        ≡ drift_in
            (compare permissions ownership b c).added
            (compare permissions ownership b c).removed
            (compare permissions ownership b c).changed
  unfolding compare
  compare-drift_in b c = refl

  -- If a comparison finds no drift, then at each path that is neither unreadable nor below an
  -- unreadable one the trees agree: neither records it, or both record the same entry.
  pub no_drift-Agrees :
      (b c : Collected)
      → (compare permissions ownership b c).drift_detected ≡ false
      → (n : Text) → unexamined_path (b.unreadable ++ c.unreadable) n ≡ false
      → Agrees permissions ownership (lookup n (index b)) (lookup n (index c))
  no_drift-Agrees b c h n examined =
      let exact = compare-IsExact permissions ownership b c in
      let none_of = nothing_reported _ _ _ (sym (compare-drift_in b c) ∙ h) n in
      agrees_lem (lookup n (index b)) (lookup n (index c))
        (ground (arith, exact.removed_lem n, none_of.1))
        (ground (arith, exact.added_lem n, none_of.0)) (sym (exact.changed_lem n) ∙ none_of.2)
