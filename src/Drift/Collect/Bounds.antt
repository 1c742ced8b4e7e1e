-- ===== src/Drift/Collect/Bounds.antt =====
-- The bounds of `collect_directory` in configdiff.py: entries and bytes.
pub mod Tree
pub mod Whole
use opsforge.Prelude.{
  ℕ, suc, ◌+◌, ◌-◌, ◌≤◌, ◌≡◌, refl, Bool, true, false, not, Option, none, some, List, [], ◌∷◌, ◌++◌,
  arith, Text, lit, All, length, length-append, Bool-cases, inl, inr, ltb, leb, eqb, if◌then◌else◌,
}
use opsforge.Prelude.Ordered.{sorted_by, length-sorted_by, All-sorted_by}
use opsforge.Result.{Result, value, error, ◌>>=◌, value->>=}
use opsforge.Fs.{
  ℤ, pos, negsuc, FileKind, regular, directory, symlink, Metadata, OsError, os_error, value_error,
  Answer, same_identity,
}
use opsforge.Drift.{
  Failure, uncaught, invalid_target, observation, or_fail, raise_from, entry_limit,
}
use opsforge.Drift.Snapshot.{FileAnswers}
use opsforge.Drift.Directory.{DirectoryEntry, Collected}
use opsforge.Drift.Collect.{
  Node, node, Children, nil, child, broken, Walk, Action, max_directory_read_bytes, cause,
  join_path, add_entry, open_folder, entering, note_depth, bare_entry, read_link, put_link,
  put_special, put_file, hash_file, read_file,
}
use opsforge.Drift.Collect.Visit.{
  Scan, find_child, child_name, scanned_of, and_then, run_actions, run_found, run_scan,
  note_unreadable, note_other, count_entry, unreadable_reason, excuse, guarded, inspect_folder,
  inspect_as, skip_child, scan_child, inspect_child, scan, visit,
}

-- The bytes that were hashed for an entry.
abbrev pub sized : Option Text → ℤ → ℕ
sized (some digest) (pos n) = n
sized _ _ = 0

unfoldable pub hashed_bytes : List DirectoryEntry → ℕ
hashed_bytes [] = 0
hashed_bytes (e ∷ entries) = sized e.sha256 e.size + hashed_bytes entries

-- What a step may do that inspects `k` of the children counted: at most `k` more entries than
-- children counted in it, the count within the limit, and the bytes paid from the budget.
pub record Extends (max_files k : ℕ) (w w' : Walk) : Type 0 where
  pub paid : length w'.entries + w.observed ≤ length w.entries + w'.observed + k
  pub counted : w.observed ≤ max_files → w'.observed ≤ max_files
  pub spent : hashed_bytes w'.entries + w'.read_budget ≤ hashed_bytes w.entries + w.read_budget

hashed_bytes-append :
    (xs : List DirectoryEntry) (e : DirectoryEntry)
    → hashed_bytes (xs ++ e ∷ []) ≡ hashed_bytes xs + sized e.sha256 e.size
unfolding hashed_bytes
hashed_bytes-append [] e = omega arith
hashed_bytes-append (x ∷ xs) e = omega (arith, hashed_bytes-append xs e)

module _ (max_files : ℕ) where
  pub Extends-refl : (k : ℕ) (w : Walk) → Extends max_files k w w
  Extends-refl k w = record { paid = omega arith; counted = λ h. h; spent = omega arith }

  pub Extends-trans :
      (j k n : ℕ) (u v w : Walk)
      → Extends max_files j u v
      → Extends max_files k v w
      → j + k ≤ n
      → Extends max_files n u w
  Extends-trans j k n u v w h i fits = record {
    paid = omega (arith, h.paid, i.paid);
    counted = λ c. i.counted (h.counted c);
    spent = omega (arith, h.spent, i.spent);
  }

  pub add_entry-Extends :
      (e : DirectoryEntry) (w : Walk)
      → sized e.sha256 e.size ≡ 0
      → Extends max_files 1 w (add_entry e w)
  unfolding add_entry
  add_entry-Extends e w h = record {
    paid = omega (arith, length-append {0} w.entries (e ∷ []));
    counted = λ c. c;
    spent = omega (arith, hashed_bytes-append w.entries e);
  }

  -- An action keeps to the bounds of one child.
  abbrev pub IsModest : Action → Type 0
  IsModest act = (w : Walk) → Extends max_files 1 w (act w).0

  pub put_link-IsModest :
      (relative : Text) (m : Metadata) (r : Result Failure Text) → IsModest (put_link relative m r)
  unfolding put_link
  put_link-IsModest relative m (value target) w = add_entry-Extends _ w refl
  put_link-IsModest relative m (error e) w = Extends-refl 1 w

  pub put_special-IsModest : (relative : Text) (m : Metadata) → IsModest (put_special relative m)
  unfolding put_special
  put_special-IsModest relative m w = add_entry-Extends _ w refl

  module _ {H : Type 0} (new : H) (update : H → Text → H) (hexdigest : H → Text) where
    put_file-Extends :
        (relative : Text) (m o : Metadata) (size : ℕ) (r : Result Failure Text) (w : Walk)
        → size ≤ w.read_budget
        → Extends max_files 1 w
            (put_file new update hexdigest relative m o size r
              (record w { read_budget = w.read_budget - size })).0
    unfolding put_file add_entry
    put_file-Extends relative m o size (error e) w h = record {
      paid = omega arith;
      counted = λ c. c;
      spent = omega arith;
    }
    put_file-Extends relative m o size (value digest) w h = record {
      paid = omega (arith, length-append {0} w.entries (file_of digest ∷ []));
      counted = λ c. c;
      spent = omega (arith, hashed_bytes-append w.entries (file_of digest));
    }
      where
        file_of : Text → DirectoryEntry
        file_of digest = record {
          relative_path = relative;
          kind = lit "file";
          size = pos size;
          sha256 = some digest;
          mode = m.permissions;
          uid = o.uid;
          gid = o.gid;
          symlink_target = none;
          device = none;
        }

    pub read_file-IsModest :
        (answers : FileAnswers) (relative : Text) (m : Metadata) (r : Result Failure (Metadata × ℕ))
        → IsModest (read_file new update hexdigest answers relative m r)
    unfolding read_file
    read_file-IsModest answers relative m (error e) w = Extends-refl 1 w
    read_file-IsModest answers relative m (value (opened, size)) w =
        elim (Bool-cases (same_identity opened m)) [
          | inr other ↦ rw other (Extends-refl 1 w)
          | inl same ↦ elim (Bool-cases (ltb w.read_budget size)) [
            | inl over ↦ rw (same, over) (Extends-refl 1 w)
            | inr within ↦
                rw (same, within) (put_file-Extends relative m opened size _ w (ground arith))
          ]
        ]
