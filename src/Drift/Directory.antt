-- ===== src/Drift/Directory.antt =====
-- `compare_directories` and `directory_status` of configdiff.py, on what `collect_directory` gives
-- for the two trees. A path is the bytes that `os.fsencode` gives for it, which order it.
pub mod Exact
pub mod Swapped
pub mod Unchanged
use opsforge.Prelude.{
  ℕ, Bool, true, false, ◌&&◌, ◌||◌, not, Option, none, some, List, [], ◌∷◌, ◌++◌, map, Text, lit,
  ◌==◌, contains, starts_with, eqb, any, keep, if◌then◌else◌,
}
use opsforge.Prelude.Dict.{Dict, lookup, put, keys}
use opsforge.Prelude.Ordered.{sorted_names}
use opsforge.Result.{Result, value, error, ◌>>=◌}
use opsforge.Fs.{ℤ, same_int}
use opsforge.Drift.{same_number?, Failure}

pub record DirectoryEntry : Type 0 where
  pub relative_path : Text
  pub kind : Text
  pub size : ℤ
  pub sha256 : Option Text
  pub mode : ℕ
  pub uid : ℕ
  pub gid : ℕ
  pub symlink_target : Option Text
  pub device : Option ℕ

-- What `collect_directory` returns.
pub record Collected : Type 0 where
  pub root : Text
  pub entries : List DirectoryEntry
  pub root_entry : DirectoryEntry
  pub depth_limited : List Text
  pub other_filesystems : List Text
  -- the paths with the reasons
  pub unreadable : List (Text × Text)

pub record DirectoryComparison : Type 0 where
  pub baseline : Text
  pub current : Text
  pub baseline_entries : List DirectoryEntry
  pub current_entries : List DirectoryEntry
  pub added : List Text
  pub removed : List Text
  pub changed : List Text
  pub drift_detected : Bool
  pub unexamined : List Text

unfoldable pub same_text? : Option Text → Option Text → Bool
same_text? none none = true
same_text? (some s) (some t) = s == t
same_text? _ _ = false

-- `content_key_a == content_key_b`
unfoldable pub same_content : DirectoryEntry → DirectoryEntry → Bool
same_content a b =
    a.kind == b.kind
    && (same_int a.size b.size
        && (same_text? a.sha256 b.sha256
            && (same_text? a.symlink_target b.symlink_target && same_number? a.device b.device)))

-- `any(path == item or path.startswith(item + os.sep) for item in unreadable_paths)`
unfoldable pub unexamined_path : List (Text × Text) → Text → Bool
unexamined_path unreadable path =
    any (λ (u : Text × Text). path == u.0 || starts_with path (u.0 ++ lit "/")) unreadable

-- `{entry.relative_path: entry for entry in …}`
unfoldable pub index_from : Dict DirectoryEntry → List DirectoryEntry → Dict DirectoryEntry
index_from d [] = d
index_from d (e ∷ entries) = index_from (put e.relative_path e d) entries

unfoldable pub index : Collected → Dict DirectoryEntry
unfolding index_from
index c = index_from [] (c.root_entry ∷ c.entries)

-- Sorted, the names of one dictionary that are not in the other and were examined.
unfoldable pub only_in :
    (unreadable : List (Text × Text)) (here there : Dict DirectoryEntry) → List Text
only_in unreadable here there =
    sorted_names
      (keep (λ n. not (contains (keys there) n) && not (unexamined_path unreadable n)) (keys here))

abbrev pub below_depth : Text → Text
below_depth path = path ++ lit " (below --max-depth)"

abbrev pub on_other : Text → Text
on_other path = path ++ lit " (other filesystem)"

abbrev pub cannot_examine : Text × Text → Text
cannot_examine (path, reason) = path ++ (lit " (unreadable: " ++ (reason ++ lit ")"))

unfoldable pub unexamined_names : Collected → Collected → List Text
unexamined_names b c =
    map below_depth (b.depth_limited ++ c.depth_limited)
    ++ (map on_other (b.other_filesystems ++ c.other_filesystems)
        ++ map cannot_examine (b.unreadable ++ c.unreadable))

abbrev pub is_empty : List Text → Bool
is_empty [] = true
is_empty (n ∷ names) = false

-- `bool(added or removed or changed)`
unfoldable pub drift_in : (added removed changed : List Text) → Bool
drift_in added removed changed = not (is_empty added && (is_empty removed && is_empty changed))

module _ (permissions ownership : Bool) where
  -- The test of the loop over the names of both.
  unfoldable pub differ : DirectoryEntry → DirectoryEntry → Bool
  differ a b =
      not (same_content a b)
      || ((permissions && not (eqb a.mode b.mode))
          || (ownership && not (eqb a.uid b.uid && eqb a.gid b.gid)))

  unfoldable pub differ? : Option DirectoryEntry → Option DirectoryEntry → Bool
  unfolding differ
  differ? (some a) (some b) = differ a b
  differ? _ _ = false

  -- `for name in sorted(set(left) & set(right))`
  unfoldable pub changed_in : (left right : Dict DirectoryEntry) → List Text
  unfolding differ?
  changed_in left right =
      keep (λ n. differ? (lookup n left) (lookup n right))
        (sorted_names (keep (contains (keys right)) (keys left)))

  unfoldable pub compare : Collected → Collected → DirectoryComparison
  unfolding only_in changed_in unexamined_names drift_in
  compare b c =
      let unreadable = b.unreadable ++ c.unreadable in
      let added = only_in unreadable (index c) (index b) in
      let removed = only_in unreadable (index b) (index c) in
      let changed = changed_in (index b) (index c) in
      record {
        baseline = b.root;
        current = c.root;
        baseline_entries = b.entries;
        current_entries = c.entries;
        added = added;
        removed = removed;
        changed = changed;
        drift_detected = drift_in added removed changed;
        unexamined = sorted_names (unexamined_names b c);
      }

  unfoldable pub compare_directories :
      Result Failure Collected → Result Failure Collected → Result Failure DirectoryComparison
  unfolding compare
  compare_directories baseline current = do b ← baseline; c ← current; value (compare b c)

pub data DirectoryStatus : Type 0 where
  drift_status incomplete_status no_drift_status : DirectoryStatus

unfoldable pub directory_status : DirectoryComparison → DirectoryStatus
directory_status r =
    if r.drift_detected
    then drift_status
    else if is_empty r.unexamined
    then no_drift_status
    else incomplete_status
