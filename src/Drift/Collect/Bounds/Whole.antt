-- ===== src/Drift/Collect/Bounds/Whole.antt =====
-- The bounds of `collect_directory` in configdiff.py, for whole trees.
use opsforge.Prelude.{
  ℕ, suc, ◌+◌, ◌≤◌, ◌≡◌, refl, ap, subst, ◌∙◌, Option, none, some, List, [], ◌∷◌, arith, Text,
  length, Bool-cases, inl, inr, leb,
}
use opsforge.Prelude.Ordered.{before, insert_by, sorted_by, length-sorted_by}
use opsforge.Result.{Result, value, error, value->>=, value_inj}
use opsforge.Fs.{Metadata, os_error, value_error}
use opsforge.Drift.{
  Failure, uncaught, invalid_target, observation, or_fail, raise_from, cannot_normalize,
  cannot_open, cannot_inspect, not_a_directory,
}
use opsforge.Drift.Snapshot.{FileAnswers, require}
use opsforge.Drift.Directory.{DirectoryEntry, Collected}
use opsforge.Drift.Collect.{
  Node, node, Children, nil, child, broken, Walk, Action, max_directory_read_bytes, is_directory,
  join_path, verify_directory,
}
use opsforge.Drift.Collect.Visit.{scanned_of, inspect_child, scan, visit}
use opsforge.Drift.Collect.Root.{
  new_walk, observed_walk, visit_root, entry_path, collected, collect_directory,
}
use opsforge.Drift.Collect.Bounds.{Extends, Extends-refl, IsModest, sized, hashed_bytes}
use opsforge.Drift.Collect.Bounds.Tree.{
  ScanFits, run_scan-Extends, scan_child-ScanFits, inspect_as-IsModest,
}

module _ {H : Type 0} (new : H) (update : H → Text → H) (hexdigest : H → Text) (strerror : ℕ → Text)
    (max_files max_depth root_device : ℕ) where
  mutual
    unfolding inspect_child scan

    inspect_child-IsModest :
        (n : Node) (relative : Text) (depth : ℕ) (m : Metadata)
        → IsModest max_files (
            inspect_child new update hexdigest strerror max_files max_depth root_device n relative
              depth m)
    inspect_child-IsModest (node scanned answers link children) relative depth m =
        inspect_as-IsModest max_files new update hexdigest strerror max_depth root_device m.kind
          answers link relative m depth children _
          λ v. run_scan-Extends max_files v _ (scan-ScanFits children relative (suc depth) v)

    scan-ScanFits :
        (children : Children) (prefix : Text) (depth : ℕ) (w : Walk)
        → ScanFits max_files w (
            scan new update hexdigest strerror max_files max_depth root_device children prefix depth
              w)
    scan-ScanFits nil prefix depth w = record {
      walk_lem = omega arith;
      count_lem = Extends-refl max_files 0 w;
      found_lem = tt;
    }
    scan-ScanFits (broken e) prefix depth w = record {
      walk_lem = omega arith;
      count_lem = Extends-refl max_files 0 w;
      found_lem = tt;
    }
    scan-ScanFits (child name n rest) prefix depth w =
        elim (Bool-cases (leb max_files w.observed)) [
          | inl full ↦ rw full (record {
            walk_lem = omega arith;
            count_lem = Extends-refl max_files 0 w;
            found_lem = tt;
          })
          | inr room ↦ rw room (
              scan_child-ScanFits max_files new update hexdigest strerror max_depth root_device name
                (join_path prefix name) (scanned_of n) _ _ w room
                (inspect_child-IsModest n (join_path prefix name) depth)
                (scan-ScanFits rest prefix depth))
        ]

  visit-Extends :
      (children : Children) (prefix : Text) (depth : ℕ) (w : Walk)
      → Extends max_files 0 w
          (visit new update hexdigest strerror max_files max_depth root_device children prefix depth
            w).0
  unfolding visit
  visit-Extends children prefix depth w =
      run_scan-Extends max_files w _ (scan-ScanFits children prefix depth w)

hashed_bytes-insert_by :
    (e : DirectoryEntry) (entries : List DirectoryEntry)
    → hashed_bytes (insert_by entry_path e entries) ≡ sized e.sha256 e.size + hashed_bytes entries
unfolding insert_by hashed_bytes
hashed_bytes-insert_by e [] = refl
hashed_bytes-insert_by e (d ∷ entries) = elim (Bool-cases (before (entry_path d) (entry_path e))) [
  | inl first ↦ rw first (omega (arith, hashed_bytes-insert_by e entries))
  | inr later ↦ rw later
]

hashed_bytes-sorted_by :
    (entries : List DirectoryEntry)
    → hashed_bytes (sorted_by entry_path entries) ≡ hashed_bytes entries
unfolding sorted_by hashed_bytes
hashed_bytes-sorted_by [] = refl
hashed_bytes-sorted_by (e ∷ entries) =
    hashed_bytes-insert_by e (sorted_by entry_path entries)
    ∙ ap (λ n. sized e.sha256 e.size + n) (hashed_bytes-sorted_by entries)

-- The bounds of what `collect_directory` gives.
pub record IsWithin (max_files : ℕ) (c : Collected) : Type 0 where
  pub entries_lem : length c.entries ≤ max_files
  pub bytes_lem : hashed_bytes c.entries ≤ max_directory_read_bytes

observed_walk_lem : (r : Walk × Option Failure) (w : Walk) → observed_walk r ≡ value w → r.0 ≡ w
unfolding observed_walk
observed_walk_lem (v, none) w h = cc
observed_walk_lem (v, some (uncaught (os_error errno))) w h = cc
observed_walk_lem (v, some (uncaught value_error)) w h = cc
observed_walk_lem (v, some (invalid_target reason e)) w h = cc
observed_walk_lem (v, some (observation reason e)) w h = cc

visit_root_lem :
    (max_files : ℕ) (opened : Result Failure (Unit {0})) (enter : Action) (w : Walk)
    → ((v : Walk) → Extends max_files 0 v (enter v).0)
    → visit_root opened enter ≡ value w
    → Extends max_files 0 new_walk w
unfolding visit_root
visit_root_lem max_files (value u) enter w h e =
    subst (Extends max_files 0 new_walk) (observed_walk_lem (enter new_walk) w e) (h new_walk)
visit_root_lem max_files (error failure) enter w h e =
    subst (Extends max_files 0 new_walk) (observed_walk_lem (new_walk, some failure) w e)
      (Extends-refl max_files 0 new_walk)

module _ {H : Type 0} (new : H) (update : H → Text → H) (hexdigest : H → Text) (strerror : ℕ → Text)
    (max_files max_depth : ℕ) where
  collected-IsWithin :
      (root : Text) (m : Metadata) (w : Walk)
      → Extends max_files 0 new_walk w
      → IsWithin max_files (collected root m w)
  unfolding collected
  collected-IsWithin root m w h =
      let counted = h.counted (omega arith) in
      record {
        entries_lem = omega (arith, length-sorted_by entry_path w.entries, h.paid, counted);
        bytes_lem = omega (arith, hashed_bytes-sorted_by w.entries, spent_lem h);
      }
    where
      spent_lem :
          Extends max_files 0 new_walk w
          → hashed_bytes w.entries + w.read_budget ≤ max_directory_read_bytes
      spent_lem i = unfold hashed_bytes in (omega (arith, i.spent))

  -- However large the tree is and whatever fails in it, `collect_directory` records at most
  -- `max_files` entries, and the files whose digests it records have at most 512 MiB together.
  pub collect_directory-IsWithin :
      (answers : FileAnswers) (children : Children) (c : Collected)
      → collect_directory new update hexdigest strerror max_files max_depth answers children
        ≡ value c
      → IsWithin max_files c
  unfolding collect_directory
  collect_directory-IsWithin answers children c h =
      let (root, e1, h1) =
        value->>= (or_fail (raise_from (invalid_target cannot_normalize)) answers.path) _ c h in
      let (m, e2, h2) =
        value->>= (or_fail (raise_from (invalid_target cannot_inspect)) answers.inspected) _ c h1 in
      let (t, e3, h3) =
        value->>= (require (is_directory m.kind) (invalid_target not_a_directory none)) _ c h2 in
      let (d, e4, h4) =
        value->>= (or_fail (raise_from (invalid_target cannot_open)) answers.opened) _ c h3 in
      let enter = visit new update hexdigest strerror max_files max_depth m.device children [] 0 in
      let (w, e5, h5) = value->>= (visit_root (verify_directory answers.observed m) enter) _ c h4 in
      let within = collected-IsWithin root m w (
        visit_root_lem max_files (verify_directory answers.observed m) enter w
          (visit-Extends new update hexdigest strerror max_files max_depth m.device children [] 0)
          e5) in
      subst (IsWithin max_files) (value_inj (collected root m w) c h5) within
