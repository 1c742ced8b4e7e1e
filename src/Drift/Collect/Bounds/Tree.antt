-- ===== src/Drift/Collect/Bounds/Tree.antt =====
-- The bounds of `collect_directory` in configdiff.py, by induction on the tree.
use opsforge.Prelude.{
  ℕ, suc, ◌+◌, ◌≤◌, ◌≡◌, refl, false, Option, none, some, List, [], ◌∷◌, ◌++◌, arith, Text, lit,
  All, length, Bool-cases, inl, inr, ltb, leb, eqb,
}
use opsforge.Prelude.Ordered.{sorted_by, length-sorted_by, All-sorted_by}
use opsforge.Result.{Result, value, error}
use opsforge.Fs.{
  pos, FileKind, regular, directory, symlink, fifo, socket, char_device, block_device, unknown,
  Metadata, Answer,
}
use opsforge.Drift.{Failure}
use opsforge.Drift.Snapshot.{FileAnswers}
use opsforge.Drift.Collect.{
  Children, nil, child, broken, Walk, Action, cause, add_entry, open_folder, entering, note_depth,
  bare_entry,
}
use opsforge.Drift.Collect.Visit.{
  Scan, child_name, and_then, run_actions, run_found, run_scan, note_unreadable, note_other,
  count_entry, unreadable_reason, excuse, guarded, inspect_folder, inspect_as, skip_child,
  scan_child,
}
use opsforge.Drift.Collect.Bounds.{
  Extends, Extends-refl, Extends-trans, add_entry-Extends, IsModest, put_link-IsModest,
  put_special-IsModest, read_file-IsModest,
}

module _ (max_files : ℕ) where
  -- What a scan found it has counted.
  pub record ScanFits (w : Walk) (s : Scan) : Type 0 where
    pub walk_lem :
        (length s.found + length s.walk.entries) + w.observed ≤ length w.entries + s.walk.observed
    pub count_lem : Extends max_files 0 w s.walk
    pub found_lem : All (λ (c : Text × Action). IsModest max_files c.1) s.found

  same_walk :
      (k : ℕ) (w w' : Walk)
      → w'.entries ≡ w.entries
      → w'.observed ≡ w.observed
      → w'.read_budget ≡ w.read_budget
      → Extends max_files k w w'
  same_walk k w w' e o b = record {
    paid = rw (e, o) (omega arith);
    counted = λ c. rw o c;
    spent = rw (e, b) (omega arith);
  }

  run_actions-Extends :
      (found : List (Text × Action)) (w : Walk)
      → All (λ (c : Text × Action). IsModest max_files c.1) found
      → Extends max_files (length found) w (run_actions found w).0
  unfolding run_actions
  run_actions-Extends [] w h = Extends-refl max_files 0 w
  run_actions-Extends ((name, act) ∷ rest) w h =
      and_then-Extends (act w) (h.0 w) (λ v. run_actions-Extends rest v h.1)
    where
      and_then-Extends :
          (r : Walk × Option Failure)
          → Extends max_files 1 w r.0
          → ((v : Walk) → Extends max_files (length rest) v (run_actions rest v).0)
          → Extends max_files (suc (length rest)) w (and_then (run_actions rest) r).0
      and_then-Extends (v, none) one more =
          Extends-trans max_files 1 (length rest) _ w v _ one (more v) (omega arith)
      and_then-Extends (v, some e) one more =
          Extends-trans max_files 1 0 _ w v v one (Extends-refl max_files 0 v) (omega arith)

  pub run_scan-Extends : (w : Walk) (s : Scan) → ScanFits w s → Extends max_files 0 w (run_scan s).0
  unfolding run_scan
  run_scan-Extends w s fits = by_failure s.failure
    where
      by_failure : (f : Option Failure) → Extends max_files 0 w (run_found f s.found s.walk).0
      by_failure (some e) = unfold run_found in fits.count_lem
      by_failure none =
          let all =
            All-sorted_by child_name (λ (c : Text × Action). IsModest max_files c.1) s.found
              fits.found_lem in
          let ran = run_actions-Extends (sorted_by child_name s.found) s.walk all in
          let sizes = length-sorted_by child_name s.found in
          unfold run_found in
          (record {
            paid = omega (arith, ran.paid, fits.walk_lem, sizes);
            counted = λ c. ran.counted (fits.count_lem.counted c);
            spent = omega (arith, ran.spent, fits.count_lem.spent);
          })

  module _ {H : Type 0} (new : H) (update : H → Text → H) (hexdigest : H → Text)
      (strerror : ℕ → Text) (max_depth root_device : ℕ) where
    guarded-Extends :
        (relative : Text) (w : Walk) (r : Walk × Option Failure)
        → Extends max_files 1 w r.0
        → Extends max_files 1 w
            (guarded new update hexdigest strerror max_files max_depth root_device relative r).0
    unfolding guarded
    guarded-Extends relative w (v, none) h = h
    guarded-Extends relative w (v, some e) h =
        excused (
          unreadable_reason new update hexdigest strerror max_files max_depth root_device (cause e))
      where
        excused :
            (reason : Option Text)
            → Extends max_files 1 w
                (excuse new update hexdigest strerror max_files max_depth root_device relative
                  reason e v).0
        excused none = unfold excuse in h
        excused (some reason) =
            unfold excuse note_unreadable in
            (Extends-trans max_files 1 0 1 w v _ h (same_walk 0 v _ refl refl refl) (omega arith))

    entering-Extends :
        (opened : Result Failure (Unit {0})) (enter : Action) (w : Walk)
        → ((v : Walk) → Extends max_files 0 v (enter v).0)
        → Extends max_files 0 w (entering opened enter w).0
    entering-Extends (value u) enter w h = h w
    entering-Extends (error e) enter w h = Extends-refl max_files 0 w

    note_depth-Extends :
        (relative : Text) (children : Children) (w : Walk)
        → Extends max_files 0 w (note_depth relative children w).0
    unfolding note_depth
    note_depth-Extends relative nil w = Extends-refl max_files 0 w
    note_depth-Extends relative (child name n rest) w = same_walk 0 w _ refl refl refl
    note_depth-Extends relative (broken e) w = Extends-refl max_files 0 w

    inspect_folder-IsModest :
        (answers : FileAnswers) (relative : Text) (m : Metadata) (depth : ℕ) (children : Children)
        (enter : Action)
        → ((v : Walk) → Extends max_files 0 v (enter v).0)
        → IsModest max_files (
            inspect_folder new update hexdigest strerror max_files max_depth root_device answers
              relative m depth children enter)
    unfolding inspect_folder
    inspect_folder-IsModest answers relative m depth children enter h w =
        let folder = bare_entry relative (lit "directory") (pos 0) m none none in
        let added = add_entry-Extends max_files folder w refl in
        let then_by = λ (v : Walk) (i : Extends max_files 0 (add_entry folder w) v).
          Extends-trans max_files 1 0 1 w (add_entry folder w) v added i (omega arith) in
        elim (Bool-cases (eqb m.device root_device)) [
          | inr other ↦ rw other (
              then_by (note_other relative (add_entry folder w))
                (unfold note_other in (same_walk 0 _ _ refl refl refl)))
          | inl same ↦ elim (Bool-cases (ltb depth max_depth)) [
            | inl above ↦
                rw (same, above)
                  (then_by _
                    (entering-Extends (open_folder answers m) enter (add_entry folder w) h))
            | inr at ↦
                rw (same, at)
                  (then_by _ (
                    entering-Extends (open_folder answers m) (note_depth relative children)
                      (add_entry folder w) (note_depth-Extends relative children)))
          ]
        ]

    pub inspect_as-IsModest :
        (kind : FileKind) (answers : FileAnswers) (link : Answer Text) (relative : Text)
        (m : Metadata) (depth : ℕ) (children : Children) (enter : Action)
        → ((v : Walk) → Extends max_files 0 v (enter v).0)
        → IsModest max_files (
            inspect_as new update hexdigest strerror max_files max_depth root_device kind answers
              link relative m depth children enter)
    unfolding inspect_as
    inspect_as-IsModest symlink answers link relative m depth children enter h =
        put_link-IsModest max_files relative m _
    inspect_as-IsModest directory answers link relative m depth children enter h =
        inspect_folder-IsModest answers relative m depth children enter h
    inspect_as-IsModest regular answers link relative m depth children enter h =
        read_file-IsModest max_files new update hexdigest answers relative m _
    inspect_as-IsModest fifo answers link relative m depth children enter h =
        put_special-IsModest max_files relative m
    inspect_as-IsModest socket answers link relative m depth children enter h =
        put_special-IsModest max_files relative m
    inspect_as-IsModest char_device answers link relative m depth children enter h =
        put_special-IsModest max_files relative m
    inspect_as-IsModest block_device answers link relative m depth children enter h =
        put_special-IsModest max_files relative m
    inspect_as-IsModest unknown answers link relative m depth children enter h =
        put_special-IsModest max_files relative m

    pub scan_child-ScanFits :
        (name relative : Text) (r : Answer Metadata) (inspect : Metadata → Action)
        (more : Walk → Scan) (w : Walk)
        → leb max_files w.observed ≡ false
        → ((m : Metadata) → IsModest max_files (inspect m))
        → ((v : Walk) → ScanFits v (more v))
        → ScanFits w (
            scan_child new update hexdigest strerror max_files max_depth root_device name relative r
              inspect more
              (count_entry w))
    unfolding scan_child count_entry
    scan_child-ScanFits name relative (value m) inspect more w room modest fits =
        let f = fits (record w { observed = suc w.observed }) in
        record {
          walk_lem = omega (arith, f.walk_lem);
          count_lem = record {
            paid = omega (arith, f.walk_lem);
            counted = λ c. f.count_lem.counted (ground arith);
            spent = omega (arith, f.count_lem.spent);
          };
          found_lem = (λ v. guarded-Extends relative v _ (modest m v), f.found_lem);
        }
    scan_child-ScanFits name relative (error e) inspect more w room modest fits =
        skipped
          (unreadable_reason new update hexdigest strerror max_files max_depth root_device (some e))
      where
        skipped :
            (reason : Option Text)
            → ScanFits w (
                skip_child new update hexdigest strerror max_files max_depth root_device relative
                  reason e more
                  (record w { observed = suc w.observed }))
        skipped none =
            unfold skip_child in
            (record {
              walk_lem = omega arith;
              count_lem = record {
                paid = omega arith;
                counted = λ c. ground arith;
                spent = omega arith;
              };
              found_lem = tt;
            })
        skipped (some reason) =
            let counted = record w {
              observed = suc w.observed;
              unreadable = w.unreadable ++ (relative, reason) ∷ [];
            } in
            let f = fits counted in
            unfold skip_child note_unreadable in
            (record {
              walk_lem = omega (arith, f.walk_lem);
              count_lem = record {
                paid = omega (arith, f.walk_lem);
                counted = λ c. f.count_lem.counted (ground arith);
                spent = omega (arith, f.count_lem.spent);
              };
              found_lem = f.found_lem;
            })
