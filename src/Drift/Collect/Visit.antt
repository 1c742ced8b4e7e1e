-- ===== src/Drift/Collect/Visit.antt =====
-- `visit`, `inspect_child` and the rest of `collect_directory` of configdiff.py: each directory is
-- scanned first, then its entries are inspected in the order of their names.
use opsforge.Prelude.{
  ℕ, suc, not, Option, none, some, List, [], ◌∷◌, ◌++◌, Text, lit, ltb, leb, eqb, if◌then◌else◌,
}
use opsforge.Prelude.Ordered.{sorted_by}
use opsforge.Result.{value, error}
use opsforge.Fs.{pos, FileKind, regular, directory, symlink, Metadata, OsError, os_error, Answer}
use opsforge.Drift.{
  Failure, uncaught, invalid_target, observation, or_fail, raise_from, cannot_normalize,
  cannot_open, cannot_inspect, not_a_directory, entry_limit, cannot_observe,
}
use opsforge.Drift.Snapshot.{FileAnswers, require}
use opsforge.Drift.Collect.{
  Node, node, Children, nil, child, broken, Walk, Action, is_unreadable, cause, join_path,
  add_entry, open_folder, entering, note_depth, bare_entry, read_link, put_link, put_special,
  read_file,
}

-- The children found, by name, with what inspects them.
pub record Scan : Type 0 where
  pub walk : Walk
  pub failure : Option Failure
  pub found : List (Text × Action)

abbrev pub find_child : Text × Action → Scan → Scan
find_child c s = record s { found = c ∷ s.found }

abbrev pub scanned_of : Node → Answer Metadata
scanned_of (node scanned answers link children) = scanned

-- `raise`, or the next step.
abbrev pub and_then : Action → Walk × Option Failure → Walk × Option Failure
and_then more (w, none) = more w
and_then more (w, some failure) = (w, some failure)

unfoldable pub run_actions : List (Text × Action) → Action
run_actions [] w = (w, none)
run_actions ((name, act) ∷ rest) w = and_then (run_actions rest) (act w)

-- `os.fsencode(item[0])`
abbrev pub child_name : Text × Action → Text
child_name c = c.0

-- The second half of `visit`.
unfoldable pub run_found : Option Failure → List (Text × Action) → Action
unfolding run_actions sorted_by
run_found (some failure) found w = (w, some failure)
run_found none found w = run_actions (sorted_by child_name found) w

unfoldable pub run_scan : Scan → Walk × Option Failure
unfolding run_found
run_scan s = run_found s.failure s.found s.walk

unfoldable pub note_unreadable : Text → Text → Walk → Walk
note_unreadable relative reason w = record w {
  unreadable = w.unreadable ++ (relative, reason) ∷ [];
}

unfoldable pub note_other : Text → Walk → Walk
note_other relative w = record w { other_filesystems = w.other_filesystems ++ relative ∷ [] }

unfoldable pub count_entry : Walk → Walk
count_entry w = record w { observed = suc w.observed }

module _ {H : Type 0} (new : H) (update : H → Text → H) (hexdigest : H → Text) (strerror : ℕ → Text)
    (max_files max_depth root_device : ℕ) where
  -- `_unreadable_reason`
  unfoldable pub unreadable_reason : Option OsError → Option Text
  unreadable_reason (some (os_error errno)) =
      if is_unreadable errno then some (strerror errno) else none
  unreadable_reason _ = none

  unfoldable pub excuse : Text → Option Text → Failure → Action
  excuse relative none failure w = (w, some failure)
  excuse relative (some reason) failure w = (note_unreadable relative reason w, none)

  -- The handler around `inspect_child`.
  unfoldable pub guarded : Text → Walk × Option Failure → Walk × Option Failure
  unfolding excuse
  guarded relative (w, none) = (w, none)
  guarded relative (w, some failure) = excuse relative (unreadable_reason (cause failure)) failure w

  unfoldable pub inspect_folder : FileAnswers → Text → Metadata → ℕ → Children → Action → Action
  inspect_folder answers relative metadata depth children enter w =
      let added = add_entry (bare_entry relative (lit "directory") (pos 0) metadata none none) w in
      if not (eqb metadata.device root_device)
      then (note_other relative added, none)
      else if ltb depth max_depth
      then entering (open_folder answers metadata) enter added
      else entering (open_folder answers metadata) (note_depth relative children) added

  unfoldable pub inspect_as :
      FileKind → FileAnswers → Answer Text → Text → Metadata → ℕ → Children → Action → Action
  unfolding inspect_folder
  inspect_as symlink answers link relative metadata depth children enter =
      put_link relative metadata (read_link link answers.inspected metadata)
  inspect_as directory answers link relative metadata depth children enter =
      inspect_folder answers relative metadata depth children enter
  inspect_as regular answers link relative metadata depth children enter =
      read_file new update hexdigest answers relative metadata
        (opsforge.Drift.Snapshot.open_regular_file answers)
  inspect_as kind answers link relative metadata depth children enter =
      put_special relative metadata

  -- What follows the `os.stat` of the scan.
  unfoldable pub skip_child : Text → Option Text → OsError → (Walk → Scan) → Walk → Scan
  skip_child relative none e more w = record { walk = w; failure = some (uncaught e); found = [] }
  skip_child relative (some reason) e more w = more (note_unreadable relative reason w)

  unfoldable pub scan_child :
      Text → Text → Answer Metadata → (Metadata → Action) → (Walk → Scan) → Walk → Scan
  unfolding skip_child
  scan_child name relative (value metadata) inspect more w =
      find_child (name, λ w'. guarded relative (inspect metadata w')) (more w)
  scan_child name relative (error e) inspect more w =
      skip_child relative (unreadable_reason (some e)) e more w

  unfoldable mutual
    unfolding run_scan scan_child inspect_as

    pub inspect_child : Node → Text → ℕ → Metadata → Action
    inspect_child (node scanned answers link children) relative depth metadata =
        inspect_as metadata.kind answers link relative metadata depth children
          (λ w. run_scan (scan children relative (suc depth) w))

    -- The first half of `visit`.
    pub scan : Children → Text → ℕ → Walk → Scan
    scan nil prefix depth w = record { walk = w; failure = none; found = [] }
    scan (broken e) prefix depth w = record { walk = w; failure = some (uncaught e); found = [] }
    scan (child name n rest) prefix depth w =
        if leb max_files w.observed
        then record { walk = w; failure = some (observation entry_limit none); found = [] }
        else scan_child name (join_path prefix name) (scanned_of n)
            (inspect_child n (join_path prefix name) depth) (scan rest prefix depth) (count_entry w)

  unfoldable pub visit : Children → Text → ℕ → Action
  unfolding scan
  visit children prefix depth w = run_scan (scan children prefix depth w)
