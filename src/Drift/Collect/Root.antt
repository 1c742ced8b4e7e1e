-- ===== src/Drift/Collect/Root.antt =====
-- `collect_directory` of configdiff.py itself: the root of the tree.
use opsforge.Prelude.{ℕ, Option, none, some, [], Text, lit}
use opsforge.Prelude.Ordered.{sorted_by}
use opsforge.Result.{Result, value, error, ◌>>=◌}
use opsforge.Fs.{pos, Metadata, os_error, value_error}
use opsforge.Drift.{
  Failure, uncaught, invalid_target, observation, or_fail, raise_from, cannot_normalize,
  cannot_open, cannot_inspect, not_a_directory, cannot_observe,
}
use opsforge.Drift.Snapshot.{FileAnswers, require}
use opsforge.Drift.Directory.{DirectoryEntry, Collected}
use opsforge.Drift.Collect.{
  Children, Walk, Action, max_directory_read_bytes, is_directory, verify_directory, bare_entry,
}
use opsforge.Drift.Collect.Visit.{visit}

abbrev pub new_walk : Walk
new_walk = record {
  entries = [];
  depth_limited = [];
  other_filesystems = [];
  unreadable = [];
  observed = 0;
  read_budget = max_directory_read_bytes;
}

-- `except (OSError, InvalidTargetError) as error: raise ObservationError(…) from error`
unfoldable pub observed_walk : Walk × Option Failure → Result Failure Walk
observed_walk (w, none) = value w
observed_walk (w, some (uncaught (os_error errno))) =
    error (observation cannot_observe (some (os_error errno)))
observed_walk (w, some (uncaught value_error)) = error (uncaught value_error)
observed_walk (w, some (invalid_target reason e)) = error (observation cannot_observe none)
observed_walk (w, some (observation reason e)) = error (observation reason e)

-- `verify_directory` and `visit`, at the root.
unfoldable pub visit_root : Result Failure (Unit {0}) → Action → Result Failure Walk
unfolding observed_walk
visit_root (value u) enter = observed_walk (enter new_walk)
visit_root (error failure) enter = observed_walk (new_walk, some failure)

abbrev pub entry_path : DirectoryEntry → Text
entry_path e = e.relative_path

unfoldable pub collected : Text → Metadata → Walk → Collected
unfolding sorted_by
collected root metadata w = record {
  root = root;
  entries = sorted_by entry_path w.entries;
  root_entry = bare_entry (lit ".") (lit "directory") (pos 0) metadata none none;
  depth_limited = w.depth_limited;
  other_filesystems = w.other_filesystems;
  unreadable = w.unreadable;
}

module _ {H : Type 0} (new : H) (update : H → Text → H) (hexdigest : H → Text) (strerror : ℕ → Text)
    (max_files max_depth : ℕ) where
  unfoldable pub collect_directory : FileAnswers → Children → Result Failure Collected
  unfolding visit visit_root collected verify_directory
  collect_directory answers children = do
    root ← or_fail (raise_from (invalid_target cannot_normalize)) answers.path
    metadata ← or_fail (raise_from (invalid_target cannot_inspect)) answers.inspected
    tested ← require (is_directory metadata.kind) (invalid_target not_a_directory none)
    descriptor ← or_fail (raise_from (invalid_target cannot_open)) answers.opened
    w ←
        visit_root (verify_directory answers.observed metadata)
          (visit new update hexdigest strerror max_files max_depth metadata.device children [] 0)
    value (collected root metadata w)
