-- ===== src/Drift/TreeTests.antt =====
-- Directory comparisons of configdiff.py, and their theorems at concrete data.
use opsforge.Drift.Collect.Visit.{count_entry, guarded, note_unreadable, unreadable_reason}
use opsforge.Prelude.{
  starts_with, ℕ, ◌≡◌, refl, true, false, none, some, [], ◌∷◌, ◌++◌, Text, lit, ◌==◌, length, take,
  drop, contains,
}
use opsforge.Prelude.Dict.{keys, put, lookup}
use opsforge.Prelude.Ordered.{insert_name, before, sorted_names}
use opsforge.Status.{exit_ok}
use opsforge.Result.{value, error}
use opsforge.Fs.{pos, FileKind, regular, directory, Metadata, os_error, same_identity, same_int}
use opsforge.Drift.{same_number?}
use opsforge.Drift.Snapshot.{FileAnswers, open_regular_file, hash_exact_snapshot, verify_unchanged}
use opsforge.Drift.Directory.{
  same_content, same_text?, unexamined_path, DirectoryEntry, Collected, index, compare,
}
use opsforge.Drift.Directory.Exact.{IsExact, compare-IsExact}
use opsforge.Drift.Directory.Swapped.{compare_swap}
use opsforge.Drift.Directory.Unchanged.{Agrees}
use opsforge.Drift.Collect.{
  add_entry, join_path, open_folder, read_file, Node, node, Children, nil, child,
}
use opsforge.Drift.Collect.Root.{collect_directory}
use opsforge.Drift.Collect.Bounds.Whole.{IsWithin, collect_directory-IsWithin}
use opsforge.Output.Files.{written}
use opsforge.Drift.Main.{compared, finish_directory}
use opsforge.Drift.Main.Status.{IsWhole, exit_ok-Agrees}

abbrev append : Text → Text → Text
append s t = s ++ t

abbrev itself : Text → Text
itself s = s

abbrev metadata_of : FileKind → ℕ → Metadata
metadata_of kind inode = record {
  kind = kind;
  permissions = 420;
  uid = 0;
  gid = 0;
  device = 1;
  inode = inode;
  rdev = 0;
  size = pos 3;
  mtime = pos 5;
  ctime = pos 5;
}

abbrev answers_of : FileKind → ℕ → Text → FileAnswers
answers_of kind inode content = record {
  path = value (lit "/etc");
  inspected = value (metadata_of kind inode);
  opened = value tt;
  observed = value (metadata_of kind inode);
  read = λ offset count. value (take count (drop offset content));
  verified = value (metadata_of kind inode);
}

abbrev file_node : ℕ → Text → Node
file_node inode content =
    node (value (metadata_of regular inode)) (answers_of regular inode content)
      (error (os_error 22)) nil

abbrev folder_node : ℕ → Children → Node
folder_node inode children =
    node (value (metadata_of directory inode)) (answers_of directory inode []) (error (os_error 22))
      children

-- `b` and, in `a`, a file and one that may not be read.
abbrev tree : Children
tree = child (lit "b") (file_node 3 (lit "two")) (
    child (lit "a")
      (folder_node 4 (
        child (lit "x") (file_node 5 (lit "one")) (
          child (lit "y")
            (node (error (os_error 13)) (answers_of regular 6 []) (error (os_error 22)) nil) nil)))
      nil)

abbrev reason_of : ℕ → Text
reason_of errno = lit "denied"

abbrev entry_of : Text → Text → Text → DirectoryEntry
entry_of path kind content = record {
  relative_path = path;
  kind = kind;
  size = pos (length content);
  sha256 = some content;
  mode = 420;
  uid = 0;
  gid = 0;
  symlink_target = none;
  device = none;
}

abbrev folder_of : Text → DirectoryEntry
folder_of path = record {
  relative_path = path;
  kind = lit "directory";
  size = pos 0;
  sha256 = none;
  mode = 420;
  uid = 0;
  gid = 0;
  symlink_target = none;
  device = none;
}

abbrev collected_tree : Collected
collected_tree = record {
  root = lit "/etc";
  entries =
      folder_of (lit "a")
      ∷ entry_of (lit "a/x") (lit "file") (lit "one")
      ∷ entry_of (lit "b") (lit "file") (lit "two")
      ∷ [];
  root_entry = folder_of (lit ".");
  depth_limited = [];
  other_filesystems = [];
  unreadable = (lit "a/y", lit "denied") ∷ [];
}

collect_tree :
    collect_directory [] append itself reason_of 10 4 (answers_of directory 2 []) tree
    ≡ value collected_tree
unfolding collect_directory before same_identity same_int open_regular_file hash_exact_snapshot
    verify_unchanged count_entry guarded open_folder add_entry unreadable_reason read_file
    note_unreadable join_path
collect_tree = refl

collect_directory-IsWithin_example : IsWithin 10 collected_tree
collect_directory-IsWithin_example =
    collect_directory-IsWithin [] append itself reason_of 10 4 (answers_of directory 2 []) tree
      collected_tree collect_tree

abbrev one_file : Collected
one_file = record {
  root = lit "/srv";
  entries = entry_of (lit "b") (lit "file") (lit "six") ∷ [];
  root_entry = folder_of (lit ".");
  depth_limited = [];
  other_filesystems = [];
  unreadable = [];
}

changed_and_removed :
    ((compare false false collected_tree one_file).removed ≡ lit "a" ∷ lit "a/x" ∷ [])
    × ((compare false false collected_tree one_file).changed ≡ lit "b" ∷ [])
unfolding compare ◌==◌ before contains sorted_names keys index put unexamined_path starts_with
    insert_name lookup same_content same_int same_text? same_number?
changed_and_removed = (refl, refl)

compare-IsExact_example :
    IsExact true false collected_tree one_file (compare true false collected_tree one_file)
compare-IsExact_example = compare-IsExact true false collected_tree one_file

compare_swap_example :
    ((compare true false one_file collected_tree).added
      ≡ (compare true false collected_tree one_file).removed)
    × ((compare true false one_file collected_tree).removed
        ≡ (compare true false collected_tree one_file).added)
    × ((compare true false one_file collected_tree).changed
        ≡ (compare true false collected_tree one_file).changed)
    × ((compare true false one_file collected_tree).drift_detected
        ≡ (compare true false collected_tree one_file).drift_detected)
    × ((compare true false one_file collected_tree).unexamined
        ≡ (compare true false collected_tree one_file).unexamined)
compare_swap_example = compare_swap true false collected_tree one_file

no_difference :
    finish_directory written (compared (value (compare true true one_file one_file)))
    ≡ value exit_ok
unfolding finish_directory compare ◌==◌ before contains sorted_names keys index put insert_name
    lookup same_content same_int same_text? same_number?
no_difference = refl

exit_ok-Agrees_example :
    IsWhole one_file one_file
    × ((n : Text) → Agrees true true (lookup n (index one_file)) (lookup n (index one_file)))
exit_ok-Agrees_example = exit_ok-Agrees true true written one_file one_file no_difference
