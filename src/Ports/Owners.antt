-- ===== src/Ports/Owners.antt =====
-- `find_socket_owners` of portlens.py: the links of `/proc/PID/fd`, as the system gives them.
use opsforge.Prelude.{
  ℕ, suc, Bool, true, false, Option, none, some, List, [], ◌∷◌, ◌++◌, Text, lit, ◌==◌, decimal, ltb,
  eqb, if◌then◌else◌,
}
use opsforge.Prelude.Decimal.{is_decimal, number}
use opsforge.Ports.{ProcessReference}

-- The entries of one `fd` directory: the name and what `os.readlink` gives; or the error of the scan.
pub data Descriptors : Type 0 where
  no_more : Descriptors
  broken : Descriptors
  descriptor : (name : Text) (link : Option Text) → Descriptors → Descriptors

pub record ProcessEntry : Type 0 where
  pub name : Text
  pub fds : Descriptors

-- `MAX_PROC_ENTRIES`
abbrev pub max_proc_entries : ℕ
max_proc_entries = 100000

abbrev pub OwnersByInode : Type 0
OwnersByInode = List (ℕ × List ProcessReference)

abbrev pub CountsByPid : Type 0
CountsByPid = List (ℕ × Option ℕ)

-- `owners.setdefault(inode, []).append(reference)`
unfoldable pub add_owner : ℕ → ProcessReference → OwnersByInode → OwnersByInode
add_owner inode r [] = (inode, r ∷ []) ∷ []
add_owner inode r ((i, rs) ∷ owners) =
    if eqb i inode then (i, rs ++ r ∷ []) ∷ owners else (i, rs) ∷ add_owner inode r owners

-- `owners.get(inode, ())`
unfoldable pub owners_of : ℕ → OwnersByInode → List ProcessReference
owners_of inode [] = []
owners_of inode ((i, rs) ∷ owners) = if eqb i inode then rs else owners_of inode owners

-- `targets.get(link)`
unfoldable pub target_of : List ℕ → Text → Option ℕ
target_of [] link = none
target_of (inode ∷ inodes) link =
    if link == lit "socket:[" ++ (decimal inode ++ lit "]")
    then some inode
    else target_of inodes link

-- What the scan of one process leaves: the owners, whether one was found, and the count, none beyond
-- the limit; no count at all where an `OSError` ended it.
pub record FdScan : Type 0 where
  pub owners : OwnersByInode
  pub found : Bool
  pub count : Option (Option ℕ)

abbrev note_link : ℕ → Text → Option ℕ → OwnersByInode × Bool → OwnersByInode × Bool
note_link pid name none (owners, found) = (owners, found)
note_link pid name (some inode) (owners, found) =
    if is_decimal name
    then (add_owner inode (record { pid = pid; fd = number name }) owners, true)
    else (owners, found)

abbrev target? : List ℕ → Option Text → Option ℕ
target? inodes none = none
target? inodes (some link) = target_of inodes link

unfoldable pub scan_fds : List ℕ → (pid count : ℕ) → Descriptors → OwnersByInode × Bool → FdScan
unfolding target_of add_owner
scan_fds inodes pid count no_more (owners, found) = record {
  owners = owners;
  found = found;
  count = some (some count);
}
scan_fds inodes pid count broken (owners, found) = record {
  owners = owners;
  found = found;
  count = none;
}
scan_fds inodes pid count (descriptor name link rest) state =
    let after =
      scan_fds inodes pid (suc count) rest (note_link pid name (target? inodes link) state) in
    if ltb max_proc_entries (suc count)
    then record { owners = state.0; found = state.1; count = some none }
    else after

abbrev counted : ℕ → FdScan → CountsByPid → CountsByPid
counted pid s counts = elim s.count [
  | none ↦ counts
  | some n ↦ if s.found then counts ++ (pid, n) ∷ [] else counts
]

unfoldable pub scan_processes :
    List ℕ → List ProcessEntry → OwnersByInode × CountsByPid → OwnersByInode × CountsByPid
unfolding scan_fds
scan_processes inodes [] state = state
scan_processes inodes (p ∷ processes) (owners, counts) =
    let s = scan_fds inodes (number p.name) 0 p.fds (owners, false) in
    scan_processes inodes processes
      (if is_decimal p.name then (s.owners, counted (number p.name) s counts) else (owners, counts))

-- The scan of `/proc`, none where it cannot be listed.
unfoldable pub find_socket_owners :
    List ℕ → Option (List ProcessEntry) → OwnersByInode × CountsByPid
unfolding scan_processes
find_socket_owners [] processes = ([], [])
find_socket_owners (inode ∷ inodes) none = ([], [])
find_socket_owners (inode ∷ inodes) (some processes) =
    scan_processes (inode ∷ inodes) processes ([], [])
