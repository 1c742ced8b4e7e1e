-- ===== src/Ports/Tests.antt =====
-- Runs of portlens.py, and its theorems at concrete data.
use opsforge.Prelude.{
  split_on, starts_with, decimal, ℕ, ◌<◌, ◌≡◌, refl, Bool, true, false, Option, none, some, List,
  [], ◌∷◌, arith, Text, lit, ◌==◌, eqb, between, if◌then◌else◌,
}
use opsforge.Status.{exit_ok, exit_finding}
use opsforge.Result.{value, error}
use opsforge.Process.{Outcome, finished}
use opsforge.Ports.{ipv4, ipv6, tcp, rows_not_parsed}
use opsforge.Ports.Selection.{holds, PortSelection, label, parse_port_selection}
use opsforge.Ports.Selection.RoundTrip.{IsSelection, parse_port_selection-label}
use opsforge.Ports.Query.{run_ss_query, Discovery, discover_sockets}
use opsforge.Ports.Owners.{ProcessEntry, descriptor, no_more, find_socket_owners, owners_of}
use opsforge.Ports.Display.{inodes_of, ProcessDetails, Address}
use opsforge.Ports.Inspect.{inode_warnings, Inspection, only_ipv4, is_address, inspect_selection}
use opsforge.Ports.Inspect.Absence.{IsAbsent, inspect_selection-IsAbsent}
use opsforge.Prelude.Splitting.{rpartition}
use opsforge.Ports.Endpoint.{parse_ss_output, parse_ss_row, endpoint_port, split_address}
use opsforge.Prelude.Decimal.{is_decimal, number}
use opsforge.Prelude.Ordered.{sorted_by}
use opsforge.Units.{ends_with}
use opsforge.Output.Files.{written, uncaught, os_error}
use opsforge.Ports.Main.{Snapshot, inspected, watch_count, main}
use opsforge.Ports.Main.Status.{Took, main-Took}

abbrev web : PortSelection
web = record { start = 80; end = 443 }

web-IsSelection : IsSelection web
web-IsSelection = record { start_pos = omega arith; ordered = omega arith; end_bound = omega arith }

parse_port_selection-label_example : parse_port_selection (label web) ≡ value web
parse_port_selection-label_example = parse_port_selection-label web web-IsSelection

-- Every text is an address, and none has a class of its own.
abbrev address_of : Text → Option Address
address_of text = some (record {
  is_mapped = false;
  is_unspecified = false;
  is_loopback = false;
  is_link_local = false;
  version = 4;
  number = 0;
})

abbrev details : ℕ → ProcessDetails
details pid = record {
  user = lit "root";
  process = lit "httpd";
  uid = lit "0";
  executable = lit "httpd";
  cgroup = lit "/";
}

abbrev itself : Text → Text
itself s = s

abbrev is_blank : ℕ → Bool
is_blank c = eqb c 32

abbrev is_digit : ℕ → Bool
is_digit c = between 48 57 c

-- One listener, owned by the process 7.
abbrev rows : Text
rows = lit "LISTEN 0 5 1.2.3.4:80 *:* ino:9"

abbrev run : (arguments : List Text) → Outcome
run arguments = finished 0 rows [] false

abbrev processes : Option (List ProcessEntry)
processes =
    some
      (record { name = lit "7"; fds = descriptor (lit "3") (some (lit "socket:[9]")) no_more } ∷ [])

-- Asked for the process 8.
abbrev nothing : Inspection
nothing = record { observations = []; warnings = []; shared_groups = 0 }

inspect_nothing :
    inspect_selection address_of details itself itself is_blank is_digit itself
      (some run)
      processes
      (some web)
      false
      tcp
      (ipv6 ∷ [])
      (some 8)
      none
    ≡ value nothing
unfolding inspect_selection discover_sockets run_ss_query parse_ss_output split_on ◌==◌ parse_ss_row
    rpartition endpoint_port split_address starts_with ends_with is_decimal number sorted_by
    inodes_of find_socket_owners owners_of decimal holds inode_warnings
inspect_nothing = refl

inspect_selection-IsAbsent_example :
    (r : (arguments : List Text) → Outcome) × (d : Discovery) × (some run ≡ some r)
    × (discover_sockets is_blank is_digit
          (is_address address_of details itself itself is_blank is_digit itself (some run))
          itself
          r
          tcp
          (if false then none else some web)
          (if only_ipv4 address_of details itself itself (ipv6 ∷ [])
            then ipv4 ∷ ipv6 ∷ []
            else ipv6 ∷ [])
        ≡ value d)
    × IsAbsent address_of details itself itself processes
        (if false then none else some web)
        (only_ipv4 address_of details itself itself (ipv6 ∷ []))
        (some 8)
        none
        d
inspect_selection-IsAbsent_example =
    inspect_selection-IsAbsent address_of details itself itself is_blank is_digit itself (some run)
      processes (some web) false tcp (ipv6 ∷ []) (some 8) none nothing inspect_nothing refl

-- A row that cannot be parsed is an error where nothing matches.
abbrev run_garbage : (arguments : List Text) → Outcome
run_garbage arguments = finished 0 (lit "LISTEN 0") [] false

inspect_garbage :
    inspect_selection address_of details itself itself is_blank is_digit itself
      (some run_garbage)
      processes
      none
      true
      tcp
      (ipv4 ∷ ipv6 ∷ [])
      none
      none
    ≡ error (rows_not_parsed 2)
unfolding inspect_selection discover_sockets run_ss_query parse_ss_output split_on ◌==◌ parse_ss_row
    sorted_by
inspect_garbage = refl

abbrev all_safe : Text → Bool
all_safe text = false

abbrev always_nothing : (index : ℕ) → Snapshot
always_nothing index = inspected (value nothing)

main-Took_example :
    (main all_safe always_nothing written (some (lit "sshd")) (some 3) ≡ value exit_finding
      → (k : ℕ) → k < watch_count all_safe always_nothing written (some 3)
      → Took all_safe always_nothing written false k)
    × (main all_safe always_nothing written (some (lit "sshd")) (some 3) ≡ value exit_ok
        → (k : ℕ) × (k < watch_count all_safe always_nothing written (some 3))
          × Took all_safe always_nothing written true k)
main-Took_example = main-Took all_safe always_nothing written (some (lit "sshd")) (some 3)

main_finding :
    main all_safe always_nothing written (some (lit "sshd")) (some 3) ≡ value exit_finding
unfolding main
main_finding = refl

-- Standard output cannot be written: the exception leaves `main`.
main_uncaught :
    main all_safe always_nothing (uncaught os_error) (some (lit "sshd")) (some 3) ≡ error os_error
unfolding main
main_uncaught = refl
