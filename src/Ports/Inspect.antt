-- ===== src/Ports/Inspect.antt =====
-- `inspect_selection` of portlens.py. The reading of `/proc` and of each owner's details are arguments.
pub mod Absence
use opsforge.Prelude.{
  ℕ, Bool, true, false, ◌&&◌, ◌||◌, not, Option, none, some, List, [], ◌∷◌, ◌++◌, map, Text, keep,
  length, any, eqb, if◌then◌else◌,
}
use opsforge.Prelude.Ordered.{sorted_by}
use opsforge.Result.{Result, value, error, ◌>>=◌}
use opsforge.Process.{Outcome}
use opsforge.Ports.{
  Family, ipv4, ipv6, Protocol, PortError, ss_missing, rows_not_parsed, output_cut,
  ProcessReference, SocketObservation,
}
use opsforge.Ports.Selection.{PortSelection, holds}
use opsforge.Ports.Query.{Discovery, discover_sockets}
use opsforge.Ports.Owners.{ProcessEntry, find_socket_owners}
use opsforge.Ports.Display.{
  ProcessDetails, Address, DisplayObservation, likely_shared_bind_count, process_name_matches,
  inodes_of, lacks_inode, is_ipv4, accepts_ipv4, sort_key, to_display,
}

pub data Warning : Type 0 where
  without_inode : (rows : ℕ) → Warning
  skipped_row : PortError → Warning
  more_may_exist : List Family → Warning

pub record Inspection : Type 0 where
  pub observations : List DisplayObservation
  pub warnings : List Warning
  pub shared_groups : ℕ

-- `warnings.append` where the number is positive.
unfoldable pub inode_warnings : ℕ → List Warning
inode_warnings n = if eqb n 0 then [] else without_inode n ∷ []

module _ (address_of : Text → Option Address) (details : ℕ → ProcessDetails)
    (encode decode : Text → Text) where
  abbrev pid_fits : Option ℕ → SocketObservation → Bool
  pid_fits none o = true
  pid_fits (some pid) o = any (λ (r : ProcessReference). eqb r.pid pid) o.processes

  abbrev process_fits : Option Text → SocketObservation → Bool
  process_fits none o = true
  process_fits (some name) o =
      any
        (λ (r : ProcessReference).
          process_name_matches encode decode name (details r.pid).process
            (details r.pid).executable)
        o.processes

  -- The two tests of the last loop.
  unfoldable pub wanted : Option ℕ → Option Text → SocketObservation × DisplayObservation → Bool
  unfolding process_name_matches
  wanted pid process row = pid_fits pid row.0 && process_fits process row.0

  abbrev pub in_scope : Option PortSelection → Bool → SocketObservation → Bool
  in_scope scope ipv4_only o =
      (elim scope [ none ↦ true | some s ↦ holds s o.local_port ])
      && (not ipv4_only || (is_ipv4 o.family || accepts_ipv4 address_of o.local_address))

  abbrev shown : SocketObservation × DisplayObservation → DisplayObservation
  shown row = row.1

  -- The rows of the sockets in scope, all of them with their owners.
  unfoldable pub rows_of :
      Option (List ProcessEntry)
      → List SocketObservation
      → List (SocketObservation × DisplayObservation)
  unfolding to_display
  rows_of processes scoped =
      map
        (to_display address_of details encode decode
          (find_socket_owners (inodes_of scoped) processes))
        scoped

  -- The raises and warnings behind the rows.
  unfoldable pub conclude :
      List DisplayObservation
      → ℕ
      → List Warning
      → List PortError
      → List Family
      → Result PortError Inspection
  conclude displayed shared warnings [] [] =
      value (record { observations = displayed; warnings = warnings; shared_groups = shared })
  conclude [] shared warnings (e ∷ skipped) truncated =
      error (rows_not_parsed (length (e ∷ skipped)))
  conclude [] shared warnings [] (f ∷ truncated) = error (output_cut (f ∷ truncated))
  conclude (d ∷ displayed) shared warnings skipped [] = value (record {
    observations = d ∷ displayed;
    warnings = warnings ++ map skipped_row skipped;
    shared_groups = shared;
  })
  conclude (d ∷ displayed) shared warnings skipped (f ∷ truncated) = value (record {
    observations = d ∷ displayed;
    warnings = warnings ++ (map skipped_row skipped ++ more_may_exist (f ∷ truncated) ∷ []);
    shared_groups = shared;
  })

  unfoldable pub inspect_discovery :
      Option (List ProcessEntry)
      → Option PortSelection
      → Bool
      → Option ℕ
      → Option Text
      → Discovery
      → Result PortError Inspection
  unfolding conclude rows_of sort_key wanted likely_shared_bind_count
  inspect_discovery processes scope ipv4_only pid process d =
      let scoped = keep (in_scope scope ipv4_only) d.observed in
      let rows = rows_of processes scoped in
      conclude (sorted_by (sort_key address_of) (map shown (keep (wanted pid process) rows)))
        (likely_shared_bind_count (map shown rows))
        (inode_warnings (length (keep lacks_inode scoped))) d.skipped d.truncated

  -- `tuple(families) == ("ipv4",)`
  abbrev pub only_ipv4 : List Family → Bool
  only_ipv4 (ipv4 ∷ []) = true
  only_ipv4 _ = false

  module _ (is_space is_decimal_char : ℕ → Bool) (decode_output : Text → Text)
      (ss : Option ((arguments : List Text) → Outcome)) where
    abbrev pub is_address : Text → Bool
    is_address text = elim (address_of text) [ none ↦ false | some a ↦ true ]

    abbrev pub found_ss : Result PortError ((arguments : List Text) → Outcome)
    found_ss = elim ss [ none ↦ error ss_missing | some run ↦ value run ]

    unfoldable pub inspect_selection :
        Option (List ProcessEntry)
        → (selection : Option PortSelection) (all_ports : Bool) → Protocol
        → List Family
        → (pid : Option ℕ) (process : Option Text) → Result PortError Inspection
    unfolding inspect_discovery
    inspect_selection processes selection all_ports protocol families pid process =
        let scope = if all_ports then none else selection in
        let query = if only_ipv4 families then ipv4 ∷ ipv6 ∷ [] else families in
        found_ss >>= λ run.
        discover_sockets is_space is_decimal_char is_address decode_output run protocol scope query
        >>= inspect_discovery processes scope (only_ipv4 families) pid process
