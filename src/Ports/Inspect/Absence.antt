-- ===== src/Ports/Inspect/Absence.antt =====
-- What it takes for `inspect_selection` of portlens.py to report that nothing matches.
use opsforge.Prelude.{
  ℕ, ◌≡◌, refl, ap, Bool, true, false, Option, none, some, List, [], ◌∷◌, map, arith, Text, All,
  keep, length, Bool-cases, inl, inr, if◌then◌else◌,
}
use opsforge.Prelude.Ordered.{sorted_by, length-sorted_by}
use opsforge.Result.{value, value->>=}
use opsforge.Process.{Outcome}
use opsforge.Ports.{Family, ipv4, ipv6, Protocol, PortError, SocketObservation}
use opsforge.Ports.Selection.{PortSelection}
use opsforge.Ports.Query.{Discovery, discover_sockets}
use opsforge.Ports.Owners.{ProcessEntry, find_socket_owners}
use opsforge.Ports.Display.{
  ProcessDetails, Address, DisplayObservation, inodes_of, sort_key, to_display,
}
use opsforge.Ports.Inspect.{
  Inspection, Warning, wanted, in_scope, shown, rows_of, conclude, inspect_discovery, only_ipv4,
  is_address, inspect_selection,
}

nil_of_length {ℓ} : {A : Type ℓ} (xs : List A) → length xs ≡ 0 → xs ≡ []
nil_of_length [] h = refl
nil_of_length (x ∷ xs) h = absurd (omega arith)

nil_of_sorted {ℓ} : {A : Type ℓ} (name : A → Text) (xs : List A) → sorted_by name xs ≡ [] → xs ≡ []
nil_of_sorted name xs h = nil_of_length xs (omega (arith, length-sorted_by name xs, ap length h))

cons_ne_nil {ℓ κ} : {A : Type ℓ} {C : Type κ} (x : A) (xs : List A) → x ∷ xs ≡ [] → C
cons_ne_nil x xs e = cc

nil_of_map {ℓ κ} : {A : Type ℓ} {B : Type κ} (f : A → B) (xs : List A) → map f xs ≡ [] → xs ≡ []
nil_of_map f [] h = refl
nil_of_map f (x ∷ xs) h = cc

-- None of the kept values passes the second test.
none_kept {ℓ κ} :
    {A : Type ℓ} {B : Type κ} (p : B → Bool) (f : A → B) (q : A → Bool) (xs : List A)
    → keep p (map f (keep q xs)) ≡ []
    → All (λ x. q x ≡ true → p (f x) ≡ false) xs
none_kept p f q [] h = tt
none_kept p f q (x ∷ xs) h = elim (Bool-cases (q x)) [
  | inr out ↦ (λ e. cc, none_kept p f q xs (rw out at h))
  | inl here ↦ elim (Bool-cases (p (f x))) [
    | inl passes ↦ cons_ne_nil _ _ (rw (here, passes) at h)
    | inr fails ↦ (λ e. fails, none_kept p f q xs (rw (here, fails) at h))
  ]
]

module _ (address_of : Text → Option Address) (details : ℕ → ProcessDetails)
    (encode decode : Text → Text) where
  conclude_lem :
      (displayed : List DisplayObservation) (shared : ℕ) (warnings : List Warning)
      (skipped : List PortError) (truncated : List Family) (i : Inspection)
      → conclude address_of details encode decode displayed shared warnings skipped truncated
        ≡ value i
      → i.observations ≡ []
      → (displayed ≡ []) × (skipped ≡ []) × (truncated ≡ [])
  unfolding conclude
  conclude_lem displayed shared warnings [] [] i h e = (cc, refl, refl)
  conclude_lem [] shared warnings (x ∷ skipped) truncated i h e = cc
  conclude_lem [] shared warnings [] (f ∷ truncated) i h e = cc
  conclude_lem (d ∷ displayed) shared warnings (x ∷ skipped) [] i h e = cc
  conclude_lem (d ∷ displayed) shared warnings [] (f ∷ truncated) i h e = cc
  conclude_lem (d ∷ displayed) shared warnings (x ∷ skipped) (f ∷ truncated) i h e = cc

  -- Absence is established: every row was read and parsed, and no socket in scope passes the tests on
  -- its owners.
  pub record IsAbsent (processes : Option (List ProcessEntry)) (scope : Option PortSelection)
      (ipv4_only : Bool) (pid : Option ℕ) (process : Option Text) (d : Discovery) : Type 0 where
    pub skipped_lem : d.skipped ≡ []
    pub truncated_lem : d.truncated ≡ []
    pub none_lem :
        All
          (λ (o : SocketObservation).
            in_scope address_of details encode decode scope ipv4_only o ≡ true
            → wanted address_of details encode decode pid process (
                to_display address_of details encode decode
                  (find_socket_owners
                    (inodes_of
                      (keep (in_scope address_of details encode decode scope ipv4_only) d.observed))
                    processes)
                  o)
              ≡ false)
          d.observed

  inspect_discovery-IsAbsent :
      (processes : Option (List ProcessEntry)) (scope : Option PortSelection) (ipv4_only : Bool)
      (pid : Option ℕ) (process : Option Text) (d : Discovery) (i : Inspection)
      → inspect_discovery address_of details encode decode processes scope ipv4_only pid process d
        ≡ value i
      → i.observations ≡ []
      → IsAbsent processes scope ipv4_only pid process d
  unfolding inspect_discovery rows_of
  inspect_discovery-IsAbsent processes scope ipv4_only pid process d i h e =
      let (nothing, skipped, truncated) = conclude_lem _ _ _ d.skipped d.truncated i h e in
      record {
        skipped_lem = skipped;
        truncated_lem = truncated;
        none_lem =
            none_kept _ _ (in_scope address_of details encode decode scope ipv4_only) d.observed (
              nil_of_map (shown address_of details encode decode) _
                (nil_of_sorted (sort_key address_of) _ nothing));
      }

  -- `inspect_selection` gives an empty list of sockets only if `ss` ran for every family in question,
  -- none of its outputs was cut and none of its rows was skipped, and each socket that it showed is
  -- out of scope or fails the tests on the process: otherwise a missing match is an error.
  pub inspect_selection-IsAbsent :
      (is_space is_decimal_char : ℕ → Bool) (decode_output : Text → Text)
      (ss : Option ((arguments : List Text) → Outcome)) (processes : Option (List ProcessEntry))
      (selection : Option PortSelection) (all_ports : Bool) (protocol : Protocol)
      (families : List Family) (pid : Option ℕ) (process : Option Text) (i : Inspection)
      → inspect_selection address_of details encode decode is_space is_decimal_char decode_output ss
          processes selection all_ports protocol families pid process
        ≡ value i
      → i.observations ≡ []
      → (run : (arguments : List Text) → Outcome) × (d : Discovery) × (ss ≡ some run)
        × (discover_sockets is_space is_decimal_char
              (is_address address_of details encode decode is_space is_decimal_char decode_output
                ss)
              decode_output
              run
              protocol
              (if all_ports then none else selection)
              (if only_ipv4 address_of details encode decode families
                then ipv4 ∷ ipv6 ∷ []
                else families)
            ≡ value d)
        × IsAbsent processes
            (if all_ports then none else selection)
            (only_ipv4 address_of details encode decode families)
            pid
            process
            d
  unfolding inspect_selection
  inspect_selection-IsAbsent is_space is_decimal_char decode_output none processes selection
        all_ports protocol families pid process i h e =
      cc
  inspect_selection-IsAbsent is_space is_decimal_char decode_output (some run) processes selection
        all_ports protocol families pid process i h e =
      let (d, found, rest) =
        value->>=
          (discover_sockets is_space is_decimal_char
            (is_address address_of details encode decode is_space is_decimal_char decode_output
              (some run))
            decode_output run protocol (if all_ports then none else selection)
            (if only_ipv4 address_of details encode decode families
              then ipv4 ∷ ipv6 ∷ []
              else families))
          _ i h in
      (
        run,
        d,
        refl,
        found,
        inspect_discovery-IsAbsent processes (if all_ports then none else selection)
            (only_ipv4 address_of details encode decode families) pid process d i rest e,
      )
