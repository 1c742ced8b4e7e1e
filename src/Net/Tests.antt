-- ===== src/Net/Tests.antt =====
-- Runs of the models of common/net.py, and the theorems at concrete data.
use opsforge.Prelude.{
  ℕ, zero, suc, ◌≡◌, ◌↔◌, refl, Bool, Option, none, some, List, [], ◌∷◌, Text, lit, ◌==◌, contains,
  length, take, ltb, eqb, if◌then◌else◌,
}
use opsforge.Result.{value, error}
use opsforge.Escape.{has_unsafe_characters}
use opsforge.Net.Host.{
  numeric_label, hostname, parse_host, split, without_root, name_objection, format_endpoint,
}
use opsforge.Net.Host.Names.{IsParsed}
use opsforge.Net.Host.Parsed.{parse_host_iff}
use opsforge.Net.Resolve.{
  number, text, tuple, Entry, entry, Candidate, nonnegative, records, resolve_tcp, max_candidates,
  make_candidate, same_key,
}
use opsforge.Net.Resolve.Distinct.{distinct, Make, resolve_tcp-distinct}
use opsforge.Net.Connect.{Errno, os_error, Dialled, answered, failed, connect_first}
use opsforge.Net.Connect.Outcomes.{IsOutcome, connect_first-IsOutcome}

abbrev ascii : ℕ → Text
ascii c = if ltb c 32 then lit "Cc" else lit "Lo"

abbrev blank : ℕ → Bool
blank c = eqb c 32

abbrev no_literal : Text → Option Text
no_literal s = none

database :
    parse_host ascii blank no_literal no_literal (lit "db-1.local.")
    ≡ value (lit "db-1.local.", hostname)
unfolding parse_host has_unsafe_characters contains name_objection split without_root ◌==◌
database = refl

octal : parse_host ascii blank no_literal no_literal (lit "010.0.0.1") ≡ error numeric_label
unfolding parse_host has_unsafe_characters contains name_objection split without_root ◌==◌
octal = refl

parse_host_iff_example :
    (parse_host ascii blank no_literal no_literal (lit "db-1.local.")
      ≡ value (lit "db-1.local.", hostname))
    ↔ IsParsed ascii blank no_literal no_literal (lit "db-1.local.") (lit "db-1.local.") hostname
parse_host_iff_example =
    parse_host_iff ascii blank no_literal no_literal (lit "db-1.local.") (lit "db-1.local.")
      hostname

-- Every address is of version 4.
abbrev version_four : Text → Option (ℕ × Text)
version_four address = some (4, address)

abbrev sample_entry : Text → Entry
sample_entry address =
    entry (number 2) (number 1) (number 6) (tuple (text address ∷ number 80 ∷ []))

abbrev sample_candidate : Text → Candidate
sample_candidate address = record {
  version = 4;
  protocol = nonnegative 6;
  address = address;
  port = 80;
  extra = [];
  endpoint = format_endpoint address 80 0;
}

abbrev sample_records : List Entry
sample_records = sample_entry (lit "b") ∷ sample_entry (lit "a") ∷ []

abbrev sample_candidates : List Candidate
sample_candidates =
    sample_candidate (lit "a") ∷ sample_candidate (lit "b") ∷ sample_candidate (lit "a") ∷ []

sample-Make :
    Make 2 10 1 version_four 80 (sample_entry (lit "a") ∷ sample_records) sample_candidates
unfolding make_candidate
sample-Make = (refl, (refl, (refl, tt)))

two_of_three : length (distinct [] sample_candidates) ≡ 2
unfolding same_key ◌==◌
two_of_three = refl

resolve_tcp-distinct_example :
    resolve_tcp 2 10 1 version_four
      (λ _. none)
      (records (sample_entry (lit "a") ∷ sample_records))
      80
    ≡ value (record {
      candidates = take max_candidates (distinct [] sample_candidates);
      failure = none;
      truncated = ltb max_candidates (length (distinct [] sample_candidates));
    })
resolve_tcp-distinct_example =
    resolve_tcp-distinct 2 10 1 version_four 80 (λ _. none) (sample_entry (lit "a")) sample_records
      sample_candidates sample-Make

abbrev linux : Errno
linux = record {
  etimedout = 110;
  econnrefused = 111;
  econnreset = 104;
  ehostunreach = 113;
  enetunreach = 101;
  eacces = 13;
  eperm = 1;
}

-- The first candidate refuses, the others answer.
abbrev second_answers : ℕ → Candidate → Option ℕ → Dialled
second_answers zero c limit = failed (os_error (some 111)) 5
second_answers (suc k) c limit = answered 9

one_socket : (connect_first linux second_answers (some 10) none 3 sample_candidates).1 ≡ 1 ∷ []
unfolding connect_first
one_socket = refl

connect_first-IsOutcome_example :
    IsOutcome sample_candidates
      (connect_first linux second_answers (some 10) none 3 sample_candidates).0
      (connect_first linux second_answers (some 10) none 3 sample_candidates).1
connect_first-IsOutcome_example =
    connect_first-IsOutcome linux second_answers (some 10) none 3 sample_candidates
