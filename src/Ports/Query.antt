-- ===== src/Ports/Query.antt =====
-- `run_ss_query` and `discover_sockets` of portlens.py, on what `run_bounded` of Process gives.
use opsforge.Prelude.{
  ℕ, Bool, true, false, ◌||◌, not, Option, List, [], ◌∷◌, ◌++◌, Text, lit, ◌==◌, eqb, if◌then◌else◌,
}
use opsforge.Process.{Outcome, finished, timed_out, output_limit, unfinished}
use opsforge.Result.{Result, value, error, ◌>>=◌}
use opsforge.Ports.{
  Family, ipv4, ipv6, Protocol, tcp, udp, PortError, ss_timeout, ss_error_output, ss_not_executed,
  ss_status, SocketObservation,
}
use opsforge.Ports.Selection.{PortSelection, port_filter}
use opsforge.Ports.Endpoint.{parse_ss_output}

-- `stdout[:stdout.rfind(b"\n") + 1]`
unfoldable pub through_last_line : Text → Text
through_last_line [] = []
through_last_line (c ∷ text) =
    let rest = through_last_line text in if eqb c 10 || not (rest == []) then c ∷ rest else []

-- The text of a query, and whether it was cut.
unfoldable pub run_ss_query : (decode : Text → Text) → Outcome → Result PortError (Text × Bool)
unfolding through_last_line
run_ss_query decode (finished returncode stdout stderr true) =
    value (decode (through_last_line stdout), true)
run_ss_query decode (finished returncode stdout stderr false) =
    if eqb returncode 0 then value (decode stdout, false) else error (ss_status returncode)
run_ss_query decode timed_out = error ss_timeout
run_ss_query decode (output_limit on_stdout) = error ss_error_output
run_ss_query decode unfinished = error ss_not_executed

unfoldable pub ss_arguments : Protocol → Family → Option PortSelection → List Text
unfolding port_filter
ss_arguments protocol family selection =
    lit "-H"
    ∷ elim family [ ipv4 ↦ lit "-4" | ipv6 ↦ lit "-6" ]
    ∷ elim protocol [ udp ↦ lit "-lune" | tcp ↦ lit "-ltne" ]
    ∷ port_filter selection

-- What the queries of all families gave.
pub record Discovery : Type 0 where
  pub observed : List SocketObservation
  pub skipped : List PortError
  pub truncated : List Family

module _ (is_space is_decimal_char : ℕ → Bool) (is_address : Text → Bool) (decode : Text → Text)
    (run : (arguments : List Text) → Outcome) where
  abbrev merge : Family → Bool → List SocketObservation × List PortError → Discovery → Discovery
  merge family cut (observations, malformed) d = record {
    observed = observations ++ d.observed;
    skipped = malformed ++ d.skipped;
    truncated = if cut then family ∷ d.truncated else d.truncated;
  }

  -- `for family in families`
  unfoldable pub discover_sockets :
      Protocol → Option PortSelection → List Family → Result PortError Discovery
  unfolding ss_arguments
  discover_sockets protocol selection [] =
      value (record { observed = []; skipped = []; truncated = [] })
  discover_sockets protocol selection (family ∷ families) = do
    (output, cut) ← run_ss_query decode (run (ss_arguments protocol family selection))
    rest ← discover_sockets protocol selection families
    value (
        merge family cut
          (parse_ss_output is_space is_decimal_char is_address family protocol output) rest)
