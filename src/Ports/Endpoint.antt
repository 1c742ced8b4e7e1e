-- ===== src/Ports/Endpoint.antt =====
-- `split_endpoint`, `parse_ss_row` and `parse_ss_output` of portlens.py. Python's `str.isspace` and
-- `str.isdecimal` of a character, and `ipaddress.ip_address`, are arguments.
use opsforge.Prelude.{
  ℕ, Bool, true, false, ◌&&◌, ◌||◌, not, Option, none, some, List, [], ◌∷◌, Text, lit, ◌==◌,
  starts_with, split_on, drop, all, ltb, eqb, if◌then◌else◌,
}
use opsforge.Prelude.Splitting.{partition, rpartition, skip_spaces, split_fields, words_from}
use opsforge.Prelude.Decimal.{is_decimal, number}
use opsforge.Result.{Result, value, error, ◌>>=◌}
use opsforge.Units.{ends_with}
use opsforge.Ports.{
  Family, Protocol, tcp, udp, PortError, bad_endpoint, invalid_port, malformed_row,
  unexpected_state, malformed_queues, SocketObservation,
}

-- The port, or none for `*` where that is allowed.
unfoldable pub endpoint_port : Bool → Text → Result PortError (Option ℕ)
endpoint_port allow_wildcard text =
    if allow_wildcard && text == lit "*"
    then value none
    else if not (is_decimal text)
    then error bad_endpoint
    else if ltb 65535 (number text)
    then error invalid_port
    else value (some (number text))

-- What stands behind the closing bracket.
unfoldable pub bracketed : Option (Text × Text) → Result PortError (Text × Option Text)
bracketed none = error bad_endpoint
bracketed (some (address, [])) = value (address, none)
bracketed (some (address, c ∷ suffix)) =
    if eqb c 37 then value (address, some suffix) else error bad_endpoint

abbrev zoned : Text → Option (Text × Text) → Text × Option Text
zoned address none = (address, none)
zoned address (some (before, after)) = (before, some after)

-- The address and the interface it is bound to.
unfoldable pub split_address : Text → Result PortError (Text × Option Text)
unfolding bracketed partition
split_address address =
    if starts_with address (lit "[")
    then bracketed (partition 93 (drop 1 address))
    else if ends_with address (lit "]")
    then error bad_endpoint
    else value (zoned address (partition 37 address))

abbrev is_blank : Option Text → Bool
is_blank (some []) = true
is_blank _ = false

-- The inode of the first token that begins with `ino:`.
unfoldable pub inode_of : List Text → Option ℕ
inode_of [] = none
inode_of (t ∷ tokens) =
    let rest = inode_of tokens in
    if starts_with t (lit "ino:")
    then (if is_decimal (drop 4 t) then some (number (drop 4 t)) else none)
    else rest

module _ (is_space is_decimal_char : ℕ → Bool) (is_address : Text → Bool) where
  -- The tests on an address.
  unfoldable pub accept_endpoint :
      Option ℕ → Text × Option Text → Result PortError (Text × Option Text × Option ℕ)
  accept_endpoint port (address, interface) =
      if address == [] || is_blank interface
      then error bad_endpoint
      else if not (address == lit "*") && not (is_address address)
      then error bad_endpoint
      else value (address, interface, port)

  unfoldable pub split_parts :
      Bool → Option (Text × Text) → Result PortError (Text × Option Text × Option ℕ)
  unfolding accept_endpoint
  split_parts allow_wildcard none = error bad_endpoint
  split_parts allow_wildcard (some ([], port_text)) = error bad_endpoint
  split_parts allow_wildcard (some (c ∷ address, port_text)) = do
    port ← endpoint_port allow_wildcard port_text
    parts ← split_address (c ∷ address)
    accept_endpoint port parts

  unfoldable pub split_endpoint :
      (allow_wildcard : Bool) → Text → Result PortError (Text × Option Text × Option ℕ)
  unfolding split_parts
  split_endpoint allow_wildcard endpoint = split_parts allow_wildcard (rpartition 58 endpoint)

  abbrev all_decimal : Text → Bool
  all_decimal [] = false
  all_decimal (c ∷ text) = all is_decimal_char (c ∷ text)

  abbrev is_tcp : Protocol → Bool
  is_tcp tcp = true
  is_tcp udp = false

  -- A local endpoint has a port: no wildcard is allowed there.
  unfoldable pub observation_of :
      Family
      → Protocol
      → Text
      → List Text
      → Text × Option Text × Option ℕ
      → Result PortError SocketObservation
  observation_of family protocol state extra (address, interface, none) = error bad_endpoint
  observation_of family protocol state extra (address, interface, some port) = value (record {
    protocol = protocol;
    state = state;
    family = family;
    local_address = address;
    local_port = port;
    processes = [];
    interface = interface;
    inode = inode_of extra;
  })

  -- The first five fields and the words of the sixth.
  unfoldable pub parse_fields :
      Family
      → Protocol
      → (state receive send local peer : Text) (extra : List Text)
      → Result PortError SocketObservation
  unfolding split_endpoint observation_of
  parse_fields family protocol state receive send local peer extra =
      if is_tcp protocol && not (state == lit "LISTEN")
      then error unexpected_state
      else if not (all_decimal receive) || not (all_decimal send)
      then error malformed_queues
      else (split_endpoint true peer >>= λ peer_parts.
          split_endpoint false local >>= observation_of family protocol state extra)

  unfoldable pub parse_row_fields :
      Family → Protocol → List Text → Result PortError SocketObservation
  unfolding parse_fields words_from inode_of
  parse_row_fields family protocol (state ∷ receive ∷ send ∷ local ∷ peer ∷ []) =
      parse_fields family protocol state receive send local peer []
  parse_row_fields family protocol (state ∷ receive ∷ send ∷ local ∷ peer ∷ rest ∷ more) =
      parse_fields family protocol state receive send local peer (words_from is_space [] rest)
  parse_row_fields family protocol _ = error malformed_row

  unfoldable pub parse_ss_row : Family → Protocol → Text → Result PortError SocketObservation
  unfolding parse_row_fields split_fields
  parse_ss_row family protocol row = parse_row_fields family protocol (split_fields is_space 5 row)

  abbrev pub Rows : Type 0
  Rows = List SocketObservation × List PortError

  abbrev pub add_row : Result PortError SocketObservation → Rows → Rows
  add_row (value o) (observations, malformed) = (o ∷ observations, malformed)
  add_row (error e) (observations, malformed) = (observations, e ∷ malformed)

  -- The rows of the lines; those that cannot be parsed are collected.
  unfoldable pub parse_lines : Family → Protocol → List Text → Rows
  parse_lines family protocol [] = ([], [])
  parse_lines family protocol (line ∷ lines) =
      let rest = parse_lines family protocol lines in
      if skip_spaces is_space line == []
      then rest
      else add_row (parse_ss_row family protocol line) rest

  unfoldable pub parse_ss_output : Family → Protocol → Text → Rows
  unfolding parse_lines
  parse_ss_output family protocol output = parse_lines family protocol (split_on 10 output)
