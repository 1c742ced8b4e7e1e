-- ===== src/Net/Resolve.antt =====
-- `normalize_sockaddr`, `_make_candidate` and `resolve_tcp` of common/net.py. What the operating
-- system's resolver answers is a value of `Answer`; `ipaddress.ip_address` is the argument
-- `ip_address`, which gives a version and `str` of the address.
pub mod Distinct
use opsforge.Prelude.{
  ℕ, zero, suc, ◌≤◌, ◌-◌, Bool, true, false, ◌&&◌, ◌||◌, not, Option, none, some, List, [], ◌∷◌,
  ◌++◌, Text, lit, ◌==◌, length, ltb, leb, eqb, between, any, all, if◌then◌else◌,
}
use opsforge.Result.{Result, value, error, ◌>>=◌}
use opsforge.Net.Host.{format_endpoint}

-- A Python object in the resolver's answer. The objects that are no int, bool or str are `other`,
-- taken to equal no number.
pub data Item : Type 0 where
  number : ℕ → Item
  negative : ℕ → Item
  boolean : Bool → Item
  text : Text → Item
  other : Item

-- `item == n`
pub is_number : ℕ → Item → Bool
is_number n (number m) = eqb n m
is_number n (boolean b) = eqb n (if b then 1 else 0)
is_number n _ = false

-- The socket address of a record: no tuple, or the items of one.
pub data Sockaddr : Type 0 where
  no_tuple : Sockaddr
  tuple : List Item → Sockaddr

-- A record: no tuple of five, or one.
pub data Entry : Type 0 where
  unsupported : Entry
  entry : (family socket_type protocol : Item) (sockaddr : Sockaddr) → Entry

pub data NetworkApiError : Type 0 where
  unsupported_family unsupported_shape malformed_fields invalid_port : NetworkApiError
  not_an_address wrong_family unsupported_record not_tcp invalid_protocol : NetworkApiError
  unexpected_port no_answer resolver_failed call_failed unsupported_result : NetworkApiError

-- A protocol value: an int, of either sign.
pub data Protocol : Type 0 where
  nonnegative : ℕ → Protocol
  below_zero : ℕ → Protocol

-- `Candidate`, with the canonical socket address in parts.
pub record Candidate : Type 0 where
  pub version : ℕ
  pub protocol : Protocol
  pub address : Text
  pub port : ℕ
  pub extra : List ℕ
  pub endpoint : Text

pub record Resolution : Type 0 where
  pub candidates : List Candidate
  pub failure : Option Text
  pub truncated : Bool

-- What the call of the resolver comes to. `gaierror` has its number.
pub data Answer : Type 0 where
  records : List Entry → Answer
  not_a_list : Answer
  gaierror : ℕ → Answer
  raised : Answer
  timed_out : Answer

-- The ints of a list, if all are ints and not negative.
abbrev and_more : ℕ → Option (List ℕ) → Option (List ℕ)
and_more n none = none
and_more n (some ns) = some (n ∷ ns)

pub naturals : List Item → Option (List ℕ)
naturals [] = some []
naturals (number n ∷ items) = and_more n (naturals items)
naturals (_ ∷ items) = none

pub protocol_of : Item → Result NetworkApiError Protocol
protocol_of (number n) = value (nonnegative n)
protocol_of (negative n) = value (below_zero n)
protocol_of _ = error invalid_protocol

-- `extra[1] if extra else 0`
abbrev scope_of : List ℕ → ℕ
scope_of (_ ∷ scope ∷ _) = scope
scope_of _ = 0

abbrev pub max_candidates : ℕ
max_candidates = 16

same_protocol : Protocol → Protocol → Bool
same_protocol (nonnegative m) (nonnegative n) = eqb m n
same_protocol (below_zero m) (below_zero n) = eqb m n
same_protocol _ _ = false

-- Equality of the keys; every candidate has the socket type of TCP.
unfoldable pub same_key : Candidate → Candidate → Bool
unfolding same_protocol
same_key c d =
    eqb c.version d.version
    && (same_protocol c.protocol d.protocol
        && (c.address == d.address && (eqb c.port d.port && c.extra == d.extra)))

module _ (af_inet af_inet6 sock_stream : ℕ) (ip_address : Text → Option (ℕ × Text)) where
  -- The version that the family stands for.
  pub version_of : Item → Result NetworkApiError ℕ
  version_of family =
      if is_number af_inet family
      then value 4
      else if is_number af_inet6 family
      then value 6
      else error unsupported_family

  pub parsed_address :
      ℕ → Protocol → ℕ → List ℕ → Option (ℕ × Text) → Result NetworkApiError Candidate
  parsed_address version protocol port extra none = error not_an_address
  parsed_address version protocol port extra (some (found, canonical)) =
      if eqb found version
      then value (record {
        version = version;
        protocol = protocol;
        address = canonical;
        port = port;
        extra = extra;
        endpoint = format_endpoint canonical port (scope_of extra);
      })
      else error wrong_family

  pub checked_port : ℕ → Protocol → Text → Option (List ℕ) → Result NetworkApiError Candidate
  checked_port version protocol address (some (port ∷ extra)) =
      if between 1 65535 port
      then parsed_address version protocol port extra (ip_address address)
      else error invalid_port
  checked_port version protocol address _ = error malformed_fields

  pub checked_fields : ℕ → Protocol → List Item → Result NetworkApiError Candidate
  checked_fields version protocol (text address ∷ items) =
      checked_port version protocol address (naturals items)
  checked_fields version protocol _ = error malformed_fields

  -- The number of items that a socket address of the version has.
  abbrev pub size : ℕ → ℕ
  size version = if eqb version 4 then 2 else 4

  -- `normalize_sockaddr`
  pub normalize_sockaddr : ℕ → Protocol → Sockaddr → Result NetworkApiError Candidate
  normalize_sockaddr version protocol no_tuple = error unsupported_shape
  normalize_sockaddr version protocol (tuple items) =
      if eqb (length items) (size version)
      then checked_fields version protocol items
      else error unsupported_shape

  pub expected_port : ℕ → Candidate → Result NetworkApiError Candidate
  expected_port port c = if eqb c.port port then value c else error unexpected_port

  unfoldable pub make_candidate : Entry → ℕ → Result NetworkApiError Candidate
  unfolding expected_port normalize_sockaddr checked_fields checked_port parsed_address naturals
      protocol_of version_of is_number
  make_candidate unsupported port = error unsupported_record
  make_candidate (entry family socket_type protocol sockaddr) port =
      if not (is_number sock_stream socket_type) then error not_tcp else do
        p ← protocol_of protocol
        version ← version_of family
        c ← normalize_sockaddr version p sockaddr
        expected_port port c

  -- What happens with a candidate that is no repetition.
  abbrev pub add :
      List Candidate
      → Candidate
      → Result NetworkApiError (List Candidate × Bool)
      → Result NetworkApiError (List Candidate × Bool)
  add kept c rest = if eqb (length kept) max_candidates then value (kept, true) else rest

  -- The loop over the records. `kept` is `candidates`, and its keys are `seen`.
  pub collect : ℕ → List Candidate → List Entry → Result NetworkApiError (List Candidate × Bool)
  collect port kept [] = value (kept, false)
  collect port kept (r ∷ rs) = make_candidate r port >>= λ c.
      let repeated = collect port kept rs in
      let more = collect port (kept ++ c ∷ []) rs in
      if any (same_key c) kept then repeated else add kept c more

  abbrev found : List Candidate × Bool → Result NetworkApiError Resolution
  found (candidates, truncated) =
      value (record { candidates = candidates; failure = none; truncated = truncated })

  -- `resolve_tcp`, from the resolver's answer on.
  unfoldable pub resolve_tcp :
      (negative_answer : ℕ → Option Text) → Answer → ℕ → Result NetworkApiError Resolution
  unfolding collect make_candidate
  resolve_tcp negative_answer (gaierror code) port = elim (negative_answer code) [
    | some failure ↦ value (record { candidates = []; failure = some failure; truncated = false })
    | none ↦ error resolver_failed
  ]
  resolve_tcp negative_answer raised port = error call_failed
  resolve_tcp negative_answer timed_out port = error no_answer
  resolve_tcp negative_answer not_a_list port = error unsupported_result
  resolve_tcp negative_answer (records []) port = error unsupported_result
  resolve_tcp negative_answer (records (r ∷ rs)) port = collect port [] (r ∷ rs) >>= found
