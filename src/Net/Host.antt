-- ===== src/Net/Host.antt =====
-- `parse_host`, `sni_name`, `parse_sni` and `format_endpoint` of common/net.py. The character
-- tables of Python are the arguments `category` and `is_space`; `ipaddress.IPv4Address` and
-- `IPv6Address`, with `str`, are `ipv4` and `ipv6`, which give nothing where they raise.
pub mod Names
pub mod Labels
pub mod Accepted
pub mod Sound
pub mod Parsed
use opsforge.Prelude.{
  ℕ, zero, suc, ◌≤◌, ◌-◌, Bool, true, false, ◌&&◌, ◌||◌, not, Option, none, some, List, [], ◌∷◌,
  ◌++◌, Text, lit, ◌==◌, starts_with, decimal, length, ltb, leb, eqb, between, any, all,
  if◌then◌else◌,
}
use opsforge.Result.{Result, value, error, ◌>>=◌}
use opsforge.Escape.{has_unsafe_characters}

abbrev pub dot : ℕ
dot = 46

abbrev pub is_digit : ℕ → Bool
is_digit c = between 48 57 c

abbrev pub is_alnum : ℕ → Bool
is_alnum c = is_digit c || between 65 90 c || between 97 122 c

abbrev pub is_hex_digit : ℕ → Bool
is_hex_digit c = is_digit c || between 65 70 c || between 97 102 c

-- `text[-1]`, with something for the empty text.
abbrev pub last_or : ℕ → Text → ℕ
last_or c [] = c
last_or c (d ∷ text) = last_or d text

-- `text.split(".")`: the labels after a first one that begins with the given characters.
split_from : Text → Text → List Text
split_from label [] = label ∷ []
split_from label (c ∷ text) =
    if eqb c dot then label ∷ split_from [] text else split_from (label ++ c ∷ []) text

unfoldable pub split : Text → List Text
unfolding split_from
split text = split_from [] text

-- `text.rstrip(".")`
unfoldable pub rstrip_dots : Text → Text
rstrip_dots [] = []
rstrip_dots (c ∷ text) =
    let rest = rstrip_dots text in if eqb c dot && rest == [] then [] else c ∷ rest

-- `value[:-1] if value.endswith(".") else value`
unfoldable pub without_root : Text → Text
without_root [] = []
without_root (c ∷ []) = if eqb c dot then [] else c ∷ []
without_root (c ∷ d ∷ text) = c ∷ without_root (d ∷ text)

-- `HOST_LABEL`: letters, digits and inner hyphens, from 1 to 63 of them.
pub is_host_label : Text → Bool
is_host_label [] = false
is_host_label (c ∷ label) =
    leb (length label) 62
    && (is_alnum c && (is_alnum (last_or c label) && all (λ d. is_alnum d || eqb d 45) label))

-- `NUMERIC_LABEL`: digits, or `0x` and hexadecimal digits.
pub is_numeric_label : Text → Bool
is_numeric_label [] = false
is_numeric_label (c ∷ []) = is_digit c
is_numeric_label (c ∷ d ∷ label) =
    all is_digit (c ∷ d ∷ label)
    || (eqb c 48 && ((eqb d 120 || eqb d 88) && all is_hex_digit label))

abbrev pub last_label : Text → List Text → Text
last_label l [] = l
last_label l (m ∷ labels) = last_label m labels

pub data HostError : Type 0 where
  empty_host bracketed zone_identifier whitespace control_character : HostError
  not_ascii too_long no_label invalid_label numeric_label literal_sni : HostError

pub data Kind : Type 0 where
  ipv4 ipv6 hostname : Kind

-- The tests before the literals are tried.
pub objection : (ℕ → Text) → (ℕ → Bool) → Text → Option HostError
objection category is_space [] = some empty_host
objection category is_space (c ∷ text) =
    if eqb c 91 || eqb (last_or c text) 93
    then some bracketed
    else if any (eqb 37) (c ∷ text)
    then some zone_identifier
    else if any is_space (c ∷ text)
    then some whitespace
    else if has_unsafe_characters category (c ∷ text)
    then some control_character
    else none

pub check_labels : List Text → Option HostError
check_labels labels =
    if any (λ l. not (is_host_label l)) labels
    then some invalid_label
    else if is_numeric_label (last_label [] labels)
    then some numeric_label
    else none

-- The tests of a host name.
unfoldable pub name_objection : Text → Option HostError
unfolding check_labels is_host_label is_numeric_label
name_objection text =
    if not (all (λ c. ltb c 128) text)
    then some not_ascii
    else if ltb 253 (length text)
    then some too_long
    else if without_root text == []
    then some no_label
    else check_labels (split (without_root text))

pub name_or : Text → Option HostError → Result HostError (Text × Kind)
name_or text none = value (text, hostname)
name_or text (some e) = error e

module _ (category : ℕ → Text) (is_space : ℕ → Bool)
    (parse_ipv4 parse_ipv6 : Text → Option Text) where
  pub literal_or_name : Text → Option Text → Option Text → Result HostError (Text × Kind)
  literal_or_name text (some address) _ = value (address, ipv4)
  literal_or_name text none (some address) = value (address, ipv6)
  literal_or_name text none none = name_or text (name_objection text)

  pub host_or : Text → Option HostError → Result HostError (Text × Kind)
  host_or text (some e) = error e
  host_or text none = literal_or_name text (parse_ipv4 text) (parse_ipv6 text)

  unfoldable pub parse_host : Text → Result HostError (Text × Kind)
  unfolding host_or literal_or_name name_or objection
  parse_host text = host_or text (objection category is_space text)

  pub sni_of : Text × Kind → Result HostError Text
  sni_of (host, hostname) = value (rstrip_dots host)
  sni_of (host, _) = error literal_sni

  unfoldable pub parse_sni : Text → Result HostError Text
  unfolding parse_host sni_of
  parse_sni text = parse_host text >>= sni_of

unfoldable pub sni_name : Text → Kind → Option Text
sni_name host hostname = some (rstrip_dots host)
sni_name host _ = none

unfoldable pub format_endpoint : (host : Text) (port scope_id : ℕ) → Text
format_endpoint host port scope_id =
    if not (any (eqb 58) host)
    then host ++ (lit ":" ++ decimal port)
    else if eqb scope_id 0
    then lit "[" ++ (host ++ (lit "]:" ++ decimal port))
    else lit "[" ++ (host ++ (lit "%" ++ (decimal scope_id ++ (lit "]:" ++ decimal port))))
