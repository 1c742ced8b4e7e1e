-- ===== src/Ports/Display.antt =====
-- `classify_bind`, `to_display`, `likely_shared_bind_count` and the keys of `sort_observations` of
-- portlens.py. The columns of a displayed row that join the values of its owners are the list of
-- owners here. `ipaddress.ip_address`, with what is asked of its result, and the reading of `/proc`
-- are arguments.
use opsforge.Prelude.{
  ℕ, ◌+◌, Bool, true, false, ◌&&◌, ◌||◌, not, Option, none, some, List, [], ◌∷◌, ◌++◌, map, Text,
  lit, ◌==◌, join, length, take, any, ltb, eqb, if◌then◌else◌,
}
use opsforge.Ports.{Family, ipv4, ipv6, ProcessReference, SocketObservation}
use opsforge.Ports.Owners.{OwnersByInode, CountsByPid, owners_of}

pub record ProcessDetails : Type 0 where
  pub user : Text
  pub process : Text
  pub uid : Text
  pub executable : Text
  pub cgroup : Text

-- What `ipaddress.ip_address` gives. Where it is an IPv6 address that maps an IPv4 one, the tests are
-- those of the latter; `version` and `number` are always its own.
pub record Address : Type 0 where
  pub is_mapped : Bool
  pub is_unspecified : Bool
  pub is_loopback : Bool
  pub is_link_local : Bool
  -- `(parsed.version, int(parsed))`
  pub version : ℕ
  pub number : ℕ

pub data Scope : Type 0 where
  wildcard_both wildcard loopback link_local specific : Scope

unfoldable pub scope_of : Option Address → Scope
scope_of none = specific
scope_of (some a) =
    if a.is_unspecified
    then wildcard
    else if a.is_loopback
    then loopback
    else if a.is_link_local
    then link_local
    else specific

pub record DisplayObservation : Type 0 where
  pub socket : SocketObservation
  pub exposure : Scope
  pub owners : List (ProcessReference × ProcessDetails × Option ℕ)

-- `counts.get(pid)`
unfoldable pub count_of : ℕ → CountsByPid → Option ℕ
count_of pid [] = none
count_of pid ((p, n) ∷ counts) = if eqb p pid then n else count_of pid counts

abbrev pub family_order : Family → ℕ
family_order ipv4 = 0
family_order ipv6 = 1

abbrev same_family : Family → Family → Bool
same_family f g = eqb (family_order f) (family_order g)

abbrev pub is_ipv4 : Family → Bool
is_ipv4 ipv4 = true
is_ipv4 ipv6 = false

abbrev pub same_interface : Option Text → Option Text → Bool
same_interface none none = true
same_interface (some s) (some t) = s == t
same_interface _ _ = false

-- The key of `likely_shared_bind_count`. All rows of one inspection have one protocol.
unfoldable pub same_bind : SocketObservation → SocketObservation → Bool
same_bind a b =
    same_family a.family b.family
    && (a.local_address == b.local_address
        && (same_interface a.interface b.interface && eqb a.local_port b.local_port))

-- The keys that are counted more than once: a row counts if it is the first of its key and another
-- follows.
unfoldable pub shared_from : List SocketObservation → List SocketObservation → ℕ
shared_from before [] = 0
shared_from before (o ∷ rest) =
    let later = shared_from (o ∷ before) rest in
    if not (any (same_bind o) before) && any (same_bind o) rest then 1 + later else later

unfoldable pub likely_shared_bind_count : List DisplayObservation → ℕ
unfolding shared_from
likely_shared_bind_count rows = shared_from [] (map (λ (d : DisplayObservation). d.socket) rows)

-- `process_name_matches`; `encode` and `decode` are those of the source.
unfoldable pub process_name_matches :
    (encode decode : Text → Text) → (requested comm executable : Text) → Bool
process_name_matches encode decode requested comm executable =
    requested == comm
    || (requested == executable
        || (ltb 15 (length (encode requested)) && comm == decode (take 15 (encode requested))))

unfoldable pub inodes_of : List SocketObservation → List ℕ
inodes_of [] = []
inodes_of (o ∷ observations) =
    let rest = inodes_of observations in elim o.inode [ none ↦ rest | some i ↦ i ∷ rest ]

abbrev pub lacks_inode : SocketObservation → Bool
lacks_inode o = elim o.inode [ none ↦ true | some i ↦ false ]

abbrev owners_of_socket : Option ℕ → OwnersByInode → List ProcessReference
owners_of_socket none owners = []
owners_of_socket (some inode) owners = owners_of inode owners

module _ (address_of : Text → Option Address) where
  unfoldable pub classify_bind : Text → Scope
  unfolding scope_of
  classify_bind address =
      if address == lit "*" then wildcard_both else scope_of (address_of address)

  unfoldable pub accepts_ipv4 : Text → Bool
  accepts_ipv4 address =
      address == lit "*" || (elim (address_of address) [ none ↦ false | some a ↦ a.is_mapped ])

  -- `_address_sort_key`
  unfoldable pub address_sort_key : Text → List ℕ
  address_sort_key address =
      if address == lit "*"
      then 0 ∷ 0 ∷ []
      else (elim (address_of address) [ none ↦ 9 ∷ 0 ∷ [] | some a ↦ a.version ∷ a.number ∷ [] ])

  abbrev pid_key : List (ProcessReference × ProcessDetails × Option ℕ) → List ℕ
  pid_key [] = 1 ∷ 0 ∷ []
  pid_key (o ∷ owners) = 0 ∷ o.0.pid ∷ []

  -- The key of `sort_observations`: its parts but the last are of one length in all rows.
  unfoldable pub sort_key : DisplayObservation → Text
  unfolding address_sort_key
  sort_key d =
      family_order d.socket.family
      ∷ (address_sort_key d.socket.local_address
          ++ (d.socket.local_port
              ∷ (pid_key d.owners
                  ++ join (lit ",") (
                      map (λ (o : ProcessReference × ProcessDetails × Option ℕ). o.1.process)
                        d.owners))))

  module _ (details : ℕ → ProcessDetails) (encode decode : Text → Text) where
    unfoldable pub to_display :
        OwnersByInode × CountsByPid → SocketObservation → SocketObservation × DisplayObservation
    unfolding classify_bind
    to_display (owners, counts) o =
        let processes = owners_of_socket o.inode owners in
        let socket = record o { processes = processes } in
        (
          socket,
          record {
            socket = socket;
            exposure = classify_bind o.local_address;
            owners =
                map (λ (r : ProcessReference). (r, details r.pid, count_of r.pid counts)) processes;
          },
        )
