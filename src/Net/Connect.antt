-- ===== src/Net/Connect.antt =====
-- `classify_connect_error` and `connect_first` of common/net.py. `dial k candidate limit` is what
-- the operating system does with the socket of the k-th candidate; the times are ticks of `clock`,
-- which does not go back. A socket is named by the number of its candidate.
pub mod Outcomes
use opsforge.Prelude.{
  ℕ, zero, suc, ◌+◌, ◌-◌, min, Bool, true, false, ◌||◌, not, Option, none, some, List, [], ◌∷◌,
  ◌++◌, Text, leb, eqb, keep, get_or, if◌then◌else◌,
}
use opsforge.Net.Resolve.{Candidate}

-- The numbers of the `errno` module that the code names.
pub record Errno : Type 0 where
  pub etimedout : ℕ
  pub econnrefused : ℕ
  pub econnreset : ℕ
  pub ehostunreach : ℕ
  pub enetunreach : ℕ
  pub eacces : ℕ
  pub eperm : ℕ

-- An `OSError` of `connect`: `ssl.SSLError` with its reason, `TimeoutError`, or another.
pub data ConnectError : Type 0 where
  ssl_error : (reason : Text) → ConnectError
  timeout_error : Option ℕ → ConnectError
  os_error : Option ℕ → ConnectError

-- The texts of `Attempt.outcome`.
pub data Outcome : Type 0 where
  connected timed_out connection_refused connection_reset host_unreachable : Outcome
  network_unreachable permission_denied connection_error : Outcome
  socket_unavailable : (name : Text) → Outcome
  tls_protocol_error : (reason : Text) → Outcome

pub is_connected : Outcome → Bool
is_connected connected = true
is_connected _ = false

pub outcome_of_number : Errno → ℕ → Outcome
outcome_of_number e n =
    if eqb n e.etimedout
    then timed_out
    else if eqb n e.econnrefused
    then connection_refused
    else if eqb n e.econnreset
    then connection_reset
    else if eqb n e.ehostunreach
    then host_unreachable
    else if eqb n e.enetunreach
    then network_unreachable
    else if eqb n e.eacces || eqb n e.eperm
    then permission_denied
    else connection_error

pub classify_connect_error : Errno → ConnectError → Outcome × Option ℕ
classify_connect_error e (ssl_error reason) = (tls_protocol_error reason, none)
classify_connect_error e (timeout_error number) = (timed_out, number)
classify_connect_error e (os_error none) = (connection_error, none)
classify_connect_error e (os_error (some n)) = (outcome_of_number e n, some n)

pub record Attempt : Type 0 where
  pub candidate : Candidate
  pub outcome : Outcome
  pub error_number : Option ℕ
  pub duration : ℕ

-- What happens at one candidate: no socket, after an `OSError` or another exception, or a socket whose timeout cannot be set, whose
-- `connect` ends at a time, or at which an exception that is no `OSError` is raised.
pub data Dialled : Type 0 where
  no_socket : ℕ → (name : Text) → Dialled
  not_created : Dialled
  no_timeout : Dialled
  interrupted : Dialled
  answered : (finished : ℕ) → Dialled
  failed : ConnectError → (finished : ℕ) → Dialled

pub data Dial : Type 0 where
  reached : (socket : ℕ) → List Attempt → Dial
  unreached : List Attempt → Dial
  deadline_passed : Dial
  timeout_not_applied : Dial
  exception : Dial
  no_bound : Dial

-- `client.close()`
pub close : ℕ → List ℕ → List ℕ
close k sockets = keep (λ s. not (eqb s k)) sockets

-- The deadline leaves no time.
pub is_late : Option ℕ → ℕ → Bool
is_late none now = false
is_late (some deadline) now = leb deadline now

-- `limit`
pub limit_of : Option ℕ → Option ℕ → ℕ → Option ℕ
limit_of timeout none now = timeout
limit_of none (some deadline) now = some (deadline - now)
limit_of (some timeout) (some deadline) now = some (min timeout (deadline - now))

module _ (e : Errno) (dial : ℕ → Candidate → Option ℕ → Dialled) where
  abbrev pub attempt_failed : Candidate → ConnectError → ℕ → Attempt
  attempt_failed c failure duration = record {
    candidate = c;
    outcome = (classify_connect_error e failure).0;
    error_number = (classify_connect_error e failure).1;
    duration = duration;
  }

  abbrev pub attempt_unavailable : Candidate → ℕ → Text → Attempt
  attempt_unavailable c number name = record {
    candidate = c;
    outcome = socket_unavailable name;
    error_number = some number;
    duration = 0;
  }

  abbrev pub attempt_connected : Candidate → ℕ → Attempt
  attempt_connected c duration = record {
    candidate = c;
    outcome = connected;
    error_number = none;
    duration = duration;
  }

  -- One round of the loop; `go_on` is the rest of it, from a time, the attempts and the open
  -- sockets on.
  pub handle :
      ℕ
      → Candidate
      → ℕ
      → List Attempt
      → List ℕ
      → (ℕ → List Attempt → List ℕ → Dial × List ℕ)
      → Dialled
      → Dial × List ℕ
  handle k c now attempts sockets go_on (no_socket number name) =
      go_on now (attempts ++ attempt_unavailable c number name ∷ []) sockets
  handle k c now attempts sockets go_on not_created = (exception, sockets)
  handle k c now attempts sockets go_on no_timeout = (timeout_not_applied, close k (k ∷ sockets))
  handle k c now attempts sockets go_on interrupted = (exception, close k (k ∷ sockets))
  handle k c now attempts sockets go_on (answered finished) =
      (reached k (attempts ++ attempt_connected c (finished - now) ∷ []), k ∷ sockets)
  handle k c now attempts sockets go_on (failed failure finished) =
      go_on finished (attempts ++ attempt_failed c failure (finished - now) ∷ [])
        (close k (k ∷ sockets))

  -- `for candidate in candidates`
  pub try_each :
      Option ℕ → Option ℕ → ℕ → List Candidate → ℕ → List Attempt → List ℕ → Dial × List ℕ
  try_each timeout deadline k [] now attempts sockets = (unreached attempts, sockets)
  try_each timeout deadline k (c ∷ cs) now attempts sockets =
      let rest =
        handle k c now attempts sockets (try_each timeout deadline (suc k) cs)
          (dial k c (limit_of timeout deadline now)) in
      if is_late deadline now then (deadline_passed, sockets) else rest

  -- With the sockets that are open at the end.
  unfoldable pub connect_first : Option ℕ → Option ℕ → ℕ → List Candidate → Dial × List ℕ
  unfolding try_each handle close is_late limit_of classify_connect_error outcome_of_number
  connect_first none none now candidates = (no_bound, [])
  connect_first (some timeout) deadline now candidates =
      try_each (some timeout) deadline 0 candidates now [] []
  connect_first none (some deadline) now candidates =
      try_each none (some deadline) 0 candidates now [] []
