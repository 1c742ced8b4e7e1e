-- ===== src/Net/Connect/Outcomes.antt =====
-- What `connect_first` of common/net.py leaves: its attempts and the open sockets.
use opsforge.Prelude.{
  ℕ, suc, ◌-◌, ◌≡◌, refl, ap, sym, ◌∙◌, Bool, true, false, ◌&&◌, not, Option, none, some, List, [],
  ◌∷◌, ◌++◌, map, all, eqb, arith, Bool-cases, inl, inr,
}
use opsforge.Net.Resolve.{Candidate}
use opsforge.Net.Connect.{
  Errno, ConnectError, is_connected, classify_connect_error, outcome_of_number, Attempt, Dialled,
  no_socket, not_created, no_timeout, interrupted, answered, failed, Dial, reached, unreached,
  close, is_late, attempt_failed, attempt_unavailable, attempt_connected, handle, try_each,
  connect_first,
}

abbrev pub failed_all : List Attempt → Bool
failed_all attempts = all (λ a. not (is_connected a.outcome)) attempts

abbrev pub tried : List Attempt → List Candidate
tried attempts = map (λ a. a.candidate) attempts

tried-append :
    (xs : List Attempt) (a : Attempt) → tried (xs ++ a ∷ []) ≡ tried xs ++ a.candidate ∷ []
tried-append [] a = refl
tried-append (x ∷ xs) a = ap (λ l. x.candidate ∷ l) (tried-append xs a)

failed_all-append :
    (xs : List Attempt) (a : Attempt)
    → failed_all (xs ++ a ∷ []) ≡ (failed_all xs && not (is_connected a.outcome))
failed_all-append [] a = ground arith
failed_all-append (x ∷ xs) a = ground (arith, failed_all-append xs a)

assoc : {A : Type 0} (xs : List A) (y : A) (zs : List A) → (xs ++ y ∷ []) ++ zs ≡ xs ++ y ∷ zs
assoc [] y zs = refl
assoc (x ∷ xs) y zs = ap (λ l. x ∷ l) (assoc xs y zs)

nil_right : {A : Type 0} (xs : List A) → xs ++ [] ≡ xs
nil_right [] = refl
nil_right (x ∷ xs) = ap (λ l. x ∷ l) (nil_right xs)

-- Attempts that failed one after the other, and a last one that connected.
pub record Connects (candidates : List Candidate) (attempts : List Attempt) : Type 0 where
  pub before : List Attempt
  pub last : Attempt
  pub untried : List Candidate
  pub form : attempts ≡ before ++ last ∷ []
  pub failures : failed_all before ≡ true
  pub success : is_connected last.outcome ≡ true
  pub order : candidates ≡ tried attempts ++ untried

-- What an outcome says, with the sockets open at the end.
abbrev pub IsOutcome : List Candidate → Dial → List ℕ → Type 0
IsOutcome candidates (reached k attempts) sockets =
    Connects candidates attempts × (sockets ≡ k ∷ [])
IsOutcome candidates (unreached attempts) sockets =
    (tried attempts ≡ candidates) × (failed_all attempts ≡ true) × (sockets ≡ [])
IsOutcome candidates _ sockets = sockets ≡ []

not_connected :
    (e : Errno) (failure : ConnectError) → is_connected (classify_connect_error e failure).0 ≡ false
unfolding classify_connect_error outcome_of_number is_connected
not_connected e (ConnectError.ssl_error r) = refl
not_connected e (ConnectError.timeout_error n) = refl
not_connected e (ConnectError.os_error none) = refl
not_connected e (ConnectError.os_error (some n)) = ground arith

close_opened : (k : ℕ) (sockets : List ℕ) → sockets ≡ [] → close k (k ∷ sockets) ≡ []
unfolding close
close_opened k sockets h = let same : eqb k k ≡ true = ground arith in rw (h, same)

module _ (e : Errno) (dial : ℕ → Candidate → Option ℕ → Dialled) (timeout deadline : Option ℕ)
    (all_candidates : List Candidate) where
  abbrev Good : Dial × List ℕ → Type 0
  Good (d, sockets) = IsOutcome all_candidates d sockets

  -- The attempts so far failed, and are those of the candidates before the ones left.
  abbrev SoFar : List Candidate → List Attempt → Type 0
  SoFar left attempts = (all_candidates ≡ tried attempts ++ left) × (failed_all attempts ≡ true)

  SoFar-append :
      (c : Candidate) (cs : List Candidate) (attempts : List Attempt) (a : Attempt)
      → a.candidate ≡ c
      → is_connected a.outcome ≡ false
      → SoFar (c ∷ cs) attempts
      → SoFar cs (attempts ++ a ∷ [])
  SoFar-append c cs attempts a same bad (order, failures) = (
    rw (tried-append attempts a, same, assoc) order,
    failed_all-append attempts a ∙ rw (failures, bad),
  )

  handle-Good :
      (k : ℕ) (c : Candidate) (cs : List Candidate) (now : ℕ) (attempts : List Attempt)
      (sockets : List ℕ) (go_on : ℕ → List Attempt → List ℕ → Dial × List ℕ) (d : Dialled)
      → SoFar (c ∷ cs) attempts
      → sockets ≡ []
      → ((now : ℕ) (attempts : List Attempt) (sockets : List ℕ)
          → SoFar cs attempts
          → sockets ≡ []
          → Good (go_on now attempts sockets))
      → Good (handle e dial k c now attempts sockets go_on d)
  unfolding handle is_connected
  handle-Good k c cs now attempts sockets go_on (no_socket number name) so_far none_open ih =
      ih now _ sockets
        (SoFar-append c cs attempts (attempt_unavailable e dial c number name) refl refl so_far)
        none_open
  handle-Good k c cs now attempts sockets go_on not_created so_far none_open ih = none_open
  handle-Good k c cs now attempts sockets go_on no_timeout so_far none_open ih =
      close_opened k sockets none_open
  handle-Good k c cs now attempts sockets go_on interrupted so_far none_open ih =
      close_opened k sockets none_open
  handle-Good k c cs now attempts sockets go_on (answered finished) (order, failures) none_open ih =
      let last = attempt_connected e dial c (finished - now) in
      (
        record {
          before = attempts;
          last = last;
          untried = cs;
          form = refl;
          failures = failures;
          success = refl;
          order = rw (tried-append attempts last, assoc) order;
        },
        ap (λ l. k ∷ l) none_open,
      )
  handle-Good k c cs now attempts sockets go_on (failed failure finished) so_far none_open ih =
      ih finished _ (close k (k ∷ sockets))
        (SoFar-append c cs attempts (attempt_failed e dial c failure (finished - now)) refl
          (not_connected e failure) so_far)
        (close_opened k sockets none_open)

  try_each-Good :
      (k : ℕ) (cs : List Candidate) (now : ℕ) (attempts : List Attempt) (sockets : List ℕ)
      → SoFar cs attempts
      → sockets ≡ []
      → Good (try_each e dial timeout deadline k cs now attempts sockets)
  unfolding try_each
  try_each-Good k [] now attempts sockets (order, failures) none_open =
      (sym (order ∙ nil_right (tried attempts)), failures, none_open)
  try_each-Good k (c ∷ cs) now attempts sockets so_far none_open =
      elim (Bool-cases (is_late deadline now)) [
        | inl late ↦ rw late none_open
        | inr early ↦ rw early (
            handle-Good k c cs now attempts sockets _ _ so_far none_open (try_each-Good (suc k) cs))
      ]

-- The candidates are tried in their order. A connection comes from the first that connects, and
-- its socket is the only one left open; without one every candidate was tried, or an error raised,
-- and no socket is left open.
pub connect_first-IsOutcome :
    (e : Errno) (dial : ℕ → Candidate → Option ℕ → Dialled) (timeout deadline : Option ℕ) (now : ℕ)
    (candidates : List Candidate)
    → IsOutcome candidates
        (connect_first e dial timeout deadline now candidates).0
        (connect_first e dial timeout deadline now candidates).1
unfolding connect_first
connect_first-IsOutcome e dial none none now candidates = refl
connect_first-IsOutcome e dial (some timeout) deadline now candidates =
    try_each-Good e dial (some timeout) deadline candidates 0 candidates now [] [] (refl, refl) refl
connect_first-IsOutcome e dial none (some deadline) now candidates =
    try_each-Good e dial none (some deadline) candidates 0 candidates now [] [] (refl, refl) refl
