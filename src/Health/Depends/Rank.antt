-- ===== src/Health/Depends/Rank.antt =====
-- A topological list of names ranks each name above all that it depends on.
use opsforge.Prelude.{
  ℕ, suc, ◌≤◌, ◌<◌, ◌≡◌, sym, subst, true, false, some, List, [], ◌∷◌, arith, Text, ◌==◌, eq_iff,
  eq_refl, contains, length, All, Bool-cases, inl, inr, if◌then◌else◌,
}
use opsforge.Health.Types.{HealthCheck}
use opsforge.Health.Depends.{dependencies}
use opsforge.Health.Depends.Walks.{Topological}

-- The place of a name in a topological list, counted from the end; the last occurrence counts.
pub rank_in : List Text → Text → ℕ
rank_in [] x = 0
rank_in (n ∷ later) x =
    if contains later x then rank_in later x else if n == x then suc (length later) else 0

rank_in-le : (v : List Text) (x : Text) → rank_in v x ≤ length v
unfolding rank_in
rank_in-le [] x = omega arith
rank_in-le (n ∷ later) x = ground (arith, rank_in-le later x)

abbrev pub Below : List Text → Text → List Text → Type 0
Below v n = All (λ d. (contains v d ≡ true) × (rank_in v d < rank_in v n))

module _ {F : Type 0} (checks : List (HealthCheck F)) where
  Below-cons :
      (m : Text) (v : List Text) (n : Text) (deps : List Text)
      → contains v n ≡ true
      → Below v n deps
      → Below (m ∷ v) n deps
  unfolding rank_in contains
  Below-cons m v n [] named h = tt
  Below-cons m v n (d ∷ deps) named h = (ground arith, Below-cons m v n deps named h.1)

  Below-head :
      (n : Text) (v deps : List Text)
      → contains v n ≡ false
      → All (λ d. contains v d ≡ true) deps
      → Below (n ∷ v) n deps
  unfolding rank_in contains
  Below-head n v [] fresh h = tt
  Below-head n v (d ∷ deps) fresh h =
      (ground (arith, rank_in-le v d, eq_refl n), Below-head n v deps fresh h.1)

  pub Topological-rank_in :
      (v : List Text) (n : Text)
      → Topological checks v
      → contains v n ≡ true
      → (deps : List Text) × (dependencies checks n ≡ some deps) × Below v n deps
  unfolding contains
  Topological-rank_in [] n t h = cc
  Topological-rank_in (m ∷ v) n t h = elim (Bool-cases (contains v n)) [
    | inl later ↦
        let (deps, e, below) = Topological-rank_in v n t.1 later in
        (deps, e, Below-cons m v n deps later below)
    | inr fresh ↦
        let same : m ≡ n = ground (arith, eq_iff m n) in
        let (deps, e, seen) = t.0 in
        (
          deps,
          subst (λ k. dependencies checks k ≡ some deps) same e,
          subst (λ k. Below (k ∷ v) n deps) (sym same) (Below-head n v deps fresh seen),
        )
  ]
