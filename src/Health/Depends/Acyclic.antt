-- ===== src/Health/Depends/Acyclic.antt =====
-- The search accepts every configuration whose dependencies are known and have no cycle.
use opsforge.Prelude.{
  ℕ, zero, suc, ◌<◌, ◌≡◌, refl, ◌≢◌, ◌∙◌, sym, subst, Option, none, some, List, [], ◌∷◌, arith,
  Text, contains, contains-All, length, All, All-map, Bool-cases, inl, inr,
}
use opsforge.Health.Types.{HealthCheck, names}
use opsforge.Health.Depends.{
  Marks, Walk, walked, cycle, missing_key, out_of_fuel, ◌>>=◌, enter, visit_each, dependencies,
  visit_dependencies, visit, walk_error, walk_all, validate_dependencies,
}
use opsforge.Health.Depends.Entries.{IsRanked, dependencies-All}
use opsforge.Health.Depends.Walks.{visit-Grows}
use opsforge.Health.Depends.Enough.{Ends}
use opsforge.Health.Depends.Accepted.{
  invalid_dependencies_of_rank, invalid_dependencies-none, walk_all-Ends, validate_walk,
}

>>=-ne-cycle :
    (w : Walk) (f : Marks → Walk)
    → w ≢ cycle
    → ((m : Marks) → w ≡ walked m → f m ≢ cycle)
    → (w >>= f) ≢ cycle
>>=-ne-cycle (walked m) f h k = k m refl
>>=-ne-cycle cycle f h k = λ e. h refl
>>=-ne-cycle missing_key f h k = λ e. cc
>>=-ne-cycle out_of_fuel f h k = λ e. cc

module _ {F : Type 0} (checks : List (HealthCheck F)) (rank : Text → ℕ)
    (falls : (n : Text) (deps : List Text)
      → dependencies checks n ≡ some deps
      → All (λ d. rank d < rank n) deps) where
  abbrev Above : Text → List Text → Type 0
  Above n = All (λ x. rank n < rank x)

  abbrev NoCycle : (Text → Marks → Walk) → Type 0
  NoCycle v = (n : Text) (m : Marks) → Above n m.visiting → v n m ≢ cycle

  visit_each-ne-cycle :
      (fuel : ℕ)
      → NoCycle (visit checks fuel)
      → (deps : List Text) (m : Marks) → All (λ d. Above d m.visiting) deps
      → visit_each (visit checks fuel) deps m ≢ cycle
  unfolding visit_each
  visit_each-ne-cycle fuel h [] m all = λ e. cc
  visit_each-ne-cycle fuel h (d ∷ deps) m all =
      >>=-ne-cycle (visit checks fuel d m) _ (h d m all.0) λ m₁ e.
        visit_each-ne-cycle fuel h deps m₁ (
          subst (λ v. All (λ x. Above x v) deps)
            (sym ((visit-Grows checks fuel d m m₁ e).0).restored) all.1)

  Above-dependencies :
      (n : Text) (visiting deps : List Text)
      → All (λ d. rank d < rank n) deps
      → Above n visiting
      → All (λ d. Above d (n ∷ visiting)) deps
  Above-dependencies n visiting deps h above =
      All-map deps (λ d lt. (lt, All-map visiting (λ x (k : rank n < rank x). omega arith) above)) h

  visit_dependencies-ne-cycle :
      (fuel : ℕ)
      → NoCycle (visit checks fuel)
      → (n : Text) (m : Marks) (o : Option (List Text)) → dependencies checks n ≡ o
      → Above n m.visiting
      → visit_dependencies checks (visit checks fuel) o (enter n m) ≢ cycle
  visit_dependencies-ne-cycle fuel h n m none e above = λ k. cc
  visit_dependencies-ne-cycle fuel h n m (some deps) e above =
      visit_each-ne-cycle fuel h deps (enter n m)
        (Above-dependencies n m.visiting deps (falls n deps e) above)

  visit-ne-cycle : (fuel : ℕ) → NoCycle (visit checks fuel)
  unfolding visit
  visit-ne-cycle zero n m above = λ e. cc
  visit-ne-cycle (suc fuel) n m above = elim (Bool-cases (contains m.visiting n)) [
    | inl active ↦
        let loops = contains-All (λ x. rank n < rank x) m.visiting n active above in
        absurd (omega arith)
    | inr fresh ↦ elim (Bool-cases (contains m.visited n)) [
      | inl seen ↦ rw (fresh, seen) (λ e. cc)
      | inr new ↦
          rw (fresh, new)
            (>>=-ne-cycle _ _
              (visit_dependencies-ne-cycle fuel (visit-ne-cycle fuel) n m (dependencies checks n)
                refl above)
              (λ m₁ e k. cc))
    ]
  ]

  walk_all-ne-cycle : walk_all checks ≢ cycle
  unfolding walk_all
  walk_all-ne-cycle =
      visit_each-ne-cycle (suc (length checks)) (visit-ne-cycle (suc (length checks)))
        (names checks) _ (All-self_of (names checks))
    where
      All-self_of : (ns : List Text) → All (λ d. Above d []) ns
      All-self_of [] = tt
      All-self_of (n ∷ ns) = (tt, All-self_of ns)

none_of_Ends : (w : Walk) → Ends w → w ≢ cycle → walk_error w ≡ none
none_of_Ends (walked m) ends h = refl
none_of_Ends cycle ends h = absurd (h refl)
none_of_Ends missing_key ends h = absurd ends
none_of_Ends out_of_fuel ends h = absurd ends

-- Known dependencies with a rank that falls along them, so with no cycle, are accepted.
pub validate_dependencies_of_rank :
    {F : Type 0} (rank : Text → ℕ) (checks : List (HealthCheck F))
    → IsRanked rank (names checks) checks
    → validate_dependencies checks ≡ none
validate_dependencies_of_rank rank checks h =
    let fine = invalid_dependencies_of_rank rank (names checks) checks h in
    let falls = All-map checks (λ c all. All-map c.depends_on (λ d both. both.1) all) h in
    validate_walk checks fine
    ∙ none_of_Ends (walk_all checks)
        (walk_all-Ends checks (invalid_dependencies-none (names checks) checks fine))
        (walk_all-ne-cycle checks rank
          (λ n deps. dependencies-All (λ k l. All (λ d. rank d < rank k) l) checks n deps falls))
