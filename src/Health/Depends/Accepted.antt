-- ===== src/Health/Depends/Accepted.antt =====
-- What the search accepts: known dependencies with no cycle.
use opsforge.Prelude.{
  ℕ, suc, ◌<◌, ◌≡◌, refl, ◌≢◌, ◌∙◌, sym, subst, ap, true, Option, none, some, List, [], ◌∷◌, arith,
  Text, ◌==◌, eq_iff, contains, All-of_contains, length, All, All-map₂, Bool-cases, Option-cases,
  inl, inr,
}
use opsforge.Prelude.Counting.{Distinct}
use opsforge.Health.Types.{HealthCheck, names}
use opsforge.Health.Names.{All-names}
use opsforge.Health.Depends.{
  Marks, Walk, walked, cycle, missing_key, out_of_fuel, dependencies, bad_dependency,
  invalid_dependencies, walk_error, walk_all, validate_dependencies, DependencyError,
  invalid_dependency, no_such_key, no_fuel,
}
use opsforge.Health.Depends.Entries.{
  IsRanked, dependencies-All, dependencies_of_contains, own_dependencies,
}
use opsforge.Health.Depends.Rank.{rank_in, Below, Topological-rank_in}
use opsforge.Health.Depends.Walks.{visit-Grows, visit_each-Grows, Topological}
use opsforge.Health.Depends.Enough.{Ends, IsKnown, walk-Ends}

bad_dependency-none :
    (known : List Text) (own : Text) (deps : List Text)
    → bad_dependency known own deps ≡ none
    → All (λ d. contains known d ≡ true) deps
unfolding bad_dependency
bad_dependency-none known own [] h = tt
bad_dependency-none known own (d ∷ deps) h = elim (Bool-cases (contains known d)) [
  | inl listed ↦ (listed, bad_dependency-none known own deps (ground arith))
  | inr unknown ↦ ground arith
]

bad_dependency_of_rank :
    (rank : Text → ℕ) (known : List Text) (own : Text) (deps : List Text)
    → All (λ d. (contains known d ≡ true) × (rank d < rank own)) deps
    → bad_dependency known own deps ≡ none
unfolding bad_dependency
bad_dependency_of_rank rank known own [] h = refl
bad_dependency_of_rank rank known own (d ∷ deps) h = elim (Bool-cases (d == own)) [
  | inl same ↦ let e : rank d ≡ rank own = ap rank ((eq_iff d own).0 same) in absurd (omega arith)
  | inr other ↦ rw (h.0.0, other) (bad_dependency_of_rank rank known own deps h.1)
]

Ends-walk_error :
    (w : Walk) → Ends w → (walk_error w ≢ some no_such_key) × (walk_error w ≢ some no_fuel)
Ends-walk_error (walked m) h = (λ e. cc, λ e. cc)
Ends-walk_error cycle h = (λ e. cc, λ e. cc)
Ends-walk_error missing_key h = absurd h
Ends-walk_error out_of_fuel h = absurd h

walked_of_none : (w : Walk) → walk_error w ≡ none → (m : Marks) × (w ≡ walked m)
walked_of_none (walked m) h = (m, refl)
walked_of_none cycle h = cc
walked_of_none missing_key h = cc
walked_of_none out_of_fuel h = cc

module _ {F : Type 0} where
  abbrev pub HasKnown : List Text → List (HealthCheck F) → Type 0
  HasKnown known = All (λ c. All (λ d. contains known d ≡ true) c.depends_on)

  pub invalid_dependencies-none :
      (known : List Text) (checks : List (HealthCheck F))
      → invalid_dependencies known checks ≡ none
      → HasKnown known checks
  unfolding invalid_dependencies
  invalid_dependencies-none known [] h = tt
  invalid_dependencies-none known (c ∷ checks) h =
      elim (Option-cases (bad_dependency known c.name c.depends_on)) [
        | inl e ↦ (
          bad_dependency-none known c.name c.depends_on e,
          invalid_dependencies-none known checks (rw (e, invalid_dependencies) at h),
        )
        | inr (d, e) ↦ ground arith
      ]

  pub invalid_dependencies_of_rank :
      (rank : Text → ℕ) (known : List Text) (checks : List (HealthCheck F))
      → IsRanked rank known checks
      → invalid_dependencies known checks ≡ none
  unfolding invalid_dependencies
  invalid_dependencies_of_rank rank known [] h = refl
  invalid_dependencies_of_rank rank known (c ∷ checks) h =
      rw (bad_dependency_of_rank rank known c.name c.depends_on h.0, invalid_dependencies)
        (invalid_dependencies_of_rank rank known checks h.1)

  HasKnown-IsKnown :
      (checks : List (HealthCheck F))
      → HasKnown (names checks) checks
      → IsKnown checks (names checks)
  HasKnown-IsKnown checks h = record {
    entry = dependencies_of_contains checks;
    closed = λ n deps e.
        dependencies-All (λ _ l. All (λ d. contains (names checks) d ≡ true) l) checks n deps h e;
  }

  length-names : (checks : List (HealthCheck F)) → length (names checks) ≡ length checks
  length-names [] = refl
  length-names (c ∷ checks) = ap suc (length-names checks)

  pub walk_all-Ends :
      (checks : List (HealthCheck F)) → HasKnown (names checks) checks → Ends (walk_all checks)
  unfolding walk_all
  walk_all-Ends checks h =
      walk-Ends checks (HasKnown-IsKnown checks h) (suc (length checks)) (names checks)
        (All-of_contains (names checks) (λ n e. e)) (omega (arith, length-names checks))

  invalid_dependencies-form :
      (known : List Text) (checks : List (HealthCheck F)) (e : DependencyError)
      → invalid_dependencies known checks ≡ some e
      → (c : Text) × (d : Text) × (e ≡ invalid_dependency c d)
  unfolding invalid_dependencies
  invalid_dependencies-form known [] e h = cc
  invalid_dependencies-form known (c ∷ checks) e h =
      elim (Option-cases (bad_dependency known c.name c.depends_on)) [
        | inl fine ↦ invalid_dependencies-form known checks e (rw (fine, invalid_dependencies) at h)
        | inr (d, bad) ↦ (c.name, d, ground arith)
      ]

  abbrev pub listed : List (HealthCheck F) → Option DependencyError
  listed checks = invalid_dependencies (names checks) checks

  pub validate_walk :
      (checks : List (HealthCheck F))
      → listed checks ≡ none
      → validate_dependencies checks ≡ walk_error (walk_all checks)
  unfolding validate_dependencies
  validate_walk checks e = rw (e, validate_dependencies)

  validate_listed :
      (checks : List (HealthCheck F)) (e : DependencyError)
      → listed checks ≡ some e
      → validate_dependencies checks ≡ some e
  unfolding validate_dependencies
  validate_listed checks e h = rw (h, validate_dependencies)

  -- The search ends within its fuel on every configuration, with no KeyError.
  pub validate_dependencies-ends :
      (checks : List (HealthCheck F))
      → (validate_dependencies checks ≢ some no_such_key)
        × (validate_dependencies checks ≢ some no_fuel)
  validate_dependencies-ends checks = elim (Option-cases (listed checks)) [
    | inl fine ↦
        let ends = walk_all-Ends checks (invalid_dependencies-none (names checks) checks fine) in
        rw (validate_walk checks fine) (Ends-walk_error (walk_all checks) ends)
    | inr (e, bad) ↦
        let (c, d, form) = invalid_dependencies-form (names checks) checks e bad in
        rw (validate_listed checks e bad) (λ h. cc, λ h. cc)
  ]

  ranked_entry :
      (checks : List (HealthCheck F)) (v : List Text) (c : HealthCheck F)
      → Topological checks v
      → contains v c.name ≡ true
      → dependencies checks c.name ≡ some c.depends_on
      → Below v c.name c.depends_on
  ranked_entry checks v c t seen own =
      let (deps, e, below) = Topological-rank_in checks v c.name t seen in
      let same : deps ≡ c.depends_on = cc in subst (Below v c.name) same below

  walk_all-IsRanked :
      (checks : List (HealthCheck F))
      → Distinct (names checks)
      → (m : Marks) → listed checks ≡ none
      → walk_all checks ≡ walked m
      → IsRanked (rank_in m.visited) (names checks) checks
  unfolding walk_all
  walk_all-IsRanked checks distinct m fine walk =
      let (g, seen) =
        visit_each-Grows checks _ (visit-Grows checks (suc (length checks))) (names checks) _ m
          walk in
      let below =
        All-map₂ checks (λ c named own. ranked_entry checks m.visited c (g.ordered tt) named own)
          (All-names (λ n. contains m.visited n ≡ true) checks seen)
          (own_dependencies checks distinct) in
      All-map₂ checks (λ c k b. All-map₂ c.depends_on (λ d x y. (x, y.1)) k b)
        (invalid_dependencies-none (names checks) checks fine) below

  -- Accepted dependencies of checks with distinct names are known and have no cycle: there is a
  -- rank that puts each dependency below the check that has it.
  pub validate_dependencies-IsRanked :
      (checks : List (HealthCheck F))
      → Distinct (names checks)
      → validate_dependencies checks ≡ none
      → (rank : Text → ℕ) × IsRanked rank (names checks) checks
  validate_dependencies-IsRanked checks distinct h = elim (Option-cases (listed checks)) [
    | inl fine ↦
        let (m, walk) = walked_of_none (walk_all checks) (sym (validate_walk checks fine) ∙ h) in
        (rank_in m.visited, walk_all-IsRanked checks distinct m fine walk)
    | inr (e, bad) ↦ let k = validate_listed checks e bad in cc
  ]
