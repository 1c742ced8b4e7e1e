-- ===== src/Health/Depends/Entries.antt =====
-- What the dictionary from a check's name to its dependencies holds.
use opsforge.Prelude.{
  ℕ, ◌<◌, ◌≡◌, refl, subst, true, false, none, some, List, [], ◌∷◌, arith, Text, ◌==◌, eq_iff,
  eq_refl, contains, All, All-map, Bool-cases, Option-cases, inl, inr,
}
use opsforge.Prelude.Counting.{Distinct}
use opsforge.Health.Types.{HealthCheck, names}
use opsforge.Health.Depends.{dependencies}

module _ {F : Type 0} where
  -- Each dependency of a check is the name of a check, of a smaller rank. So there is no cycle.
  abbrev pub IsRanked : (Text → ℕ) → List Text → List (HealthCheck F) → Type 0
  IsRanked rank known =
      All (λ c. All (λ d. (contains known d ≡ true) × (rank d < rank c.name)) c.depends_on)

  -- A fact about every check holds of every entry of the map.
  pub dependencies-All :
      (P : Text → List Text → Type 0) (checks : List (HealthCheck F)) (n : Text) (deps : List Text)
      → All (λ c. P c.name c.depends_on) checks
      → dependencies checks n ≡ some deps
      → P n deps
  unfolding dependencies
  dependencies-All P [] n deps h e = cc
  dependencies-All P (c ∷ checks) n deps h e = elim (Option-cases (dependencies checks n)) [
    | inr (later, found) ↦ dependencies-All P checks n deps h.1 (ground arith)
    | inl absent ↦ elim (Bool-cases (c.name == n)) [
      | inl same ↦
          let deps_eq : c.depends_on ≡ deps = ground arith in
          subst (λ k. P k deps) ((eq_iff c.name n).0 same) (subst (P c.name) deps_eq h.0)
      | inr other ↦ ground arith
    ]
  ]

  pub dependencies_of_contains :
      (checks : List (HealthCheck F)) (n : Text)
      → contains (names checks) n ≡ true
      → (deps : List Text) × (dependencies checks n ≡ some deps)
  unfolding contains dependencies
  dependencies_of_contains [] n h = cc
  dependencies_of_contains (c ∷ checks) n h = elim (Option-cases (dependencies checks n)) [
    | inr (later, found) ↦ (later, rw (found, dependencies))
    | inl absent ↦ elim (Bool-cases (c.name == n)) [
      | inl same ↦ (c.depends_on, rw (absent, dependencies) (rw same))
      | inr other ↦ let (deps, e) = dependencies_of_contains checks n (rw other at h) in cc
    ]
  ]

  dependencies_of_absent :
      (checks : List (HealthCheck F)) (n : Text)
      → contains (names checks) n ≡ false
      → dependencies checks n ≡ none
  unfolding contains dependencies
  dependencies_of_absent [] n h = refl
  dependencies_of_absent (c ∷ checks) n h = ground (arith, dependencies_of_absent checks n)

  later_entry :
      (c : HealthCheck F) (checks : List (HealthCheck F)) (n : Text) (deps : List Text)
      → dependencies checks n ≡ some deps
      → dependencies (c ∷ checks) n ≡ some deps
  unfolding dependencies
  later_entry c checks n deps e = ground arith

  first_entry :
      (c : HealthCheck F) (checks : List (HealthCheck F))
      → dependencies checks c.name ≡ none
      → dependencies (c ∷ checks) c.name ≡ some c.depends_on
  unfolding dependencies
  first_entry c checks e = ground (arith, eq_refl c.name)

  -- With distinct names each check's own dependencies are its entry.
  pub own_dependencies :
      (checks : List (HealthCheck F))
      → Distinct (names checks)
      → All (λ c. dependencies checks c.name ≡ some c.depends_on) checks
  own_dependencies [] h = tt
  own_dependencies (c ∷ checks) h = (
    first_entry c checks (dependencies_of_absent checks c.name h.0),
    All-map checks (λ b e. later_entry c checks b.name b.depends_on e)
        (own_dependencies checks h.1),
  )
