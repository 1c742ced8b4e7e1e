-- ===== src/Health/Depends/Enough.antt =====
-- The fuel of the search suffices: each nested visit adds a name to `visiting`.
use opsforge.Prelude.{
  ℕ, zero, suc, ◌≤◌, ◌<◌, ◌≡◌, refl, sym, subst, ap, true, false, some, List, [], ◌∷◌, arith, Text,
  eq_iff, eq_refl, contains, length, All, Bool-cases, inl, inr, if◌then◌else◌,
}
use opsforge.Health.Types.{HealthCheck}
use opsforge.Health.Depends.{
  Marks, Walk, walked, cycle, missing_key, out_of_fuel, ◌>>=◌, enter, visit_each, dependencies,
  visit_dependencies, visit,
}
use opsforge.Health.Depends.Walks.{visit-Grows}

-- How many of the names are not being visited.
absent : List Text → List Text → ℕ
absent visiting [] = 0
absent visiting (n ∷ ns) =
    if contains visiting n then absent visiting ns else suc (absent visiting ns)

absent-cons-le :
    (n : Text) (visiting ns : List Text) → absent (n ∷ visiting) ns ≤ absent visiting ns
unfolding absent contains
absent-cons-le n visiting [] = omega arith
absent-cons-le n visiting (x ∷ ns) = ground (arith, absent-cons-le n visiting ns)

absent-cons-lt :
    (n : Text) (visiting ns : List Text)
    → contains ns n ≡ true
    → contains visiting n ≡ false
    → absent (n ∷ visiting) ns < absent visiting ns
unfolding absent contains
absent-cons-lt n visiting [] h k = cc
absent-cons-lt n visiting (x ∷ ns) h k =
    ground
      (arith, absent-cons-lt n visiting ns, absent-cons-le n visiting ns, eq_iff x n, eq_refl n)

absent-nil : (ns : List Text) → absent [] ns ≡ length ns
unfolding absent contains
absent-nil [] = refl
absent-nil (n ∷ ns) = ap suc (absent-nil ns)

-- The walk ended by the program's own means.
abbrev pub Ends : Walk → Type 0
Ends (walked m) = Unit
Ends cycle = Unit
Ends missing_key = ⊥
Ends out_of_fuel = ⊥

Ends->>= :
    (w : Walk) (f : Marks → Walk)
    → Ends w
    → ((m : Marks) → w ≡ walked m → Ends (f m))
    → Ends (w >>= f)
Ends->>= (walked m) f h k = k m refl
Ends->>= cycle f h k = tt
Ends->>= missing_key f h k = h
Ends->>= out_of_fuel f h k = h

module _ {F : Type 0} (checks : List (HealthCheck F)) where
  -- Every name has an entry in the map, and every dependency of an entry is a name.
  pub record IsKnown (ns : List Text) : Type 0 where
    pub entry :
        (n : Text) → contains ns n ≡ true → (deps : List Text) × (dependencies checks n ≡ some deps)
    pub closed :
        (n : Text) (deps : List Text)
        → dependencies checks n ≡ some deps
        → All (λ d. contains ns d ≡ true) deps

  module _ {ns : List Text} (known : IsKnown ns) where
    visit_each-Ends :
        (fuel : ℕ)
        → ((n : Text) (m : Marks)
            → contains ns n ≡ true
            → absent m.visiting ns < fuel
            → Ends (visit checks fuel n m))
        → (deps : List Text) (m : Marks) → All (λ d. contains ns d ≡ true) deps
        → absent m.visiting ns < fuel
        → Ends (visit_each (visit checks fuel) deps m)
    unfolding visit_each
    visit_each-Ends fuel h [] m all room = tt
    visit_each-Ends fuel h (d ∷ deps) m all room =
        Ends->>= (visit checks fuel d m) _ (h d m all.0 room) λ m₁ e.
          visit_each-Ends fuel h deps m₁ all.1 (
            subst (λ v. absent v ns < fuel) (sym ((visit-Grows checks fuel d m m₁ e).0).restored)
              room)

    visit_dependencies-Ends :
        (fuel : ℕ)
        → ((n : Text) (m : Marks)
            → contains ns n ≡ true
            → absent m.visiting ns < fuel
            → Ends (visit checks fuel n m))
        → (n : Text) (m : Marks) → contains ns n ≡ true
        → absent (n ∷ m.visiting) ns < fuel
        → Ends (visit_dependencies checks (visit checks fuel) (dependencies checks n) (enter n m))
    visit_dependencies-Ends fuel h n m named room =
        let (deps, e) = known.entry n named in
        rw e (visit_each-Ends fuel h deps (enter n m) (known.closed n deps e) room)

    -- With more fuel than there are names left to enter, a visit ends.
    visit-Ends :
        (fuel : ℕ) (n : Text) (m : Marks)
        → contains ns n ≡ true
        → absent m.visiting ns < fuel
        → Ends (visit checks fuel n m)
    unfolding visit
    visit-Ends zero n m named room = absurd (omega arith)
    visit-Ends (suc fuel) n m named room = elim (Bool-cases (contains m.visiting n)) [
      | inl active ↦ rw active tt
      | inr fresh ↦ elim (Bool-cases (contains m.visited n)) [
        | inl seen ↦ rw (fresh, seen) tt
        | inr new ↦
            rw (fresh, new)
              (Ends->>= _ _
                (visit_dependencies-Ends fuel (visit-Ends fuel) n m named
                  (omega (arith, absent-cons-lt n m.visiting ns named fresh)))
                (λ m₁ e. tt))
      ]
    ]

    pub walk-Ends :
        (fuel : ℕ) (deps : List Text)
        → All (λ d. contains ns d ≡ true) deps
        → length ns < fuel
        → Ends (visit_each (visit checks fuel) deps (record { visiting = []; visited = [] }))
    walk-Ends fuel deps all room =
        visit_each-Ends fuel (visit-Ends fuel) deps _ all (omega (arith, absent-nil ns))
