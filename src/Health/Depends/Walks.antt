-- ===== src/Health/Depends/Walks.antt =====
-- What a walk leaves in its sets: `visiting` is restored, and `visited` grows in topological order.
use opsforge.Prelude.{
  ℕ, zero, suc, ◌≡◌, refl, ◌∙◌, subst, ap, true, Option, none, some, List, [], ◌∷◌, arith, Text,
  eq_refl, contains, All, Bool-cases, inl, inr,
}
use opsforge.Health.Types.{HealthCheck}
use opsforge.Health.Depends.{
  Marks, Walk, walked, cycle, missing_key, out_of_fuel, ◌>>=◌, discard, enter, leave, visit_each,
  dependencies, visit_dependencies, visit,
}

>>=-eq-walked :
    (w : Walk) (f : Marks → Walk) {m : Marks}
    → (w >>= f) ≡ walked m
    → (m' : Marks) × (w ≡ walked m') × (f m' ≡ walked m)
>>=-eq-walked (walked m') f e = (m', refl, e)
>>=-eq-walked cycle f e = cc
>>=-eq-walked missing_key f e = cc
>>=-eq-walked out_of_fuel f e = cc

pub discard-cons : (n : Text) (xs : List Text) → discard n (n ∷ xs) ≡ xs
unfolding discard
discard-cons n xs = rw (eq_refl n)

walked-injective : {m m' : Marks} → walked m ≡ walked m' → m ≡ m'
walked-injective e = cc

abbrev Within : List Text → List Text → Type 0
Within xs ys = (x : Text) → contains xs x ≡ true → contains ys x ≡ true

module _ {F : Type 0} (checks : List (HealthCheck F)) where
  -- Each name stands in front of all that it depends on.
  abbrev pub Topological : List Text → Type 0
  Topological [] = Unit
  Topological (n ∷ later) =
      ((deps : List Text) × (dependencies checks n ≡ some deps)
        × All (λ d. contains later d ≡ true) deps)
      × Topological later

  -- What a successful visit of `n` promises.
  pub record Grows (m m' : Marks) : Type 0 where
    pub restored : m'.visiting ≡ m.visiting
    pub kept : Within m.visited m'.visited
    pub ordered : Topological m.visited → Topological m'.visited

  Grows-refl : (m : Marks) → Grows m m
  Grows-refl m = record { restored = refl; kept = λ x h. h; ordered = λ t. t }

  Grows-trans : {a b c : Marks} → Grows a b → Grows b c → Grows a c
  Grows-trans g h = record {
    restored = h.restored ∙ g.restored;
    kept = λ x e. h.kept x (g.kept x e);
    ordered = λ t. h.ordered (g.ordered t);
  }

  abbrev pub Visits : (Text → Marks → Walk) → Type 0
  Visits v =
      (n : Text) (m m' : Marks) → v n m ≡ walked m' → Grows m m' × (contains m'.visited n ≡ true)

  pub visit_each-Grows :
      (v : Text → Marks → Walk)
      → Visits v
      → (ns : List Text) (m m' : Marks) → visit_each v ns m ≡ walked m'
      → Grows m m' × All (λ d. contains m'.visited d ≡ true) ns
  unfolding visit_each
  visit_each-Grows v h [] m m' e = (subst (Grows m) (walked-injective e) (Grows-refl m), tt)
  visit_each-Grows v h (n ∷ ns) m m' e =
      let (m₁, first, rest) = >>=-eq-walked (v n m) (visit_each v ns) e in
      let (g, seen) = h n m m₁ first in
      let (g', all_seen) = visit_each-Grows v h ns m₁ m' rest in
      (Grows-trans g g', (g'.kept n seen, all_seen))

  finish-Grows :
      (n : Text) (deps : List Text) (m m₁ : Marks)
      → dependencies checks n ≡ some deps
      → Grows (enter n m) m₁
      → All (λ d. contains m₁.visited d ≡ true) deps
      → Grows m (leave n m₁) × (contains (leave n m₁).visited n ≡ true)
  unfolding contains
  finish-Grows n deps m m₁ found g seen = (
    record {
      restored = ap (discard n) g.restored ∙ discard-cons n m.visiting;
      kept = λ x e. ground (arith, g.kept x e);
      ordered = λ t. ((deps, found, seen), g.ordered t);
    },
    rw (eq_refl n),
  )

  visit_dependencies-Grows :
      (v : Text → Marks → Walk)
      → Visits v
      → (n : Text) (m m' : Marks) (o : Option (List Text)) → dependencies checks n ≡ o
      → (visit_dependencies checks v o (enter n m) >>= λ m₁. walked (leave n m₁)) ≡ walked m'
      → Grows m m' × (contains m'.visited n ≡ true)
  visit_dependencies-Grows v h n m m' none found e = cc
  visit_dependencies-Grows v h n m m' (some deps) found e =
      let (m₁, walk, ends) = >>=-eq-walked (visit_each v deps (enter n m)) _ e in
      let (g, seen) = visit_each-Grows v h deps (enter n m) m₁ walk in
      subst (λ w. Grows m w × (contains w.visited n ≡ true)) (walked-injective ends)
        (finish-Grows n deps m m₁ found g seen)

  -- A visit that returns has put its name, behind all that it depends on, into `visited`.
  pub visit-Grows : (fuel : ℕ) → Visits (visit checks fuel)
  unfolding visit
  visit-Grows zero n m m' e = cc
  visit-Grows (suc fuel) n m m' e = elim (Bool-cases (contains m.visiting n)) [
    | inl active ↦ cc (rw active at e)
    | inr fresh ↦ elim (Bool-cases (contains m.visited n)) [
      | inl seen ↦
          subst (λ w. Grows m w × (contains w.visited n ≡ true))
            (walked-injective (rw (fresh, seen) at e)) (Grows-refl m, seen)
      | inr new ↦
          visit_dependencies-Grows (visit checks fuel) (visit-Grows fuel) n m m'
            (dependencies checks n) refl (rw (fresh, new) at e)
    ]
  ]
