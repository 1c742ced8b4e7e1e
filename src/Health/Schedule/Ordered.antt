-- ===== src/Health/Schedule/Ordered.antt =====
-- The final sort of `evaluate_config` puts the results into the order of the configuration.
use mathlib.Core.List.Permᴰ
use opsforge.Prelude.{
  ℕ, suc, ◌≤◌, ◌<◌, ◌≡◌, refl, ◌∙◌, sym, subst, ap, true, false, none, some, List, [], ◌∷◌, map,
  arith, Text, eq_refl, contains, All-of_contains, get_or, All, All-map, Bool-cases, inl, inr,
}
use opsforge.Prelude.Dict
use opsforge.Prelude.Dict.{Dict}
use opsforge.Prelude.Counting.{Distinct, count, Permᴰ_of_counts}
use opsforge.Prelude.Sorting.{sorted, Ascending, sorted-eq_of_Permᴰ}
use opsforge.Health.Types.{HealthCheck, CheckResult, names}
use opsforge.Health.Schedule.{order_from, order}
use opsforge.Health.Schedule.Invariant.{Agrees}

All-above-map :
    {A B : Type 0} (f : A → B) (low : A → ℕ) (key : B → ℕ) (k : ℕ) (xs : List A)
    → All (λ x. key (f x) ≡ low x) xs
    → All (λ x. k < low x) xs
    → All (λ y. k < key y) (map f xs)
All-above-map f low key k [] same h = tt
All-above-map f low key k (x ∷ xs) same h =
    (omega (arith, same.0, h.0), All-above-map f low key k xs same.1 h.1)

Ascending-map :
    {A B : Type 0} (f : A → B) (low : A → ℕ) (key : B → ℕ) (xs : List A)
    → All (λ x. key (f x) ≡ low x) xs
    → Ascending low xs
    → Ascending key (map f xs)
Ascending-map f low key [] same h = tt
Ascending-map f low key (x ∷ xs) same h = (
  All-above-map f low key (key (f x)) xs same.1
      (subst (λ k. All (λ y. k < low y) xs) (sym same.0) h.0),
  Ascending-map f low key xs same.1 h.1,
)

values-Agrees :
    (verdict : Text → CheckResult) (d : Dict CheckResult)
    → Agrees verdict d
    → Dict.values d ≡ map verdict (Dict.keys d)
unfolding Dict.values Dict.keys
values-Agrees verdict [] h = refl
values-Agrees verdict ((k, v) ∷ d) h = cc (h.0, values-Agrees verdict d h.1)

module _ {F : Type 0} where
  abbrev index : ℕ → List (HealthCheck F) → Text → ℕ
  index first checks n = get_or (order_from first checks n) 0

  order_from_of_absent :
      (first : ℕ) (checks : List (HealthCheck F)) (n : Text)
      → contains (names checks) n ≡ false
      → order_from first checks n ≡ none
  unfolding contains order_from
  order_from_of_absent first [] n h = refl
  order_from_of_absent first (c ∷ checks) n h =
      ground (arith, order_from_of_absent (suc first) checks n)

  -- Each name has an index from `first` on.
  order_from_of_contains :
      (first : ℕ) (checks : List (HealthCheck F)) (n : Text)
      → contains (names checks) n ≡ true
      → (i : ℕ) × (order_from first checks n ≡ some i) × (first ≤ i)
  unfolding contains order_from
  order_from_of_contains first [] n h = cc
  order_from_of_contains first (c ∷ checks) n h = elim (Bool-cases (contains (names checks) n)) [
    | inl later ↦
        let (i, e, le) = order_from_of_contains (suc first) checks n later in
        (i, rw (e, order_from), omega arith)
    | inr fresh ↦
        let none_later = order_from_of_absent (suc first) checks n fresh in
        (first, ground arith, omega arith)
  ]

  index-tail :
      (first : ℕ) (c : HealthCheck F) (checks : List (HealthCheck F)) (n : Text)
      → contains (names checks) n ≡ true
      → (index first (c ∷ checks) n ≡ index (suc first) checks n)
        × (suc first ≤ index first (c ∷ checks) n)
  unfolding order_from
  index-tail first c checks n h =
      let (i, e, le) = order_from_of_contains (suc first) checks n h in ground arith

  index-head :
      (first : ℕ) (c : HealthCheck F) (checks : List (HealthCheck F))
      → contains (names checks) c.name ≡ false
      → index first (c ∷ checks) c.name ≡ first
  unfolding order_from
  index-head first c checks h =
      ground (arith, order_from_of_absent (suc first) checks c.name h, eq_refl c.name)

  -- The indices of distinct names ascend.
  names-Ascending :
      (key : Text → ℕ) (first : ℕ) (checks : List (HealthCheck F))
      → Distinct (names checks)
      → ((n : Text) → contains (names checks) n ≡ true → key n ≡ index first checks n)
      → Ascending key (names checks)
  unfolding contains
  names-Ascending key first [] distinct h = tt
  names-Ascending key first (c ∷ checks) distinct h = (
    All-of_contains (names checks) (λ m listed.
        let head : key c.name ≡ first =
          h c.name (rw (eq_refl c.name)) ∙ index-head first c checks distinct.0 in
        let (_, later) = index-tail first c checks m listed in
        let here : key m ≡ index first (c ∷ checks) m = h m (ground arith) in omega arith),
    names-Ascending key (suc first) checks distinct.1
        (λ n listed. h n (ground arith) ∙ (index-tail first c checks n listed).0),
  )

  -- With every check completed, and each result the verdict under its own name, the sorted results
  -- are the verdicts in the order of the checks.
  pub sorted-Agrees :
      (verdict : Text → CheckResult) (checks : List (HealthCheck F)) (d : Dict CheckResult)
      → Distinct (names checks)
      → All (λ n. (verdict n).name ≡ n) (names checks)
      → Agrees verdict d
      → ((n : Text) → count n (Dict.keys d) ≡ count n (names checks))
      → sorted (order checks) (Dict.values d) ≡ map verdict (names checks)
  sorted-Agrees verdict checks d distinct named agrees counts =
      ap (sorted (order checks)) (values-Agrees verdict d agrees)
      ∙ sorted-eq_of_Permᴰ (order checks)
          (Permᴰ.map verdict (Permᴰ_of_counts (names checks) (Dict.keys d) (λ n. sym (counts n))))
          (Ascending-map verdict (index 0 checks) (order checks) (names checks)
            (All-map (names checks) (λ n e. ap (index 0 checks) e) named)
            (names-Ascending (index 0 checks) 0 checks distinct (λ n listed. refl)))
