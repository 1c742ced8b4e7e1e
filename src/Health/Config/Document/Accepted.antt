-- ===== src/Health/Config/Document/Accepted.antt =====
-- What the configurations are that healthctl.py accepts.
use opsforge.Prelude.{
  ℕ, suc, ◌≤◌, ◌≡◌, refl, ap, sym, subst, false, Option, none, some, List, [], ◌∷◌, map, Text, lit,
  ◌==◌, eq_iff, contains, length, All, All-map, ltb, arith, Bool-cases, inl, inr,
}
use opsforge.Prelude.Counting.{Distinct}
use opsforge.Result.{value, value->>=}
use opsforge.Health.Json.{
  Json, null, boolean, natural, below_zero, real, string, array, object, get, elements,
}
use opsforge.Health.Types.{HealthCheck, HealthConfig, CheckResult, names}
use opsforge.Health.Config.{
  get_default, max_checks, expect_mapping, reject_unknown_keys, System, nonnegative_int,
}
use opsforge.Health.Config.Document.{
  version_one, max_workers_allowed, positive_workers, bounded_checks, checks_of, validated,
  parse_check, parse_checks, parse_config_document,
}
use opsforge.Health.Depends.{DependencyError, validate_dependencies}
use opsforge.Health.Schedule.{Reply, evaluate, evaluated}
use opsforge.Health.Schedule.Verdict.{IsVerdict, IsHonest}
use opsforge.Health.Schedule.Judge.{evaluate_of_validated}
use opsforge.Health.Config.Document.Known.{
  IsCheck, parse_check-value, positive_workers-value, nonnegative_int-value,
}

module _ {F : Type 0} where
  -- What is known of the checks after those with the names `seen`.
  record IsListed (seen : List Text) (count : ℕ) (checks : List (HealthCheck F)) : Type 0 where
    valid : All IsCheck checks
    fresh : All (λ c. contains seen c.name ≡ false) checks
    distinct : Distinct (names checks)
    counted : length checks ≡ count

  pub record IsConfig (config : HealthConfig F) : Type 0 where
    pub valid : All IsCheck config.checks
    pub distinct : Distinct (names config.checks)
    pub some_checks : 1 ≤ length config.checks
    pub few_checks : length config.checks ≤ 32
    pub some_workers : 1 ≤ config.max_workers
    pub few_workers : config.max_workers ≤ 8
    pub validated : validate_dependencies config.checks ≡ none

  absent_name :
      (n : Text) (seen : List Text) (checks : List (HealthCheck F))
      → All (λ c. contains (n ∷ seen) c.name ≡ false) checks
      → contains (names checks) n ≡ false
  unfolding contains
  absent_name n seen [] h = refl
  absent_name n seen (c ∷ checks) h = elim (Bool-cases (c.name == n)) [
    | inl same ↦
        let e = (eq_iff c.name n).0 same in let back = (eq_iff n c.name).1 (sym e) in ground arith
    | inr other ↦ rw other (absent_name n seen checks h.1)
  ]

  IsListed-more :
      (seen : List Text) (count : ℕ) (c : HealthCheck F) (rest : List (HealthCheck F))
      → IsCheck c × (contains seen c.name ≡ false)
      → IsListed (c.name ∷ seen) count rest
      → IsListed seen (suc count) (c ∷ rest)
  unfolding contains
  IsListed-more seen count c rest (good, fresh) h = record {
    valid = (good, h.valid);
    fresh = (
      fresh,
      All-map rest (λ d (e : contains (c.name ∷ seen) d.name ≡ false). ground arith) h.fresh,
    );
    distinct = (absent_name c.name seen rest h.fresh, h.distinct);
    counted = ap suc h.counted;
  }

  module _ (system : System F) where
    parse_checks-value :
        (seen : List Text) (js : List (Json F)) (checks : List (HealthCheck F))
        → parse_checks system seen js ≡ value checks
        → IsListed seen (length js) checks
    unfolding parse_checks
    parse_checks-value seen [] checks h =
        let form : [] ≡ checks = ground arith in
        subst (IsListed seen 0) form
          (record { valid = tt; fresh = tt; distinct = tt; counted = refl })
    parse_checks-value seen (j ∷ js) checks h =
        let (c, e₁, h₁) = value->>= (parse_check system seen j) _ checks h in
        let (rest, e₂, h₂) = value->>= (parse_checks system (c.name ∷ seen) js) _ checks h₁ in
        let form : c ∷ rest ≡ checks = ground arith in
        subst (IsListed seen (suc (length js))) form (
          IsListed-more seen (length js) c rest (parse_check-value system seen j c e₁)
            (parse_checks-value (c.name ∷ seen) js rest e₂))

    bounded_checks-value :
        (given js : List (Json F))
        → bounded_checks given ≡ value js
        → (1 ≤ length js) × (length js ≤ 32)
    unfolding bounded_checks
    bounded_checks-value [] js h = cc
    bounded_checks-value (g ∷ given) js h =
        elim (Bool-cases (ltb max_checks (length (g ∷ given)))) [
          | inl many ↦ cc (rw many at h)
          | inr few ↦
              let form : g ∷ given ≡ js = ground arith in
              subst (λ l. (1 ≤ length l) × (length l ≤ 32)) form (omega arith, ground arith)
        ]

    checks_of-value :
        (given : Option (Json F)) (js : List (Json F))
        → checks_of given ≡ value js
        → (1 ≤ length js) × (length js ≤ 32)
    unfolding checks_of
    checks_of-value (some (array items)) js h = bounded_checks-value (elements items) js h
    checks_of-value none js h = cc
    checks_of-value (some null) js h = cc
    checks_of-value (some (boolean b)) js h = cc
    checks_of-value (some (natural m)) js h = cc
    checks_of-value (some (below_zero m)) js h = cc
    checks_of-value (some (real x)) js h = cc
    checks_of-value (some (string t)) js h = cc
    checks_of-value (some (object fields)) js h = cc

    validated-value :
        (given config : HealthConfig F) (o : Option DependencyError)
        → validated given o ≡ value config
        → (given ≡ config) × (o ≡ none)
    unfolding validated
    validated-value given config none h = (ground arith, refl)
    validated-value given config (some e) h = cc

    parsed-IsConfig :
        (path : Text) (given workers : ℕ) (js : List (Json F)) (checks : List (HealthCheck F))
        (config : HealthConfig F)
        → (1 ≤ length js) × (length js ≤ 32)
        → given ≤ 8
        → positive_workers given ≡ value workers
        → parse_checks system [] js ≡ value checks
        → validated
            (record { path = path; checks = checks; max_workers = workers })
            (validate_dependencies checks)
          ≡ value config
        → IsConfig config
    parsed-IsConfig path given workers js checks config bounds most positive parsed h =
        let (same, acyclic) = validated-value _ config (validate_dependencies checks) h in
        let listed = parse_checks-value [] js checks parsed in
        let (kept, some_workers) = positive_workers-value given workers positive in
        subst IsConfig same (record {
          valid = listed.valid;
          distinct = listed.distinct;
          some_checks = omega (arith, listed.counted, bounds.0);
          few_checks = omega (arith, listed.counted, bounds.1);
          some_workers = omega arith;
          few_workers = omega arith;
          validated = acyclic;
        })

    -- An accepted configuration has from 1 to 32 checks with distinct valid names, at most 3
    -- retries each and a severity that is not OK, from 1 to 8 workers, and validated dependencies.
    pub parse_config_document-IsConfig :
        (document : Json F) (path : Text) (config : HealthConfig F)
        → parse_config_document system document path ≡ value config
        → IsConfig config
    unfolding parse_config_document
    parse_config_document-IsConfig document path config h =
        let (root, e₁, h₁) = value->>= (expect_mapping document) _ config h in
        let (known, e₂, h₂) =
          value->>=
            (reject_unknown_keys root (lit "version" ∷ lit "checks" ∷ lit "max_workers" ∷ [])) _
            config h₁ in
        let (version, e₃, h₃) = value->>= (version_one (get (lit "version") root)) _ config h₂ in
        let (js, e₄, h₄) = value->>= (checks_of (get (lit "checks") root)) _ config h₃ in
        let (given, e₅, h₅) =
          value->>=
            (nonnegative_int (lit "max_workers") max_workers_allowed
              (get_default (lit "max_workers") root (natural 4)))
            _ config h₄ in
        let (workers, e₆, h₆) = value->>= (positive_workers given) _ config h₅ in
        let (checks, e₇, h₇) = value->>= (parse_checks system [] js) _ config h₆ in
        parsed-IsConfig path given workers js checks config
          (checks_of-value (get (lit "checks") root) js e₄)
          (nonnegative_int-value (lit "max_workers") max_workers_allowed
            (get_default (lit "max_workers") root (natural 4)) given e₅)
          e₆ e₇ h₇

    -- An accepted configuration can be evaluated: with an executor that answers for each check with
    -- its name and type and a known status, `evaluate_config` returns one result for each check, in
    -- the order of the configuration, and the results are the verdicts, however the threads run.
    pub evaluate_of_parsed :
        (display_path : Text → Text) (executor : HealthCheck F → Reply) (document : Json F)
        (path : Text) (config : HealthConfig F)
        → parse_config_document system document path ≡ value config
        → IsHonest display_path executor config.checks
        → (verdict : Text → CheckResult) × IsVerdict display_path executor config.checks verdict
          × ((picks : ℕ → ℕ)
              → evaluate display_path executor config.max_workers config.checks picks
                ≡ evaluated (map verdict (names config.checks)))
    evaluate_of_parsed display_path executor document path config h honest =
        let good = parse_config_document-IsConfig document path config h in
        let (verdict, right, runs) =
          evaluate_of_validated display_path executor config.checks good.distinct good.validated
            honest in
        (verdict, right, λ picks. runs config.max_workers picks (omega (arith, good.some_workers)))
