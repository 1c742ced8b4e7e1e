-- ===== src/Health/Config/Document/Known.antt =====
-- What is known of one check that healthctl.py accepts.
use opsforge.Prelude.{
  ℕ, ◌≤◌, ◌≡◌, ◌≢◌, ap, ◌∙◌, subst, true, false, List, ◌∷◌, ◌++◌, Text, lit, contains, arith,
  Bool-cases, inl, inr,
}
use opsforge.Prelude.Dict
use opsforge.Health.Config.Checks.{check_types}
use opsforge.Result.{value, value->>=}
use opsforge.Health.Json.{
  Json, null, boolean, natural, below_zero, real, string, array, object, Items, Fields,
}
use opsforge.Health.Types.{Severity, HealthCheck}
use opsforge.Health.Config.{
  group_names, dependencies_of, get_default, max_retries, expect_mapping, require_string,
  reject_unknown_keys, System, Parsed, Common, nonnegative_int, severity_of, common_check_fields,
  make_check, is_check_name, parse_check_name,
}
use opsforge.Health.Config.Document.{
  spec_of, common_fields, fresh_name, positive_workers, parse_check,
}

parse_check_name-value : (n m : Text) → parse_check_name n ≡ value m → is_check_name m ≡ true
unfolding parse_check_name
parse_check_name-value n m h = elim (Bool-cases (is_check_name n)) [
  | inl good ↦ let same : n ≡ m = ground arith in subst (λ x. is_check_name x ≡ true) same good
  | inr bad ↦ cc (rw bad at h)
]

fresh_name-value :
    (seen : List Text) (n m : Text)
    → fresh_name seen n ≡ value m
    → (n ≡ m) × (contains seen n ≡ false)
unfolding fresh_name
fresh_name-value seen n m h = ground arith

pub positive_workers-value : (n m : ℕ) → positive_workers n ≡ value m → (n ≡ m) × (1 ≤ n)
unfolding positive_workers
positive_workers-value n m h = ground arith

common_of :
    (s : Severity) (group profile : Text) (d : List Text) (r : ℕ) (common : Common)
    → ◌≡◌ {A = Parsed Common}
        (value
          (record { severity = s; group = group; profile = profile; depends_on = d; retries = r }))
        (value common)
    → s ≢ Severity.ok
    → r ≤ 3
    → (common.severity ≢ Severity.ok) × (common.retries ≤ 3)
common_of s group profile d r common h severe few =
    let given : s ≡ common.severity = ground arith in
    let tries : r ≡ common.retries = ground arith in
    (subst (λ x. x ≢ Severity.ok) given severe, omega arith)

module _ {F : Type 0} where
  pub nonnegative_int-value :
      (field : Text) (maximum : ℕ) (j : Json F) (n : ℕ)
      → nonnegative_int field maximum j ≡ value n
      → n ≤ maximum
  unfolding nonnegative_int
  nonnegative_int-value field maximum (natural m) n h = ground arith
  nonnegative_int-value field maximum null n h = cc
  nonnegative_int-value field maximum (boolean b) n h = cc
  nonnegative_int-value field maximum (below_zero m) n h = cc
  nonnegative_int-value field maximum (real x) n h = cc
  nonnegative_int-value field maximum (string s) n h = cc
  nonnegative_int-value field maximum (array items) n h = cc
  nonnegative_int-value field maximum (object fields) n h = cc

  severity_of-value : (j : Json F) (s : Severity) → severity_of j ≡ value s → s ≢ Severity.ok
  unfolding severity_of
  severity_of-value (string t) s h = ground arith
  severity_of-value null s h = cc
  severity_of-value (boolean b) s h = cc
  severity_of-value (natural m) s h = cc
  severity_of-value (below_zero m) s h = cc
  severity_of-value (real x) s h = cc
  severity_of-value (array items) s h = cc
  severity_of-value (object fields) s h = cc

  common_check_fields-value :
      (check : Fields F) (common : Common)
      → common_check_fields check ≡ value common
      → (common.severity ≢ Severity.ok) × (common.retries ≤ 3)
  unfolding common_check_fields
  common_check_fields-value check common h =
      let (s, e₁, h₁) =
        value->>= (severity_of (get_default (lit "severity") check (string (lit "CRITICAL")))) _
          common h in
      let (n, e₂, h₂) =
        value->>=
          (group_names (get_default (lit "group") check (string (lit "default")))
            (get_default (lit "profile") check (string (lit "default"))))
          _ common h₁ in
      let (d, e₃, h₃) =
        value->>= (dependencies_of (get_default (lit "depends_on") check (array Items.nil))) _
          common h₂ in
      let (r, e₄, h₄) =
        value->>=
          (nonnegative_int (lit "retries") max_retries
            (get_default (lit "retries") check (natural 0)))
          _ common h₃ in
      let severe =
        severity_of-value (get_default (lit "severity") check (string (lit "CRITICAL"))) s e₁ in
      let few =
        nonnegative_int-value (lit "retries") max_retries
          (get_default (lit "retries") check (natural 0)) r e₄ in
      common_of s n.0 n.1 d r common h₄ severe few

  -- What is known of an accepted check.
  pub record IsCheck (c : HealthCheck F) : Type 0 where
    pub named : is_check_name c.name ≡ true
    pub severe : c.severity ≢ Severity.ok
    pub few_retries : c.retries ≤ 3

  make_check-IsCheck :
      (name type : Text) (common : Common) (c : HealthCheck F) (probe : _)
      → is_check_name name ≡ true
      → (common.severity ≢ Severity.ok) × (common.retries ≤ 3)
      → make_check name type common probe ≡ c
      → IsCheck c
  unfolding make_check
  make_check-IsCheck name type common c probe named (severe, few) same =
      subst IsCheck same (record { named = named; severe = severe; few_retries = few })

  module _ (system : System F) where
    pub parse_check-value :
        (seen : List Text) (j : Json F) (c : HealthCheck F)
        → parse_check system seen j ≡ value c
        → IsCheck c × (contains seen c.name ≡ false)
    unfolding parse_check make_check
    parse_check-value seen j c h =
        let (check, e₁, h₁) = value->>= (expect_mapping j) _ c h in
        let (given, e₂, h₂) = value->>= (require_string check (lit "name")) _ c h₁ in
        let (valid, e₃, h₃) = value->>= (parse_check_name given) _ c h₂ in
        let (name, e₄, h₄) = value->>= (fresh_name seen valid) _ c h₃ in
        let (type, e₅, h₅) = value->>= (require_string check (lit "type")) _ c h₄ in
        let (common, e₆, h₆) = value->>= (common_check_fields check) _ c h₅ in
        let (spec, e₇, h₇) =
          value->>= (spec_of system type (Dict.lookup type (check_types system))) _ c h₆ in
        let (known, e₈, h₈) =
          value->>=
            (reject_unknown_keys check (lit "name" ∷ lit "type" ∷ spec.fields ++ common_fields)) _ c
            h₇ in
        let (probe, e₉, h₉) = value->>= (spec.parse check type) _ c h₈ in
        let (same, fresh) = fresh_name-value seen valid name e₄ in
        let made : make_check name type common probe ≡ c = ground arith in
        let named =
          subst (λ n. is_check_name n ≡ true) same (parse_check_name-value given valid e₃) in
        let own : name ≡ c.name = ap (λ d. d.name) made in
        (
          make_check-IsCheck name type common c probe named
              (common_check_fields-value check common e₆) made,
          subst (λ n. contains seen n ≡ false) (same ∙ own) fresh,
        )
