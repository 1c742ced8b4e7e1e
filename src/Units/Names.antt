-- ===== src/Units/Names.antt =====
-- What the service names of common/systemd.py are.
use opsforge.Prelude.{
  ℕ, ◌-◌, ◌≡◌, refl, ◌∙◌, subst, Bool, true, false, Option, none, some, List, [], ◌∷◌, ◌++◌, Text,
  lit, ◌==◌, eq_iff, eq_refl, starts_with, length, length-append, leb, eqb, any, arith, Bool-cases,
  Option-cases, inl, inr,
}
use opsforge.Escape.{is_unsafe, has_unsafe_characters}
use opsforge.Escape.Hex.{drop-append}
use opsforge.Escape.Safety.{any-append}
use opsforge.Units.{
  ends_with, service, unit_suffixes, is_glob, UnitNameError, unit, invalid, explicit_suffix, accept,
  complete, objection, normalize, normalize_service_name,
}

ends_with-append : (t s : Text) → ends_with (t ++ s) s ≡ true
unfolding ends_with
ends_with-append t s =
    let n = length-append t s in
    let fits : leb (length s) (length (t ++ s)) ≡ true = ground arith in
    let cut = drop-append t s (length (t ++ s) - length s) (omega arith) in
    rw (fits, cut) (eq_refl s)

explicit_suffix-ends_with :
    (t : Text) (suffixes : List Text) (s : Text)
    → explicit_suffix t suffixes ≡ some s
    → ends_with t s ≡ true
unfolding explicit_suffix
explicit_suffix-ends_with t [] s h = cc
explicit_suffix-ends_with t (x ∷ suffixes) s h = elim (Bool-cases (ends_with t x)) [
  | inl ends ↦ let same : x ≡ s = ground arith in subst (λ y. ends_with t y ≡ true) same ends
  | inr not_it ↦ explicit_suffix-ends_with t suffixes s (rw not_it at h)
]

explicit_suffix-service :
    (t : Text) → ends_with t service ≡ true → explicit_suffix t unit_suffixes ≡ some service
unfolding explicit_suffix
explicit_suffix-service t h = rw h

-- The name of one `.service` unit: no option, path, pattern or template.
pub record IsConcrete (category : ℕ → Text) (is_space : ℕ → Bool) (name : Text) : Type 0 where
  pub is_service : ends_with name (lit ".service") ≡ true
  pub stem : (name == lit ".service") ≡ false
  pub no_template : ends_with name (lit "@.service") ≡ false
  pub no_option : starts_with name (lit "-") ≡ false
  pub no_slash : any (eqb 47) name ≡ false
  pub no_space : any is_space name ≡ false
  pub no_control : has_unsafe_characters category name ≡ false
  pub no_glob : any is_glob name ≡ false

module _ (category : ℕ → Text) (is_space : ℕ → Bool) where
  abbrev Clear : Text → Type 0
  Clear t =
      (starts_with t (lit "-") ≡ false)
      × (any (eqb 47) t ≡ false)
      × (any is_space t ≡ false)
      × (has_unsafe_characters category t ≡ false)
      × (any is_glob t ≡ false)

  objection-Clear : (t : Text) → objection category is_space t ≡ none → Clear t
  unfolding objection
  objection-Clear t h = ground arith

  Clear-objection : (t : Text) → Clear t → objection category is_space t ≡ none
  unfolding objection
  Clear-objection t h = ground arith

  accept-unit :
      (n name : Text)
      → accept n ≡ unit name
      → (n ≡ name) × ((n == service) ≡ false) × (ends_with n (lit "@.service") ≡ false)
  unfolding accept
  accept-unit n name h = ground arith

  IsConcrete-of_Clear :
      (n name : Text)
      → ends_with n service ≡ true
      → Clear n
      → accept n ≡ unit name
      → IsConcrete category is_space name
  IsConcrete-of_Clear n name ends clear h =
      let (same, stem, plain) = accept-unit n name h in
      subst (IsConcrete category is_space) same (record {
        is_service = ends;
        stem = stem;
        no_template = plain;
        no_option = clear.0;
        no_slash = clear.1;
        no_space = clear.2;
        no_control = clear.3;
        no_glob = clear.4;
      })

  Clear-append :
      (c : ℕ) (t s : Text)
      → Clear (c ∷ t)
      → any (eqb 47) s ≡ false
      → any is_space s ≡ false
      → any (is_unsafe category) s ≡ false
      → any is_glob s ≡ false
      → Clear (c ∷ t ++ s)
  unfolding has_unsafe_characters starts_with
  Clear-append c t s (option, slash, space, control, glob) a b d e = (
    option,
    any-append (eqb 47) (c ∷ t) s ∙ rw (slash, a),
    any-append is_space (c ∷ t) s ∙ rw (space, b),
    any-append (is_unsafe category) (c ∷ t) s ∙ rw (control, d),
    any-append is_glob (c ∷ t) s ∙ rw (glob, e),
  )

  complete-IsConcrete :
      (c : ℕ) (t name : Text) (o : Option Text)
      → any is_space service ≡ false
      → any (is_unsafe category) service ≡ false
      → Clear (c ∷ t)
      → explicit_suffix (c ∷ t) unit_suffixes ≡ o
      → complete (c ∷ t) o ≡ unit name
      → IsConcrete category is_space name
  unfolding complete
  complete-IsConcrete c t name none spaces unsafe clear e h =
      IsConcrete-of_Clear (c ∷ t ++ service) name (ends_with-append (c ∷ t) service)
        (Clear-append c t service clear refl spaces unsafe refl) h
  complete-IsConcrete c t name (some s) spaces unsafe clear e h = elim (Bool-cases (s == service)) [
    | inl same ↦
        let ends = explicit_suffix-ends_with (c ∷ t) unit_suffixes s e in
        IsConcrete-of_Clear (c ∷ t) name
          (subst (λ x. ends_with (c ∷ t) x ≡ true) ((eq_iff s service).0 same) ends) clear
          (rw same at h)
    | inr other ↦ absurd (invalid_unit (rw other at h))
  ]
    where
      invalid_unit : {e : UnitNameError} → invalid e ≡ unit name → ⊥
      invalid_unit e = cc

  -- An accepted target gives the name of one concrete service unit, where the characters of
  -- `.service` are neither space nor unsafe.
  pub normalize_service_name-IsConcrete :
      (target name : Text)
      → any is_space (lit ".service") ≡ false
      → has_unsafe_characters category (lit ".service") ≡ false
      → normalize_service_name category is_space target ≡ unit name
      → IsConcrete category is_space name
  unfolding normalize_service_name normalize has_unsafe_characters
  normalize_service_name-IsConcrete [] name spaces unsafe h = cc
  normalize_service_name-IsConcrete (c ∷ t) name spaces unsafe h =
      elim (Option-cases (objection category is_space (c ∷ t))) [
        | inl fine ↦
            complete-IsConcrete c t name (explicit_suffix (c ∷ t) unit_suffixes) spaces unsafe
              (objection-Clear (c ∷ t) fine) refl (rw (fine, normalize) at h)
        | inr (e, bad) ↦ cc (rw (bad, normalize) at h)
      ]

  empty_ends : ends_with [] service ≡ true → ⊥
  unfolding ends_with
  empty_ends h = cc

  -- The name of one concrete service unit is accepted, and given back as it is.
  pub normalize_service_name_of_IsConcrete :
      (name : Text)
      → IsConcrete category is_space name
      → normalize_service_name category is_space name ≡ unit name
  unfolding normalize_service_name normalize complete accept
  normalize_service_name_of_IsConcrete [] h = absurd (empty_ends (h.is_service))
  normalize_service_name_of_IsConcrete (c ∷ t) h =
      let fine =
        Clear-objection (c ∷ t) (h.no_option, h.no_slash, h.no_space, h.no_control, h.no_glob) in
      rw (fine, normalize)
        (rw (explicit_suffix-service (c ∷ t) h.is_service, complete)
          (rw (eq_refl service, h.stem, h.no_template)))
