-- ===== src/Drift/Contents/Canonical.antt =====
-- The canonical form of JSON objects in configdiff.py against the objects as dictionaries.
use opsforge.Prelude.{
  ◌≡◌, refl, ap, sym, ◌∙◌, ◌↔◌, true, false, Option, none, some, arith, Text, ◌==◌, eq_iff, eq_refl,
  contains, false≢true, Bool-cases, inl, inr, if◌then◌else◌, subst,
}
use opsforge.Prelude.Ordered.{before, before_irreflexive, before_trans, before_total}
use opsforge.Prelude.Counting.{Distinct}
use opsforge.Health.Json.{Json, object, Fields, end, field, get, keys}
use opsforge.Drift.Contents.{insert_field, canonical_json, canonical_fields}

module _ {F : Type 0} where
  get-insert_field :
      (n k : Text) (j : Json F) (fields : Fields F)
      → get n (insert_field k j fields) ≡ (if k == n then some j else get n fields)
  unfolding get insert_field
  get-insert_field n k j end = refl
  get-insert_field n k j (field m i fields) =
      ground (arith, get-insert_field n k j fields, eq_iff k n, eq_iff m n, before_irreflexive k)

  abbrev pub in_canonical_form : Option (Json F) → Option (Json F)
  in_canonical_form none = none
  in_canonical_form (some j) = some (canonical_json j)

  pub get-canonical_fields :
      (n : Text) (fields : Fields F)
      → get n (canonical_fields fields) ≡ in_canonical_form (get n fields)
  unfolding get canonical_fields
  get-canonical_fields n end = refl
  get-canonical_fields n (field k j fields) = ground (
    arith,
    get-insert_field n k (canonical_json j) (canonical_fields fields),
    get-canonical_fields n fields,
  )

  -- Every name of the fields comes behind the given one.
  abbrev After : Text → Fields F → Type 0
  After k end = Unit
  After k (field n j fields) = (before k n ≡ true) × After k fields

  abbrev IsSorted : Fields F → Type 0
  IsSorted end = Unit
  IsSorted (field k j fields) = After k fields × IsSorted fields

  After-trans :
      (k n : Text) (fields : Fields F) → before k n ≡ true → After n fields → After k fields
  After-trans k n end h hs = tt
  After-trans k n (field m j fields) h hs =
      (before_trans k n m h hs.0, After-trans k n fields h hs.1)

  After-insert_field :
      (k n : Text) (j : Json F) (fields : Fields F)
      → before k n ≡ true
      → After k fields
      → After k (insert_field n j fields)
  unfolding insert_field
  After-insert_field k n j end h hs = (h, tt)
  After-insert_field k n j (field m i fields) h hs = elim (Bool-cases (before m n)) [
    | inl first ↦ rw first (hs.0, After-insert_field k n j fields h hs.1)
    | inr later ↦ rw later (h, hs)
  ]

  insert_field-IsSorted :
      (n : Text) (j : Json F) (fields : Fields F)
      → get n fields ≡ none
      → IsSorted fields
      → IsSorted (insert_field n j fields)
  unfolding insert_field get
  insert_field-IsSorted n j end h s = (tt, tt)
  insert_field-IsSorted n j (field m i fields) h s =
      let other : (m == n) ≡ false = ground arith in
      let absent : get n fields ≡ none = ground arith in
      elim (Bool-cases (before m n)) [
        | inl first ↦
            rw first (
              After-insert_field m n j fields first s.0,
              insert_field-IsSorted n j fields absent s.1,
            )
        | inr later ↦
            let turned = before_total m n later other in
            rw later ((turned, After-trans n m fields turned s.0), s)
      ]

  get_of_absent :
      (n : Text) (fields : Fields F) → contains (keys fields) n ≡ false → get n fields ≡ none
  unfolding get keys contains
  get_of_absent n end h = refl
  get_of_absent n (field k j fields) h = ground (arith, get_of_absent n fields)

  canonical_fields-IsSorted :
      (fields : Fields F) → Distinct (keys fields) → IsSorted (canonical_fields fields)
  unfolding canonical_fields keys
  canonical_fields-IsSorted end d = tt
  canonical_fields-IsSorted (field k j fields) d =
      let absent : get k (canonical_fields fields) ≡ none =
        get-canonical_fields k fields ∙ ap in_canonical_form (get_of_absent k fields d.0) in
      insert_field-IsSorted k (canonical_json j) (canonical_fields fields) absent
        (canonical_fields-IsSorted fields d.1)

  get_of_After :
      (k n : Text) (fields : Fields F) → After k fields → (k == n) ≡ true → get n fields ≡ none
  unfolding get
  get_of_After k n end h e = refl
  get_of_After k n (field m j fields) h e =
      ground (arith, get_of_After k n fields, eq_iff k n, eq_iff m n, before_irreflexive k)

  some_first :
      (k n : Text) (j : Json F) (f : Fields F) → get k f ≡ some j → After n f → before n k ≡ true
  unfolding get
  some_first k n j end e h = cc
  some_first k n j (field m i f) e h = elim (Bool-cases (m == k)) [
    | inl same ↦ subst (λ x. before n x ≡ true) ((eq_iff m k).0 same) h.0
    | inr other ↦ some_first k n j f (rw other at e) h.1
  ]

  -- Sorted fields are determined by what they give for each name.
  eq_of_IsSorted :
      (f g : Fields F) → IsSorted f → IsSorted g → ((n : Text) → get n f ≡ get n g) → f ≡ g
  unfolding get
  eq_of_IsSorted end end sf sg e = refl
  eq_of_IsSorted end (field m i g) sf sg e = ground (arith, e m, eq_refl m)
  eq_of_IsSorted (field k j f) end sf sg e = ground (arith, e k, eq_refl k)
  eq_of_IsSorted (field k j f) (field m i g) sf sg e = elim (Bool-cases (k == m)) [
    | inl same ↦
        let name : k ≡ m = (eq_iff k m).0 same in
        let head : j ≡ i = ground (arith, e k, eq_refl k, eq_iff m k) in
        let rest : f ≡ g = eq_of_IsSorted f g sf.1 sg.1 λ n.
          ground (
            arith,
            e n,
            get_of_After k n f sf.0,
            get_of_After m n g sg.0,
            eq_iff k n,
            eq_iff m n,
          ) in
        cc
    | inr other ↦
        let here : get m f ≡ some i = ground (arith, e m, eq_refl m, eq_iff k m) in
        let there : get k g ≡ some j = ground (arith, e k, eq_refl k, eq_iff m k, eq_iff k m) in
        let one = some_first m k i f here sf.0 in
        let two = some_first k m j g there sg.0 in
        absurd (false≢true (sym (before_irreflexive k) ∙ before_trans k m k one two))
  ]

  fields_of : Json F → Fields F
  fields_of (object f) = f
  fields_of _ = end

  -- Two objects with distinct keys have the same canonical form exactly when they are the same
  -- dictionaries up to canonical values: each name has values of the same canonical form in both, or
  -- a value in neither. The order in which the fields come makes no difference.
  pub canonical_json_iff :
      (f g : Fields F)
      → Distinct (keys f)
      → Distinct (keys g)
      → (canonical_json (object f) ≡ canonical_json (object g))
        ↔ ((n : Text) → in_canonical_form (get n f) ≡ in_canonical_form (get n g))
  unfolding canonical_json fields_of
  canonical_json_iff f g df dg = (
    λ e n.
        sym (get-canonical_fields n f) ∙ ap (λ j. get n (fields_of j)) e ∙ get-canonical_fields n g,
    λ e. ap object (
        eq_of_IsSorted (canonical_fields f) (canonical_fields g) (canonical_fields-IsSorted f df)
          (canonical_fields-IsSorted g dg)
          (λ n. get-canonical_fields n f ∙ e n ∙ sym (get-canonical_fields n g))),
  )
