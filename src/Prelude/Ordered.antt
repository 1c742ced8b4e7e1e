-- ===== src/Prelude/Ordered.antt =====
-- Texts in the order of their code points, and `sorted` of a set of texts.
use opsforge.Prelude.{
  length, ap, suc, ◌≡◌, refl, Bool, true, false, ◌&&◌, ◌||◌, List, [], ◌∷◌, arith, Text, ◌==◌,
  eq_iff, contains, eq_refl, contains-All, ltb, eqb, All, All-map, sym, ◌∙◌, false≢true, Bool-cases,
  inl, inr, if◌then◌else◌,
}

-- `s < t`
unfoldable pub before : Text → Text → Bool
before s [] = false
before [] (c ∷ t) = true
before (c ∷ s) (d ∷ t) = ltb c d || (eqb c d && before s t)

pub before_irreflexive : (s : Text) → before s s ≡ false
unfolding before
before_irreflexive [] = refl
before_irreflexive (c ∷ s) = ground (arith, before_irreflexive s)

pub before_trans : (s t u : Text) → before s t ≡ true → before t u ≡ true → before s u ≡ true
unfolding before
before_trans s t [] h k = cc
before_trans s [] (c ∷ u) h k = cc
before_trans [] (d ∷ t) (c ∷ u) h k = refl
before_trans (e ∷ s) (d ∷ t) (c ∷ u) h k = ground (arith, before_trans s t u)

pub before_total : (s t : Text) → before s t ≡ false → (s == t) ≡ false → before t s ≡ true
unfolding before ◌==◌
before_total [] [] h k = cc
before_total [] (c ∷ t) h k = cc
before_total (c ∷ s) [] h k = refl
before_total (c ∷ s) (d ∷ t) h k = ground (arith, before_total s t)

-- A name goes to its place among names in order; one that is there is not put in again.
unfoldable pub insert_name : Text → List Text → List Text
insert_name n [] = n ∷ []
insert_name n (m ∷ names) =
    let rest = insert_name n names in
    if n == m then m ∷ names else if before n m then n ∷ m ∷ names else m ∷ rest

-- `sorted(set(names))`
unfoldable pub sorted_names : List Text → List Text
sorted_names [] = []
sorted_names (n ∷ names) = insert_name n (sorted_names names)

contains-insert_name :
    (k n : Text) (names : List Text)
    → contains (insert_name n names) k ≡ (n == k || contains names k)
unfolding insert_name contains
contains-insert_name k n [] = refl
contains-insert_name k n (m ∷ names) =
    ground (arith, contains-insert_name k n names, eq_iff n m, eq_iff n k, eq_iff m k)

-- Sorting keeps the names.
pub contains-sorted_names :
    (k : Text) (names : List Text) → contains (sorted_names names) k ≡ contains names k
unfolding sorted_names contains
contains-sorted_names k [] = refl
contains-sorted_names k (n ∷ names) =
    ground (arith, contains-insert_name k n (sorted_names names), contains-sorted_names k names)

-- In order, each name once.
abbrev pub IsOrdered : List Text → Type 0
IsOrdered [] = Unit
IsOrdered (n ∷ names) = All (λ m. before n m ≡ true) names × IsOrdered names

All-insert_name :
    (P : Text → Type 0) (n : Text) (names : List Text)
    → P n
    → All P names
    → All P (insert_name n names)
unfolding insert_name
All-insert_name P n [] h hs = (h, tt)
All-insert_name P n (m ∷ names) h hs = elim (Bool-cases (n == m)) [
  | inl same ↦ rw same hs
  | inr other ↦ elim (Bool-cases (before n m)) [
    | inl first ↦ rw (other, first) (h, hs)
    | inr later ↦ rw (other, later) (hs.0, All-insert_name P n names h hs.1)
  ]
]

insert_name-IsOrdered :
    (n : Text) (names : List Text) → IsOrdered names → IsOrdered (insert_name n names)
unfolding insert_name
insert_name-IsOrdered n [] h = (tt, tt)
insert_name-IsOrdered n (m ∷ names) h = elim (Bool-cases (n == m)) [
  | inl same ↦ rw same h
  | inr other ↦ elim (Bool-cases (before n m)) [
    | inl first ↦ rw (other, first) ((first, All-map names (λ k. before_trans n m k first) h.0), h)
    | inr later ↦
        let turned = before_total n m later other in
        rw (other, later)
          (
            All-insert_name (λ k. before m k ≡ true) n names turned h.0,
            insert_name-IsOrdered n names h.1,
          )
  ]
]

pub sorted_names-IsOrdered : (names : List Text) → IsOrdered (sorted_names names)
unfolding sorted_names
sorted_names-IsOrdered [] = tt
sorted_names-IsOrdered (n ∷ names) =
    insert_name-IsOrdered n (sorted_names names) (sorted_names-IsOrdered names)

absent_of_before :
    (n : Text) (names : List Text) → All (λ m. before n m ≡ true) names → contains names n ≡ false
absent_of_before n names h = elim (Bool-cases (contains names n)) [
  | inl there ↦
      let early = contains-All (λ m. before n m ≡ true) names n there h in
      absurd (false≢true (sym (before_irreflexive n) ∙ early))
  | inr gone ↦ gone
]

same_first :
    (m n : Text) (ms ns : List Text)
    → IsOrdered (m ∷ ms)
    → IsOrdered (n ∷ ns)
    → ((k : Text) → contains (m ∷ ms) k ≡ contains (n ∷ ns) k)
    → (m == n) ≡ true
unfolding contains
same_first m n ms ns h k e = elim (Bool-cases (m == n)) [
  | inl same ↦ same
  | inr other ↦
      let m_later : contains ns m ≡ true = ground (arith, e m, eq_refl m, eq_iff n m, eq_iff m n) in
      let n_later : contains ms n ≡ true = ground (arith, e n, eq_refl n, eq_iff n m, eq_iff m n) in
      let one = contains-All (λ x. before n x ≡ true) ns m m_later k.0 in
      let two = contains-All (λ x. before m x ≡ true) ms n n_later h.0 in
      absurd (false≢true (sym (before_irreflexive m) ∙ before_trans m n m two one))
]

-- Names in order are determined by which they are.
pub eq_of_IsOrdered :
    (ms ns : List Text)
    → IsOrdered ms
    → IsOrdered ns
    → ((k : Text) → contains ms k ≡ contains ns k)
    → ms ≡ ns
unfolding contains
eq_of_IsOrdered [] [] h k e = refl
eq_of_IsOrdered [] (n ∷ ns) h k e = ground (arith, e n, eq_refl n)
eq_of_IsOrdered (m ∷ ms) [] h k e = ground (arith, e m, eq_refl m)
eq_of_IsOrdered (m ∷ ms) (n ∷ ns) h k e =
    let first : m ≡ n = (eq_iff m n).0 (same_first m n ms ns h k e) in
    let rest : ms ≡ ns = eq_of_IsOrdered ms ns h.1 k.1 λ x.
      ground (
        arith,
        e x,
        eq_iff m x,
        eq_iff n x,
        absent_of_before m ms h.0,
        absent_of_before n ns k.0,
      ) in
    cc

-- Two sets with the same members are sorted alike.
pub sorted_names_ext :
    (ms ns : List Text)
    → ((k : Text) → contains ms k ≡ contains ns k)
    → sorted_names ms ≡ sorted_names ns
sorted_names_ext ms ns e =
    eq_of_IsOrdered _ _ (sorted_names-IsOrdered ms) (sorted_names-IsOrdered ns)
      λ k. contains-sorted_names k ms ∙ e k ∙ sym (contains-sorted_names k ns)

-- `sorted(values, key=name)`: values with one name keep their order.
module _ {ℓ} {A : Type ℓ} (name : A → Text) where
  unfoldable pub insert_by : A → List A → List A
  insert_by a [] = a ∷ []
  insert_by a (b ∷ values) =
      if before (name b) (name a) then b ∷ insert_by a values else a ∷ b ∷ values

  unfoldable pub sorted_by : List A → List A
  unfolding insert_by
  sorted_by [] = []
  sorted_by (a ∷ values) = insert_by a (sorted_by values)

  length-insert_by : (a : A) (values : List A) → length (insert_by a values) ≡ suc (length values)
  unfolding insert_by
  length-insert_by a [] = refl
  length-insert_by a (b ∷ values) = ground (arith, length-insert_by a values)

  pub length-sorted_by : (values : List A) → length (sorted_by values) ≡ length values
  unfolding sorted_by
  length-sorted_by [] = refl
  length-sorted_by (a ∷ values) =
      length-insert_by a (sorted_by values) ∙ ap suc (length-sorted_by values)

  All-insert_by {κ} :
      (P : A → Type κ) (a : A) (values : List A) → P a → All P values → All P (insert_by a values)
  unfolding insert_by
  All-insert_by P a [] h hs = (h, tt)
  All-insert_by P a (b ∷ values) h hs = elim (Bool-cases (before (name b) (name a))) [
    | inl first ↦ rw first (hs.0, All-insert_by P a values h hs.1)
    | inr later ↦ rw later (h, hs)
  ]

  pub All-sorted_by {κ} :
      (P : A → Type κ) (values : List A) → All P values → All P (sorted_by values)
  unfolding sorted_by
  All-sorted_by P [] h = tt
  All-sorted_by P (a ∷ values) h =
      All-insert_by P a (sorted_by values) h.0 (All-sorted_by P values h.1)
