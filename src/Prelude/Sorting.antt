-- ===== src/Prelude/Sorting.antt =====
-- Python's `sorted(values, key=...)`: a stable insertion sort stands for it.
use mathlib.Core.List.{Permᴰ}
use opsforge.Prelude.{
  ℕ, ◌<◌, ◌≡◌, refl, ◌∙◌, ap, sym, subst, ◌≢◌, List, [], ◌∷◌, arith, leb, All, if◌then◌else◌,
}

module _ {ℓ} {A : Type ℓ} (key : A → ℕ) where
  unfoldable pub insert : A → List A → List A
  insert a [] = a ∷ []
  insert a (b ∷ l) = if leb (key a) (key b) then a ∷ b ∷ l else b ∷ insert a l

  unfoldable pub sorted : List A → List A
  unfolding insert
  sorted [] = []
  sorted (a ∷ l) = insert a (sorted l)

  abbrev pub Ascending : List A → Type 0
  Ascending [] = Unit
  Ascending (a ∷ l) = All (λ b. key a < key b) l × Ascending l

  abbrev pub DistinctKeys : List A → Type 0
  DistinctKeys [] = Unit
  DistinctKeys (a ∷ l) = All (λ b. key a ≢ key b) l × DistinctKeys l

  insert_comm :
      (a b : A) (l : List A) → key a ≢ key b → insert a (insert b l) ≡ insert b (insert a l)
  unfolding insert
  insert_comm a b [] h = ground arith
  insert_comm a b (c ∷ l) h = ground (arith, insert_comm a b l h)

  insert-Ascending : (a : A) (l : List A) → All (λ b. key a < key b) l → insert a l ≡ a ∷ l
  unfolding insert
  insert-Ascending a [] h = refl
  insert-Ascending a (b ∷ l) h = ground arith

  -- A list in ascending order of its keys is left alone.
  pub sorted-Ascending : (l : List A) → Ascending l → sorted l ≡ l
  unfolding sorted
  sorted-Ascending [] h = refl
  sorted-Ascending (a ∷ l) h = ap (insert a) (sorted-Ascending l h.1) ∙ insert-Ascending a l h.0

  All-Permᴰ : (P : A → Type 0) {xs ys : List A} → Permᴰ xs ys → All P xs → All P ys
  All-Permᴰ P Permᴰ.nil h = tt
  All-Permᴰ P (Permᴰ.cons e p) h = (subst P e h.0, All-Permᴰ P p h.1)
  All-Permᴰ P (Permᴰ.swap e f) h = (subst P f h.1.0, (subst P e h.0, h.1.1))
  All-Permᴰ P (Permᴰ.trans p q) h = All-Permᴰ P q (All-Permᴰ P p h)

  DistinctKeys-Permᴰ : {xs ys : List A} → Permᴰ xs ys → DistinctKeys xs → DistinctKeys ys
  DistinctKeys-Permᴰ Permᴰ.nil h = tt
  DistinctKeys-Permᴰ (Permᴰ.cons {l₂ = ys} e p) h = (
    subst (λ c. All (λ b. key c ≢ key b) ys) e (All-Permᴰ (λ b. key _ ≢ key b) p h.0),
    DistinctKeys-Permᴰ p h.1,
  )
  DistinctKeys-Permᴰ (Permᴰ.swap {l} e f) h = (
    (
      λ same. h.0.0 (ap key e ∙ sym same ∙ ap key (sym f)),
      subst (λ c. All (λ b. key c ≢ key b) l) f h.1.0,
    ),
    (subst (λ c. All (λ b. key c ≢ key b) l) e h.0.1, h.1.1),
  )
  DistinctKeys-Permᴰ (Permᴰ.trans p q) h = DistinctKeys-Permᴰ q (DistinctKeys-Permᴰ p h)

  -- With distinct keys the order in which the values come makes no difference.
  sorted-Permᴰ : {xs ys : List A} → Permᴰ xs ys → DistinctKeys xs → sorted xs ≡ sorted ys
  unfolding sorted
  sorted-Permᴰ Permᴰ.nil h = refl
  sorted-Permᴰ (Permᴰ.cons {b} e p) h = cc (sorted-Permᴰ p h.1)
  sorted-Permᴰ (Permᴰ.swap {a} {b} {l} e f) h = cc (insert_comm a b (sorted l) h.0.0)
  sorted-Permᴰ (Permᴰ.trans p q) h = sorted-Permᴰ p h ∙ sorted-Permᴰ q (DistinctKeys-Permᴰ p h)

  All-ne_of_lt : (a : A) (l : List A) → All (λ b. key a < key b) l → All (λ b. key a ≢ key b) l
  All-ne_of_lt a [] h = tt
  All-ne_of_lt a (b ∷ l) h = (omega arith, All-ne_of_lt a l h.1)

  DistinctKeys-of_Ascending : (l : List A) → Ascending l → DistinctKeys l
  DistinctKeys-of_Ascending [] h = tt
  DistinctKeys-of_Ascending (a ∷ l) h = (All-ne_of_lt a l h.0, DistinctKeys-of_Ascending l h.1)

  -- Sorting any arrangement of an ascending list gives that list.
  pub sorted-eq_of_Permᴰ : {xs ys : List A} → Permᴰ ys xs → Ascending ys → sorted xs ≡ ys
  sorted-eq_of_Permᴰ {ys} p h =
      sym (sorted-Permᴰ p (DistinctKeys-of_Ascending ys h)) ∙ sorted-Ascending ys h
