-- ===== src/Prelude/Counting.antt =====
-- How often a text stands in a list. Two lists with the same counts are permutations.
use mathlib.Core.List.{Permᴰ}
use mathlib.Core.List.Permᴰ
use opsforge.Prelude.{
  ℕ, suc, ◌+◌, ◌≤◌, ◌≡◌, refl, subst, sym, ◌∙◌, ap, true, false, List, [], ◌∷◌, ◌++◌, arith, Text,
  ◌==◌, eq_iff, eq_refl, contains, Bool-cases, inl, inr, if◌then◌else◌,
}

unfoldable pub count : Text → List Text → ℕ
count n [] = 0
count n (x ∷ xs) = if x == n then suc (count n xs) else count n xs

pub count-append : (n : Text) (xs ys : List Text) → count n (xs ++ ys) ≡ count n xs + count n ys
unfolding count
count-append n [] ys = omega arith
count-append n (x ∷ xs) ys = ground (arith, count-append n xs ys)

pub contains_of_count : (n : Text) (xs : List Text) → 1 ≤ count n xs → contains xs n ≡ true
unfolding count contains
contains_of_count n [] h = absurd (omega arith)
contains_of_count n (x ∷ xs) h = ground (arith, contains_of_count n xs)

pub count_of_contains : (n : Text) (xs : List Text) → contains xs n ≡ true → 1 ≤ count n xs
unfolding count contains
count_of_contains n [] h = cc
count_of_contains n (x ∷ xs) h = ground (arith, count_of_contains n xs)

pub count_of_absent : (n : Text) (xs : List Text) → contains xs n ≡ false → count n xs ≡ 0
unfolding count contains
count_of_absent n [] h = refl
count_of_absent n (x ∷ xs) h = ground (arith, count_of_absent n xs)

pub absent_of_count : (n : Text) (xs : List Text) → count n xs ≡ 0 → contains xs n ≡ false
unfolding count contains
absent_of_count n [] h = refl
absent_of_count n (x ∷ xs) h = ground (arith, absent_of_count n xs)

-- No text stands twice in the list.
abbrev pub Distinct : List Text → Type 0
Distinct [] = Unit
Distinct (n ∷ ns) = (contains ns n ≡ false) × Distinct ns

pub count_of_Distinct : (xs : List Text) → Distinct xs → (n : Text) → count n xs ≤ 1
unfolding count
count_of_Distinct [] h n = omega arith
count_of_Distinct (x ∷ xs) h n =
    ground (arith, count_of_Distinct xs h.1 n, count_of_absent x xs h.0, eq_iff x n)

split_at :
    (n : Text) (xs : List Text)
    → contains xs n ≡ true
    → (before : List Text) × (after : List Text) × (xs ≡ before ++ n ∷ after)
unfolding contains
split_at n [] h = cc
split_at n (x ∷ xs) h = elim (Bool-cases (x == n)) [
  | inl same ↦ ([], xs, ap (λ y. y ∷ xs) ((eq_iff x n).0 same))
  | inr other ↦
      let (before, after, e) = split_at n xs (rw other at h) in
      (x ∷ before, after, ap (λ l. x ∷ l) e)
]

empty_of_counts : (xs : List Text) → ((n : Text) → count n xs ≡ 0) → xs ≡ []
unfolding count
empty_of_counts [] h = refl
empty_of_counts (x ∷ xs) h = ground (arith, h x, eq_refl x)

counts_without :
    (n x : Text) (xs before after : List Text)
    → count n (x ∷ xs) ≡ count n (before ++ x ∷ after)
    → count n xs ≡ count n (before ++ after)
unfolding count
counts_without n x xs before after h =
    ground (arith, count-append n before (x ∷ after), count-append n before after)

pub Permᴰ_of_counts : (xs ys : List Text) → ((n : Text) → count n xs ≡ count n ys) → Permᴰ xs ys
unfolding count
Permᴰ_of_counts [] ys h = subst (Permᴰ []) (sym (empty_of_counts ys (λ n. sym (h n)))) Permᴰ.nil
Permᴰ_of_counts (x ∷ xs) ys h =
    let found : contains ys x ≡ true = contains_of_count x ys (ground (arith, h x, eq_refl x)) in
    let (before, after, e) = split_at x ys found in
    let rest =
      Permᴰ_of_counts xs (before ++ after)
        (λ n. counts_without n x xs before after (h n ∙ ap (count n) e)) in
    subst (Permᴰ (x ∷ xs)) (sym e)
      (Permᴰ.trans (Permᴰ.cons refl rest) (Permᴰ.symm (Permᴰ.middle x before after)))
