-- ===== src/Svc/Limits/Order.antt =====
-- The order of the fractions of svcdoctor.py, and the first of the smallest items.
use native.Mathlib.Nat.{
  mul-lt-mul_of_pos_right, mul-le-mul_right, lt_of_mul-lt-mul_right, mul_right_comm,
}
use opsforge.Prelude.{
  ℕ, zero, suc, ◌*◌, ◌^◌, ◌≤◌, ◌<◌, ◌≡◌, refl, ap, ◌∙◌, ◌⊎◌, Bool, true, false, List, [], ◌∷◌,
  arith, All, inl, inr, if◌then◌else◌,
}
use opsforge.Svc.{Properties}
use opsforge.Svc.Limits.{Fraction, less, min_from}

power_pos : (n : ℕ) → 0 < 10 ^ n
power_pos zero = omega arith
power_pos (suc n) = omega (arith, power_pos n)

-- In products: a below b and c not below b puts a below c.
cross : (a p b q c r : ℕ) → 0 < q → 0 < r → a * q < b * p → b * r ≤ c * q → a * r < c * p
cross a p b q c r hq hr h k =
    let low : a * q * r < b * p * r = mul-lt-mul_of_pos_right h hr in
    let high : b * r * p ≤ c * q * p = mul-le-mul_right p k in
    lt_of_mul-lt-mul_right q
      (omega (arith, low, high, mul_right_comm a q r, mul_right_comm b p r, mul_right_comm c q p))

less_trans : (f g h : Fraction) → less f g ≡ true → less h g ≡ false → less f h ≡ true
unfolding less
less_trans f g h a b =
    let c =
      cross f.numerator (10 ^ f.places) g.numerator (10 ^ g.places) h.numerator (10 ^ h.places)
        (power_pos g.places) (power_pos h.places) (ground arith) (ground arith) in
    ground arith

less_asym : (f g : Fraction) → less f g ≡ true → less g f ≡ false
unfolding less
less_asym f g h = ground arith

-- The item, which stands first among the smallest ones.
abbrev pub Picks : Fraction × Properties → List (Fraction × Properties) → Type 0
Picks r [] = ⊥
Picks r (x ∷ xs) =
    ((r ≡ x) × All (λ y. less (y.0) (r.0) ≡ false) xs) ⊎ ((less (r.0) (x.0) ≡ true) × Picks r xs)

Picks-less :
    (r x y : Fraction × Properties) (xs : List (Fraction × Properties))
    → Picks r (x ∷ xs)
    → less (x.0) (y.0) ≡ true
    → less (r.0) (y.0) ≡ true
Picks-less r x y xs (inl (e, _)) h = ap (λ z. less (z.0) (y.0)) e ∙ h
Picks-less r x y xs (inr (l, _)) h = less_trans (r.0) (x.0) (y.0) l (less_asym (x.0) (y.0) h)

-- One item more, which is taken where it is smaller.
Picks-step :
    (best item : Fraction × Properties) (items : List (Fraction × Properties)) (smaller : Bool)
    → less (item.0) (best.0) ≡ smaller
    → Picks (min_from item items) (item ∷ items)
    → Picks (min_from best items) (best ∷ items)
    → Picks (min_from (if smaller then item else best) items) (best ∷ item ∷ items)
Picks-step best item items true h p q =
    inr (Picks-less (min_from item items) item best items p h, p)
Picks-step best item items false h p (inl (e, above)) =
    inl (e, (ap (λ z. less (item.0) (z.0)) e ∙ h, above))
Picks-step best item items false h p (inr (l, rest)) =
    inr (l, inr (less_trans (min_from best items).0 (best.0) (item.0) l h, rest))

pub min_from-Picks :
    (best : Fraction × Properties) (items : List (Fraction × Properties))
    → Picks (min_from best items) (best ∷ items)
unfolding min_from
min_from-Picks best [] = inl (refl, tt)
min_from-Picks best (item ∷ items) =
    Picks-step best item items (less (item.0) (best.0)) refl (min_from-Picks item items)
      (min_from-Picks best items)
