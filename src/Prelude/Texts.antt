-- ===== src/Prelude/Texts.antt =====
-- Python's `str` and `bytes` are the list of their code points or bytes: a `str` may hold lone
-- surrogates, which the native texts do not have. Literals are native texts, read by `lit`.
use Prim.Native.Nat.{ℕ, zero, suc, ◌+◌, ◌/◌, ◌%◌}
use Prim.Native.Char.{code}
use Prim.Native.String.{String}
use mathlib.Core.Path.{◌≡◌, refl, subst}
use mathlib.Core.Logic.{◌↔◌, inl, inr}
use mathlib.Core.Bool.{Bool, true, false, ◌&&◌, ◌||◌}
use mathlib.Core.List.{List, [], ◌∷◌, ◌++◌}
use native.Mathlib.Omega.{arith}
use opsforge.Prelude.Lists.{All}
use opsforge.Prelude.Tests.{ltb, eqb, Bool-cases, if◌then◌else◌}

abbrev pub Text : Type 0
Text = List ℕ

abbrev pub lit : String → Text
lit String.[] = []
lit (String.◌∷◌ c s) = code c ∷ lit s

infix 50 ◌==◌
unfoldable pub ◌==◌ : Text → Text → Bool
[] == [] = true
[] == (y ∷ ys) = false
(x ∷ xs) == [] = false
(x ∷ xs) == (y ∷ ys) = eqb x y && xs == ys

pub eq_iff : (s t : Text) → ((s == t) ≡ true) ↔ (s ≡ t)
unfolding ◌==◌
eq_iff [] [] = ground arith
eq_iff [] (y ∷ ys) = ground arith
eq_iff (x ∷ xs) [] = ground arith
eq_iff (x ∷ xs) (y ∷ ys) = ground (arith, eq_iff xs ys)

pub eq_refl : (s : Text) → (s == s) ≡ true
eq_refl s = (eq_iff s s).1 refl

-- `key in names`
unfoldable pub contains : List Text → Text → Bool
contains [] k = false
contains (n ∷ names) k = n == k || contains names k

pub All-of_contains {κ} :
    {P : Text → Type κ} (xs : List Text) → ((n : Text) → contains xs n ≡ true → P n) → All P xs
unfolding contains
All-of_contains [] f = tt
All-of_contains (x ∷ xs) f = (f x (rw (eq_refl x)), All-of_contains xs (λ n h. f n (ground arith)))

pub contains-All {κ} :
    (P : Text → Type κ) (xs : List Text) (n : Text) → contains xs n ≡ true → All P xs → P n
unfolding contains
contains-All P [] n h all = cc
contains-All P (x ∷ xs) n h all = elim (Bool-cases (x == n)) [
  | inl same ↦ subst P ((eq_iff x n).0 same) all.0
  | inr other ↦ contains-All P xs n (rw other at h) all.1
]

-- `text.startswith(prefix)`
unfoldable pub starts_with : Text → Text → Bool
starts_with s [] = true
starts_with [] (p ∷ ps) = false
starts_with (c ∷ s) (p ∷ ps) = eqb c p && starts_with s ps

-- `separator.join(parts)`
unfoldable pub join : Text → List Text → Text
join separator [] = []
join separator (p ∷ []) = p
join separator (p ∷ q ∷ parts) = p ++ (separator ++ join separator (q ∷ parts))

-- `str(n)` of a natural number. A number has at most as many digits as its value and one more.
unfoldable pub decimal_digits : ℕ → ℕ → Text
decimal_digits zero n = []
decimal_digits (suc fuel) n =
    let rest = decimal_digits fuel (n / 10) in
    if ltb n 10 then (48 + n) ∷ [] else rest ++ (48 + n % 10) ∷ []

unfoldable pub decimal : ℕ → Text
unfolding decimal_digits
decimal n = decimal_digits (suc n) n

-- `text.split(separator)` at one character: the pieces behind a first one that has begun.
unfoldable pub split_on_from : ℕ → Text → Text → List Text
split_on_from separator piece [] = piece ∷ []
split_on_from separator piece (c ∷ text) =
    let rest = split_on_from separator (if eqb c separator then [] else piece ++ c ∷ []) text in
    if eqb c separator then piece ∷ rest else rest

unfoldable pub split_on : ℕ → Text → List Text
unfolding split_on_from
split_on separator text = split_on_from separator [] text
