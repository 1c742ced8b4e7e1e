-- ===== src/Health/Names.antt =====
-- The names of a list of checks.
use opsforge.Prelude.{◌≡◌, refl, ap, List, [], ◌∷◌, ◌++◌, Text, All}
use opsforge.Health.Types.{HealthCheck, names}

module _ {F : Type 0} where
  pub names-append : (xs ys : List (HealthCheck F)) → names (xs ++ ys) ≡ names xs ++ names ys
  names-append [] ys = refl
  names-append (x ∷ xs) ys = ap (λ l. x.name ∷ l) (names-append xs ys)

  -- A fact about every name is a fact about every check's name, and the other way round.
  pub All-names :
      (P : Text → Type 0) (checks : List (HealthCheck F))
      → All P (names checks)
      → All (λ c. P c.name) checks
  All-names P [] h = tt
  All-names P (c ∷ checks) h = (h.0, All-names P checks h.1)

  pub All-of_names :
      (P : Text → Type 0) (checks : List (HealthCheck F))
      → All (λ c. P c.name) checks
      → All P (names checks)
  All-of_names P [] h = tt
  All-of_names P (c ∷ checks) h = (h.0, All-of_names P checks h.1)
