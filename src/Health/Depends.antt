-- ===== src/Health/Depends.antt =====
-- `_validate_dependencies` of healthctl.py: the depth-first search that rejects unknown, self and
-- cyclic dependencies. `visit` recurs on fuel, one more than there are checks.
pub mod Walks
pub mod Enough
pub mod Entries
pub mod Rank
pub mod Accepted
pub mod Acyclic
use opsforge.Prelude.{
  ℕ, zero, suc, Bool, true, false, ◌||◌, not, Option, none, some, List, [], ◌∷◌, Text, ◌==◌,
  contains, length, if◌then◌else◌,
}
use opsforge.Health.Types.{HealthCheck, names}

-- The sets that `visit` mutates. Nothing is added to either twice.
pub record Marks : Type 0 where
  pub visiting : List Text
  pub visited : List Text

-- `missing_key` is the KeyError of `dependency_map[check_name]`.
pub data Walk : Type 0 where
  walked : Marks → Walk
  cycle missing_key out_of_fuel : Walk

infixl 10 ◌>>=◌
abbrev ◌>>=◌ : Walk → (Marks → Walk) → Walk
walked m >>= f = f m
cycle >>= f = cycle
missing_key >>= f = missing_key
out_of_fuel >>= f = out_of_fuel

-- `set.remove`
pub discard : Text → List Text → List Text
discard n [] = []
discard n (x ∷ xs) = if x == n then xs else x ∷ discard n xs

abbrev enter : Text → Marks → Marks
enter n m = record m { visiting = n ∷ m.visiting }

abbrev leave : Text → Marks → Marks
leave n m = record { visiting = discard n m.visiting; visited = n ∷ m.visited }

pub visit_each : (Text → Marks → Walk) → List Text → Marks → Walk
visit_each visit [] m = walked m
visit_each visit (n ∷ ns) m = visit n m >>= visit_each visit ns

-- The first dependency that is not a name, or is the check's own name.
bad_dependency : List Text → Text → List Text → Option Text
bad_dependency known own [] = none
bad_dependency known own (d ∷ deps) =
    if not (contains known d) || d == own then some d else bad_dependency known own deps

pub data DependencyError : Type 0 where
  invalid_dependency : (check dependency : Text) → DependencyError
  dependency_cycle : DependencyError
  -- not an error of the program: `validate_dependencies` gives neither
  no_such_key no_fuel : DependencyError

abbrev walk_error : Walk → Option DependencyError
walk_error (walked m) = none
walk_error cycle = some dependency_cycle
walk_error missing_key = some no_such_key
walk_error out_of_fuel = some no_fuel

module _ {F : Type 0} where
  -- `dependency_map.get(name)`: of two checks with one name the later one counts.
  pub dependencies : List (HealthCheck F) → Text → Option (List Text)
  dependencies [] n = none
  dependencies (c ∷ checks) n = elim (dependencies checks n) [
    | some deps ↦ some deps
    | none ↦ if c.name == n then some c.depends_on else none
  ]

  module _ (checks : List (HealthCheck F)) where
    abbrev visit_dependencies : (Text → Marks → Walk) → Option (List Text) → Marks → Walk
    visit_dependencies visit none m = missing_key
    visit_dependencies visit (some deps) m = visit_each visit deps m

    pub visit : ℕ → Text → Marks → Walk
    visit zero n m = out_of_fuel
    visit (suc fuel) n m =
        let rest = visit_dependencies (visit fuel) (dependencies checks n) (enter n m) >>= λ m'.
        walked (leave n m') in
        if contains m.visiting n then cycle else if contains m.visited n then walked m else rest

  pub invalid_dependencies : List Text → List (HealthCheck F) → Option DependencyError
  invalid_dependencies known [] = none
  invalid_dependencies known (c ∷ checks) = elim (bad_dependency known c.name c.depends_on) [
    | some d ↦ some (invalid_dependency c.name d)
    | none ↦ invalid_dependencies known checks
  ]

  pub walk_all : List (HealthCheck F) → Walk
  walk_all checks =
      visit_each (visit checks (suc (length checks))) (names checks)
        (record { visiting = []; visited = [] })

  -- `none` when nothing is raised.
  unfoldable pub validate_dependencies : List (HealthCheck F) → Option DependencyError
  unfolding invalid_dependencies bad_dependency walk_all visit visit_each dependencies discard
  validate_dependencies checks = elim (invalid_dependencies (names checks) checks) [
    | some error ↦ some error
    | none ↦ walk_error (walk_all checks)
  ]
