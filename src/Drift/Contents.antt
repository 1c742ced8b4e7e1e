-- ===== src/Drift/Contents.antt =====
-- What `compare_files_mode` of configdiff.py compares of a content: the bytes without white space,
-- the lines that are no comments, or the JSON value in a canonical form. A JSON value's tagged form
-- is the value itself, since its constructors are the tags; the fields of an object are sorted.
pub mod Space
pub mod Lines
pub mod Canonical
use opsforge.Prelude.{
  ℕ, suc, Bool, true, false, ◌&&◌, ◌||◌, not, Option, none, some, List, [], ◌∷◌, ◌++◌, Text, lit,
  ◌==◌, starts_with, join, eqb, between, keep, if◌then◌else◌,
}
use opsforge.Prelude.Bytes.{is_space_byte, words_from, lstrip, rstrip}
use opsforge.Prelude.Ordered.{before}
use opsforge.Fs.{ℤ}
use opsforge.Health.Json.{
  Json, null, boolean, natural, below_zero, real, string, array, object, Items, nil, cons, Fields,
  end, field, get,
}

-- `b"".join(data.split())`
unfoldable pub without_space : Text → Text
unfolding words_from
without_space text = join [] (words_from [] text)

-- The state of `bytes.splitlines`: whether a line feed belongs to the carriage return before it,
-- and the line that has begun.
abbrev emit : Bool → Text → List Text → List Text
emit true line lines = line ∷ lines
emit false line lines = lines

abbrev last_line : Text → List Text
last_line [] = []
last_line (c ∷ line) = (c ∷ line) ∷ []

unfoldable pub lines_from : (after_return : Bool) → Text → Text → List Text
lines_from after_return line [] = last_line line
lines_from after_return line (c ∷ text) =
    let joined = after_return && eqb c 10 in
    let ends = (eqb c 10 || eqb c 13) && not joined in
    emit ends line (lines_from (eqb c 13) (if ends || joined then [] else line ++ c ∷ []) text)

unfoldable pub splitlines : Text → List Text
unfolding lines_from
splitlines text = lines_from false [] text

-- `DIRECTIVE_COMMENT.match(stripped)`
unfoldable pub is_directive : Text → Bool
is_directive (h ∷ c ∷ text) =
    eqb h 35 && (between 48 57 c || starts_with (c ∷ text) (lit "include"))
is_directive _ = false

-- The test of `meaningful`.
unfoldable pub is_meaningful : Text → Bool
unfolding lstrip rstrip is_directive
is_meaningful line =
    let stripped = rstrip (lstrip line) in
    not (stripped == [])
    && (not (starts_with stripped (lit "#") || starts_with stripped (lit ";"))
        || is_directive stripped)

unfoldable pub meaningful : Text → List Text
unfolding splitlines is_meaningful
meaningful text = keep is_meaningful (splitlines text)

module _ {F : Type 0} where
  unfoldable pub insert_field : Text → Json F → Fields F → Fields F
  insert_field k j end = field k j end
  insert_field k j (field n i fields) =
      if before n k then field n i (insert_field k j fields) else field k j (field n i fields)

  -- `canonical_json`
  unfoldable mutual
    unfolding insert_field

    pub canonical_json : Json F → Json F
    canonical_json (array items) = array (canonical_items items)
    canonical_json (object fields) = object (canonical_fields fields)
    canonical_json null = null
    canonical_json (boolean b) = boolean b
    canonical_json (natural n) = natural n
    canonical_json (below_zero n) = below_zero n
    canonical_json (real x) = real x
    canonical_json (string s) = string s

    pub canonical_items : Items F → Items F
    canonical_items nil = nil
    canonical_items (cons j items) = cons (canonical_json j) (canonical_items items)

    pub canonical_fields : Fields F → Fields F
    canonical_fields end = end
    canonical_fields (field k j fields) =
        insert_field k (canonical_json j) (canonical_fields fields)

  -- The walk along one dotted key; `MISSING` is `none`.
  unfoldable pub select : List Text → Option (Json F) → Option (Json F)
  select [] current = current
  select (c ∷ components) (some (object fields)) = select components (get c fields)
  select (c ∷ components) _ = none
