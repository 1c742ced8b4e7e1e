-- ===== src/Svc.antt =====
-- SvcDoctor, opsforge/svcdoctor/svcdoctor.py: `parse_properties`, `validate_properties`,
-- `dependency_names`, `find_failed_dependencies`, `slice_ancestors` and `assess_service`. Python's
-- `str.isspace` of a character is an argument.
pub mod Properties
pub mod Slices
pub mod Assessed
pub mod Chain
pub mod Limits
mod Tests
use opsforge.Prelude.{
  ℕ, zero, suc, ◌-◌, Bool, true, false, ◌&&◌, ◌||◌, not, Option, none, some, List, [], ◌∷◌, ◌++◌,
  Text, lit, ◌==◌, contains, split_on, get_or, length, take, any, eqb, leb, ltb, if◌then◌else◌,
}
use opsforge.Prelude.Dict.{Dict, lookup, put, keys}
use opsforge.Status.{exit_ok, exit_finding, exit_failure}
use opsforge.Result.{Result, value, error, ◌>>=◌}
use opsforge.Units.{ends_with}
use opsforge.Prelude.Splitting.{partition, rpartition, words_from}

pub data SvcError : Type 0 where
  empty_response malformed inconsistent malformed_name malformed_slice : SvcError
  missing_properties : (names : List Text) → SvcError

abbrev pub Properties : Type 0
Properties = Dict Text

-- The properties read, and whether the record is over.
abbrev pub Reading : Type 0
Reading = Properties × Bool

abbrev pub is_empty : Properties → Bool
is_empty [] = true
is_empty (p ∷ properties) = false

unfoldable pub add_property :
    List Text → Option (Text × Text) → Properties → Result SvcError Reading
add_property allowed none properties = error malformed
add_property allowed (some (name, text)) properties =
    if not (contains allowed name) || contains (keys properties) name
    then error malformed
    else value (put name text properties, false)

-- One line.
unfoldable pub read_line : List Text → Text → Reading → Result SvcError Reading
unfolding add_property
read_line allowed [] (properties, ended) = value (properties, ended || not (is_empty properties))
read_line allowed (c ∷ line) (properties, true) = error malformed
read_line allowed (c ∷ line) (properties, false) =
    add_property allowed (partition 61 (c ∷ line)) properties

-- `for line in lines`
unfoldable pub read_lines : List Text → List Text → Reading → Result SvcError Reading
unfolding read_line
read_lines allowed [] reading = value reading
read_lines allowed (line ∷ lines) reading =
    read_line allowed line reading >>= read_lines allowed lines

abbrev pub is_line : Text → Bool
is_line [] = false
is_line (c ∷ line) = true

unfoldable pub parse_properties : List Text → Text → Result SvcError Properties
unfolding read_lines
parse_properties allowed output =
    if any is_line (split_on 10 output)
    then (read_lines allowed (split_on 10 output) ([], false) >>= λ (r : Reading). value r.0)
    else error empty_response

-- `properties.get(name, "")`
abbrev pub property : Text → Properties → Text
property name properties = get_or (lookup name properties) []

unfoldable pub validate_properties : Properties → Result SvcError (Unit {0})
validate_properties properties =
    let missing =
      (if property (lit "Id") properties == [] then lit "Id" ∷ [] else [])
      ++ ((if property (lit "LoadState") properties == [] then lit "LoadState" ∷ [] else [])
          ++ (if not (property (lit "LoadState") properties == lit "not-found")
                && property (lit "ActiveState") properties == []
              then lit "ActiveState" ∷ []
              else [])) in
    elim missing [
      | name ∷ names ↦ error (missing_properties (name ∷ names))
      | [] ↦
          if ends_with (property (lit "Id") properties) (lit ".service")
          then value tt
          else error malformed
    ]

-- `dict.fromkeys(names)`, behind names that were seen.
unfoldable pub unique_from : List Text → List Text → List Text
unique_from seen [] = seen
unique_from seen (name ∷ names) =
    unique_from (if contains seen name then seen else seen ++ name ∷ []) names

-- `MAX_DEPENDENCIES`, `DEPENDENCY_PROPERTIES`
abbrev pub max_dependencies : ℕ
max_dependencies = 32

unfoldable pub named_dependencies : (is_space : ℕ → Bool) → Properties → List Text
named_dependencies is_space properties =
    words_from is_space [] (property (lit "Requires") properties)
    ++ (words_from is_space [] (property (lit "Requisite") properties)
        ++ (words_from is_space [] (property (lit "BindsTo") properties)
            ++ words_from is_space [] (property (lit "Wants") properties)))

-- The first names, and whether more exist.
unfoldable pub dependency_names : (is_space : ℕ → Bool) → Properties → List Text × Bool
unfolding unique_from named_dependencies
dependency_names is_space properties =
    let names = unique_from [] (named_dependencies is_space properties) in
    (take max_dependencies names, ltb max_dependencies (length names))

abbrev pub known_states : List Text
known_states =
    lit "active"
    ∷ lit "reloading"
    ∷ lit "inactive"
    ∷ lit "failed"
    ∷ lit "activating"
    ∷ lit "deactivating"
    ∷ lit "maintenance"
    ∷ lit "refreshing"
    ∷ []

-- The names with their states, where there is a known state for each.
unfoldable pub failed_of : List Text → List Text → Result SvcError (List Text)
failed_of [] [] = value []
failed_of (name ∷ names) (state ∷ states) = do
  failed ← failed_of names states
  known ← (if contains known_states state then value failed else error malformed)
  value (if state == lit "failed" then name ∷ known else known)
failed_of _ _ = error malformed

-- The end of `find_failed_dependencies`: the status of `systemctl is-failed` must fit its output.
unfoldable pub check_failed : (returncode : ℕ) → List Text → Result SvcError (List Text)
check_failed returncode [] = if eqb returncode 1 then value [] else error inconsistent
check_failed returncode (name ∷ failed) =
    if eqb returncode 0 then value (name ∷ failed) else error inconsistent

unfoldable pub find_failed_dependencies :
    List Text → (returncode : ℕ) (states : List Text) → Result SvcError (List Text)
unfolding failed_of check_failed
find_failed_dependencies [] returncode states = value []
find_failed_dependencies (name ∷ names) returncode states =
    failed_of (name ∷ names) states >>= check_failed returncode

abbrev pub root_slice : Text
root_slice = lit "-.slice"

-- `names[-1][:-len(".slice")]`
unfoldable pub stem_of : Text → Text
stem_of name = take (length name - 6) name

abbrev pub parent_stem : Option (Text × Text) → Text
parent_stem none = root_slice
parent_stem (some (before, after)) = before ++ lit ".slice"

unfoldable pub parent_slice : Text → Text
unfolding stem_of
parent_slice name = parent_stem (rpartition 45 (stem_of name))

abbrev pub chained : Text → Option (List Text) → Option (List Text)
chained name none = none
chained name (some names) = some (name ∷ names)

-- `while names[-1] != ROOT_SLICE`, with fuel; none where it is over.
unfoldable pub ancestors_from : (fuel : ℕ) → Text → Option (List Text)
unfolding parent_slice
ancestors_from zero name = none
ancestors_from (suc fuel) name =
    let rest = ancestors_from fuel (parent_slice name) in
    if name == root_slice then some (name ∷ []) else chained name rest

-- Each round but the last one makes the name shorter.
unfoldable pub slice_ancestors : Text → Option (List Text)
unfolding ancestors_from
slice_ancestors name = ancestors_from (suc (suc (length name))) name

pub data Label : Type 0 where
  failed_label load_error restarting degraded dependency_failed incomplete : Label
  -- `active.upper()`
  active_state : Text → Label

-- The label and the exit status; the finding says what the tests read.
unfoldable pub assess_service :
    Properties → (failed_dependencies : Option (List Text)) (truncated : Bool) → Label × ℕ
assess_service properties failed_dependencies truncated =
    let active = property (lit "ActiveState") properties in
    let load = property (lit "LoadState") properties in
    let result = property (lit "Result") properties in
    if active == lit "failed"
    then (failed_label, exit_finding)
    else if load == lit "bad-setting" || load == lit "error"
    then (load_error, exit_finding)
    else if property (lit "SubState") properties == lit "auto-restart"
    then (restarting, exit_finding)
    else if not (active == lit "active") && not (result == [] || result == lit "success")
    then (degraded, exit_finding)
    else if not (active == lit "active")
    then (elim failed_dependencies [
      | none ↦ (incomplete, exit_failure)
      | some names ↦ elim names [
        | name ∷ more ↦ (dependency_failed, exit_finding)
        | [] ↦ if truncated then (incomplete, exit_failure) else (active_state active, exit_ok)
      ]
    ])
    else (active_state active, exit_ok)
