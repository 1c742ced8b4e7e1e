-- ===== src/Units.antt =====
-- common/systemd.py: `normalize_service_name`. `unicodedata.category` and `str.isspace` of one
-- character are the arguments `category` and `is_space`.
pub mod Names
mod Tests
use opsforge.Prelude.{
  ℕ, zero, suc, ◌≤◌, ◌-◌, Bool, true, false, ◌&&◌, ◌||◌, not, Option, none, some, List, [], ◌∷◌,
  ◌++◌, Text, lit, ◌==◌, starts_with, drop, length, leb, eqb, any, if◌then◌else◌,
}
use opsforge.Escape.{has_unsafe_characters}

-- `text.endswith(suffix)`
unfoldable pub ends_with : Text → Text → Bool
ends_with text suffix =
    leb (length suffix) (length text) && drop (length text - length suffix) text == suffix

abbrev pub service : Text
service = lit ".service"

-- `UNIT_SUFFIXES`
abbrev pub unit_suffixes : List Text
unit_suffixes =
    lit ".service"
    ∷ lit ".socket"
    ∷ lit ".target"
    ∷ lit ".device"
    ∷ lit ".mount"
    ∷ lit ".automount"
    ∷ lit ".swap"
    ∷ lit ".timer"
    ∷ lit ".path"
    ∷ lit ".slice"
    ∷ lit ".scope"
    ∷ lit ".snapshot"
    ∷ []

-- `*`, `?`, `[` and `]`: `GLOB_METACHARACTERS`
abbrev pub is_glob : ℕ → Bool
is_glob c = eqb c 42 || eqb c 63 || eqb c 91 || eqb c 93

-- The errors, in the order of the tests; the messages show the escaped target.
pub data UnitNameError : Type 0 where
  empty_target option_like slash whitespace control_character pattern_name : UnitNameError
  unsupported_type : (suffix : Text) → UnitNameError
  empty_stem template : UnitNameError

pub data UnitName : Type 0 where
  unit : Text → UnitName
  invalid : UnitNameError → UnitName

-- `next((suffix for suffix in UNIT_SUFFIXES if target.endswith(suffix)), None)`
pub explicit_suffix : Text → List Text → Option Text
explicit_suffix target [] = none
explicit_suffix target (suffix ∷ suffixes) =
    if ends_with target suffix then some suffix else explicit_suffix target suffixes

-- The two tests on the name.
pub accept : Text → UnitName
accept normalized =
    if normalized == service
    then invalid empty_stem
    else if ends_with normalized (lit "@.service")
    then invalid template
    else unit normalized

pub complete : Text → Option Text → UnitName
complete target none = accept (target ++ service)
complete target (some suffix) =
    if suffix == service then accept target else invalid (unsupported_type suffix)

-- The tests on the target's characters.
pub objection : (ℕ → Text) → (ℕ → Bool) → Text → Option UnitNameError
objection category is_space target =
    if starts_with target (lit "-")
    then some option_like
    else if any (eqb 47) target
    then some slash
    else if any is_space target
    then some whitespace
    else if has_unsafe_characters category target
    then some control_character
    else if any is_glob target
    then some pattern_name
    else none

pub normalize : (ℕ → Text) → (ℕ → Bool) → Text → Option UnitNameError → UnitName
normalize category is_space target (some e) = invalid e
normalize category is_space target none = complete target (explicit_suffix target unit_suffixes)

unfoldable pub normalize_service_name : (ℕ → Text) → (ℕ → Bool) → Text → UnitName
unfolding normalize objection complete accept explicit_suffix
normalize_service_name category is_space [] = invalid empty_target
normalize_service_name category is_space (c ∷ target) =
    normalize category is_space (c ∷ target) (objection category is_space (c ∷ target))
