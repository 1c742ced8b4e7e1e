-- ===== src/Procfs.antt =====
-- opsforge/common/procfs.py: `split_stat` and `unified_cgroup_path`.
pub mod Stat
mod Tests
use opsforge.Prelude.{
  ℕ, Bool, true, false, ◌&&◌, ◌||◌, not, Option, none, some, List, [], ◌∷◌, ◌++◌, Text, lit, ◌==◌,
  starts_with, split_on, drop, between, all, eqb, if◌then◌else◌,
}
use opsforge.Prelude.Decimal.{is_decimal, number}
use opsforge.Prelude.Bytes.{lstrip, rstrip, words_from}

-- `data.find(c)`, as the text before it and the text behind it.
unfoldable pub cut_first : ℕ → Text → Option (Text × Text)
cut_first c [] = none
cut_first c (d ∷ text) =
    let rest = cut_first c text in
    if eqb d c then some ([], text) else (elim rest [ none ↦ none | some p ↦ some (d ∷ p.0, p.1) ])

-- `data.rfind(c)`
unfoldable pub cut_last : ℕ → Text → Option (Text × Text)
cut_last c [] = none
cut_last c (d ∷ text) =
    let rest = cut_last c text in
    elim rest [ some p ↦ some (d ∷ p.0, p.1) | none ↦ if eqb d c then some ([], text) else none ]

-- The digits of the process and the rest; `isdigit` of bytes takes ASCII digits only.
unfoldable pub stat_of : Text → Option (Text × Text) → Option (ℕ × Text × List Text)
unfolding lstrip rstrip words_from
stat_of before none = none
stat_of before (some (name, rest)) =
    if is_decimal (rstrip (lstrip before))
    then some (number (rstrip (lstrip before)), name, words_from [] rest)
    else none

-- Behind the opening parenthesis: the last closing one comes after it.
unfoldable pub split_behind : Option (Text × Text) → Option (ℕ × Text × List Text)
unfolding stat_of
split_behind none = none
split_behind (some ([], behind)) = none
split_behind (some (c ∷ before, behind)) = stat_of (c ∷ before) (cut_last 41 behind)

-- The number, the name and the fields of `/proc/PID/stat`, none where `ValueError` is raised.
unfoldable pub split_stat : Text → Option (ℕ × Text × List Text)
unfolding split_behind
split_stat stat = split_behind (cut_first 40 stat)

unfoldable pub unified_of : List Text → Option Text
unified_of [] = none
unified_of (line ∷ lines) =
    if starts_with line (lit "0::") then some (drop 3 line) else unified_of lines

unfoldable pub unified_cgroup_path : Text → Option Text
unfolding unified_of
unified_cgroup_path text = unified_of (split_on 10 text)
