-- ===== src/Svc/Properties.antt =====
-- `parse_properties` of svcdoctor.py reads the record that `systemctl show` prints.
use opsforge.Prelude.{
  ℕ, ◌≡◌, refl, ap, sym, ◌∙◌, Bool, true, false, not, some, List, [], ◌∷◌, ◌++◌, arith, Text,
  contains, split_on, split_on_from, any, eqb,
}
use mathlib.Core.List.{append-nil, append_assoc}
use opsforge.Prelude.Dict.{keys, put_of_absent}
use opsforge.Prelude.Splitting.{partition}
use opsforge.Result.{value}
use opsforge.Svc.{
  Properties, is_empty, add_property, read_line, read_lines, is_line, parse_properties,
}

abbrev pub HasNo : ℕ → Text → Type 0
HasNo c text = any (λ d. eqb d c) text ≡ false

-- A record that may be printed: allowed names, each once and without `=`, and no line feed.
abbrev pub IsRecord : List Text → Properties → Properties → Type 0
IsRecord allowed before [] = Unit
IsRecord allowed before ((k, v) ∷ properties) =
    (contains allowed k ≡ true)
    × (contains (keys before) k ≡ false)
    × HasNo 61 k
    × HasNo 10 k
    × HasNo 10 v
    × IsRecord allowed (before ++ (k, v) ∷ []) properties

abbrev pub line_of : Text × Text → Text
line_of (k, v) = k ++ 61 ∷ v

-- `Property=Value` and a line feed for each property.
unfoldable pub print_record : Properties → Text
print_record [] = []
print_record (p ∷ properties) = line_of p ++ 10 ∷ print_record properties

unfoldable pub record_lines : Properties → List Text
record_lines [] = [] ∷ []
record_lines (p ∷ properties) = line_of p ∷ record_lines properties

partition_lem :
    (c : ℕ) (before after : Text)
    → HasNo c before
    → partition c (before ++ c ∷ after) ≡ some (before, after)
unfolding partition
partition_lem c [] after h = ground arith
partition_lem c (d ∷ before) after h =
    let other : eqb d c ≡ false = ground arith in
    let rest = partition_lem c before after (ground arith) in rw (other, rest)

split_line :
    (begun line rest : Text)
    → HasNo 10 line
    → split_on_from 10 begun (line ++ 10 ∷ rest) ≡ (begun ++ line) ∷ split_on_from 10 [] rest
unfolding split_on_from
split_line begun [] rest h = ap (λ l. l ∷ split_on_from 10 [] rest) (sym (append-nil begun))
split_line begun (c ∷ line) rest h =
    let other : eqb c 10 ≡ false = ground arith in
    rw other (
      split_line (begun ++ c ∷ []) line rest (ground arith)
      ∙ ap (λ l. l ∷ split_on_from 10 [] rest) (append_assoc begun (c ∷ []) line))

no_break_line : (k v : Text) → HasNo 10 k → HasNo 10 v → HasNo 10 (k ++ 61 ∷ v)
no_break_line [] v h i = i
no_break_line (c ∷ k) v h i = ground (arith, no_break_line k v)

split-print_record :
    (allowed : List Text) (before properties : Properties)
    → IsRecord allowed before properties
    → split_on_from 10 [] (print_record properties) ≡ record_lines properties
unfolding print_record record_lines
split-print_record allowed before [] h = unfold split_on_from in refl
split-print_record allowed before ((k, v) ∷ properties) (_, _, _, nk, nv, rest) =
    split_line [] (k ++ 61 ∷ v) (print_record properties) (no_break_line k v nk nv)
    ∙ ap (λ l. (k ++ 61 ∷ v) ∷ l)
        (split-print_record allowed (before ++ (k, v) ∷ []) properties rest)

read_line_of :
    (allowed : List Text) (k v : Text) (line : Text) (before : Properties)
    → line ≡ k ++ 61 ∷ v
    → is_line line ≡ true
    → contains allowed k ≡ true
    → contains (keys before) k ≡ false
    → HasNo 61 k
    → read_line allowed line (before, false) ≡ value (before ++ (k, v) ∷ [], false)
unfolding read_line add_property
read_line_of allowed k v [] before e n a b f = cc
read_line_of allowed k v (c ∷ line) before e n a b f =
    let parts : partition 61 (c ∷ line) ≡ some (k, v) =
      ap (partition 61) e ∙ partition_lem 61 k v f in
    rw (parts, a, b) (ap (λ p. value (p, false)) (put_of_absent k v before b))

is_line_of : (k v : Text) → is_line (k ++ 61 ∷ v) ≡ true
is_line_of [] v = refl
is_line_of (c ∷ k) v = refl

read_lines_of :
    (allowed : List Text) (before properties : Properties)
    → IsRecord allowed before properties
    → (ended : Bool) × (read_lines allowed (record_lines properties) (before, false)
        ≡ value (before ++ properties, ended))
unfolding read_lines record_lines
read_lines_of allowed before [] h =
    (not (is_empty before), unfold read_line in (rw (append-nil before)))
read_lines_of allowed before ((k, v) ∷ properties) (a, b, f, nk, nv, rest) =
    let (ended, e) = read_lines_of allowed (before ++ (k, v) ∷ []) properties rest in
    let first = read_line_of allowed k v (k ++ 61 ∷ v) before refl (is_line_of k v) a b f in
    (
      ended,
      (rw first (e ∙ ap (λ p. value (p, ended)) (append_assoc before ((k, v) ∷ []) properties))),
    )

-- The printed form of a record that is not empty is parsed as that record, in its order: its names
-- are allowed, each stands in it once and has no `=`, and no name or value has a line feed.
pub parse_properties-print_record :
    (allowed : List Text) (p : Text × Text) (properties : Properties)
    → IsRecord allowed [] (p ∷ properties)
    → parse_properties allowed (print_record (p ∷ properties)) ≡ value (p ∷ properties)
unfolding parse_properties split_on
parse_properties-print_record allowed (k, v) properties h =
    let lines = split-print_record allowed [] ((k, v) ∷ properties) h in
    let (ended, e) = read_lines_of allowed [] ((k, v) ∷ properties) h in
    let some_line : any is_line (record_lines ((k, v) ∷ properties)) ≡ true =
      first_line k v properties in
    rw (lines, some_line, e)
  where
    first_line : (k v : Text) (ps : Properties) → any is_line (record_lines ((k, v) ∷ ps)) ≡ true
    first_line k v ps = unfold record_lines in (rw (is_line_of k v))
