-- ===== src/Ports/Selection/RoundTrip.antt =====
-- The label of a port selection of portlens.py reads back as it.
use opsforge.Prelude.{
  ℕ, ◌≤◌, ◌≡◌, refl, true, false, [], ◌∷◌, ◌++◌, arith, Text, lit, decimal, between, eqb, eqb_iff,
  any, all, Bool-cases, inl, inr,
}
use opsforge.Prelude.Decimal.{is_decimal, number, number-decimal, all-decimal}
use opsforge.Result.{value}
use opsforge.Ports.Selection.{
  PortSelection, label, parse_port, cut_hyphen, range_of, parse_range, parse_port_selection,
}

-- A selection that `parse_port_selection` can give.
pub record IsSelection (s : PortSelection) : Type 0 where
  pub start_pos : 1 ≤ s.start
  pub ordered : s.start ≤ s.end
  pub end_bound : s.end ≤ 65535

no_hyphen : (text : Text) → all (between 48 57) text ≡ true → any (eqb 45) text ≡ false
no_hyphen [] h = refl
no_hyphen (c ∷ text) h = ground (arith, no_hyphen text)

number_nil : number [] ≡ 0
unfolding number
number_nil = refl

is_decimal_lem :
    (text : Text) → all (between 48 57) text ≡ true → 1 ≤ number text → is_decimal text ≡ true
unfolding is_decimal
is_decimal_lem [] h n = absurd (omega (arith, number_nil))
is_decimal_lem (c ∷ text) h n = h

parse_port-decimal : (n : ℕ) → 1 ≤ n → n ≤ 65535 → parse_port (decimal n) ≡ value n
unfolding parse_port
parse_port-decimal n lo hi =
    let read = number-decimal n in
    let digits = is_decimal_lem (decimal n) (all-decimal n) (omega (arith, read)) in
    let inside : between 1 65535 n ≡ true = ground arith in rw (digits, read, inside)

cut_hyphen_lem : (s t : Text) → any (eqb 45) s ≡ false → cut_hyphen (s ++ 45 ∷ t) ≡ (s, t)
unfolding cut_hyphen
cut_hyphen_lem [] t h = refl
cut_hyphen_lem (c ∷ s) t h =
    let other : eqb c 45 ≡ false = ground arith in
    let rest = cut_hyphen_lem s t (ground arith) in rw (other, rest)

any_middle : (s t : Text) → any (eqb 45) (s ++ 45 ∷ t) ≡ true
any_middle [] t = refl
any_middle (c ∷ s) t = ground (arith, any_middle s t)

range_of_lem :
    (start end : ℕ) → start ≤ end → range_of start end ≡ value (record { start = start; end = end })
unfolding range_of
range_of_lem start end h = ground arith

range_round_trip :
    (start end : ℕ)
    → 1 ≤ start
    → start ≤ end
    → end ≤ 65535
    → parse_port_selection (decimal start ++ (lit "-" ++ decimal end))
      ≡ value (record { start = start; end = end })
unfolding parse_port_selection parse_range
range_round_trip start end lo mid hi =
    let left = no_hyphen (decimal start) (all-decimal start) in
    let right = no_hyphen (decimal end) (all-decimal end) in
    let hyphen = any_middle (decimal start) (decimal end) in
    let cut = cut_hyphen_lem (decimal start) (decimal end) left in
    let first = parse_port-decimal start lo (omega arith) in
    let second = parse_port-decimal end (omega arith) hi in
    rw (hyphen, cut, right, first, second) (range_of_lem start end mid)

single_round_trip :
    (port : ℕ)
    → 1 ≤ port
    → port ≤ 65535
    → parse_port_selection (decimal port) ≡ value (record { start = port; end = port })
unfolding parse_port_selection
single_round_trip port lo hi =
    let none_of = no_hyphen (decimal port) (all-decimal port) in
    let read = parse_port-decimal port lo hi in rw (none_of, read)

label_round_trip :
    (start end : ℕ)
    → IsSelection (record { start = start; end = end })
    → parse_port_selection (label (record { start = start; end = end }))
      ≡ value (record { start = start; end = end })
unfolding label
label_round_trip start end v = elim (Bool-cases (eqb start end)) [
  | inl same ↦
      let e : start ≡ end = (eqb_iff start end).0 same in
      rw same
        (rw (← e) (single_round_trip start v.start_pos (omega (arith, v.ordered, v.end_bound))))
  | inr other ↦ rw other (range_round_trip start end v.start_pos v.ordered v.end_bound)
]

-- The label of a selection of ports from 1 through 65535 in order, a port or a range, is read back
-- as that selection.
pub parse_port_selection-label :
    (s : PortSelection) → IsSelection s → parse_port_selection (label s) ≡ value s
parse_port_selection-label s v = label_round_trip s.start s.end v
