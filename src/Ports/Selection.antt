-- ===== src/Ports/Selection.antt =====
-- `parse_port`, `PortSelection`, `parse_port_selection` and `port_filter` of portlens.py. The error is
-- the one that argparse reports.
pub mod RoundTrip
use opsforge.Prelude.{
  ℕ, zero, suc, ◌≤◌, Bool, true, false, ◌&&◌, ◌||◌, not, Option, none, some, List, [], ◌∷◌, ◌++◌,
  Text, lit, decimal, between, leb, eqb, any, ltb, if◌then◌else◌,
}
use opsforge.Prelude.Decimal.{is_decimal, number}
use opsforge.Result.{Result, value, error, ◌>>=◌}

pub record PortSelection : Type 0 where
  pub start : ℕ
  pub end : ℕ

pub data SelectionError : Type 0 where
  not_decimal out_of_range not_a_range reversed : SelectionError

-- `PortSelection.contains`
unfoldable pub holds : PortSelection → ℕ → Bool
holds s port = between s.start s.end port

-- `PortSelection.label`
unfoldable pub label : PortSelection → Text
label s =
    if eqb s.start s.end then decimal s.start else decimal s.start ++ (lit "-" ++ decimal s.end)

unfoldable pub parse_port : Text → Result SelectionError ℕ
unfolding is_decimal number
parse_port text =
    if not (is_decimal text)
    then error not_decimal
    else if not (between 1 65535 (number text))
    then error out_of_range
    else value (number text)

-- `value.split("-", 1)` where there is a hyphen.
unfoldable pub cut_hyphen : Text → Text × Text
cut_hyphen [] = ([], [])
cut_hyphen (c ∷ text) =
    let rest = cut_hyphen text in if eqb c 45 then ([], text) else (c ∷ rest.0, rest.1)

unfoldable pub range_of : ℕ → ℕ → Result SelectionError PortSelection
range_of start end =
    if ltb end start then error reversed else value (record { start = start; end = end })

unfoldable pub parse_range : Text × Text → Result SelectionError PortSelection
unfolding range_of
parse_range (start_text, end_text) = do
  start ← parse_port start_text
  end ← parse_port end_text
  range_of start end

-- `value.count("-") != 1`, where there is one.
unfoldable pub parse_port_selection : Text → Result SelectionError PortSelection
unfolding parse_range cut_hyphen
parse_port_selection text =
    if not (any (eqb 45) text)
    then parse_port text >>= (λ port. value (record { start = port; end = port }))
    else if any (eqb 45) (cut_hyphen text).1
    then error not_a_range
    else parse_range (cut_hyphen text)

-- The arguments of `ss` that filter in the kernel.
unfoldable pub port_filter : Option PortSelection → List Text
port_filter none = []
port_filter (some s) =
    if eqb s.start s.end
    then lit "sport" ∷ lit "=" ∷ (lit ":" ++ decimal s.start) ∷ []
    else lit "("
      ∷ lit "sport"
      ∷ lit ">="
      ∷ (lit ":" ++ decimal s.start)
      ∷ lit "and"
      ∷ lit "sport"
      ∷ lit "<="
      ∷ (lit ":" ++ decimal s.end)
      ∷ lit ")"
      ∷ []
