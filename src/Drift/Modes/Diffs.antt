-- ===== src/Drift/Modes/Diffs.antt =====
-- The bounds of the unified diff in `compare_files_mode` of configdiff.py.
use opsforge.Prelude.{
  ℕ, zero, suc, ◌+◌, ◌≤◌, ◌≡◌, refl, subst, Bool, true, false, ◌&&◌, Option, none, some, List, [],
  ◌∷◌, ◌++◌, arith, Text, All, length, length-append, length-take, take, ltb, leb, leb→le, max,
  Bool-cases, inl, inr,
}
use opsforge.Result.{value, value->>=, value_inj}
use opsforge.Drift.{FileObservation}
use opsforge.Drift.Values.{Detail, Loaded}
use opsforge.Drift.Modes.{
  Mode, ComparisonResult, max_diff_line_chars, max_diff_input_lines, line_suffix, bounded_diff_line,
  collect_lines, compare_contents, diff_of, diff_texts, diff_if, compare_read, compare_files_mode,
}

-- At most so many lines, each of at most 1020 characters.
abbrev pub IsShort : ℕ → List Text → Type 0
IsShort limit lines = (length lines ≤ limit) × All (λ l. length l ≤ 1020) lines

length-cut : (n : ℕ) (line suffix : Text) → length (take n line ++ suffix) ≤ n + length suffix
length-cut n line suffix = omega (arith, length-append (take n line) suffix, length-take n line)

length-bounded_diff_line : (line : Text) → length (bounded_diff_line line) ≤ 1020
unfolding bounded_diff_line
length-bounded_diff_line line = elim (Bool-cases (leb (length line) max_diff_line_chars)) [
  | inl short ↦ rw short (omega (arith, leb→le _ _ short))
  | inr long ↦ rw long (length-cut max_diff_line_chars line line_suffix)
]

collect_lines-IsShort :
    (limit : ℕ) (generated : List Text) → IsShort limit (collect_lines limit generated).0
unfolding collect_lines
collect_lines-IsShort limit [] = (omega arith, tt)
collect_lines-IsShort zero (line ∷ generated) = (omega arith, tt)
collect_lines-IsShort (suc limit) (line ∷ generated) =
    let rest = collect_lines-IsShort limit generated in
    (omega (arith, rest.0), (length-bounded_diff_line line, rest.1))

module _ {F : Type 0} (same_float : F → F → Bool) (load_json : Text → Loaded F)
    (decode : Text → Option Text) (text_lines : Text → List Text)
    (unified_diff : (baseline current : List Text) (fromfile tofile : Text) → List Text) where
  diff_of-IsShort :
      (limit : ℕ) (b c : List Text) (fromfile tofile : Text)
      → IsShort limit
          (diff_of same_float load_json decode text_lines unified_diff limit b c fromfile tofile).0
  unfolding diff_of
  diff_of-IsShort limit b c fromfile tofile =
      elim (Bool-cases (ltb max_diff_input_lines (max (length b) (length c)))) [
        | inl long ↦ rw long (omega arith, tt)
        | inr fits ↦ rw fits (collect_lines-IsShort limit (unified_diff b c fromfile tofile))
      ]

  diff_if-IsShort :
      (wanted : Bool) (limit : ℕ) (b c : Text) (bo co : FileObservation)
      (d : List Text × Bool × List Detail)
      → diff_if same_float load_json decode text_lines unified_diff wanted limit b c bo co ≡ value d
      → IsShort limit d.0 × (wanted ≡ false → d.0 ≡ [])
  unfolding diff_if
  diff_if-IsShort false limit b c bo co d h =
      subst (λ (x : List Text × Bool × List Detail). IsShort limit x.0 × (false ≡ false → x.0 ≡ []))
        (value_inj _ d h) ((omega arith, tt), λ e. refl)
  diff_if-IsShort true limit b c bo co d h = (texts (decode b) (decode c) h, λ e. cc)
    where
      texts :
          (o p : Option Text)
          → diff_texts same_float load_json decode text_lines unified_diff limit o p bo.path co.path
            ≡ value d
          → IsShort limit d.0
      texts (some l) (some m) e =
          subst (λ (x : List Text × Bool × List Detail). IsShort limit x.0)
            (value_inj _ d (unfold diff_texts in e))
            (diff_of-IsShort limit (text_lines l) (text_lines m) bo.path co.path)
      texts none p e = unfold diff_texts in (cc e)
      texts (some l) none e = unfold diff_texts in (cc e)

  -- In every mode, the unified diff of a result has at most `max_diff_lines` lines, each of at most
  -- 1020 characters, and it is empty unless it was asked for and the contents differ.
  pub compare_files_mode-IsShort :
      (mode : Mode) (permissions ownership : Bool) (keys : List Text) (unified : Bool) (limit : ℕ)
      (p : Text × Text × FileObservation × FileObservation) (r : ComparisonResult)
      → compare_files_mode same_float load_json decode text_lines unified_diff mode permissions
          ownership keys unified limit
          (value p)
        ≡ value r
      → IsShort limit r.diff_lines × ((unified && r.content_drift) ≡ false → r.diff_lines ≡ [])
  unfolding compare_files_mode compare_read
  compare_files_mode-IsShort mode permissions ownership keys unified limit (b, c, bo, co) r h =
      let (cd, e, k) =
        value->>=
          (compare_contents same_float load_json decode text_lines unified_diff mode keys b c bo co)
          _ r h in
      let (d, e', k') =
        value->>=
          (diff_if same_float load_json decode text_lines unified_diff (unified && cd.0) limit b c
            bo co)
          _ r k in
      subst
        (λ (x : ComparisonResult).
          IsShort limit x.diff_lines × ((unified && x.content_drift) ≡ false → x.diff_lines ≡ []))
        (value_inj _ r k') (diff_if-IsShort (unified && cd.0) limit b c bo co d e')
