-- ===== src/Drift/Modes.antt =====
-- `compare_files_mode` of configdiff.py. JSON decoding with the hooks of `load_json`, the decoding
-- of UTF-8, `str.splitlines` and `difflib.unified_diff` are arguments.
pub mod Compared
pub mod Diffs
use opsforge.Prelude.{
  ℕ, zero, suc, Bool, true, false, ◌&&◌, ◌||◌, not, Option, none, some, List, [], ◌∷◌, ◌++◌, map,
  Text, lit, ◌==◌, length, take, split_on, ltb, leb, eqb, max, if◌then◌else◌,
}
use opsforge.Prelude.Dict.{Dict, lookup, put}
use opsforge.Prelude.Ordered.{sorted_by}
use opsforge.Result.{Result, value, error, ◌>>=◌}
use opsforge.Fs.{OsError}
use opsforge.Health.Json.{
  Json, null, boolean, natural, below_zero, real, string, array, object, Items, nil, cons, Fields,
  end, field,
}
use opsforge.Drift.{
  same_number?, Failure, invalid_target, observation, FileObservation, nesting_too_deep,
  invalid_content, not_text,
}
use opsforge.Drift.Values.{
  Detail, absent_key, diff_skipped, Loaded, loaded, too_deep, malformed, same_texts, compare_loaded,
}
use opsforge.Drift.Contents.{without_space, meaningful, canonical_json, select}

pub data Mode : Type 0 where
  exact whitespace comments json metadata : Mode

pub data MetadataDrift : Type 0 where
  permissions_drift ownership_drift : MetadataDrift

pub record ComparisonResult : Type 0 where
  pub baseline : FileObservation
  pub current : FileObservation
  pub drift_detected : Bool
  pub mode : Mode
  pub metadata_drift : List MetadataDrift
  pub diff_lines : List Text
  pub diff_truncated : Bool
  pub content_drift : Bool
  pub details : List Detail

-- `MAX_DIFF_LINE_CHARS`, `MAX_DIFF_INPUT_LINES`
abbrev pub max_diff_line_chars : ℕ
max_diff_line_chars = 1000

abbrev pub max_diff_input_lines : ℕ
max_diff_input_lines = 20000

abbrev pub line_suffix : Text
line_suffix = lit "... [line truncated]"

-- `_bounded_diff_line`
unfoldable pub bounded_diff_line : Text → Text
bounded_diff_line line =
    if leb (length line) max_diff_line_chars
    then line
    else take max_diff_line_chars line ++ line_suffix

-- `for index, next_line in enumerate(generated)`: the lines collected, and whether any is left.
unfoldable pub collect_lines : (room : ℕ) → List Text → List Text × Bool
collect_lines room [] = ([], false)
collect_lines zero (line ∷ generated) = ([], true)
collect_lines (suc room) (line ∷ generated) =
    let rest = collect_lines room generated in (bounded_diff_line line ∷ rest.0, rest.1)

unfoldable pub metadata_drift_of :
    (permissions ownership : Bool) → FileObservation → FileObservation → List MetadataDrift
metadata_drift_of permissions ownership b c =
    (if permissions && not (same_number? b.mode c.mode) then permissions_drift ∷ [] else [])
    ++ (if ownership && not (same_number? b.uid c.uid && same_number? b.gid c.gid)
        then ownership_drift ∷ []
        else [])

abbrev pub is_none : List MetadataDrift → Bool
is_none [] = true
is_none (d ∷ drifts) = false

module _ {F : Type 0} (same_float : F → F → Bool) where
  module _ (load_json : Text → Loaded F) (decode : Text → Option Text)
      (text_lines : Text → List Text)
      (unified_diff : (baseline current : List Text) (fromfile tofile : Text) → List Text) where
    unfoldable pub compare_contents :
        Mode
        → List Text
        → (baseline current : Text) → FileObservation
        → FileObservation
        → Result Failure (Bool × List Detail)
    unfolding compare_loaded
    compare_contents whitespace keys b c bo co =
        value (not (without_space b == without_space c), [])
    compare_contents comments keys b c bo co =
        value (not (same_texts (meaningful b) (meaningful c)), [])
    compare_contents json keys b c bo co =
        compare_loaded same_float keys (load_json b) (load_json c)
    compare_contents metadata keys b c bo co = value (
      not (
          eqb bo.size co.size
          && (same_number? bo.mode co.mode
              && (same_number? bo.uid co.uid && same_number? bo.gid co.gid))),
      [],
    )
    compare_contents exact keys b c bo co = value (not (b == c), [])

    -- The lines of the diff, whether it is cut, and a detail if it is skipped.
    unfoldable pub diff_of :
        (max_diff_lines : ℕ)
        → (baseline current : List Text) (fromfile tofile : Text) → List Text × Bool × List Detail
    unfolding collect_lines bounded_diff_line
    diff_of max_diff_lines b c fromfile tofile =
        if ltb max_diff_input_lines (max (length b) (length c))
        then ([], false, diff_skipped ∷ [])
        else (let kept = collect_lines max_diff_lines (unified_diff b c fromfile tofile) in
            (kept.0, kept.1, []))

    unfoldable pub diff_texts :
        ℕ
        → Option Text
        → Option Text
        → Text
        → Text
        → Result Failure (List Text × Bool × List Detail)
    unfolding diff_of
    diff_texts limit (some b) (some c) fromfile tofile =
        value (diff_of limit (text_lines b) (text_lines c) fromfile tofile)
    diff_texts limit _ _ fromfile tofile = error (invalid_target not_text none)

    unfoldable pub diff_if :
        Bool
        → ℕ
        → Text
        → Text
        → FileObservation
        → FileObservation
        → Result Failure (List Text × Bool × List Detail)
    unfolding diff_texts
    diff_if false limit b c bo co = value ([], false, [])
    diff_if true limit b c bo co = diff_texts limit (decode b) (decode c) bo.path co.path

    -- Behind `read_file_pair`.
    unfoldable pub compare_read :
        Mode
        → (permissions ownership : Bool) (selected_keys : List Text) (unified : Bool)
          (max_diff_lines : ℕ)
        → Text × Text × FileObservation × FileObservation
        → Result Failure ComparisonResult
    unfolding compare_contents diff_if metadata_drift_of
    compare_read mode permissions ownership keys unified limit (b, c, bo, co) = do
      (content_drift, details) ← compare_contents mode keys b c bo co
      (diff_lines, truncated, skipped) ← diff_if (unified && content_drift) limit b c bo co
      value (record {
        baseline = bo;
        current = co;
        drift_detected =
            content_drift || not (is_none (metadata_drift_of permissions ownership bo co));
        mode = mode;
        metadata_drift = metadata_drift_of permissions ownership bo co;
        diff_lines = diff_lines;
        diff_truncated = truncated;
        content_drift = content_drift;
        details = details ++ skipped;
      })

    unfoldable pub compare_files_mode :
        Mode
        → (permissions ownership : Bool) (selected_keys : List Text) (unified : Bool)
          (max_diff_lines : ℕ)
        → Result Failure (Text × Text × FileObservation × FileObservation)
        → Result Failure ComparisonResult
    unfolding compare_read
    compare_files_mode mode permissions ownership keys unified limit pair =
        pair >>= compare_read mode permissions ownership keys unified limit
