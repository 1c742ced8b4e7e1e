-- ===== src/Output/Emit.antt =====
-- `_bounded_output` and `emit_output` of common/output.py. The JSON text and the conclusion are
-- given; `encode` is `str.encode` to UTF-8 with backslashes for what cannot be encoded, `is_space`
-- is `str.isspace` of a character.
pub mod Destination
use opsforge.Prelude.{
  ℕ, Bool, true, false, ◌&&◌, not, Option, none, some, List, [], ◌∷◌, ◌++◌, Text, ◌==◌, length, ltb,
  eqb, all, if◌then◌else◌,
}
use opsforge.Output.Files.{
  Files, Faults, Raised, Written, written, output_error, uncaught, too_large, write_new,
  replace_atomically,
}

abbrev pub max_output_bytes : ℕ
max_output_bytes = 16777216

-- `text.rstrip()`, for the characters of a test.
pub rstrip : (ℕ → Bool) → Text → Text
rstrip strips [] = []
rstrip strips (c ∷ text) =
    let rest = rstrip strips text in if strips c && rest == [] then [] else c ∷ rest

-- The arguments of `emit_output`.
pub record Request : Type 0 where
  pub json : Text
  pub detailed : Text
  pub brief : Text
  pub conclusion : Text
  pub json_mode : Bool
  pub brief_mode : Bool
  pub quiet : Bool
  pub output_path : Option Text
  pub force : Bool

pub data Printed : Type 0 where
  printed broken_pipe : Printed
  print_failed : Raised → Printed

-- The standard output: what its encoding makes of a text, how many bytes that is, if it has an
-- encoding, and how `print` with `flush` ends.
pub record Stream : Type 0 where
  pub has_encoding : Bool
  pub shown : Text → Text
  pub stream_length : Text → ℕ
  pub ends : Printed

-- What `emit_output` did: its end, the files, and what it printed.
pub record Emission : Type 0 where
  pub result : Written
  pub files : Files
  pub printed_text : Option Text

module _ (is_space : ℕ → Bool) (encode : Text → Text) where
  -- The rendering of the request.
  pub render : Request → Text
  render r =
      if r.json_mode
      then r.json
      else let body = if r.brief_mode then r.brief else r.detailed in
        if all is_space body then r.conclusion else rstrip is_space body ++ 10 ∷ r.conclusion

  -- `_bounded_output`: nothing, if the limit is exceeded.
  pub bounded_output : Text → Option (Text × Text)
  bounded_output text =
      let rendered = rstrip (eqb 10) text in
      let encoded = encode (rendered ++ 10 ∷ []) in
      if ltb max_output_bytes (length encoded) then none else some (rendered, encoded)

  abbrev pub nothing_printed : Written × Files → Emission
  nothing_printed (result, files) = record { result = result; files = files; printed_text = none }

  module _ (faults : Faults) (temporary : Text) (stream : Stream) where
    -- The writing of the output file.
    pub write_output : Bool → Text → Text → Files → Written × Files
    write_output true path encoded files = replace_atomically faults path temporary encoded files
    write_output false path encoded files = write_new faults path encoded files

    pub print_end : Printed → Written
    print_end printed = written
    print_end broken_pipe = written
    print_end (print_failed raised) = uncaught raised

    -- The printing.
    pub print_output : Text → Files → Emission
    print_output rendered files =
        let shown = if stream.has_encoding then stream.shown rendered else rendered in
        if stream.has_encoding && ltb max_output_bytes (stream.stream_length shown)
        then nothing_printed (output_error too_large, files)
        else record { result = print_end stream.ends; files = files; printed_text = some shown }

    pub deliver : Bool → Option Text → Option (Text × Text) → Files → Emission
    deliver force path none files = nothing_printed (output_error too_large, files)
    deliver force (some path) (some (rendered, encoded)) files =
        nothing_printed (write_output force path encoded files)
    deliver force none (some (rendered, encoded)) files = print_output rendered files

    -- With `quiet` and no path nothing is done.
    pub emit_to : (quiet force : Bool) → Option Text → Option (Text × Text) → Files → Emission
    emit_to true force none output files = nothing_printed (written, files)
    emit_to quiet force path output files = deliver force path output files

    unfoldable pub emit_output : Request → Files → Emission
    unfolding emit_to deliver print_output print_end write_output bounded_output render rstrip
    emit_output r files = emit_to r.quiet r.force r.output_path (bounded_output (render r)) files
