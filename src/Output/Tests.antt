-- ===== src/Output/Tests.antt =====
-- Runs of the models of common/output.py, and the theorems at concrete data.
use opsforge.Prelude.{
  [], ◌∷◌, arith, ◌≡◌, refl, true, false, none, some, Text, lit, ◌==◌, length, eqb, if◌then◌else◌,
}
use opsforge.Output.Files.{
  regular, Files, os_error, Faults, written, target_objection, write_new, replace_atomically,
  output_error, already_exists,
}
use opsforge.Output.Files.Smooth.{IsSmooth}
use opsforge.Output.Files.Writing.{IsAtomic, write_new-IsAtomic}
use opsforge.Output.Files.Replacing.{replace_atomically-IsAtomic}
use opsforge.Output.Emit.{Request, Stream, printed, emit_output}
use opsforge.Output.Emit.Destination.{IsContained, emit_output-IsContained}

abbrev no_faults : Faults
no_faults = record {
  inspect = none;
  create = none;
  counts = 4 ∷ 4 ∷ 4 ∷ [];
  write = os_error;
  sync = none;
  close = none;
  replace = none;
  unlink = false;
}

-- The disk is full after two bytes.
abbrev disk_full : Faults
disk_full = record no_faults { counts = 2 ∷ [] }

abbrev report : Text
report = lit "report"

abbrev temporary : Text
temporary = lit ".report.0f.tmp"

abbrev one_file : Files
one_file p = if p == report then some (regular (lit "old") 1) else none

-- Three writes of one byte each.
abbrev slow : Faults
slow = record no_faults { counts = 1 ∷ 1 ∷ 1 ∷ [] }

slow-IsSmooth : IsSmooth slow 3
slow-IsSmooth = record {
  creates = refl;
  progress = (omega arith, (omega arith, (omega arith, tt)));
  enough = omega arith;
  syncs = refl;
  closes = refl;
}

written_slowly :
    (write_new slow temporary (lit "new") one_file).1 temporary ≡ some (regular (lit "new") 1)
unfolding write_new ◌==◌
written_slowly = refl

refused : (write_new no_faults report (lit "new") one_file).0 ≡ output_error already_exists
unfolding write_new ◌==◌
refused = refl

replaced :
    (replace_atomically no_faults report temporary (lit "new") one_file).1 report
    ≡ some (regular (lit "new") 1)
unfolding replace_atomically write_new ◌==◌
replaced = refl

write_new-IsAtomic_example :
    IsAtomic temporary (lit "new") one_file (write_new no_faults temporary (lit "new") one_file)
    × (IsSmooth no_faults 3
        → one_file temporary ≡ none
        → (write_new no_faults temporary (lit "new") one_file).0 ≡ written)
write_new-IsAtomic_example = write_new-IsAtomic no_faults refl temporary (lit "new") one_file refl

apart : (temporary == report) ≡ false
unfolding ◌==◌
apart = refl

replace_atomically-IsAtomic_example :
    IsAtomic report
      (lit "new")
      one_file
      (replace_atomically disk_full report temporary (lit "new") one_file)
    × (IsSmooth disk_full 3
        → disk_full.inspect ≡ none
        → disk_full.replace ≡ none
        → target_objection disk_full (one_file report) ≡ none
        → one_file temporary ≡ none
        → (replace_atomically disk_full report temporary (lit "new") one_file).0 ≡ written)
replace_atomically-IsAtomic_example =
    replace_atomically-IsAtomic disk_full refl report temporary (lit "new") one_file apart

abbrev request : Request
request = record {
  json = lit "{}";
  detailed = lit "all";
  brief = lit "few";
  conclusion = lit "done";
  json_mode = false;
  brief_mode = true;
  quiet = false;
  output_path = some report;
  force = false;
}

abbrev terminal : Stream
terminal = record {
  has_encoding = true;
  shown = λ t. t;
  stream_length = λ t. length t;
  ends = printed;
}

emit_output-IsContained_example :
    IsContained
      (eqb 32)
      (λ t. t)
      no_faults
      temporary
      terminal
      false
      false
      (some report)
      one_file
      (emit_output (eqb 32) (λ t. t) no_faults temporary terminal request one_file)
emit_output-IsContained_example =
    emit_output-IsContained (eqb 32) (λ t. t) no_faults temporary terminal request one_file
