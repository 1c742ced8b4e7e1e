-- ===== src/Output/Emit/Destination.antt =====
-- Where the output of common/output.py goes.
use opsforge.Prelude.{ℕ, ◌≡◌, refl, ap, ◌∙◌, Bool, true, false, Option, none, some, Text, arith}
use opsforge.Output.Files.{Files, Faults}
use opsforge.Output.Files.Keeping.{Keeps, write_new-Keeps}
use opsforge.Output.Emit.{
  Request, Stream, Emission, render, bounded_output, write_output, print_output, deliver, emit_to,
  emit_output,
}

module _ (is_space : ℕ → Bool) (encode : Text → Text) (faults : Faults) (temporary : Text)
    (stream : Stream) where
  -- What an emission keeps to.
  pub record IsContained (quiet force : Bool) (path : Option Text) (files : Files) (e : Emission)
      : Type 0 where
    pub quiet_prints_nothing : quiet ≡ true → path ≡ none → e.printed_text ≡ none
    pub file_prints_nothing : (p : Text) → path ≡ some p → e.printed_text ≡ none
    pub no_path_no_file : path ≡ none → e.files ≡ files
    pub no_force_no_loss : force ≡ false → Keeps files e.files

  print_output-files :
      (rendered : Text) (files : Files)
      → (print_output is_space encode faults temporary stream rendered files).files ≡ files
  unfolding print_output
  print_output-files rendered files = ground arith

  deliver-IsContained :
      (force : Bool) (path : Option Text) (o : Option (Text × Text)) (files : Files)
      → IsContained false force path files
          (deliver is_space encode faults temporary stream force path o files)
  unfolding deliver write_output
  deliver-IsContained force path none files = record {
    quiet_prints_nothing = λ q e. refl;
    file_prints_nothing = λ p e. refl;
    no_path_no_file = λ e. refl;
    no_force_no_loss = λ g p f h. h;
  }
  deliver-IsContained force (some path) (some (rendered, encoded)) files = record {
    quiet_prints_nothing = λ q e. refl;
    file_prints_nothing = λ p e. refl;
    no_path_no_file = λ e. cc;
    no_force_no_loss =
        λ gentle. rw (gentle, write_output) (write_new-Keeps faults path encoded files);
  }
  deliver-IsContained force none (some (rendered, encoded)) files = record {
    quiet_prints_nothing = λ q e. cc;
    file_prints_nothing = λ p e. cc;
    no_path_no_file = λ e. print_output-files rendered files;
    no_force_no_loss = λ g p f h. ap (λ l. l p) (print_output-files rendered files) ∙ h;
  }

  emit_to-IsContained :
      (quiet force : Bool) (path : Option Text) (o : Option (Text × Text)) (files : Files)
      → IsContained quiet force path files
          (emit_to is_space encode faults temporary stream quiet force path o files)
  unfolding emit_to
  emit_to-IsContained false force path o files = deliver-IsContained force path o files
  emit_to-IsContained true force none o files = record {
    quiet_prints_nothing = λ q e. refl;
    file_prints_nothing = λ p e. refl;
    no_path_no_file = λ e. refl;
    no_force_no_loss = λ g p f h. h;
  }
  emit_to-IsContained true force (some path) o files =
      let kept = deliver-IsContained force (some path) o files in
      record {
        quiet_prints_nothing = λ q e. cc;
        file_prints_nothing = kept.file_prints_nothing;
        no_path_no_file = kept.no_path_no_file;
        no_force_no_loss = kept.no_force_no_loss;
      }

  -- With an output file nothing is printed; without one no file changes, and with `quiet` nothing
  -- is printed either; without `force` no existing file is changed or lost, whatever call fails.
  pub emit_output-IsContained :
      (r : Request) (files : Files)
      → IsContained r.quiet r.force r.output_path files
          (emit_output is_space encode faults temporary stream r files)
  unfolding emit_output
  emit_output-IsContained r files =
      emit_to-IsContained r.quiet r.force r.output_path
        (bounded_output is_space encode (render is_space encode r)) files
