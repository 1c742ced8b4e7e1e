-- ===== src/Process/Tests.antt =====
-- Runs of `run_bounded` of common/process.py, and the theorem at concrete data.
use opsforge.Prelude.{◌≡◌, refl, true, false, some, List, [], ◌∷◌, lit, ◌==◌}
use opsforge.Process.{stdout_read, stderr_read, Round, finished, run_bounded}
use opsforge.Process.Bounds.{IsBounded, run_bounded-IsBounded}

abbrev rounds : List Round
rounds =
    record { is_late = false; events = stdout_read (lit "abc") ∷ stderr_read [] ∷ [] }
    ∷ record { is_late = false; events = stdout_read (lit "def") ∷ [] }
    ∷ []

cut_short : run_bounded 4 true 9 (some 0) [] rounds ≡ finished 9 (lit "abcd") [] true
unfolding run_bounded ◌==◌
cut_short = refl

run_bounded-IsBounded_example :
    IsBounded 4 true 9 (some 0) (run_bounded 4 true 9 (some 0) [] rounds)
run_bounded-IsBounded_example = run_bounded-IsBounded 4 true 9 (some 0) [] rounds
