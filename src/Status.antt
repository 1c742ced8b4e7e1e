-- ===== src/Status.antt =====
-- opsforge/common/status.py: the exit statuses that every utility shares.
use opsforge.Prelude.{ℕ}

abbrev pub exit_ok : ℕ
exit_ok = 0

abbrev pub exit_finding : ℕ
exit_finding = 1

abbrev pub exit_usage : ℕ
exit_usage = 2

abbrev pub exit_failure : ℕ
exit_failure = 3

abbrev pub exit_interrupted : ℕ
exit_interrupted = 130
