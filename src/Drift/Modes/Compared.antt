-- ===== src/Drift/Modes/Compared.antt =====
-- What it means that `compare_files_mode` of configdiff.py finds no drift in the exact mode.
use opsforge.Prelude.{
  ℕ, ◌≡◌, refl, ap, ◌↔◌, subst, Bool, true, false, ◌&&◌, ◌||◌, not, Option, none, some, List, arith,
  Text, ◌==◌, eq_iff,
}
use opsforge.Result.{value, value->>=, value_inj}
use opsforge.Drift.{same_number?, FileObservation}
use opsforge.Drift.Values.{Loaded}
use opsforge.Drift.Modes.{
  exact, ComparisonResult, metadata_drift_of, compare_contents, diff_if, is_none, compare_read,
  compare_files_mode,
}

same_number?_iff : (a b : Option ℕ) → (same_number? a b ≡ true) ↔ (a ≡ b)
unfolding same_number?
same_number?_iff none none = (λ h. refl, λ h. refl)
same_number?_iff none (some n) = (λ h. cc, λ h. cc)
same_number?_iff (some m) none = (λ h. cc, λ h. cc)
same_number?_iff (some m) (some n) = ground arith

-- Two observed files that count as the same.
abbrev pub Same :
    (permissions ownership : Bool) → Text × Text × FileObservation × FileObservation → Type 0
Same permissions ownership p =
    (p.0 ≡ p.1)
    × (permissions ≡ true → p.2.mode ≡ p.3.mode)
    × (ownership ≡ true → (p.2.uid ≡ p.3.uid) × (p.2.gid ≡ p.3.gid))

drift_lem :
    (permissions ownership : Bool) (b c : Text) (bo co : FileObservation)
    → ((not (b == c) || not (is_none (metadata_drift_of permissions ownership bo co))) ≡ false)
      ↔ Same permissions ownership (b, c, bo, co)
unfolding metadata_drift_of
drift_lem permissions ownership b c bo co = ground (
  arith,
  eq_iff b c,
  same_number?_iff bo.mode co.mode,
  same_number?_iff bo.uid co.uid,
  same_number?_iff bo.gid co.gid,
)

module _ {F : Type 0} (same_float : F → F → Bool) (load_json : Text → Loaded F)
    (decode : Text → Option Text) (text_lines : Text → List Text)
    (unified_diff : (baseline current : List Text) (fromfile tofile : Text) → List Text) where
  -- An exact comparison that gives a result finds no drift exactly when the contents are equal, the
  -- modes are equal if permissions are compared, and the owners and groups are equal if ownership is.
  pub compare_files_mode_exact :
      (permissions ownership : Bool) (keys : List Text) (unified : Bool) (limit : ℕ)
      (p : Text × Text × FileObservation × FileObservation) (r : ComparisonResult)
      → compare_files_mode same_float load_json decode text_lines unified_diff exact permissions
          ownership keys unified limit
          (value p)
        ≡ value r
      → (r.drift_detected ≡ false) ↔ Same permissions ownership p
  unfolding compare_files_mode compare_read compare_contents
  compare_files_mode_exact permissions ownership keys unified limit (b, c, bo, co) r h =
      let (d, e, k) =
        value->>=
          (diff_if same_float load_json decode text_lines unified_diff (unified && not (b == c))
            limit b c bo co)
          _ r h in
      let drift : (not (b == c) || not (is_none (metadata_drift_of permissions ownership bo co)))
          ≡ r.drift_detected =
        ap (λ x. x.drift_detected) (value_inj _ r k) in
      subst (λ x. (x ≡ false) ↔ Same permissions ownership (b, c, bo, co)) drift
        (drift_lem permissions ownership b c bo co)
