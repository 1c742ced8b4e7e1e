-- ===== src/Svc/Assessed.antt =====
-- What the exit status of `assess_service` in svcdoctor.py says of the evidence.
use opsforge.Prelude.{
  ◌≡◌, ◌↔◌, ◌⊎◌, Bool, true, false, ◌||◌, Option, none, some, List, [], ◌∷◌, arith, Text, lit, ◌==◌,
}
use opsforge.Status.{exit_ok}
use opsforge.Svc.{Properties, property, assess_service}

-- systemd reports no trouble of the unit itself.
pub record IsSettled (properties : Properties) : Type 0 where
  pub not_failed : (property (lit "ActiveState") properties == lit "failed") ≡ false
  pub was_loaded : (property (lit "LoadState") properties == lit "bad-setting") ≡ false
  pub without_error : (property (lit "LoadState") properties == lit "error") ≡ false
  pub not_restarting : (property (lit "SubState") properties == lit "auto-restart") ≡ false

-- The unit is active; or its last result was no failure, and all of its dependencies were looked at
-- and none has failed.
abbrev pub IsExplained : Properties → Option (List Text) → Bool → Type 0
IsExplained properties failed truncated =
    ((property (lit "ActiveState") properties == lit "active") ≡ true)
    ⊎ (((property (lit "Result") properties == []
            || property (lit "Result") properties == lit "success")
          ≡ true)
        × (failed ≡ some [])
        × (truncated ≡ false))

-- `assess_service` gives the exit status 0 exactly when systemd reports neither a failure, nor a load
-- error, nor an automatic restart, and the service is active, or it is not, its last result was no
-- failure (it is empty or `success`) and every dependency was looked at with none failed. A property
-- that is missing is read as an empty one, and the dependencies of an active service do not count.
pub assess_service_ok_iff :
    (properties : Properties) (failed : Option (List Text)) (truncated : Bool)
    → ((assess_service properties failed truncated).1 ≡ exit_ok)
      ↔ (IsSettled properties × IsExplained properties failed truncated)
unfolding assess_service
assess_service_ok_iff properties none truncated = ground arith
assess_service_ok_iff properties (some []) truncated = ground arith
assess_service_ok_iff properties (some (n ∷ names)) truncated = ground arith
