-- ===== src/Svc/Limits/Tests.antt =====
-- Runs of the limits of svcdoctor.py, and the theorem at concrete levels.
use opsforge.Prelude.Decimal.{is_decimal, number}
use opsforge.Prelude.Dict.{lookup}
use opsforge.Prelude.{split_on, ◌==◌, ◌≡◌, refl, List, [], ◌∷◌, lit, All}
use opsforge.Result.{value}
use opsforge.Svc.{Properties}
use opsforge.Svc.Limits.{Limit, unknown, unlimited, limited, effective_limit, effective_limits}
use opsforge.Svc.Limits.Tightest.{HasId, Says, effective_limit-Says}

-- A unit and its slice: the unit has more memory than the slice.
abbrev unit : Properties
unit =
    (lit "Id", lit "a.service")
    ∷ (lit "MemoryMax", lit "2048")
    ∷ (lit "MemoryHigh", lit "infinity")
    ∷ (lit "CPUQuotaPerSecUSec", lit "1.5s")
    ∷ (lit "TasksMax", lit "many")
    ∷ []

abbrev slice : Properties
slice =
    (lit "Id", lit "s.slice")
    ∷ (lit "MemoryMax", lit "1024")
    ∷ (lit "MemoryHigh", lit "infinity")
    ∷ (lit "CPUQuotaPerSecUSec", lit "1s 500ms")
    ∷ (lit "TasksMax", lit "9")
    ∷ []

abbrev levels : List Properties
levels = unit ∷ slice ∷ []

levels-HasId : All HasId levels
unfolding lookup ◌==◌
levels-HasId = ((lit "a.service", refl), ((lit "s.slice", refl), tt))

effective_limit-Says_example :
    (limit : Limit) × (effective_limit (lit "MemoryMax") levels ≡ value limit)
    × Says (lit "MemoryMax") levels limit
effective_limit-Says_example = effective_limit-Says (lit "MemoryMax") levels levels-HasId

-- Of two equal limits the nearest one is taken.
all_limits :
    effective_limits levels
    ≡ value (
        (lit "MemoryMax", limited (lit "1024") (lit "s.slice"))
        ∷ (lit "MemoryHigh", unlimited)
        ∷ (lit "CPUQuotaPerSecUSec", limited (lit "1.5s") (lit "a.service"))
        ∷ (lit "TasksMax", unknown)
        ∷ [])
unfolding effective_limits ◌==◌ lookup is_decimal number split_on
all_limits = refl
