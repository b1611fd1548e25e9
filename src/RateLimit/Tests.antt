-- ===== src/RateLimit/Tests.antt =====
-- The limiter on concrete histories.
use nusantara_panel.Base.{codes, Text, not, ◌&&◌, [], ◌∷◌, ◌≡◌, leb, ltb}
use nusantara_panel.Base.Table.{lookup-nil}
use nusantara_panel.RateLimit.{LoginLimiter, allow}
use nusantara_panel.RateLimit.Lockout.{failures, streak, allow-failures}

abbrev strict : LoginLimiter
strict = record { max_fail = 2; window = 10; entries = [] }

abbrev ann : Text
ann = codes "ann"

allow-failures_example :
    (allow ann 25 (failures ann (20 ∷ 15 ∷ []) strict)).0
    ≡ not (leb 2 (streak 10 (20 ∷ 15 ∷ [])) && ltb 25 30)
allow-failures_example = allow-failures ann strict (lookup-nil ann) 25 20 (15 ∷ [])
