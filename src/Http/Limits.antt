-- ===== src/Http/Limits.antt =====
-- How many entries a listing may ask for.
use nusantara_panel.Base.{ℕ, ◌≤◌, codes, arith, Unicode, trim_space, Text, ltb, if◌then◌else◌}
use nusantara_panel.Http.{Request, parse_limit, clamped}

clamped_bounds :
    (fallback : ℕ) (v : Text)
    → 1 ≤ fallback
    → fallback ≤ 500
    → (1 ≤ clamped fallback v) × (clamped fallback v ≤ 500)
clamped_bounds fallback v lo hi = ground arith

-- Whatever a request says, the limit that the handlers take from it lies between 1 and 500, if the
-- default does not exceed 500.
parse_limit_bounds :
    ⦃u : Unicode⦄
    → (req : Request) (given : ℕ) → given ≤ 500
    → (1 ≤ parse_limit req given) × (parse_limit req given ≤ 500)
unfolding parse_limit
parse_limit_bounds req given h =
    let fallback = if ltb 0 given then given else 100 in
    let (lo, hi) =
      clamped_bounds fallback (trim_space (req.query (codes "limit"))) (ground arith)
        (ground arith) in
    ground arith
