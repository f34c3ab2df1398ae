-- ===== src/PodScore/Rounding.antt =====
-- Python's `round` on a quotient of natural numbers (half to even), and the blended proration of
-- `score_pod` (app/services/pod_lifecycle/pod_scoring.py).
pub mod Laws
use testingmulti.Common.{eqb, if◌then◌else◌, ltb, ℕ, ◌%◌, ◌*◌, ◌+◌, ◌-◌, ◌/◌}

-- `round(n / d)`
unfoldable pub round_ratio : ℕ → ℕ → ℕ
round_ratio n d =
    let q = n / d in
    let r = n % d in
    if ltb (2 * r) d then q else if ltb d (2 * r) then q + 1 else if eqb (q % 2) 0 then q else q + 1

-- `_VALIDATION_BUCKET_MAX`
abbrev pub validation_bucket_max : ℕ
validation_bucket_max = 40

-- The identity points and the share of the detail points that fills the capacity they leave
unfoldable pub validation_bucket : ℕ → ℕ → ℕ
validation_bucket ref_id_total detail_raw =
    let remaining = validation_bucket_max - ref_id_total in
    ref_id_total + round_ratio (detail_raw * remaining) validation_bucket_max
