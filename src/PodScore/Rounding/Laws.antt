-- ===== src/PodScore/Rounding/Laws.antt =====
-- Bounds and monotonicity of rounding and of the blended proration.
use testingmulti.Common.{sym, zero}
use testingmulti.Common.{Bool-cases, inl, inr, ltb, ◌∙◌}
use testingmulti.Common.{ap}
use testingmulti.PodScore.Rounding.{validation_bucket}
use testingmulti.Common.{suc, ◌-◌}
use testingmulti.PodScore.Rounding.{round_ratio}
use testingmulti.Common.{arith, subst, ℕ, ◌%◌, ◌*◌, ◌+◌, ◌/◌, ◌<◌, ◌≡◌, ◌≤◌}
use native.Mathlib.Nat.{
  mul-zero, mul-suc, div-le_of_le-mul, div-add-mod, mul_comm, mul-div_left, mul-mod_left,
  mul-le-mul_right,
}

-- A quotient that reaches its bound leaves no remainder.
full_quotient : (n d k q r : ℕ) → d * q + r ≡ n → n ≤ k * d → q ≡ k → r ≡ 0
full_quotient n d k q r e h f = grind (arith, mul_comm k d)

-- Rounding keeps a quotient under a whole bound.
pub round_ratio-le : (n d k : ℕ) → 0 < d → n ≤ k * d → round_ratio n d ≤ k
unfolding round_ratio
round_ratio-le n d k h e =
    let q_le = div-le_of_le-mul d (subst (λ x. n ≤ x) (mul_comm k d) e) in
    let rest = full_quotient n d k (n / d) (n % d) (div-add-mod n d) e in ground arith

-- A whole quotient is its own rounding.
pub round_ratio_whole : (k d : ℕ) → 0 < d → round_ratio (k * d) d ≡ k
unfolding round_ratio
round_ratio_whole k d h = let q = mul-div_left k h in let r = mul-mod_left k d in ground arith

-- The rounding of fortieths steps by at most one as the numerator grows by less than 40.
round_40_step : (a d : ℕ) → d < 40 → round_ratio (a + d) 40 ≤ 1 + round_ratio a 40
unfolding round_ratio
round_40_step a d h = ground arith

round_40_mono : (a b : ℕ) → a ≤ b → round_ratio a 40 ≤ round_ratio b 40
unfolding round_ratio
round_40_mono a b h = ground arith

-- With all detail points, the bucket is full whatever the identity points are.
pub bucket_all_details : (r : ℕ) → r ≤ 40 → validation_bucket r 40 ≡ 40
unfolding validation_bucket
bucket_all_details r h =
    let e = ap (λ x. round_ratio x 40) (mul_comm 40 (40 - r)) in
    omega (arith, e, round_ratio_whole (40 - r) 40 (omega arith))

-- With all identity points, the bucket is full whatever the detail points are.
pub bucket_all_references : (d : ℕ) → validation_bucket 40 d ≡ 40
unfolding validation_bucket
bucket_all_references d =
    let e = ap (λ x. round_ratio x 40) (mul-zero d) in
    omega (arith, e, round_ratio_whole 0 40 (omega arith))

pub bucket-le : (r d : ℕ) → r ≤ 40 → d ≤ 40 → validation_bucket r d ≤ 40
unfolding validation_bucket
bucket-le r d h k =
    let share = mul-le-mul_right (40 - r) k in
    let rounded =
      round_ratio-le (d * (40 - r)) 40 (40 - r) (omega arith)
        (omega (arith, share, mul_comm 40 (40 - r))) in
    omega arith

-- One more identity point never costs more than it brings.
bucket_step : (r d : ℕ) → r < 40 → d ≤ 40 → validation_bucket r d ≤ validation_bucket (suc r) d
unfolding validation_bucket
bucket_step r d h k =
    let left : (40 - r) ≡ suc (40 - suc r) = omega arith in
    let spent = ap (λ x. round_ratio x 40) (ap (λ x. d * x) left ∙ mul-suc d (40 - suc r)) in
    elim (Bool-cases (ltb d 40)) [
      | inl small ↦
          let step = round_40_step (d * (40 - suc r)) d (ground (arith, small)) in
          omega (arith, spent, step)
      | inr full ↦
          let all_40 : d ≡ 40 = ground (arith, full) in
          subst (λ e. validation_bucket r e ≤ validation_bucket (suc r) e) (sym all_40)
            (omega
              (arith, bucket_all_details r (omega arith), bucket_all_details (suc r) (omega arith)))
    ]

bucket_references_mono :
    (n r d : ℕ) → n + r ≤ 40 → d ≤ 40 → validation_bucket r d ≤ validation_bucket (n + r) d
bucket_references_mono zero r d h k =
    let same : 0 + r ≡ r = omega arith in omega (arith, ap (λ x. validation_bucket x d) same)
bucket_references_mono (suc n) r d h k =
    let same : suc n + r ≡ suc (n + r) = omega arith in
    omega (
      arith,
      ap (λ x. validation_bucket x d) same,
      bucket_references_mono n r d (omega arith) k,
      bucket_step (n + r) d (omega arith) k,
    )

bucket_details_mono : (r d e : ℕ) → d ≤ e → validation_bucket r d ≤ validation_bucket r e
unfolding validation_bucket
bucket_details_mono r d e h =
    omega (arith, round_40_mono (d * (40 - r)) (e * (40 - r)) (mul-le-mul_right (40 - r) h))

-- More identity points and more detail points never lower the bucket.
pub bucket_mono :
    (r s d e : ℕ) → r ≤ s → s ≤ 40 → d ≤ e → e ≤ 40 → validation_bucket r d ≤ validation_bucket s e
bucket_mono r s d e h k i j =
    let sum : (s - r) + r ≡ s = omega arith in
    let more = bucket_references_mono (s - r) r e (omega arith) j in
    let same = ap (λ x. validation_bucket x e) sum in
    omega (arith, bucket_details_mono r d e i, more, same)
