-- ===== src/Loan/Engine/Modes.antt =====
-- What the plan is for each kind of position and request.
use native.Mathlib.Nat.{le_trans}
use chainsettle_contract.Base.{ℕ, ◌+◌, ◌-◌, ◌*◌, ◌≤◌, ◌<◌, ◌≡◌, refl, true, arith}
use chainsettle_contract.Base.Int.{
  ℤ, pos, negsuc, ◌*ℤ◌, ◌/ℤ◌, min_ℤ, max_ℤ, i128_max, in_i128, saturating_add, saturating_mul,
  u32_max, pos_sub, pos_div, saturating_mul_exact,
}
use chainsettle_contract.Base.Result.{ok, checked_i128, Post-ok, Returns, Returns-Post}
use chainsettle_contract.Loan.Engine.{
  health_ratio, is_liquidatable, dynamic_bonus_bps, units_to_value, value_to_units, RepayMode,
  specified, LiquidationPlan, target_value, capped_repay, planned, compute_plan,
}
use chainsettle_contract.Loan.Engine.Bounds.{
  dynamic_bonus_bounds, IsBounded, compute_plan-IsBounded,
}
use chainsettle_contract.Loan.Engine.Totality.{gross_pos, compute_plan-Returns}
use chainsettle_contract.Loan.Store.{bps_denominator}

-- On a position in range every request gets a plan: no arithmetic panics, the plan asks for no more
-- than the debt, seizes no more than the collateral, writes off no more than the debt that is left
-- after the repayment, and its bonus is within the penalty cap.
pub compute_plan_safe :
    (coll debt : ℕ) (price_coll price_debt : ℤ) (thr base top limit : ℕ) (mode : RepayMode)
    → debt ≤ i128_max
    → base ≤ u32_max
    → top ≤ u32_max
    → limit ≤ u32_max
    → (p : LiquidationPlan) × (compute_plan
          (pos coll)
          (pos debt)
          price_coll
          price_debt
          thr
          base
          top
          limit
          mode
        ≡ ok p)
      × (IsBounded (pos coll) (pos debt) p.bonus_bps p × (p.bonus_bps ≤ limit))
compute_plan_safe coll debt price_coll price_debt thr base top limit mode hd hb ht hl =
    Returns-Post _
      (compute_plan (pos coll) (pos debt) price_coll price_debt thr base top limit mode)
      (compute_plan-Returns coll debt price_coll price_debt thr base top limit mode hd hb ht hl)
      (compute_plan-IsBounded (pos coll) (pos debt) price_coll price_debt thr base top limit mode
        (omega arith) (omega arith) hl)

-- The health fraction of a position at given prices.
abbrev pub position_health : ℤ → ℤ → ℤ → ℤ → ℕ → ℤ × ℤ
position_health coll debt price_coll price_debt thr =
    health_ratio (units_to_value coll price_coll) (units_to_value debt price_debt) thr

dust_value :
    (units price : ℕ)
    → units * price < 100000000
    → units_to_value (max_ℤ (pos units) (pos 0)) (pos price) ≡ pos 0
unfolding units_to_value
dust_value units price h =
    let same : max_ℤ (pos units) (pos 0) ≡ pos units = ground arith in
    rw (same, saturating_mul_exact units price (omega arith), pos_div (units * price) 100000000)
      (ground arith)

-- What is held between zero and a target of zero is zero.
capped_zero :
    (coll_value debt_value : ℤ) (bonus : ℕ)
    → bonus ≤ u32_max
    → capped_repay (pos 0) coll_value debt_value (saturating_add bps_denominator (pos bonus))
      ≡ ok (pos 0)
unfolding capped_repay checked_i128
capped_zero coll_value debt_value bonus h =
    let inside : in_i128 (pos (10000 + bonus - 1)) ≡ true = ground arith in
    rw (gross_pos bonus h, pos_sub (10000 + bonus) 1 (omega arith), inside) (ground arith)

zero_units : (price debt : ℤ) → max_ℤ (min_ℤ (value_to_units (pos 0) price) debt) (pos 0) ≡ pos 0
unfolding value_to_units saturating_mul ◌*ℤ◌ ◌/ℤ◌
zero_units (pos p) debt = ground arith
zero_units (negsuc p) debt = ground arith

-- A request that is worth nothing at the debt's price, on a position that may be liquidated: nothing
-- is repaid or seized, and the whole debt is written off.
pub compute_plan_dust :
    (coll debt price_coll : ℤ) (units price_debt : ℕ) (thr base top limit : ℕ)
    → units * price_debt < 100000000
    → limit ≤ u32_max
    → let (num, den) = position_health coll debt price_coll (pos price_debt) thr in
      is_liquidatable num den ≡ true
      → Returns (dynamic_bonus_bps num den base top limit)
      → (bonus : ℕ) × (compute_plan coll debt price_coll
            (pos price_debt)
            thr
            base
            top
            limit
            (specified (pos units))
          ≡ ok (record {
            repay_units = pos 0;
            seize_units = pos 0;
            bonus_bps = bonus;
            bad_debt_units = debt;
          }))
unfolding compute_plan planned target_value
compute_plan_dust coll debt price_coll units price_debt thr base top limit dust l h (bonus, e) =
    let (num, den) = position_health coll debt price_coll (pos price_debt) thr in
    let capped : bonus ≤ u32_max =
      le_trans (Post-ok _ e (dynamic_bonus_bounds num den base top limit l)).0 l in
    (
      bonus,
      rw
          (
            e,
            h,
            dust_value units price_debt dust,
            capped_zero _ _ bonus capped,
            zero_units (pos price_debt) debt,
          )
          refl,
    )
