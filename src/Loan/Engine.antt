-- ===== src/Loan/Engine.antt =====
-- contracts/loan_manager/src/liquidation.rs: health, bonus, conversions and the liquidation plan.
pub mod Bounds
pub mod Totality
pub mod Modes
use chainsettle_contract.Base.{ℕ, ◌-◌, Bool, not, ◌&&◌, ◌||◌, List, map, ◌==◌, if◌then◌else◌}
use chainsettle_contract.Base.Int.{
  ℤ, pos, ◌/ℤ◌, ltb_ℤ, leb_ℤ, eqb_ℤ, min_ℤ, max_ℤ, saturating_add, saturating_sub, saturating_mul,
  as_u32,
}
use chainsettle_contract.Base.Result.{Result, ok, add_i128, sub_i128, ◌>>=◌, ◌>>◌}
use chainsettle_contract.Base.Sum.{total}
use chainsettle_contract.Loan.Store.{price_scale, bps_denominator, target_hf_num, target_hf_den}

-- The fraction `(num, den)`.
unfoldable pub health_ratio : ℤ → ℤ → ℕ → ℤ × ℤ
health_ratio coll_value debt_value liq_threshold_bps =
    (saturating_mul coll_value (pos liq_threshold_bps), saturating_mul debt_value bps_denominator)

unfoldable pub is_liquidatable : ℤ → ℤ → Bool
is_liquidatable num den = ltb_ℤ (pos 0) den && ltb_ℤ num den

-- `Ord::clamp`, at bounds in order.
abbrev pub clamp : ℤ → ℤ → ℤ → ℤ
clamp x lo hi = if ltb_ℤ x lo then lo else if ltb_ℤ hi x then hi else x

-- The bonus before the clamp and the cap.
unfoldable pub raw_bonus : ℤ → ℤ → ℕ → ℕ → Result ℤ
raw_bonus num den base span =
    if leb_ℤ den (pos 0) || leb_ℤ den num || span == 0 then ok (pos base) else do
      below ← sub_i128 den num
      let depth_x2 = min_ℤ (saturating_mul below (pos 2)) (saturating_mul den (pos 2))
      add_i128 (pos base) (saturating_mul (pos span) depth_x2 /ℤ den)

unfoldable pub dynamic_bonus_bps : ℤ → ℤ → ℕ → ℕ → ℕ → Result ℕ
dynamic_bonus_bps num den base_bonus_bps max_bonus_bps penalty_cap_bps = do
  let span = max_bonus_bps - base_bonus_bps
  bonus ← raw_bonus num den base_bonus_bps span
  top ← add_i128 (pos base_bonus_bps) (pos span)
  ok (as_u32 (min_ℤ (clamp bonus (pos base_bonus_bps) top) (pos penalty_cap_bps)))

unfoldable pub units_to_value : ℤ → ℤ → ℤ
units_to_value units price =
    if leb_ℤ price (pos 0) then pos 0 else saturating_mul units price /ℤ price_scale

pub value_to_units : ℤ → ℤ → ℤ
value_to_units value price =
    if leb_ℤ price (pos 0) then pos 0 else saturating_mul value price_scale /ℤ price

pub data RepayMode : Type 0 where
  partial_to_target full : RepayMode
  specified : ℤ → RepayMode

pub record LiquidationPlan : Type 0 where
  pub repay_units : ℤ
  pub seize_units : ℤ
  pub bonus_bps : ℕ
  pub bad_debt_units : ℤ

-- `n_bs`, NUM * BPS.
abbrev n_bs : ℤ
n_bs = saturating_mul target_hf_num bps_denominator

-- The repayment that the mode asks for, in value terms.
pub target_value : RepayMode → ℤ → ℤ → ℤ → ℤ → ℤ → ℤ
target_value partial_to_target coll_value debt_value price_debt thr gross =
    let denom =
      saturating_sub (saturating_mul n_bs bps_denominator)
        (saturating_mul (saturating_mul target_hf_den gross) thr) in
    let inner =
      saturating_sub (saturating_mul n_bs debt_value)
        (saturating_mul (saturating_mul target_hf_den thr) coll_value) in
    if ltb_ℤ (pos 0) denom
    then max_ℤ (saturating_mul bps_denominator (max_ℤ inner (pos 0)) /ℤ denom) (pos 0)
    else debt_value
target_value full coll_value debt_value price_debt thr gross = debt_value
target_value (specified units) coll_value debt_value price_debt thr gross =
    units_to_value (max_ℤ units (pos 0)) price_debt

-- From `let mut repay_value`: the repayment after the caps by the debt and by the collateral.
pub capped_repay : ℤ → ℤ → ℤ → ℤ → Result ℤ
capped_repay target coll_value debt_value gross = do
  let repay_value = max_ℤ (min_ℤ target debt_value) (pos 0)
  less ← sub_i128 gross (pos 1)
  let affordable = saturating_add (saturating_mul coll_value bps_denominator) less /ℤ gross
  ok (max_ℤ (min_ℤ repay_value affordable) (pos 0))

-- From `let seize_value`: the seizure, and the debt left once the collateral is drained.
pub seizure : ℤ → ℤ → ℤ → ℤ → ℤ → ℤ → ℕ → ℤ → Result LiquidationPlan
seizure coll_units debt_units price_coll coll_value repay_value repay_units bonus_bps gross = do
  let seize_value = saturating_mul repay_value gross /ℤ bps_denominator
  let seize_units = max_ℤ (min_ℤ (value_to_units seize_value price_coll) coll_units) (pos 0)
  let drained = ltb_ℤ (pos 0) coll_value && leb_ℤ coll_value seize_value
  remaining_debt ← sub_i128 debt_units repay_units
  ok (record {
    repay_units = repay_units;
    seize_units = seize_units;
    bonus_bps = bonus_bps;
    bad_debt_units = if drained then remaining_debt else pos 0;
  })

-- The plan for a position that is liquidatable, at a given bonus.
pub planned : ℤ → ℤ → ℤ → ℤ → ℤ → ℤ → ℕ → ℕ → RepayMode → Result LiquidationPlan
planned coll_units debt_units price_coll price_debt coll_value debt_value thr bonus_bps mode = do
  let gross = saturating_add bps_denominator (pos bonus_bps)
  repay_value ←
      capped_repay (target_value mode coll_value debt_value price_debt (pos thr) gross) coll_value
        debt_value gross
  let repay_units = max_ℤ (min_ℤ (value_to_units repay_value price_debt) debt_units) (pos 0)
  if eqb_ℤ repay_units (pos 0)
      then ok (record {
        repay_units = pos 0;
        seize_units = pos 0;
        bonus_bps = bonus_bps;
        bad_debt_units = debt_units;
      })
      else seizure coll_units debt_units price_coll coll_value repay_value repay_units bonus_bps
          gross

pub compute_plan : ℤ → ℤ → ℤ → ℤ → ℕ → ℕ → ℕ → ℕ → RepayMode → Result LiquidationPlan
compute_plan coll_units debt_units price_coll price_debt thr base_bonus max_bonus cap mode = do
  let coll_value = units_to_value coll_units price_coll
  let debt_value = units_to_value debt_units price_debt
  let num = (health_ratio coll_value debt_value thr).0
  let den = (health_ratio coll_value debt_value thr).1
  bonus_bps ← dynamic_bonus_bps num den base_bonus max_bonus cap
  if not (is_liquidatable num den)
      then ok (record {
        repay_units = pos 0;
        seize_units = pos 0;
        bonus_bps = bonus_bps;
        bad_debt_units = pos 0;
      })
      else planned coll_units debt_units price_coll price_debt coll_value debt_value thr bonus_bps
          mode

pub proportional_shares : List ℤ → ℤ → ℤ → List ℤ
proportional_shares balances total loss =
    if leb_ℤ total (pos 0) || leb_ℤ loss (pos 0)
    then map (λ b. pos 0) balances
    else map (λ b. saturating_mul b loss /ℤ total) balances
