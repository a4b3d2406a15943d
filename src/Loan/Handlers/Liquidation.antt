-- ===== src/Loan/Handlers/Liquidation.antt =====
-- `liquidate` and the price keeper of contracts/loan_manager/src/lib.rs.
pub mod Stored
pub mod Executed
pub mod Sound
use chainsettle_contract.Base.{ℕ, ◌&&◌, ◌==◌, if◌then◌else◌}
use chainsettle_contract.Base.Dict.{erase}
use chainsettle_contract.Base.Int.{ℤ, pos, ltb_ℤ, leb_ℤ, eqb_ℤ, i128_max, saturating_sub}
use chainsettle_contract.Base.Result.{Result, ok, panic, panic_if, add_i128, sub_i128, ◌>>=◌, ◌>>◌}
use chainsettle_contract.Loan.Engine.{
  RepayMode, partial_to_target, full, specified, LiquidationPlan, compute_plan,
}
use chainsettle_contract.Loan.Guards.{require_not_paused, as_user}
use chainsettle_contract.Loan.Handlers.Borrower.{reduce_borrowed}
use chainsettle_contract.Loan.Host.{Env, transfer}
use chainsettle_contract.Loan.Oracle.{resolve_price}
use chainsettle_contract.Loan.Socialize.{socialize_bad_debt}
use chainsettle_contract.Loan.Store.{Market, Position, Store, get_position, save_position}

pub record LiquidationResult : Type 0 where
  pub repay_units : ℤ
  pub seize_units : ℤ
  pub bonus_bps : ℕ
  pub bad_debt_socialized : ℤ

-- `FULL_REPAY_SENTINEL`
abbrev full_repay_sentinel : ℤ
full_repay_sentinel = pos i128_max

pub repay_mode : ℤ → Result RepayMode
repay_mode repay_amount =
    if eqb_ℤ repay_amount full_repay_sentinel
    then ok full
    else if eqb_ℤ repay_amount (pos 0)
    then ok partial_to_target
    else if ltb_ℤ repay_amount (pos 0)
    then panic "invalid amount"
    else ok (specified repay_amount)

-- `if units > 0 { transfer }`
abbrev pub transfer_some : Env → ℕ → ℕ → ℕ → ℤ → Store → Result Store
transfer_some env token sender receiver units s =
    if ltb_ℤ (pos 0) units then transfer env token sender receiver units s else ok s

pub store_position : Store → ℕ → Position → Store
store_position s borrower p =
    if eqb_ℤ p.collateral (pos 0) && eqb_ℤ p.debt (pos 0)
    then record s { positions = erase borrower s.positions }
    else save_position s borrower p

-- From the first transfer on: the funds move and the plan is applied.
pub execute_plan :
    Env → Market → ℕ → ℕ → Position → LiquidationPlan → Store → Result (LiquidationResult × Store)
execute_plan env market liquidator borrower p plan s = do
  s₁ ← transfer_some env market.debt_token liquidator env.contract plan.repay_units s
  s₂ ← transfer_some env market.collateral_token env.contract liquidator plan.seize_units s₁
  coll ← sub_i128 p.collateral plan.seize_units
  let debt = saturating_sub (saturating_sub p.debt plan.repay_units) plan.bad_debt_units
  cleared ← add_i128 plan.repay_units plan.bad_debt_units
  let s₃ = reduce_borrowed s₂ cleared
  (socialized, s₄) ←
      if ltb_ℤ (pos 0) plan.bad_debt_units
      then socialize_bad_debt s₃ plan.bad_debt_units
      else ok (pos 0, s₃)
  ok (
    record {
      repay_units = plan.repay_units;
      seize_units = plan.seize_units;
      bonus_bps = plan.bonus_bps;
      bad_debt_socialized = socialized;
    },
    store_position s₄ borrower (record { collateral = coll; debt = debt }),
  )

unfoldable pub liquidate : Env → ℕ → ℕ → ℤ → Store → Result (LiquidationResult × Store)
liquidate env liquidator borrower repay_amount s = do
  market ← as_user env s liquidator
  panic_if (liquidator == borrower) "cannot self-liquidate"
  let p = get_position s borrower
  panic_if (leb_ℤ p.debt (pos 0)) "position not liquidatable"
  (res_coll, s₁) ← resolve_price env s market.collateral_token
  (res_debt, s₂) ← resolve_price env s₁ market.debt_token
  let params = s₂.liq_params
  mode ← repay_mode repay_amount
  plan ←
      compute_plan p.collateral p.debt res_coll.price res_debt.price market.liq_threshold_bps
        params.base_bonus_bps params.max_bonus_bps params.penalty_cap_bps mode
  panic_if (eqb_ℤ plan.repay_units (pos 0) && eqb_ℤ plan.bad_debt_units (pos 0))
      "position not liquidatable"
  execute_plan env market liquidator borrower p plan s₂

unfoldable pub record_price : Env → ℕ → Store → Result Store
record_price env asset s = do require_not_paused s; (r, s') ← resolve_price env s asset; ok s'
