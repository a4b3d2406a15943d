-- ===== src/Loan/Handlers/Borrower.antt =====
-- The borrowers' entry points of contracts/loan_manager/src/lib.rs.
pub mod Sound
pub mod Health
use chainsettle_contract.Base.{ℕ, Bool, not, if◌then◌else◌}
use chainsettle_contract.Base.Int.{
  ℤ, pos, ltb_ℤ, leb_ℤ, eqb_ℤ, min_ℤ, i128_max, saturating_add, saturating_sub,
}
use chainsettle_contract.Base.Result.{Result, ok, panic_if, add_i128, sub_i128, ◌>>=◌, ◌>>◌}
use chainsettle_contract.Loan.Engine.{health_ratio, units_to_value}
use chainsettle_contract.Loan.Guards.{as_user, positive}
use chainsettle_contract.Loan.Host.{Env, transfer}
use chainsettle_contract.Loan.Oracle.{require_price}
use chainsettle_contract.Loan.Store.{
  Market, Position, Store, require_market, get_position, save_position,
}

unfoldable pub reduce_borrowed : Store → ℤ → Store
reduce_borrowed s amount = record s { total_borrowed = saturating_sub s.total_borrowed amount }

-- `num >= den` of `health_ratio`, for `coll` and `debt` units at the given prices.
pub is_covered : Market → ℤ → ℤ → ℤ → ℤ → Bool
is_covered market coll debt price_coll price_debt =
    let ratio =
      health_ratio (units_to_value coll price_coll) (units_to_value debt price_debt)
        market.liq_threshold_bps in
    leb_ℤ ratio.1 ratio.0

unfoldable pub deposit_collateral : Env → ℕ → ℤ → Store → Result Store
deposit_collateral env user amount s = do
  market ← as_user env s user
  positive amount
  s₁ ← transfer env market.collateral_token user env.contract amount s
  let p = get_position s₁ user
  coll ← add_i128 p.collateral amount
  ok (save_position s₁ user (record p { collateral = coll }))

unfoldable pub borrow : Env → ℕ → ℤ → Store → Result Store
borrow env user amount s = do
  market ← as_user env s user
  positive amount
  panic_if (ltb_ℤ (saturating_sub s.total_deposits s.total_borrowed) amount)
      "insufficient pool liquidity"
  let p = get_position s user
  (price_coll, s₁) ← require_price env s market.collateral_token
  (price_debt, s₂) ← require_price env s₁ market.debt_token
  panic_if
      (not (is_covered market p.collateral (saturating_add p.debt amount) price_coll price_debt))
      "insufficient collateral"
  s₃ ← transfer env market.debt_token env.contract user amount s₂
  debt ← add_i128 p.debt amount
  let s₄ = save_position s₃ user (record p { debt = debt })
  tb ← add_i128 s₄.total_borrowed amount
  ok (record s₄ { total_borrowed = tb })

unfoldable pub repay : Env → ℕ → ℤ → Store → Result Store
repay env user requested s = do
  market ← as_user env s user
  positive requested
  let p = get_position s user
  let amount = min_ℤ requested p.debt
  panic_if (eqb_ℤ amount (pos 0)) "nothing to repay"
  s₁ ← transfer env market.debt_token user env.contract amount s
  debt ← sub_i128 p.debt amount
  ok (reduce_borrowed (save_position s₁ user (record p { debt = debt })) amount)

-- The check of `withdraw_collateral` on a position that has debt.
pub check_withdrawal : Env → Market → Position → ℤ → Store → Result Store
check_withdrawal env market p amount s = do
  (price_coll, s₁) ← require_price env s market.collateral_token
  (price_debt, s₂) ← require_price env s₁ market.debt_token
  left ← sub_i128 p.collateral amount
  panic_if (not (is_covered market left p.debt price_coll price_debt))
      "withdrawal would undercollateralize position"
  ok s₂

unfoldable pub withdraw_collateral : Env → ℕ → ℤ → Store → Result Store
withdraw_collateral env user amount s = do
  market ← as_user env s user
  positive amount
  let p = get_position s user
  panic_if (ltb_ℤ p.collateral amount) "insufficient collateral"
  s₁ ← if ltb_ℤ (pos 0) p.debt then check_withdrawal env market p amount s else ok s
  s₂ ← transfer env market.collateral_token env.contract user amount s₁
  coll ← sub_i128 p.collateral amount
  ok (save_position s₂ user (record p { collateral = coll }))

-- A view, but its price lookups record observations.
pub health_factor : Env → ℕ → Store → Result ((ℤ × ℤ) × Store)
health_factor env user s = do
  market ← require_market s
  let p = get_position s user
  let held = do
    (price_coll, s₁) ← require_price env s market.collateral_token
    (price_debt, s₂) ← require_price env s₁ market.debt_token
    let coll_value = units_to_value p.collateral price_coll
    let debt_value = units_to_value p.debt price_debt
    ok (health_ratio coll_value debt_value market.liq_threshold_bps, s₂)
  if eqb_ℤ p.debt (pos 0) then ok ((pos i128_max, pos 1), s) else held
