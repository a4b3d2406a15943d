-- ===== src/Loan/Handlers/Liquidity.antt =====
-- `deposit` and `withdraw` of contracts/loan_manager/src/lib.rs.
pub mod Sound
use chainsettle_contract.Base.{ℕ}
use chainsettle_contract.Base.Int.{ℤ, ltb_ℤ, saturating_sub}
use chainsettle_contract.Base.Result.{Result, ok, panic_if, add_i128, sub_i128, ◌>>=◌, ◌>>◌}
use chainsettle_contract.Loan.Guards.{as_user, positive}
use chainsettle_contract.Loan.Host.{Env, transfer}
use chainsettle_contract.Loan.Store.{
  Store, get_depositor_balance, set_depositor_balance, register_depositor,
}

unfoldable pub deposit : Env → ℕ → ℤ → Store → Result Store
deposit env depositor amount s = do
  market ← as_user env s depositor
  positive amount
  s₁ ← transfer env market.debt_token depositor env.contract amount s
  bal ← add_i128 (get_depositor_balance s₁ depositor) amount
  let s₂ = register_depositor (set_depositor_balance s₁ depositor bal) depositor
  td ← add_i128 s₂.total_deposits amount
  ok (record s₂ { total_deposits = td })

unfoldable pub withdraw : Env → ℕ → ℤ → Store → Result Store
withdraw env depositor amount s = do
  market ← as_user env s depositor
  positive amount
  panic_if (ltb_ℤ (get_depositor_balance s depositor) amount) "insufficient depositor balance"
  panic_if (ltb_ℤ (saturating_sub s.total_deposits s.total_borrowed) amount)
      "insufficient pool liquidity"
  s₁ ← transfer env market.debt_token env.contract depositor amount s
  left ← sub_i128 (get_depositor_balance s depositor) amount
  let s₂ = set_depositor_balance s₁ depositor left
  td ← sub_i128 s₂.total_deposits amount
  ok (record s₂ { total_deposits = td })
