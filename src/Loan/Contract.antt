-- ===== src/Loan/Contract.antt =====
-- The contract as a whole (contracts/loan_manager/src/lib.rs): any sequence of calls. A call that
-- panics is reverted by the host.
pub mod History
pub mod Access
use chainsettle_contract.Loan.Handlers.Admin
use chainsettle_contract.Loan.Handlers.Liquidity
use chainsettle_contract.Loan.Handlers.Borrower
use chainsettle_contract.Loan.Handlers.Liquidation
use chainsettle_contract.Base.{ℕ, Option, List, [], ◌∷◌}
use chainsettle_contract.Base.Int.{ℤ}
use chainsettle_contract.Base.Result.{Result, ok, panic}
use chainsettle_contract.Loan.Host.{Env}
use chainsettle_contract.Loan.Oracle.{resolve_price}
use chainsettle_contract.Loan.Store.{Store}

-- The entry points that change state, with their arguments.
pub data Call : Type 0 where
  init : ℕ → Call
  set_oracles : ℕ → Option ℕ → Option ℕ → Call
  set_market : ℕ → ℕ → ℕ → ℕ → Call
  set_liq_params : ℕ → ℕ → ℕ → ℕ → Call
  pause unpause : ℕ → Call
  deposit withdraw deposit_collateral borrow repay withdraw_collateral : ℕ → ℤ → Call
  liquidate : ℕ → ℕ → ℤ → Call
  health_factor record_price preview_price : ℕ → Call

abbrev pub without_result {ℓ} : {A : Type ℓ} → Result (A × Store) → Result Store
without_result (ok (a, s)) = ok s
without_result (panic e) = panic e

pub call : Env → Call → Store → Result Store
call env (init a) s = Admin.init env a s
call env (set_oracles a p q) s = Admin.set_oracles env a p q s
call env (set_market a c d t) s = Admin.set_market env a c d t s
call env (set_liq_params a b m l) s = Admin.set_liq_params env a b m l s
call env (pause a) s = Admin.pause env a s
call env (unpause a) s = Admin.unpause env a s
call env (deposit u x) s = Liquidity.deposit env u x s
call env (withdraw u x) s = Liquidity.withdraw env u x s
call env (deposit_collateral u x) s = Borrower.deposit_collateral env u x s
call env (borrow u x) s = Borrower.borrow env u x s
call env (repay u x) s = Borrower.repay env u x s
call env (withdraw_collateral u x) s = Borrower.withdraw_collateral env u x s
call env (liquidate l b x) s = without_result (Liquidation.liquidate env l b x s)
call env (health_factor u) s = without_result (Borrower.health_factor env u s)
call env (record_price a) s = Liquidation.record_price env a s
call env (preview_price a) s = without_result (resolve_price env s a)

abbrev pub committed : Store → Result Store → Store
committed s (ok s') = s'
committed s (panic e) = s

pub run : Store → List (Env × Call) → Store
run s [] = s
run s ((env, c) ∷ cs) = run (committed s (call env c s)) cs
