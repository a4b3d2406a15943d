-- ===== src/Loan/Handlers/Admin.antt =====
-- The administrator's entry points of contracts/loan_manager/src/lib.rs.
pub mod Sound
use chainsettle_contract.Base.{ℕ, true, false, ◌||◌, Option, some, ltb, ◌==◌, is_some}
use chainsettle_contract.Base.Result.{Result, ok, panic_if, ◌>>◌}
use chainsettle_contract.Loan.Store.{
  Store, default_params, max_liq_threshold_bps, max_configurable_bonus_bps,
}
use chainsettle_contract.Loan.Host.{Env, require_auth}
use chainsettle_contract.Loan.Guards.{as_admin}

unfoldable pub init : Env → ℕ → Store → Result Store
init env admin s = do
  require_auth env admin
  panic_if (is_some s.admin) "already initialized"
  ok (record s { admin = some admin; liq_params = default_params })

unfoldable pub set_oracles : Env → ℕ → Option ℕ → Option ℕ → Store → Result Store
set_oracles env admin primary secondary s = do
  as_admin env s admin
  ok (record s { primary_oracle = primary; secondary_oracle = secondary })

unfoldable pub set_market : Env → ℕ → ℕ → ℕ → ℕ → Store → Result Store
set_market env admin collateral_token debt_token liq_threshold_bps s = do
  as_admin env s admin
  panic_if (liq_threshold_bps == 0 || ltb max_liq_threshold_bps liq_threshold_bps)
      "invalid liquidation threshold"
  panic_if (collateral_token == debt_token) "collateral and debt tokens must differ"
  ok (record s {
    market = some (record {
      collateral_token = collateral_token;
      debt_token = debt_token;
      liq_threshold_bps = liq_threshold_bps;
    });
  })

unfoldable pub set_liq_params : Env → ℕ → ℕ → ℕ → ℕ → Store → Result Store
set_liq_params env admin base_bonus_bps max_bonus_bps penalty_cap_bps s = do
  as_admin env s admin
  panic_if
      (ltb max_configurable_bonus_bps base_bonus_bps
        || ltb max_configurable_bonus_bps max_bonus_bps
        || ltb max_configurable_bonus_bps penalty_cap_bps)
      "bonus parameters exceed maximum"
  panic_if (ltb max_bonus_bps base_bonus_bps) "base bonus cannot exceed max bonus"
  ok (record s {
    liq_params = record {
      base_bonus_bps = base_bonus_bps;
      max_bonus_bps = max_bonus_bps;
      penalty_cap_bps = penalty_cap_bps;
    };
  })

unfoldable pub pause : Env → ℕ → Store → Result Store
pause env admin s = do as_admin env s admin; ok (record s { paused = true })

unfoldable pub unpause : Env → ℕ → Store → Result Store
unpause env admin s = do as_admin env s admin; ok (record s { paused = false })
