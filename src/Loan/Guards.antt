-- ===== src/Loan/Guards.antt =====
-- The guards that the entry points of contracts/loan_manager/src/lib.rs share.
use chainsettle_contract.Base.{ℕ, not, ◌==◌}
use chainsettle_contract.Base.Int.{ℤ, pos, leb_ℤ}
use chainsettle_contract.Base.Result.{Result, panic_if, ◌>>=◌, ◌>>◌}
use chainsettle_contract.Loan.Store.{Store, Market, require_admin, require_market}
use chainsettle_contract.Loan.Host.{Env, require_auth}

abbrev pub require_not_paused : Store → Result (Unit {0})
require_not_paused s = panic_if s.paused "contract is paused"

abbrev pub assert_admin : Store → ℕ → Result (Unit {0})
assert_admin s admin = do stored ← require_admin s; panic_if (not (stored == admin)) "unauthorized"

-- How each of the administrator's calls begins.
abbrev pub as_admin : Env → Store → ℕ → Result (Unit {0})
as_admin env s admin = require_auth env admin >> assert_admin s admin

-- How each of the users' calls begins.
abbrev pub as_user : Env → Store → ℕ → Result Market
as_user env s user = require_auth env user >> (require_not_paused s >> require_market s)

abbrev pub positive : ℤ → Result (Unit {0})
positive amount = panic_if (leb_ℤ amount (pos 0)) "invalid amount"
