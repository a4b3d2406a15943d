-- ===== src/Escrow/Claim.antt =====
-- What a supplier with batched payouts has coming, and how he claims it
-- (contracts/chainsetttle/src/lib.rs).
pub mod Paid
mod Tests
use chainsettle_contract.Base.{
  ℕ, Bool, false, ◌&&◌, Option, none, some, List, [], ◌==◌, if◌then◌else◌,
}
use chainsettle_contract.Base.Dict.{Dict, get, insert}
use chainsettle_contract.Base.Int.{ℤ, pos, ◌/ℤ◌, ltb_ℤ, leb_ℤ}
use chainsettle_contract.Base.Result.{Result, ok, panic_if, mul_i128, ◌>>=◌, ◌>>◌}
use chainsettle_contract.Base.Token.{Transfer}
use chainsettle_contract.Escrow.Host.{
  Ledger, require_signature, send, assert_running, assert_stored_admin,
}
use chainsettle_contract.Escrow.State.{Escrow}

-- The contract's state with the keys `PayoutCurrencyPreference(supplier)`, `ConversionRateBps(from,
-- to)`, by the first token and then by the second, and `Admin`.
pub record PayoutDesk : Type 0 where
  pub ledgers : Escrow
  pub preferences : Dict (Option ℕ)
  pub conversion_rates : Dict (Dict (Option ℕ))
  pub administrator : Option ℕ

-- The code of the operation `claim`.
abbrev pub claim_operation : ℕ
claim_operation = 5

abbrev pub get_pending_payout : PayoutDesk → ℕ → ℤ
get_pending_payout c supplier = get (pos 0) supplier c.ledgers.tallies.pending_payout

abbrev pub get_conversion_rate : PayoutDesk → ℕ → ℕ → Option ℕ
get_conversion_rate c from to = get none to (get [] from c.conversion_rates)

set_payout_mode : Ledger → ℕ → Bool → PayoutDesk → Result PayoutDesk
set_payout_mode env supplier batched c = do
  require_signature env supplier
  let policy = record c.ledgers.policy {
    batched_payouts = insert supplier batched c.ledgers.policy.batched_payouts;
  }
  ok (record c { ledgers = record c.ledgers { policy = policy } })

set_payout_currency_preference : Ledger → ℕ → ℕ → PayoutDesk → Result PayoutDesk
set_payout_currency_preference env supplier preferred c = do
  require_signature env supplier
  ok (record c { preferences = insert supplier (some preferred) c.preferences })

abbrev put_rate : ℕ → ℕ → Option ℕ → PayoutDesk → PayoutDesk
put_rate from to rate c = record c {
  conversion_rates =
      insert from (insert to rate (get [] from c.conversion_rates)) c.conversion_rates;
}

set_conversion_rate : Ledger → ℕ → ℕ → ℕ → ℕ → PayoutDesk → Result PayoutDesk
set_conversion_rate env admin from to rate_bps c = do
  require_signature env admin
  assert_stored_admin c.administrator admin
  panic_if (rate_bps == 0) "rate_bps must be > 0"
  ok (put_rate from to (some rate_bps) c)

clear_conversion_rate : Ledger → ℕ → ℕ → ℕ → PayoutDesk → Result PayoutDesk
clear_conversion_rate env admin from to c = do
  require_signature env admin
  assert_stored_admin c.administrator admin
  ok (put_rate from to none c)

-- What is paid out, and in which token: the amount converted to the preferred token, where there is a
-- rate for it and the contract holds enough.
pub converted_at : Ledger → ℕ → ℕ → ℤ → List Transfer → Option ℕ → Result (ℕ × ℤ)
converted_at env token preferred due ts none = ok (token, due)
converted_at env token preferred due ts (some rate) = do
  product ← mul_i128 due (pos rate)
  let converted = product /ℤ pos 10000
  ok (
      if ltb_ℤ (pos 0) converted && leb_ℤ converted (env.balance_of ts preferred env.this_contract)
      then (preferred, converted)
      else (token, due))

pub payout_of : Ledger → ℕ → ℤ → PayoutDesk → Option ℕ → Result (ℕ × ℤ)
payout_of env token due c none = ok (token, due)
payout_of env token due c (some preferred) =
    let converted =
      converted_at env token preferred due c.ledgers.sent (get_conversion_rate c token preferred) in
    if preferred == token then ok (token, due) else converted

abbrev pub without_pending : ℕ → PayoutDesk → Escrow
without_pending supplier c = record c.ledgers {
  tallies = record c.ledgers.tallies {
    pending_payout = insert supplier (pos 0) c.ledgers.tallies.pending_payout;
  };
}

pub claim_payout : Ledger → ℕ → ℕ → PayoutDesk → Result PayoutDesk
claim_payout env supplier token c = do
  assert_running c.ledgers
  panic_if (get false claim_operation c.ledgers.policy.paused_operations) "operation is paused"
  require_signature env supplier
  let due = get_pending_payout c supplier
  panic_if (leb_ℤ due (pos 0)) "no pending payout"
  (payout_token, amount) ← payout_of env token due c (get none supplier c.preferences)
  s ← send env payout_token env.this_contract supplier amount (without_pending supplier c)
  ok (record c { ledgers = s })
