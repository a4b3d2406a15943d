-- ===== src/Escrow/Vault.antt =====
-- The buyers' vault (contracts/chainsetttle/src/lib.rs): what buyers hold in the contract.
pub mod Backing
pub mod History
use chainsettle_contract.Base.{ℕ, false, none, [], if◌then◌else◌, get_or}
use chainsettle_contract.Base.Dict.{Dict, get, insert}
use chainsettle_contract.Base.Int.{ℤ, pos, ltb_ℤ, leb_ℤ, max_ℤ}
use chainsettle_contract.Base.Result.{Result, ok, panic_if, add_i128, sub_i128, ◌>>=◌, ◌>>◌}
use chainsettle_contract.Base.Sum.{total}
use chainsettle_contract.Escrow.Host.{Ledger, require_signature, send, assert_running}
use chainsettle_contract.Escrow.State.{Escrow}

abbrev pub vault_of : Escrow → ℕ → Dict ℤ
vault_of s token = get [] token s.vault_balances

abbrev pub vault_balance : Escrow → ℕ → ℕ → ℤ
vault_balance s buyer token = get (pos 0) buyer (vault_of s token)

abbrev pub set_vault : Escrow → ℕ → ℕ → ℤ → ℤ → Escrow
set_vault s buyer token balance total = record s {
  vault_balances = insert token (insert buyer balance (vault_of s token)) s.vault_balances;
  total_vaulted = insert token total s.total_vaulted;
}

pub add_to_vault : ℕ → ℕ → ℤ → Escrow → Result Escrow
add_to_vault buyer token amount s = do
  balance ← add_i128 (vault_balance s buyer token) amount
  total ← add_i128 (get (pos 0) token s.total_vaulted) amount
  ok (set_vault s buyer token balance total)

pub take_from_vault : ℕ → ℕ → ℤ → Escrow → Result Escrow
take_from_vault buyer token amount s = do
  panic_if (ltb_ℤ (vault_balance s buyer token) amount) "insufficient vault balance"
  balance ← sub_i128 (vault_balance s buyer token) amount
  total ← sub_i128 (get (pos 0) token s.total_vaulted) amount
  ok (set_vault s buyer token balance (max_ℤ total (pos 0)))

pub vault_deposit : Ledger → ℕ → ℕ → ℤ → Escrow → Result Escrow
vault_deposit env buyer token amount s = do
  assert_running s
  require_signature env buyer
  panic_if (leb_ℤ amount (pos 0)) "amount must be greater than zero"
  s₁ ← send env token buyer env.this_contract amount s
  add_to_vault buyer token amount s₁

pub vault_withdraw : Ledger → ℕ → ℕ → ℤ → Escrow → Result Escrow
vault_withdraw env buyer token amount s = do
  assert_running s
  require_signature env buyer
  panic_if (leb_ℤ amount (pos 0)) "amount must be greater than zero"
  s₁ ← take_from_vault buyer token amount s
  send env token env.this_contract buyer amount s₁

debit_vault : ℕ → ℕ → ℤ → Escrow → Result Escrow
debit_vault buyer token amount s =
    if leb_ℤ amount (pos 0) then ok s else take_from_vault buyer token amount s

credit_vault : ℕ → ℕ → ℤ → Escrow → Result Escrow
credit_vault buyer token amount s =
    if leb_ℤ amount (pos 0) then ok s else add_to_vault buyer token amount s

-- `refund_token_to_buyer`, for the first buyer of the shipment.
refund_token_to_buyer : Ledger → ℕ → ℕ → ℕ → ℤ → Escrow → Result Escrow
refund_token_to_buyer env shipment_id primary_buyer token amount s =
    let recipient = get_or (get none shipment_id s.refund_recipient) primary_buyer in
    if leb_ℤ amount (pos 0)
    then ok s
    else if get false shipment_id s.fund_from_vault
    then credit_vault recipient token amount s
    else send env token env.this_contract recipient amount s
