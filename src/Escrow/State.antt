-- ===== src/Escrow/State.antt =====
-- The stored types of contracts/chainsetttle/src/lib.rs that the modelled parts use, and their keys
-- of the contract's storage. A key that is absent is held as the default that its readers take.
use chainsettle_contract.Base.{ℕ, Bool, false, Option, none, List, []}
use chainsettle_contract.Base.Dict.{Dict}
use chainsettle_contract.Base.Int.{ℤ, pos}
use chainsettle_contract.Base.Token.{Transfer}
use chainsettle_contract.Escrow.Policy.{Policy, Tallies, no_policy, no_tallies}
use chainsettle_contract.Escrow.Shipment.{Deal}

pub record FeeConfig : Type 0 where
  pub fee_bps : ℕ
  pub treasury : ℕ

pub record FeeRecipient : Type 0 where
  pub recipient : ℕ
  pub share_bps : ℕ

pub record FeeHoliday : Type 0 where
  pub start_ledger : ℕ
  pub end_ledger : ℕ

pub record FeeTier : Type 0 where
  pub min_lifetime_volume : ℤ
  pub tier_bps : ℕ

-- `vault_balances` holds `VaultBalance(buyer, token)` under the token and then the buyer; `sent` are
-- the token transfers made so far, newest first.
pub record Escrow : Type 0 where
  pub halted : Bool
  pub emergency_frozen : Bool
  pub vault_balances : Dict (Dict ℤ)
  pub total_vaulted : Dict ℤ
  pub fund_from_vault : Dict Bool
  pub refund_recipient : Dict (Option ℕ)
  pub fee_config : Option FeeConfig
  pub fee_recipients : Option (List FeeRecipient)
  pub fee_holiday : Option FeeHoliday
  pub fee_tiers : List FeeTier
  pub fee_waivers : Dict (Option (ℕ × ℕ))
  pub lifetime_volume : Dict ℤ
  pub fee_override : Dict (Option ℕ)
  pub locked_fee_bps : Dict (Option ℕ)
  pub fees_paid : Dict ℤ
  pub treasury_revenue : Dict ℤ
  pub breaker_limit : ℤ
  pub breaker_window : ℕ
  pub breaker_start : ℕ
  pub breaker_outflow : ℤ
  pub spending_limits : Dict (Option (ℤ × ℕ))
  pub spending_usage : Dict (ℕ × ℤ)
  pub rate_limit : Option (ℕ × ℕ)
  pub rate_exempt : Dict Bool
  pub creation_usage : Dict (ℕ × ℕ)
  pub cancel_config : Dict (Option (ℕ × ℕ × ℕ))
  pub cancel_cooldown_until : Dict ℕ
  pub cancel_usage : Dict (ℕ × ℕ)
  pub deals : Dict (Option Deal)
  pub policy : Policy
  pub tallies : Tallies
  pub total_escrowed : Dict ℤ
  pub sent : List Transfer

abbrev pub new_escrow : Escrow
new_escrow = record {
  halted = false;
  emergency_frozen = false;
  vault_balances = [];
  total_vaulted = [];
  fund_from_vault = [];
  refund_recipient = [];
  fee_config = none;
  fee_recipients = none;
  fee_holiday = none;
  fee_tiers = [];
  fee_waivers = [];
  lifetime_volume = [];
  fee_override = [];
  locked_fee_bps = [];
  fees_paid = [];
  treasury_revenue = [];
  breaker_limit = pos 0;
  breaker_window = 0;
  breaker_start = 0;
  breaker_outflow = pos 0;
  spending_limits = [];
  spending_usage = [];
  rate_limit = none;
  rate_exempt = [];
  creation_usage = [];
  cancel_config = [];
  cancel_cooldown_until = [];
  cancel_usage = [];
  deals = [];
  policy = no_policy;
  tallies = no_tallies;
  total_escrowed = [];
  sent = [];
}
