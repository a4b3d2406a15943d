-- ===== src/Escrow/Tests.antt =====
-- The escrow's parts at concrete states.
use chainsettle_contract.Base.{
  ℕ, ◌+◌, ◌*◌, ◌/◌, ◌≡◌, refl, ◌⊎◌, true, not, some, List, [], ◌∷◌, arith, ◌==◌, length,
}
use chainsettle_contract.Base.Int.{ℤ, pos, ◌+ℤ◌, ◌≤ℤ◌, ◌≈◌}
use chainsettle_contract.Base.Result.{Post}
use chainsettle_contract.Escrow.Fees.{configured_bps, resolve_fee_bps_for, take_fee, pay_recipients}
use chainsettle_contract.Escrow.Fees.Net.{IsPaidTo, take_fee_splits}
use chainsettle_contract.Escrow.Fees.Recipients.{IsOverpaid, pay_recipients_over}
use chainsettle_contract.Escrow.Fees.Tiers.{
  IsEarned, IsLowest, NoneReached, resolve_fee_bps_for-IsLowest,
}
use chainsettle_contract.Escrow.Host.{Ledger}
use chainsettle_contract.Escrow.Limits.Windows.{pay_all, pay_all_within}
use chainsettle_contract.Escrow.Split.{Part, apportion_split_weight, split_distribution}
use chainsettle_contract.Escrow.Split.Exact.{
  sum, SharesOut, apportion_split_weight-SharesOut, split_distribution-sum,
}
use chainsettle_contract.Escrow.State.{FeeRecipient, Escrow, new_escrow}
use chainsettle_contract.Escrow.Vault.History.{
  VaultCall, put_in, take_out, run_vault, IsBacked, run_vault-IsBacked,
}

abbrev pub here_address : ℕ
here_address = 9

abbrev pub at_ledger : ℕ → Ledger
at_ledger n = record {
  this_contract = here_address;
  approved = λ a. not (a == here_address);
  sequence = n;
  clock = n;
  carries = λ ts t. true;
  balance_of = λ ts token holder. pos 0;
  oracle_price = λ oracle token. pos 1;
}

-- A breaker of 1000 units in 50 ledgers, of which 100 have passed.
abbrev guarded : Escrow
guarded = record new_escrow {
  breaker_limit = pos 1000;
  breaker_window = 50;
  breaker_start = 10;
  breaker_outflow = pos 100;
}

abbrev payments : List (Ledger × ℤ)
payments = (at_ledger 20, pos 600) ∷ (at_ledger 30, pos 400) ∷ (at_ledger 40, pos 300) ∷ []

pay_all_within_example :
    guarded.breaker_outflow +ℤ (pay_all payments guarded).0 ≤ℤ guarded.breaker_limit
pay_all_within_example =
    pay_all_within payments guarded (record { on = refl; kept = omega arith })
      (omega arith, (omega arith, (omega arith, tt)))

abbrev thirds : List Part
thirds =
    record { name = "b"; payment_percent = 10 } ∷ record { name = "c"; payment_percent = 10 } ∷ []

abbrev first_third : Part
first_third = record { name = "a"; payment_percent = 10 }

apportion_split_weight-SharesOut_example :
    Post
      (apportion_split_weight 100 30 (first_third ∷ thirds))
      (SharesOut 100 (first_third ∷ thirds))
apportion_split_weight-SharesOut_example =
    apportion_split_weight-SharesOut 100 30 first_third thirds

abbrev weights : List ℕ
weights = 50 ∷ 30 ∷ 20 ∷ []

split_distribution-sum_example :
    Post
      (split_distribution 1 30 (first_third ∷ thirds) weights)
      (λ r. (sum r ≡ sum weights) × (length r + 1 ≡ length weights + length (first_third ∷ thirds)))
split_distribution-sum_example = split_distribution-sum 1 30 first_third thirds weights

abbrev vault_calls : List (Ledger × VaultCall)
vault_calls =
    (at_ledger 1, put_in 2 11 (pos 500))
    ∷ (at_ledger 2, put_in 3 11 (pos 70))
    ∷ (at_ledger 3, take_out 2 11 (pos 200))
    ∷ (at_ledger 4, take_out 3 11 (pos 100))
    ∷ []

new_escrow-IsBacked : IsBacked here_address new_escrow
new_escrow-IsBacked = record {
  vaulted = record { solvent = λ t. tt; booked = λ t. refl };
  covered = λ t. refl;
}

run_vault-IsBacked_example : IsBacked here_address (run_vault new_escrow vault_calls)
run_vault-IsBacked_example =
    run_vault-IsBacked here_address vault_calls new_escrow
      ((refl, refl), ((refl, refl), ((refl, refl), ((refl, refl), tt)))) new_escrow-IsBacked

abbrev charging : Escrow
charging = record new_escrow {
  fee_config = some (record { fee_bps = 250; treasury = 30 });
  fee_tiers =
      record { min_lifetime_volume = pos 100000; tier_bps = 100 }
      ∷ record { min_lifetime_volume = pos 10000; tier_bps = 180 }
      ∷ [];
  lifetime_volume = (2, pos 20000) ∷ [];
}

resolve_fee_bps_for-IsLowest_example :
    (NoneReached (pos 20000) charging.fee_tiers
      × (resolve_fee_bps_for charging 2 ≡ configured_bps charging))
    ⊎ (IsEarned (pos 20000) (resolve_fee_bps_for charging 2) charging.fee_tiers
        × IsLowest (pos 20000) (resolve_fee_bps_for charging 2) charging.fee_tiers)
resolve_fee_bps_for-IsLowest_example = resolve_fee_bps_for-IsLowest charging 2

take_fee_splits_example :
    Post
      (take_fee (at_ledger 5) (pos 999) 250 11 7 (record { fee_bps = 250; treasury = 30 }) charging)
      (λ (net, fee, s').
        (net +ℤ fee ≈ pos 999)
        × (fee ≡ pos (999 * 250 / 10000))
        × IsPaidTo (at_ledger 5) 11 30 fee charging.sent s'.sent)
take_fee_splits_example =
    take_fee_splits (at_ledger 5) 999 250 11 7 (record { fee_bps = 250; treasury = 30 }) charging

abbrev halves : List FeeRecipient
halves = record { recipient = 32; share_bps = 5000 } ∷ []

abbrev first_half : FeeRecipient
first_half = record { recipient = 31; share_bps = 5000 }

pay_recipients_over_example :
    Post
      (pay_recipients (at_ledger 5) 11 (pos 100) true (first_half ∷ halves) (pos 0) charging)
      (IsOverpaid (at_ledger 5) 11 100 first_half halves charging)
pay_recipients_over_example = pay_recipients_over (at_ledger 5) 11 100 first_half halves charging
