-- ===== src/Escrow/Preview/Tests.antt =====
-- The preview of a milestone that is late, with an advance.
use chainsettle_contract.Base.{◌≡◌, refl, Option, none, some, arith}
use chainsettle_contract.Base.Int.{ℤ, pos, ◌-ℤ◌, ◌*ℤ◌, ◌/ℤ◌}
use chainsettle_contract.Base.Result.{Result, ok, panic, panic_if, or_panic, checked_i128, Post}
use chainsettle_contract.Escrow.Confirm.Tests.{shipped, deal_x, escrow_x}
use chainsettle_contract.Escrow.Fees.{fee_holiday_active, resolve_fee_waiver_bps, bps_of, waived}
use chainsettle_contract.Escrow.Payout.{Desk, percent_of}
use chainsettle_contract.Escrow.Preview.{
  PayoutPreview, preview_fee, preview_logistics, preview_settled, preview_milestone_payout,
}
use chainsettle_contract.Escrow.Preview.Agrees.{IsForeseen, preview_milestone_payout-IsForeseen}
use chainsettle_contract.Escrow.Shipment.{is_final_milestone}
use chainsettle_contract.Escrow.Terms.{
  milestone_full_gross_payment, milestone_gross_payment, capped_penalty, late_penalty,
}
use chainsettle_contract.Escrow.Tests.{at_ledger}

abbrev desk_before : Desk
desk_before = record { deal = deal_x; escrow = escrow_x }

preview_milestone_payout-IsForeseen_example :
    Post
      (preview_milestone_payout (at_ledger 300) 77 0 escrow_x)
      (IsForeseen (at_ledger 300) 77 0 shipped desk_before desk_before)
preview_milestone_payout-IsForeseen_example =
    preview_milestone_payout-IsForeseen (at_ledger 300) 77 0 shipped desk_before desk_before refl
      refl refl refl (omega arith) refl

-- The amounts of a preview: what is left, the fee and the penalty.
abbrev amounts_of : Result PayoutPreview → Option (ℤ × ℤ × ℤ)
amounts_of (ok p) = some (p.supplier_net_amount, p.platform_fee, p.late_penalty_deducted)
amounts_of (panic e) = none

previewed_amounts :
    amounts_of (preview_milestone_payout (at_ledger 120) 77 0 escrow_x)
    ≡ some (pos 248, pos 9, pos 40)
unfolding preview_milestone_payout preview_settled preview_fee preview_logistics bps_of waived
    resolve_fee_waiver_bps is_final_milestone fee_holiday_active checked_i128 panic_if or_panic
    percent_of milestone_full_gross_payment milestone_gross_payment capped_penalty late_penalty ◌-ℤ◌
    ◌*ℤ◌ ◌/ℤ◌
previewed_amounts = refl
