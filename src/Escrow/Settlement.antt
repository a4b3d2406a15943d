-- ===== src/Escrow/Settlement.antt =====
-- The two ends of `confirm_milestone` (contracts/chainsetttle/src/lib.rs): the payment is held back, or
-- it is settled: charged, entered, distributed, and the shipment completed with the last milestone.

pub mod Exact
pub mod Frame
use chainsettle_contract.Base.{ℕ, ◌+◌, ◌&&◌, some, ltb, if◌then◌else◌, get_or, set, contains}
use chainsettle_contract.Base.Int.{ℤ}
use chainsettle_contract.Base.Result.{Result, ok, add_i128, sub_i128, checked_u32, ◌>>=◌}
use chainsettle_contract.Escrow.Complete.{complete}
use chainsettle_contract.Escrow.Fees.{deduct_fee_at_completion}
use chainsettle_contract.Escrow.Host.{Ledger}
use chainsettle_contract.Escrow.Limits.{check_circuit_breaker}
use chainsettle_contract.Escrow.Payout.{
  Desk, set_escrow, set_shipment, pay_some, decrease_total_escrowed, pay_milestone_to_payees,
}
use chainsettle_contract.Escrow.Settle.{
  append_audit, pay_logistics, pay_referral, pay_early_bonus, release_collateral_share,
  record_timeliness, record_reliability, record_release_counters, add_lifetime_volume, set_tallies,
  check_address_outflow,
}
use chainsettle_contract.Escrow.Shipment.{
  confirmed, confirmed_held, Milestone, Shipment, all_milestones_done, is_final_milestone,
}
use chainsettle_contract.Escrow.Terms.{first_buyer, consume_advance, long_hold_rebate}

abbrev pub set_milestone : ℕ → Milestone → Shipment → Shipment
set_milestone index m x = record x { milestones = set x.milestones index m }

-- The branch for shipments with a holdback.
pub hold : Ledger → ℕ → ℕ → Milestone → Desk → Result Desk
hold env caller index m d = do
  release_after ← checked_u32 (env.sequence + d.deal.shipment.holdback_ledgers)
  let m' = record m { status = confirmed_held; release_after_ledger = release_after }
  let d₁ =
      set_tallies (set_shipment d (set_milestone index m' d.deal.shipment))
        (record_timeliness d.deal.shipment.supplier m' d.escrow.tallies)
  d₂ ← pay_early_bonus env m.deadline_ledger d₁
  ok (
      set_shipment d₂
        (append_audit env caller "milestone_confirmed" "confirm_milestone" d₂.deal.shipment))

-- The advance is used up, the fee is deducted and partly given back, and the limits on outflows are
-- kept: the advance, the net payment, and the state.
unfoldable pub charge : Ledger → ℕ → ℕ → ℤ → Desk → Result (ℤ × ℤ × Desk)
charge env shipment_id index payment d = do
  (advance, deal) ← consume_advance index d.deal
  let x = deal.shipment
  buyer ← first_buyer x
  (net, bps, fee, s) ←
      deduct_fee_at_completion env payment x.token shipment_id buyer
        (is_final_milestone x.milestones index) d.escrow
  (net', fee') ← long_hold_rebate env s.policy x net fee
  s' ← check_circuit_breaker env payment s
  t ← check_address_outflow env x.supplier payment s'.tallies
  ok (advance, net', record { deal = deal; escrow = record s' { tallies = t } })

-- The confirmation is entered in the shipment and in the counters, and collateral is released.
pub enter_confirmation : Ledger → ℕ → ℕ → Milestone → ℤ → Desk → Result Desk
enter_confirmation env caller index m payment d = do
  let x = append_audit env caller "milestone_confirmed" "confirm_milestone" d.deal.shipment
  let proof = get_or m.proof_submitted_ledger 0
  let t =
      if contains x.buyers caller && ltb 0 proof
      then record_reliability env caller proof d.escrow.tallies
      else d.escrow.tallies
  let m' = record m { status = confirmed }
  released ← add_i128 x.released_amount payment
  let x' = record (set_milestone index m' x) {
    released_amount = released;
    last_confirmed_milestone_index = some index;
  }
  d₁ ←
      release_collateral_share env index
        (set_tallies (set_shipment d x') (record_timeliness x.supplier m' t))
  buyer ← first_buyer x'
  s ← add_lifetime_volume buyer payment d₁.escrow
  ok (set_escrow d₁ s)

-- What is left after the fee and the advance goes to logistics, referrer and payees; the bonus and the
-- penalty come on top.
pub distribute : Ledger → ℕ → Milestone → ℤ → ℤ → ℤ → Desk → Result Desk
distribute env index m payment penalty actual d = do
  (after_logistics, d₁) ← pay_logistics env payment actual d
  (left, d₂) ← pay_referral env after_logistics d₁
  d₃ ← pay_early_bonus env m.deadline_ledger d₂
  d₄ ← pay_milestone_to_payees env index left d₃
  let x = d₄.deal.shipment
  buyer ← first_buyer x
  t ← record_release_counters x.supplier buyer x.token payment left d₄.escrow.tallies
  pay_some env buyer penalty (set_tallies d₄ t)

-- What the contract holds in escrow shrinks by the payment without the advance.
abbrev pub leave_escrow : ℤ → ℤ → Desk → Result Desk
leave_escrow payment advance d = do
  outflow ← sub_i128 payment advance
  s ← decrease_total_escrowed d.deal.shipment.token outflow d.escrow
  ok (set_escrow d s)

-- The branch without a holdback.
pub settle : Ledger → ℕ → ℕ → ℕ → Milestone → ℤ → ℤ → Desk → Result Desk
settle env caller shipment_id index m payment penalty d = do
  (advance, net, d₁) ← charge env shipment_id index payment d
  d₂ ← enter_confirmation env caller index m payment d₁
  actual ← sub_i128 net advance
  d₃ ← distribute env index m payment penalty actual d₂
  let completed_too = complete env caller shipment_id d₃
  d₄ ← if all_milestones_done d₃.deal.shipment.milestones then completed_too else ok d₃
  leave_escrow payment advance d₄
