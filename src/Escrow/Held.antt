-- ===== src/Escrow/Held.antt =====
-- `release_held_payment` (contracts/chainsetttle/src/lib.rs): a payment that was held back is paid once
-- its holdback is over.
pub mod Frame
pub mod Step
mod Tests
use chainsettle_contract.Base.{ℕ, Bool, true, false, not, Option, none, some, ltb, if◌then◌else◌}
use chainsettle_contract.Base.Dict.{get, erase}
use chainsettle_contract.Base.Int.{ℤ}
use chainsettle_contract.Base.Result.{
  Result, ok, panic_if, or_panic, add_i128, sub_i128, ◌>>=◌, ◌>>◌,
}
use chainsettle_contract.Escrow.Complete.{complete_held}
use chainsettle_contract.Escrow.Confirm.{is_open, save}
use chainsettle_contract.Escrow.Fees.{bps_of, deduct_fee}
use chainsettle_contract.Escrow.Host.{Ledger}
use chainsettle_contract.Escrow.Limits.{check_circuit_breaker}
use chainsettle_contract.Escrow.Payout.{Desk, set_shipment, pay_some, pay_milestone_to_payees}
use chainsettle_contract.Escrow.Settle.{
  append_audit, pay_logistics, pay_referral, release_collateral_share, record_release_counters,
  set_tallies, check_address_outflow,
}
use chainsettle_contract.Escrow.Settlement.{set_milestone, leave_escrow}
use chainsettle_contract.Escrow.Shipment.{confirmed, confirmed_held, Milestone, all_milestones_done}
use chainsettle_contract.Escrow.State.{Escrow}
use chainsettle_contract.Escrow.Terms.{
  first_buyer, milestone_at, milestone_gross_payment, consume_advance,
}

abbrev pub is_held : Milestone → Bool
is_held m = elim m.status [ confirmed_held ↦ true | _ ↦ false ]

-- The share of the payment that a grade leaves to the supplier.
pub graded : ℤ → Option (ℕ × ℕ) → Result ℤ
graded gross none = ok gross
graded gross (some (grade, grade_bps)) = bps_of gross grade_bps

-- The advance is used up, the fee is deducted and the limits on outflows are kept: the advance, the net
-- payment, and the state.
pub charge_held : Ledger → ℕ → ℤ → Desk → Result (ℤ × ℤ × Desk)
charge_held env index payment d = do
  (advance, deal) ← consume_advance index d.deal
  (net, s) ← deduct_fee env payment deal.shipment.token d.escrow
  s' ← check_circuit_breaker env payment s
  t ← check_address_outflow env deal.shipment.supplier payment s'.tallies
  ok (advance, net, record { deal = deal; escrow = record s' { tallies = t } })

-- The release is entered in the shipment, and collateral is released.
pub enter_release : Ledger → ℕ → Milestone → ℤ → Desk → Result Desk
enter_release env index m gross d = do
  let x = d.deal.shipment
  released ← add_i128 x.released_amount gross
  let x' =
      record (set_milestone index (record m { status = confirmed; release_after_ledger = 0 }) x) {
        released_amount = released;
        last_confirmed_milestone_index = some index;
      }
  release_collateral_share env index (set_shipment d x')

-- What is left after the fee and the advance goes to logistics, referrer and payees.
pub distribute_held : Ledger → ℕ → ℤ → ℤ → Desk → Result Desk
distribute_held env index payment actual d = do
  (after_logistics, d₁) ← pay_logistics env payment actual d
  (left, d₂) ← pay_referral env after_logistics d₁
  d₃ ← pay_milestone_to_payees env index left d₂
  let x = d₃.deal.shipment
  buyer ← first_buyer x
  t ← record_release_counters x.supplier buyer x.token payment left d₃.escrow.tallies
  ok (set_tallies d₃ t)

-- The buyer gets back what a grade leaves of the payment.
pub settle_grade : Ledger → ℕ → Option (ℕ × ℕ) → ℤ → Desk → Result Desk
settle_grade env index none refund d = ok d
settle_grade env index (some grade) refund d = do
  buyer ← first_buyer d.deal.shipment
  d₁ ←
      pay_some env buyer refund
        (record d { deal = record d.deal { pending_grade = erase index d.deal.pending_grade } })
  ok (
      set_shipment d₁ (
        append_audit env env.this_contract "grade_settled" "release_held_payment" d₁.deal.shipment))

-- `release_held_payment` after its guards.
pub release_held : Ledger → ℕ → ℕ → Milestone → Desk → Result Desk
release_held env shipment_id index m d = do
  gross ← milestone_gross_payment d.deal index
  let grade = get none index d.deal.pending_grade
  payment ← graded gross grade
  refund ← sub_i128 gross payment
  (advance, net, d₁) ← charge_held env index payment d
  d₂ ← enter_release env index m gross d₁
  actual ← sub_i128 net advance
  d₃ ← distribute_held env index payment actual d₂
  d₄ ← settle_grade env index grade refund d₃
  let completed_too = complete_held env shipment_id d₄
  d₅ ← if all_milestones_done d₄.deal.shipment.milestones then completed_too else ok d₄
  leave_escrow gross advance d₅

pub release_held_payment : Ledger → ℕ → ℕ → Escrow → Result Escrow
release_held_payment env shipment_id index s = do
  panic_if s.halted "contract is paused"
  panic_if s.emergency_frozen "contract is under emergency freeze"
  deal ← or_panic (get none shipment_id s.deals) "shipment not found"
  panic_if (not (is_open deal.shipment)) "shipment is not active"
  m ← milestone_at deal.shipment index
  panic_if (not (is_held m)) "milestone is not in ConfirmedHeld status"
  panic_if (ltb env.sequence m.release_after_ledger) "holdback period not yet expired"
  d ← release_held env shipment_id index m (record { deal = deal; escrow = s })
  ok (save shipment_id d)
