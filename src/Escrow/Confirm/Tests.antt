-- ===== src/Escrow/Confirm/Tests.antt =====
-- The confirmation of milestones of a concrete shipment.
use chainsettle_contract.Base.{ℕ, ◌≡◌, refl, true, false, none, some, List, [], ◌∷◌, arith, set}
use chainsettle_contract.Base.Int.{ℤ, pos, ◌+ℤ◌, ◌-ℤ◌, ◌*ℤ◌, ◌/ℤ◌}
use chainsettle_contract.Base.Result.{
  Result, ok, panic, ◌>>=◌, panic_if, or_panic, checked_i128, Post,
}
use chainsettle_contract.Base.Token.{Transfer}
use chainsettle_contract.Escrow.Confirm.{joint_confirmation_required, vote, confirm_milestone}
use chainsettle_contract.Escrow.Confirm.Guards.{IsAllowed, confirm_milestone-IsAllowed}
use chainsettle_contract.Escrow.Confirm.Step.{IsConfirmation, confirm_milestone-IsConfirmation}
use chainsettle_contract.Escrow.Confirm.Votes.{vote_in_any_order}
use chainsettle_contract.Escrow.Fees.{
  fee_holiday_active, resolve_fee_waiver_bps, track_treasury_revenue, track_shipment_fees_paid,
  bps_of, waived, take_fee, charge_fee, deduct_fee_at_completion,
}
use chainsettle_contract.Escrow.Host.{send}
use chainsettle_contract.Escrow.Limits.{check_circuit_breaker}
use chainsettle_contract.Escrow.Payout.{Desk, pay_milestone_to_payees}
use chainsettle_contract.Escrow.Payout.Accounted.{Step}
use chainsettle_contract.Escrow.Payout.Disbursed.{Disburses}
use chainsettle_contract.Escrow.Payout.Exact.{IsShared, pay_milestone_to_payees-Disburses}
use chainsettle_contract.Escrow.Policy.{Policy, no_policy}
use chainsettle_contract.Escrow.Settle.{check_address_outflow}
use chainsettle_contract.Escrow.Settlement.{charge, settle}
use chainsettle_contract.Escrow.Settlement.Exact.{settle-Step}
use chainsettle_contract.Escrow.Shipment.{
  proof_submitted, confirmed, active, Milestone, AuditEntry, Shipment, Deal, is_final_milestone,
}
use chainsettle_contract.Escrow.State.{Escrow, new_escrow}
use chainsettle_contract.Escrow.Terms.{use_advance, long_hold_rebate}
use chainsettle_contract.Escrow.Tests.{at_ledger}

abbrev buyer_address : ℕ
buyer_address = 1

abbrev pub shipped : Milestone
shipped = record {
  name = "shipped";
  payment_percent = 40;
  proof_hash = "f00d";
  status = proof_submitted;
  release_after_ledger = 0;
  proof_submitted_ledger = some 100;
  dispute_opened_ledger = none;
  not_before_ledger = 0;
  deadline_ledger = 90;
  penalty_bps_per_ledger = 100;
}

abbrev pub delivered : Milestone
delivered = record shipped { name = "delivered"; payment_percent = 60; deadline_ledger = 200 }

abbrev pub shipment_x : Shipment
shipment_x = record {
  audit_log = [];
  buyers = buyer_address ∷ [];
  supplier = 2;
  logistics = 3;
  arbiter = 4;
  token = 5;
  total_amount = pos 1001;
  released_amount = pos 0;
  total_advanced_amount = pos 100;
  milestones = shipped ∷ delivered ∷ [];
  status = active;
  created_at = 50;
  holdback_ledgers = 0;
  late_penalty_bps_per_ledger = 0;
  auto_confirm_ledgers = 0;
  logistics_fee_bps = 100;
  referrer = none;
  early_bonus_pool = pos 20;
  early_bonus_remaining = pos 20;
  review_window_ledgers = none;
  last_confirmed_milestone_index = none;
}

abbrev pub deal_x : Deal
deal_x = record {
  shipment = shipment_x;
  on_hold = false;
  shipment_paused = false;
  delegate = none;
  co_buyer = none;
  joint_confirmation = [];
  inspected_milestones = [];
  inspection_reports = [];
  oracle_purpose = none;
  attestations = [];
  cooldown_override = none;
  milestone_splits = none;
  partial_released = [];
  advances =
      (0, some (record { requested_percent = 25; granted = true; amount_advanced = pos 100 })) ∷ [];
  pending_grade = [];
  incremental_collateral = true;
  incremental_base = pos 100;
  supplier_collateral = pos 100;
  milestone_supplier = [];
  milestone_payees =
      (0, record { payee = 7; percent = 33 } ∷ record { payee = 8; percent = 67 } ∷ []) ∷ [];
  payout_assignee = none;
  retainage_bps = 1000;
  retainage_balance = pos 0;
  warranty_config = some (500, 30);
  warranty_balance = pos 0;
  warranty_ends_at = none;
  completed_at = none;
  had_dispute = false;
}

abbrev pub escrow_x : Escrow
escrow_x = record new_escrow {
  fee_config = some (record { fee_bps = 250; treasury = 6 });
  deals = (77, some deal_x) ∷ [];
  total_escrowed = (5, pos 901) ∷ [];
}

-- Receivers and amounts, newest first.
abbrev receipts : List Transfer → List (ℕ × ℤ)
receipts [] = []
receipts (t ∷ ts) = (t.receiver, t.amount) ∷ receipts ts

abbrev pub receipts_of : Result Escrow → List (ℕ × ℤ)
receipts_of (ok s) = receipts s.sent
receipts_of (panic e) = []

abbrev first_run : List (ℕ × ℤ)
first_run = receipts_of (confirm_milestone (at_ledger 120) buyer_address 77 0 escrow_x)

abbrev second_run : List (ℕ × ℤ)
second_run = receipts_of (
    confirm_milestone (at_ledger 120) buyer_address 77 0 escrow_x >>= λ s.
    confirm_milestone (at_ledger 130) buyer_address 77 1 s)

-- Payees, retainage and warranty of `deal_x` at its two milestones.
deal_x-IsShared : IsShared 0 deal_x
deal_x-IsShared = record { shared = omega arith; withheld = omega arith }

abbrev desk_x : Desk
desk_x = record { deal = deal_x; escrow = escrow_x }

pay_milestone_to_payees-Disburses_example :
    Post (pay_milestone_to_payees (at_ledger 120) 0 (pos 248) desk_x) (Disburses (pos 248) desk_x)
pay_milestone_to_payees-Disburses_example =
    pay_milestone_to_payees-Disburses (at_ledger 120) 0 248 desk_x deal_x-IsShared

-- The charge of the first milestone.
abbrev charged : ℤ × ℤ × Desk
charged = (
  pos 100,
  pos 351,
  record {
    deal = record deal_x {
      advances = [];
      shipment = record shipment_x { total_advanced_amount = pos 0 };
    };
    escrow = record escrow_x {
      treasury_revenue = (5, pos 9) ∷ [];
      fees_paid = (77, pos 9) ∷ [];
      sent = record { token = 5; sender = 9; receiver = 6; amount = pos 9 } ∷ [];
    };
  },
)

settle-Step_example :
    Post (settle (at_ledger 120) buyer_address 77 0 shipped (pos 360) (pos 40) desk_x) (
      Step
        (pos 360 +ℤ pos 40 -ℤ pos 100)
        (set shipment_x.milestones 0 (record shipped { status = confirmed }))
        desk_x)
unfolding charge use_advance is_final_milestone deduct_fee_at_completion fee_holiday_active
    charge_fee take_fee bps_of waived resolve_fee_waiver_bps track_treasury_revenue
    track_shipment_fees_paid long_hold_rebate check_address_outflow check_circuit_breaker send
    checked_i128 ◌+ℤ◌ ◌-ℤ◌ ◌*ℤ◌ ◌/ℤ◌ panic_if or_panic
settle-Step_example =
    settle-Step (at_ledger 120) buyer_address 77 0 shipped (pos 360) (pos 40) desk_x deal_x-IsShared
      refl (omega arith) (pos 100) (pos 351) charged.2 refl (omega arith) refl

confirm_milestone-IsAllowed_example :
    Post
      (confirm_milestone (at_ledger 120) buyer_address 77 0 escrow_x)
      (λ s'. IsAllowed (at_ledger 120) buyer_address 77 0 escrow_x)
confirm_milestone-IsAllowed_example =
    confirm_milestone-IsAllowed (at_ledger 120) buyer_address 77 0 escrow_x

-- Shipments of more than 1000 need both sides.
abbrev joint_policy : Policy
joint_policy = record no_policy { joint_threshold = pos 1000 }

abbrev joint_deal : Deal
joint_deal = record deal_x { co_buyer = some 11 }

vote_in_any_order_example :
    let once = vote joint_policy 0 true false joint_deal in
    let again = vote joint_policy 0 true false once.1 in
    let both = vote joint_policy 0 false true again.1 in
    (once.0 ≡ false) × (again.0 ≡ false) × (both.0 ≡ true)
unfolding joint_confirmation_required
vote_in_any_order_example = vote_in_any_order joint_policy 0 true joint_deal refl refl

abbrev entry : ℕ → AuditEntry
entry n = record { action = "proof_submitted"; caller = 3; ledger = n; detail = "submit_proof" }

confirm_milestone-IsConfirmation_example :
    Post
      (confirm_milestone (at_ledger 120) buyer_address 77 0 escrow_x)
      (IsConfirmation (at_ledger 120) buyer_address 77 0 escrow_x)
confirm_milestone-IsConfirmation_example =
    confirm_milestone-IsConfirmation (at_ledger 120) buyer_address 77 0 escrow_x
