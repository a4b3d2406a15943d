-- ===== src/Escrow/Confirm.antt =====
-- `confirm_milestone` (contracts/chainsetttle/src/lib.rs): the guards, the vote of two buyers, the
-- holdback, and the settlement.
pub mod Guards
pub mod Votes
pub mod Voters
pub mod Step
pub mod Tests
use chainsettle_contract.Base.{
  ℕ, Bool, true, false, not, ◌&&◌, ◌||◌, Option, none, some, [], ltb, ◌==◌, if◌then◌else◌, length,
  contains,
}
use chainsettle_contract.Base.Dict.{get, insert, erase}
use chainsettle_contract.Base.Int.{pos, ltb_ℤ}
use chainsettle_contract.Base.Result.{Result, ok, panic, ◌>>◌, panic_if, or_panic, sub_i128, ◌>>=◌}
use chainsettle_contract.Escrow.Host.{Ledger, require_signature}
use chainsettle_contract.Escrow.Payout.{Desk}
use chainsettle_contract.Escrow.Policy.{no_reputation, Policy, confirm_operation}
use chainsettle_contract.Escrow.Settlement.{hold, settle}
use chainsettle_contract.Escrow.Shipment.{
  proof_submitted, active, Milestone, Shipment, JointConfirmationStatus, unconfirmed, Deal,
}
use chainsettle_contract.Escrow.State.{Escrow}
use chainsettle_contract.Escrow.Terms.{
  milestone_at, milestone_gross_payment, late_penalty, confirmation_cooldown, is_fast_track,
  auto_confirm_window, check_cooldown, check_window,
}

-- `assert_operation_not_paused` for confirmations
pub assert_confirmation_open : Escrow → Result (Unit {0})
assert_confirmation_open s = do
  panic_if s.halted "contract is paused"
  panic_if s.emergency_frozen "contract is under emergency freeze"
  panic_if (get false confirm_operation s.policy.paused_operations) "operation is paused"

pub is_token_depegged : Ledger → Policy → ℕ → Bool
is_token_depegged env policy token = elim (get none token policy.depeg_guards) [
  | none ↦ false
  | some guard ↦
      let price = env.oracle_price guard.oracle token in
      ltb_ℤ price guard.min_price || ltb_ℤ guard.max_price price
]

abbrev pub is_open : Shipment → Bool
is_open x = elim x.status [ active ↦ true | _ ↦ false ]

abbrev pub has_proof : Milestone → Bool
has_proof m = elim m.status [ proof_submitted ↦ true | _ ↦ false ]

abbrev pub is_co_buyer : Deal → ℕ → Bool
is_co_buyer deal caller = elim deal.co_buyer [ none ↦ false | some a ↦ a == caller ]

pub authorise_delegate : Ledger → ℕ → Option ℕ → Result Bool
authorise_delegate env caller none = panic "unauthorized"
authorise_delegate env caller (some delegate) = do
  panic_if (not (caller == delegate)) "unauthorized"
  require_signature env caller
  ok true

-- The caller is the co-buyer, a buyer or the delegate, and has signed; whether it acts as a buyer.
pub authorise_confirmation : Ledger → ℕ → Deal → Result Bool
authorise_confirmation env caller deal =
    let is_buyer = contains deal.shipment.buyers caller in
    let as_delegate = authorise_delegate env caller deal.delegate in
    if is_co_buyer deal caller
    then require_signature env caller >> ok is_buyer
    else if is_buyer
    then require_signature env caller >> ok true
    else as_delegate

pub assert_inspection_complete : ℕ → Deal → Result (Unit {0})
assert_inspection_complete index deal =
    panic_if
      (contains deal.inspected_milestones index && not (get false index deal.inspection_reports))
      "inspector sign-off required"

pub assert_oracle_attestation_met : Policy → ℕ → Deal → Result (Unit {0})
assert_oracle_attestation_met policy index deal = elim deal.oracle_purpose [
  | none ↦ ok tt
  | some purpose ↦ elim (get none purpose policy.oracle_groups) [
    | none ↦ ok tt
    | some threshold ↦
        panic_if (ltb (length (get [] purpose (get [] index deal.attestations))) threshold)
          "required oracle attestation threshold not yet met"
  ]
]

pub joint_confirmation_required : Policy → Deal → Bool
joint_confirmation_required policy deal = elim deal.co_buyer [
  | none ↦ false
  | some a ↦
      ltb_ℤ (pos 0) policy.joint_threshold
      && ltb_ℤ policy.joint_threshold deal.shipment.total_amount
]

-- Both sides' votes with the caller's.
pub cast_vote : Bool → Bool → JointConfirmationStatus → JointConfirmationStatus
cast_vote acts_as_buyer acts_as_co_buyer v = record {
  buyer_confirmed = acts_as_buyer || v.buyer_confirmed;
  co_buyer_confirmed = acts_as_co_buyer || v.co_buyer_confirmed;
}

-- `record_joint_confirmation`: whether both have confirmed.
pub record_joint_confirmation : ℕ → Bool → Bool → Deal → Bool × Deal
record_joint_confirmation index acts_as_buyer acts_as_co_buyer deal =
    let v =
      cast_vote acts_as_buyer acts_as_co_buyer (get unconfirmed index deal.joint_confirmation) in
    if v.buyer_confirmed && v.co_buyer_confirmed
    then (true, record deal { joint_confirmation = erase index deal.joint_confirmation })
    else (false, record deal { joint_confirmation = insert index v deal.joint_confirmation })

-- The vote, where one is required: whether the confirmation goes on.
pub vote : Policy → ℕ → Bool → Bool → Deal → Bool × Deal
vote policy index acts_as_buyer acts_as_co_buyer deal =
    if joint_confirmation_required policy deal
    then record_joint_confirmation index acts_as_buyer acts_as_co_buyer deal
    else (true, deal)

-- The cooldown and the review window.
pub check_timing : Ledger → Milestone → Deal → Escrow → Result (Unit {0})
check_timing env m deal s =
    let cooldown = confirmation_cooldown s.policy deal in
    let score = get no_reputation deal.shipment.supplier s.tallies.reputation in
    let waited = check_cooldown env cooldown m in
    (if ltb 0 cooldown && not (is_fast_track s.policy score) then waited else ok tt)
    >> check_window env (auto_confirm_window s.policy deal.shipment) m

-- The guards of `confirm_milestone`, in its order, up to the vote: the milestone, and whether the caller
-- acts as a buyer.
pub check_confirmable : Ledger → ℕ → ℕ → Deal → Escrow → Result (Milestone × Bool)
check_confirmable env caller index deal s = do
  panic_if (is_token_depegged env s.policy deal.shipment.token) "token is depegged"
  panic_if (not (is_open deal.shipment)) "shipment is not active"
  panic_if deal.on_hold "shipment is on compliance hold pending review"
  acts_as_buyer ← authorise_confirmation env caller deal
  m ← milestone_at deal.shipment index
  panic_if (not (has_proof m)) "milestone proof not yet submitted"
  assert_inspection_complete index deal
  assert_oracle_attestation_met s.policy index deal
  panic_if deal.shipment_paused "shipment is paused"
  ok (m, acts_as_buyer)

-- The confirmation after the vote.
pub confirm_voted : Ledger → ℕ → ℕ → ℕ → Milestone → Desk → Result Desk
confirm_voted env caller shipment_id index m d = do
  check_timing env m d.deal d.escrow
  gross ← milestone_gross_payment d.deal index
  penalty ← late_penalty d.deal.shipment m gross
  payment ← sub_i128 gross penalty
  let settled = settle env caller shipment_id index m payment penalty d
  let held = hold env caller index m d
  if ltb 0 d.deal.shipment.holdback_ledgers then held else settled

abbrev pub save : ℕ → Desk → Escrow
save shipment_id d = record d.escrow { deals = insert shipment_id (some d.deal) d.escrow.deals }

pub confirm_milestone : Ledger → ℕ → ℕ → ℕ → Escrow → Result Escrow
confirm_milestone env caller shipment_id index s = do
  assert_confirmation_open s
  deal ← or_panic (get none shipment_id s.deals) "shipment not found"
  (m, acts_as_buyer) ← check_confirmable env caller index deal s
  let (goes_on, voted) = vote s.policy index acts_as_buyer (is_co_buyer deal caller) deal
  let d : Desk = record { deal = voted; escrow = s }
  d' ← if goes_on then confirm_voted env caller shipment_id index m d else ok d
  ok (save shipment_id d')
