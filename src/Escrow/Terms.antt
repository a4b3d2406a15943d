-- ===== src/Escrow/Terms.antt =====
-- What a milestone is worth and when it may be confirmed (contracts/chainsetttle/src/lib.rs): gross
-- payment, late penalty, advance, rebate, review window and cooldown.
pub mod Advance
use chainsettle_contract.Base.{
  ℕ, ◌+◌, ◌-◌, ◌*◌, ◌/◌, min, Bool, false, not, ◌&&◌, ◌||◌, Option, none, some, ltb, leb, ◌==◌,
  if◌then◌else◌, get_or, get_elem?,
}
use chainsettle_contract.Base.Dict.{get, erase}
use chainsettle_contract.Base.Int.{ℤ, pos, ◌/ℤ◌, ltb_ℤ, min_ℤ, max_ℤ, u64_max}
use chainsettle_contract.Base.Result.{
  Result, ok, ◌>>=◌, panic_if, or_panic, add_i128, sub_i128, mul_i128, checked_u32, ◌>>◌,
}
use chainsettle_contract.Escrow.Fees.{bps_of}
use chainsettle_contract.Escrow.Host.{Ledger}
use chainsettle_contract.Escrow.Payout.{percent_of}
use chainsettle_contract.Escrow.Policy.{ReputationScore, Policy}
use chainsettle_contract.Escrow.Shipment.{Milestone, Shipment, AdvanceRequest, Deal}
use chainsettle_contract.Escrow.State.{Escrow}

abbrev pub deal_of : Escrow → ℕ → Result Deal
deal_of s shipment_id = or_panic (get none shipment_id s.deals) "shipment not found"

abbrev pub first_buyer : Shipment → Result ℕ
first_buyer x = or_panic (get_elem? x.buyers 0) "no buyer"

abbrev pub milestone_at : Shipment → ℕ → Result Milestone
milestone_at x index = or_panic (get_elem? x.milestones index) "invalid milestone index"

abbrev by_percent : Deal → ℕ → Result ℤ
by_percent deal index = milestone_at deal.shipment index >>= λ m.
    percent_of deal.shipment.total_amount m.payment_percent

unfoldable pub milestone_full_gross_payment : Deal → ℕ → Result ℤ
milestone_full_gross_payment deal index = elim deal.milestone_splits [
  | none ↦ by_percent deal index
  | some splits ↦ elim (get_elem? splits index) [
    | some bps ↦ bps_of deal.shipment.total_amount bps
    | none ↦ by_percent deal index
  ]
]

unfoldable pub milestone_gross_payment : Deal → ℕ → Result ℤ
milestone_gross_payment deal index = do
  gross ← milestone_full_gross_payment deal index
  sub_i128 gross (get (pos 0) index deal.partial_released)

abbrev penalty_bps : Shipment → Milestone → ℕ
penalty_bps x m =
    if ltb 0 m.penalty_bps_per_ledger
    then m.penalty_bps_per_ledger
    else x.late_penalty_bps_per_ledger

-- The penalty for `overdue` ledgers, at most half of the payment.
unfoldable pub capped_penalty : ℤ → ℕ → ℕ → Result ℤ
capped_penalty gross bps overdue = do
  rate ← mul_i128 (pos bps) (pos overdue)
  raw ← mul_i128 gross rate
  ok (min_ℤ (raw /ℤ pos 10000) (gross /ℤ pos 2))

unfoldable pub late_penalty : Shipment → Milestone → ℤ → Result ℤ
late_penalty x m gross =
    let overdue = get_or m.proof_submitted_ledger 0 - m.deadline_ledger in
    let owed = capped_penalty gross (penalty_bps x m) overdue in
    if m.deadline_ledger == 0 || penalty_bps x m == 0 || overdue == 0 then ok (pos 0) else owed

-- The advance on a milestone, if one was approved, which is then used up.
unfoldable pub use_advance : ℕ → Option AdvanceRequest → Deal → Result (ℤ × Deal)
use_advance index none deal = ok (pos 0, deal)
use_advance index (some req) deal =
    let used = (do
      left ← sub_i128 deal.shipment.total_advanced_amount req.amount_advanced
      ok (
        req.amount_advanced,
        record deal {
          advances = erase index deal.advances;
          shipment = record deal.shipment { total_advanced_amount = max_ℤ left (pos 0) };
        },
      )) in
    if req.granted && ltb_ℤ (pos 0) req.amount_advanced then used else ok (pos 0, deal)

abbrev pub consume_advance : ℕ → Deal → Result (ℤ × Deal)
consume_advance index deal = use_advance index (get none index deal.advances) deal

-- The rebate on the fee for a shipment held long: the net payment and the fee after it.
unfoldable pub long_hold_rebate : Ledger → Policy → Shipment → ℤ → ℤ → Result (ℤ × ℤ)
long_hold_rebate env policy x net fee =
    let (threshold, rebate_bps) = policy.long_hold_terms in
    let rebated = (do
      rebate ← bps_of fee rebate_bps
      more ← add_i128 net rebate
      less ← sub_i128 fee rebate
      ok (if ltb_ℤ (pos 0) rebate then (more, less) else (net, fee))) in
    if ltb 0 rebate_bps
      && ltb 0 threshold
      && leb threshold (env.sequence - x.created_at)
      && ltb_ℤ (pos 0) fee
    then rebated
    else ok (net, fee)

abbrev pub confirmation_cooldown : Policy → Deal → ℕ
confirmation_cooldown policy deal = get_or deal.cooldown_override policy.global_cooldown

-- `is_fast_track_eligible_internal`
pub is_fast_track : Policy → ReputationScore → Bool
is_fast_track policy score = elim policy.fast_track [
  | none ↦ false
  | some track ↦
      not (ltb score.completions track.min_completed)
      && not (score.completions == 0)
      && leb (min (score.disputes * 10000) u64_max / score.completions) track.max_disputed_ratio_bps
]

-- `get_effective_auto_confirm_window`
pub auto_confirm_window : Policy → Shipment → ℕ
auto_confirm_window policy x = elim x.review_window_ledgers [
  | some n ↦ n
  | none ↦
      if ltb 0 x.auto_confirm_ledgers then x.auto_confirm_ledgers else policy.auto_confirm_threshold
]

-- The cooldown has passed since the proof came in.
pub check_cooldown : Ledger → ℕ → Milestone → Result (Unit {0})
check_cooldown env cooldown m = do
  edge ← checked_u32 (get_or m.proof_submitted_ledger 0 + cooldown)
  panic_if (ltb env.sequence edge) "confirmation cooldown not elapsed"

-- The window after which the milestone confirms by itself has not passed.
pub check_window : Ledger → ℕ → Milestone → Result (Unit {0})
check_window env window m = elim m.proof_submitted_ledger [
  | none ↦ ok tt
  | some proof ↦
      let open_still = checked_u32 (proof + window) >>= λ edge.
      panic_if (leb edge env.sequence)
        "milestone has auto-confirmed; use claim_auto_confirmation" in
      if window == 0 then ok tt else open_still
]
