-- ===== src/Escrow/Preview.antt =====
-- The preview of a milestone's payout (contracts/chainsetttle/src/lib.rs), which changes nothing.
pub mod Parts
pub mod Agrees
mod Tests
use chainsettle_contract.Base.{
  ℕ, Bool, true, false, ◌&&◌, Option, none, some, ltb, if◌then◌else◌, get_or,
}
use chainsettle_contract.Base.Dict.{get}
use chainsettle_contract.Base.Int.{ℤ, pos, ltb_ℤ, leb_ℤ}
use chainsettle_contract.Base.Result.{Result, ok, ◌>>=◌, sub_i128, ◌>>◌}
use chainsettle_contract.Escrow.Fees.{
  fee_holiday_active, resolve_fee_waiver_bps, bps_of, waived, rate_at_completion,
}
use chainsettle_contract.Escrow.Host.{Ledger}
use chainsettle_contract.Escrow.Shipment.{AdvanceRequest, Deal, is_final_milestone}
use chainsettle_contract.Escrow.State.{FeeConfig, Escrow}
use chainsettle_contract.Escrow.Terms.{
  deal_of, first_buyer, milestone_at, milestone_gross_payment, late_penalty,
}

pub record PayoutPreview : Type 0 where
  pub gross_amount : ℤ
  pub advance_deducted : ℤ
  pub late_penalty_deducted : ℤ
  pub platform_fee : ℤ
  pub applied_fee_bps : ℕ
  pub logistics_fee : ℤ
  pub supplier_net_amount : ℤ
  pub would_be_held : Bool
  pub final_milestone : Bool

-- The advance that was approved and is not used up yet.
abbrev pub peek_advance : Option AdvanceRequest → ℤ
peek_advance none = pos 0
peek_advance (some req) = if req.granted then req.amount_advanced else pos 0

-- The fee at a rate, if there is one, is taken off.
abbrev pub preview_take : ℤ → ℕ → Result (ℤ × ℕ × ℤ)
preview_take gross bps = do
  fee ← bps_of gross bps
  let net = sub_i128 gross fee
  if ltb_ℤ (pos 0) fee then (net >>= λ left. ok (left, bps, fee)) else ok (gross, bps, pos 0)

-- The part of `deduct_fee_for_shipment_at_completion_preview` after the holiday, at the stored
-- configuration.
abbrev pub preview_charge :
    Ledger → ℤ → ℕ → ℕ → Bool → Option FeeConfig → Escrow → Result (ℤ × ℕ × ℤ)
preview_charge env gross shipment_id buyer is_final none s = ok (
  gross,
  get_or (get none shipment_id s.fee_override) (get_or (get none shipment_id s.locked_fee_bps) 0),
  pos 0,
)
preview_charge env gross shipment_id buyer is_final (some config) s =
    waived (rate_at_completion s config shipment_id buyer is_final)
      (resolve_fee_waiver_bps env s buyer)
    >>= λ bps. preview_take gross bps

-- The net amount, the rate, and the fee.
pub preview_fee : Ledger → ℤ → ℕ → ℕ → Bool → Escrow → Result (ℤ × ℕ × ℤ)
preview_fee env gross shipment_id buyer is_final s =
    let charged = preview_charge env gross shipment_id buyer is_final s.fee_config s in
    if fee_holiday_active env s then ok (gross, 0, pos 0) else charged

-- The logistics provider's share, and what is left.
pub preview_logistics : ℤ → ℤ → ℕ → Result (ℤ × ℤ)
preview_logistics payment actual fee_bps =
    let charged = (do
      fee ← bps_of payment fee_bps
      let left = sub_i128 actual fee
      if ltb_ℤ (pos 0) fee && leb_ℤ fee actual
          then (left >>= λ rest. ok (fee, rest))
          else ok (pos 0, actual)) in
    if ltb 0 fee_bps then charged else ok (pos 0, actual)

-- The preview of a milestone that is not held back.
pub preview_settled : Ledger → ℕ → Deal → ℕ → ℤ → ℤ → ℤ → ℤ → Escrow → Result PayoutPreview
preview_settled env shipment_id deal index gross advance penalty payment s = do
  let x = deal.shipment
  let is_final = is_final_milestone x.milestones index
  buyer ← first_buyer x
  (net, bps, fee) ← preview_fee env payment shipment_id buyer is_final s
  actual ← sub_i128 net advance
  (logistics, left) ← preview_logistics payment actual x.logistics_fee_bps
  ok (record {
    gross_amount = gross;
    advance_deducted = advance;
    late_penalty_deducted = penalty;
    platform_fee = fee;
    applied_fee_bps = bps;
    logistics_fee = logistics;
    supplier_net_amount = left;
    would_be_held = false;
    final_milestone = is_final;
  })

pub preview_milestone_payout : Ledger → ℕ → ℕ → Escrow → Result PayoutPreview
preview_milestone_payout env shipment_id index s = do
  deal ← deal_of s shipment_id
  let x = deal.shipment
  m ← milestone_at x index
  gross ← milestone_gross_payment deal index
  let advance = peek_advance (get none index deal.advances)
  penalty ← late_penalty x m gross
  payment ← sub_i128 gross penalty
  let settled = preview_settled env shipment_id deal index gross advance penalty payment s
  let held = sub_i128 payment advance >>= λ net. ok (record {
    gross_amount = gross;
    advance_deducted = advance;
    late_penalty_deducted = penalty;
    platform_fee = pos 0;
    applied_fee_bps = 0;
    logistics_fee = pos 0;
    supplier_net_amount = net;
    would_be_held = true;
    final_milestone = is_final_milestone x.milestones index;
  })
  if ltb 0 x.holdback_ledgers then held else settled
