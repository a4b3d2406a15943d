-- ===== src/Escrow/Refund.antt =====
-- Refunds that a supplier offers (contracts/chainsetttle/src/supplier_voluntary_refund.rs).
pub mod Offer
pub mod Taken
mod Tests
use chainsettle_contract.Base.{
  ℕ, Bool, true, false, not, ◌||◌, Option, none, some, [], ◌==◌, is_some, get_elem?, contains,
}
use chainsettle_contract.Base.Dict.{Dict, get, insert}
use chainsettle_contract.Base.Int.{ℤ, pos, ltb_ℤ, leb_ℤ}
use chainsettle_contract.Base.Result.{Result, ok, ◌>>=◌, panic_if, or_panic, sub_i128, ◌>>◌}
use chainsettle_contract.Escrow.Host.{Ledger, require_signature, send}
use chainsettle_contract.Escrow.Payout.{percent_of}
use chainsettle_contract.Escrow.Shipment.{confirmed, resolved, Milestone, Shipment, Deal}
use chainsettle_contract.Escrow.State.{Escrow}

pub record RefundProposal : Type 0 where
  pub refund_amount : ℤ
  pub reason_hash : ℕ
  pub proposed_ledger : ℕ

-- The contract's state with the keys `VoluntaryRefund(shipment_id, milestone_index)`, by shipment and
-- then by milestone.
pub record RefundDesk : Type 0 where
  pub books : Escrow
  pub proposals : Dict (Dict (Option RefundProposal))

abbrev pub get_voluntary_refund : RefundDesk → ℕ → ℕ → Option RefundProposal
get_voluntary_refund r shipment_id index = get none index (get [] shipment_id r.proposals)

abbrev pub put_proposal : ℕ → ℕ → Option RefundProposal → RefundDesk → RefundDesk
put_proposal shipment_id index p r = record r {
  proposals = insert shipment_id (insert index p (get [] shipment_id r.proposals)) r.proposals;
}

abbrev pub shipment_of : RefundDesk → ℕ → Result Shipment
shipment_of r shipment_id =
    or_panic (get none shipment_id r.books.deals) "ShipmentNotFound" >>= λ (deal : Deal).
    ok deal.shipment

abbrev pub is_refundable : Milestone → Bool
is_refundable m = elim m.status [ confirmed ↦ true | resolved ↦ true | _ ↦ false ]

pub propose_voluntary_refund : Ledger → ℕ → ℕ → ℕ → ℤ → ℕ → RefundDesk → Result RefundDesk
propose_voluntary_refund env supplier shipment_id index amount reason r = do
  require_signature env supplier
  shipment ← shipment_of r shipment_id
  panic_if (not (supplier == shipment.supplier)) "Unauthorized"
  milestone ← or_panic (get_elem? shipment.milestones index) "InvalidMilestone"
  panic_if (not (is_refundable milestone)) "InvalidMilestone"
  milestone_payment ← percent_of shipment.total_amount milestone.payment_percent
  panic_if (leb_ℤ amount (pos 0) || ltb_ℤ milestone_payment amount) "InvalidAmount"
  let proposal : RefundProposal = record {
    refund_amount = amount;
    reason_hash = reason;
    proposed_ledger = env.sequence;
  }
  ok (put_proposal shipment_id index (some proposal) r)

pub accept_voluntary_refund : Ledger → ℕ → ℕ → ℕ → RefundDesk → Result RefundDesk
accept_voluntary_refund env buyer shipment_id index r = do
  require_signature env buyer
  shipment ← shipment_of r shipment_id
  panic_if (not (contains shipment.buyers buyer)) "Unauthorized"
  proposal ← or_panic (get_voluntary_refund r shipment_id index) "NoPendingRefund"
  s ← send env shipment.token shipment.supplier buyer proposal.refund_amount r.books
  let r₁ = put_proposal shipment_id index none (record r { books = s })
  left ← sub_i128 (get (pos 0) shipment.token s.total_escrowed) proposal.refund_amount
  ok (record r₁ {
    books = record s { total_escrowed = insert shipment.token left s.total_escrowed };
  })

pub cancel_voluntary_refund : Ledger → ℕ → ℕ → ℕ → RefundDesk → Result RefundDesk
cancel_voluntary_refund env supplier shipment_id index r = do
  require_signature env supplier
  shipment ← shipment_of r shipment_id
  panic_if (not (supplier == shipment.supplier)) "Unauthorized"
  panic_if (not (is_some (get_voluntary_refund r shipment_id index))) "NoPendingRefund"
  ok (put_proposal shipment_id index none r)
