-- ===== src/Escrow/Refund/Tests.antt =====
-- An offer of 30 units for a confirmed milestone, taken by a buyer.
use chainsettle_contract.Base.{◌≡◌, refl, some, [], ◌∷◌}
use chainsettle_contract.Base.Int.{pos, ◌*ℤ◌, ◌/ℤ◌, ◌≈◌}
use chainsettle_contract.Base.Result.{ok, panic_if, or_panic, checked_i128, Post, Ensures, Fails}
use chainsettle_contract.Base.Token.{flow}
use chainsettle_contract.Escrow.Confirm.Tests.{shipped, delivered, shipment_x, deal_x, escrow_x}
use chainsettle_contract.Escrow.Payout.{percent_of}
use chainsettle_contract.Escrow.Refund.{
  RefundProposal, RefundDesk, put_proposal, propose_voluntary_refund, accept_voluntary_refund,
  cancel_voluntary_refund,
}
use chainsettle_contract.Escrow.Refund.Offer.{IsWithdrawn, cancel_voluntary_refund_undoes}
use chainsettle_contract.Escrow.Refund.Taken.{
  IsRefunded, accept_voluntary_refund-IsRefunded, accept_voluntary_refund_flow,
  accept_voluntary_refund_once,
}
use chainsettle_contract.Escrow.Shipment.{confirmed, Deal}
use chainsettle_contract.Escrow.Tests.{here_address, at_ledger}

abbrev paid_deal : Deal
paid_deal = record deal_x {
  shipment = record shipment_x {
    milestones = record shipped { status = confirmed } ∷ delivered ∷ [];
  };
}

abbrev refund_desk : RefundDesk
refund_desk = record {
  books = record escrow_x { deals = (77, some paid_deal) ∷ [] };
  proposals = [];
}

abbrev offer_x : RefundProposal
offer_x = record { refund_amount = pos 30; reason_hash = 9; proposed_ledger = 100 }

abbrev offered_desk : RefundDesk
offered_desk = put_proposal 77 0 (some offer_x) refund_desk

-- The offer goes through.
offer_goes_through :
    propose_voluntary_refund (at_ledger 100) shipment_x.supplier 77 0 (pos 30) 9 refund_desk
    ≡ ok offered_desk
unfolding propose_voluntary_refund panic_if or_panic percent_of checked_i128 ◌*ℤ◌ ◌/ℤ◌
offer_goes_through = refl

cancel_voluntary_refund_undoes_example :
    Post
      (propose_voluntary_refund (at_ledger 100) shipment_x.supplier 77 0 (pos 30) 9 refund_desk)
      (λ r'.
        Ensures
          (cancel_voluntary_refund (at_ledger 120) shipment_x.supplier 77 0 r')
          (IsWithdrawn 77 0 refund_desk))
cancel_voluntary_refund_undoes_example =
    cancel_voluntary_refund_undoes (at_ledger 100) (at_ledger 120) shipment_x.supplier 77 0 (pos 30)
      9 refund_desk refl

accept_voluntary_refund-IsRefunded_example :
    Post
      (accept_voluntary_refund (at_ledger 130) 1 77 0 offered_desk)
      (IsRefunded (at_ledger 130) 1 77 0 offered_desk)
accept_voluntary_refund-IsRefunded_example =
    accept_voluntary_refund-IsRefunded (at_ledger 130) 1 77 0 offered_desk

accept_voluntary_refund_flow_example :
    Post
      (accept_voluntary_refund (at_ledger 130) 1 77 0 offered_desk)
      (λ r'. flow here_address 5 r'.books.sent ≈ flow here_address 5 offered_desk.books.sent)
unfolding or_panic
accept_voluntary_refund_flow_example =
    accept_voluntary_refund_flow (at_ledger 130) 1 77 0 5 offered_desk paid_deal.shipment refl refl
      refl

accept_voluntary_refund_once_example :
    Post (accept_voluntary_refund (at_ledger 130) 1 77 0 offered_desk) (λ r'.
      Fails (accept_voluntary_refund (at_ledger 131) 1 77 0 r')
      × Fails (cancel_voluntary_refund (at_ledger 131) 1 77 0 r'))
accept_voluntary_refund_once_example =
    accept_voluntary_refund_once (at_ledger 130) (at_ledger 131) 1 1 77 0 offered_desk
