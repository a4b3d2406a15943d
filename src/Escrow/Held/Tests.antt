-- ===== src/Escrow/Held/Tests.antt =====
-- The release of a payment that was held back.
use chainsettle_contract.Base.{ℕ, some, List, [], ◌∷◌}
use chainsettle_contract.Base.Int.{ℤ}
use chainsettle_contract.Base.Result.{Post}
use chainsettle_contract.Escrow.Confirm.Tests.{
  shipped, delivered, shipment_x, deal_x, escrow_x, receipts_of,
}
use chainsettle_contract.Escrow.Held.{release_held_payment}
use chainsettle_contract.Escrow.Held.Step.{IsRelease, release_held_payment-IsRelease}
use chainsettle_contract.Escrow.Shipment.{confirmed_held, Deal}
use chainsettle_contract.Escrow.State.{Escrow}
use chainsettle_contract.Escrow.Tests.{at_ledger}

-- The first milestone is held until ledger 150, and graded at 80 percent.
abbrev held_deal : Deal
held_deal = record deal_x {
  pending_grade = (0, some (4, 8000)) ∷ [];
  shipment = record shipment_x {
    milestones =
        record shipped { status = confirmed_held; release_after_ledger = 150 } ∷ delivered ∷ [];
  };
}

abbrev held_escrow : Escrow
held_escrow = record escrow_x { deals = (77, some held_deal) ∷ [] }

release_held_payment-IsRelease_example :
    Post
      (release_held_payment (at_ledger 160) 77 0 held_escrow)
      (IsRelease (at_ledger 160) 77 0 held_escrow)
release_held_payment-IsRelease_example =
    release_held_payment-IsRelease (at_ledger 160) 77 0 held_escrow

abbrev release_run : List (ℕ × ℤ)
release_run = receipts_of (release_held_payment (at_ledger 160) 77 0 held_escrow)
