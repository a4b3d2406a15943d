-- ===== src/Escrow/Confirm/Votes.antt =====
-- The votes of the buyer's side and of the co-buyer.
use chainsettle_contract.Base.{ℕ, ◌≡◌, refl, Bool, true, false, not, ◌&&◌}
use chainsettle_contract.Base.Dict.{get, insert, get-insert_self}
use chainsettle_contract.Escrow.Confirm.{
  joint_confirmation_required, cast_vote, record_joint_confirmation, vote,
}
use chainsettle_contract.Escrow.Policy.{Policy}
use chainsettle_contract.Escrow.Shipment.{JointConfirmationStatus, unconfirmed, Deal}

-- A vote that leaves one side missing is recorded.
vote_kept :
    (policy : Policy) (index : ℕ) (a b : Bool) (v : JointConfirmationStatus) (deal : Deal)
    → joint_confirmation_required policy deal ≡ true
    → cast_vote a b (get unconfirmed index deal.joint_confirmation) ≡ v
    → (v.buyer_confirmed && v.co_buyer_confirmed) ≡ false
    → vote policy index a b deal
      ≡ (false, record deal { joint_confirmation = insert index v deal.joint_confirmation })
unfolding vote record_joint_confirmation
vote_kept policy index a b v deal h e f = rw (h, e, f) refl

-- The vote of the side that was missing goes through.
vote_passed :
    (policy : Policy) (index : ℕ) (a b : Bool) (v : JointConfirmationStatus) (deal : Deal)
    → joint_confirmation_required policy deal ≡ true
    → cast_vote a b (get unconfirmed index deal.joint_confirmation) ≡ v
    → (v.buyer_confirmed && v.co_buyer_confirmed) ≡ true
    → (vote policy index a b deal).0 ≡ true
unfolding vote record_joint_confirmation
vote_passed policy index a b v deal h e f = rw (h, e, f) refl

-- The vote of one side only.
abbrev only : Bool → JointConfirmationStatus
only by_buyer = record { buyer_confirmed = by_buyer; co_buyer_confirmed = not by_buyer }

abbrev both_sides : JointConfirmationStatus
both_sides = record { buyer_confirmed = true; co_buyer_confirmed = true }

one_side : (by_buyer : Bool) → (by_buyer && not by_buyer) ≡ false
one_side true = refl
one_side false = refl

cast_first : (by_buyer : Bool) → cast_vote by_buyer (not by_buyer) unconfirmed ≡ only by_buyer
unfolding cast_vote
cast_first true = refl
cast_first false = refl

cast_other : (by_buyer : Bool) → cast_vote (not by_buyer) by_buyer (only by_buyer) ≡ both_sides
unfolding cast_vote
cast_other true = refl
cast_other false = refl

cast_again : (by_buyer : Bool) → cast_vote by_buyer (not by_buyer) (only by_buyer) ≡ only by_buyer
unfolding cast_vote
cast_again true = refl
cast_again false = refl

-- With nothing recorded, and both sides required, a side's vote does not suffice, nor does the same side's
-- vote again; the other side's vote then lets the confirmation go on, whichever side was first.
pub vote_in_any_order :
    (policy : Policy) (index : ℕ) (by_buyer : Bool) (deal : Deal)
    → joint_confirmation_required policy deal ≡ true
    → get unconfirmed index deal.joint_confirmation ≡ unconfirmed
    → let once = vote policy index by_buyer (not by_buyer) deal in
      let again = vote policy index by_buyer (not by_buyer) once.1 in
      let both = vote policy index (not by_buyer) by_buyer again.1 in
      (once.0 ≡ false) × (again.0 ≡ false) × (both.0 ≡ true)
unfolding joint_confirmation_required cast_vote
vote_in_any_order policy index by_buyer deal h fresh =
    let d₁ = record deal {
      joint_confirmation = insert index (only by_buyer) deal.joint_confirmation;
    } in
    let d₂ = record deal {
      joint_confirmation = insert index (only by_buyer) d₁.joint_confirmation;
    } in
    let once : vote policy index by_buyer (not by_buyer) deal ≡ (false, d₁) =
      vote_kept policy index by_buyer (not by_buyer) (only by_buyer) deal h
        (rw fresh (cast_first by_buyer)) (one_side by_buyer) in
    let again : vote policy index by_buyer (not by_buyer) d₁ ≡ (false, d₂) =
      vote_kept policy index by_buyer (not by_buyer) (only by_buyer) d₁ h
        (rw (get-insert_self unconfirmed index (only by_buyer) deal.joint_confirmation)
          (cast_again by_buyer))
        (one_side by_buyer) in
    let both : (vote policy index (not by_buyer) by_buyer d₂).0 ≡ true =
      vote_passed policy index (not by_buyer) by_buyer both_sides d₂ h
        (rw (get-insert_self unconfirmed index (only by_buyer) d₁.joint_confirmation)
          (cast_other by_buyer))
        refl in
    rw once (rw again (refl, refl, both))
