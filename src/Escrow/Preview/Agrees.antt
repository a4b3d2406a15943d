-- ===== src/Escrow/Preview/Agrees.antt =====
-- The preview of a payout agrees with what a confirmation takes from the payment.
-- Every fee that is deducted is the one that the preview computes.
use chainsettle_contract.Base.{ℕ, ◌≡◌, refl, sym, Bool, none, some, arith, ltb, get_elem?}
use chainsettle_contract.Base.Dict.{get}
use chainsettle_contract.Base.Int.{ℤ, pos, ◌-ℤ◌, ◌≤ℤ◌}
use chainsettle_contract.Base.Result.{
  ok, or_panic, sub_i128, Post, Post-bind, Post-ok, Post-checked_last, Post-if, Post-mono,
}
use chainsettle_contract.Escrow.Fees.{deduct_fee_at_completion}
use chainsettle_contract.Escrow.Fees.Net.{deduct_fee_at_completion-Charges}
use chainsettle_contract.Escrow.Host.{Ledger}
use chainsettle_contract.Escrow.Limits.{check_circuit_breaker}
use chainsettle_contract.Escrow.Payout.{Desk}
use chainsettle_contract.Escrow.Preview.{
  PayoutPreview, peek_advance, preview_fee, preview_logistics, preview_settled,
  preview_milestone_payout,
}
use chainsettle_contract.Escrow.Preview.Parts.{
  previewed_fee, previewed_logistics, previewed_advance,
}
use chainsettle_contract.Escrow.Settle.{pay_logistics, check_address_outflow}
use chainsettle_contract.Escrow.Settlement.{charge}
use chainsettle_contract.Escrow.Shipment.{Milestone, is_final_milestone}
use chainsettle_contract.Escrow.Terms.{
  first_buyer, milestone_gross_payment, late_penalty, consume_advance, long_hold_rebate,
}
use chainsettle_contract.Escrow.Terms.Advance.{long_hold_rebate_off}

-- The net payment of a charge, without a rebate, and its advance are those of the preview.
previewed_net :
    (env : Ledger) (id index buyer : ℕ) (payment : ℤ) (d : Desk)
    → d.escrow.policy.long_hold_terms.1 ≡ 0
    → pos 0 ≤ℤ peek_advance (get none index d.deal.advances)
    → first_buyer d.deal.shipment ≡ ok buyer
    → Post (charge env id index payment d) (λ (advance, net, d').
      (advance ≡ peek_advance (get none index d.deal.advances))
      × (bps : ℕ) × (fee : ℤ) × (preview_fee env payment id buyer
            (is_final_milestone d.deal.shipment.milestones index)
            d.escrow
          ≡ ok (net, bps, fee)))
unfolding charge
previewed_net env id index buyer payment d off not_negative e =
    Post-bind _ (consume_advance index d.deal) _ λ (advance, deal) f.
      let (same, milestones, buyers) =
        Post-ok _ f
          (previewed_advance index (get none index d.deal.advances) d.deal not_negative) in
      let x = deal.shipment in
      Post-bind _ (first_buyer x) _ λ buyer' g.
        let same_buyer : buyer' ≡ buyer = cc (e, g, buyers) in
        Post-bind _
          (deduct_fee_at_completion env payment x.token id buyer'
            (is_final_milestone x.milestones index) d.escrow)
          _
          λ (net, bps, fee, s) h.
            let seen = Post-ok _ h (
              previewed_fee env payment x.token id buyer' (is_final_milestone x.milestones index)
                d.escrow) in
            let (sums, tallies, policy, deals) = Post-ok _ h (
              deduct_fee_at_completion-Charges env payment x.token id buyer'
                (is_final_milestone x.milestones index) d.escrow) in
            Post-bind _ (long_hold_rebate env s.policy x net fee) _ λ (net', fee') k.
              let kept : net' ≡ net =
                Post-ok _ k (long_hold_rebate_off env s.policy x net fee (rw policy off)) in
              Post-bind _ (check_circuit_breaker env payment s) _ λ s' _.
                Post-bind _ (check_address_outflow env x.supplier payment s'.tallies) _
                  λ t _. ((same, bps, fee, rw kept (rw (milestones, same_buyer) at seen)))

-- The two previews of a settlement: what the preview says is left, and what is left.
previewed_settled :
    (env : Ledger) (id index : ℕ) (gross penalty payment : ℤ) (d d₂ : Desk)
    → d.escrow.policy.long_hold_terms.1 ≡ 0
    → pos 0 ≤ℤ peek_advance (get none index d.deal.advances)
    → d₂.deal.shipment.logistics_fee_bps ≡ d.deal.shipment.logistics_fee_bps
    → Post
        (preview_settled env id d.deal index gross
          (peek_advance (get none index d.deal.advances))
          penalty
          payment
          d.escrow)
        (λ p.
          (p.gross_amount ≡ gross)
          × (p.late_penalty_deducted ≡ penalty)
          × Post (charge env id index payment d) (λ (advance, net, d₁).
            (advance ≡ p.advance_deducted)
            × Post
                (pay_logistics env payment (net -ℤ advance) d₂)
                (λ (left, d₃). left ≡ p.supplier_net_amount)))
unfolding preview_settled
previewed_settled env id index gross penalty payment d d₂ off not_negative bps_kept =
    let x = d.deal.shipment in
    let peeked : ℤ = peek_advance (get none index d.deal.advances) in
    let is_final : Bool = is_final_milestone x.milestones index in
    Post-bind _ (first_buyer x) _ λ buyer e.
      Post-bind _ (preview_fee env payment id buyer is_final d.escrow) _ λ (net, bps, fee) f.
        Post-bind _ (sub_i128 net peeked) _ λ actual g.
          Post-bind _ (preview_logistics payment actual x.logistics_fee_bps) _
            λ (logistics, left) h. (
              refl,
              refl,
              Post-mono _ (charge env id index payment d)
                  (λ (advance, net', d₁) (same, bps', fee', seen). (
                    same,
                    Post-mono _ (pay_logistics env payment (net' -ℤ advance) d₂)
                        (λ (left', d₃) (fee'', known).
                          let same_net : net' ≡ net = cc (seen, f) in
                          let value : actual ≡ net -ℤ peeked =
                            Post-ok (λ b. b ≡ net -ℤ peeked) g
                              (Post-checked_last (λ b. b ≡ net -ℤ peeked) (net -ℤ peeked)
                                λ _. refl) in
                          let agreed : net' -ℤ advance ≡ actual = cc (same_net, same, value) in
                          let known' : preview_logistics payment actual x.logistics_fee_bps
                              ≡ ok (fee'', left') =
                            rw (agreed, bps_kept) at known in
                          cc (h, known'))
                        (previewed_logistics env payment (net' -ℤ advance) d₂),
                  ))
                  (previewed_net env id index buyer payment d off not_negative e),
            )

-- What a preview foretells: gross amount and penalty are those of a confirmation at this ledger, which
-- then takes the advance of the preview, and after the fee, the advance and the logistics provider's
-- share has left what the preview calls the supplier's net amount.
pub record IsForeseen (env : Ledger) (id index : ℕ) (m : Milestone) (d d₂ : Desk)
    (p : PayoutPreview) : Type 0 where
  pub gross_seen : milestone_gross_payment d.deal index ≡ ok p.gross_amount
  pub penalty_seen : late_penalty d.deal.shipment m p.gross_amount ≡ ok p.late_penalty_deducted
  pub payout_seen :
      Post
        (charge env id index (p.gross_amount -ℤ p.late_penalty_deducted) d)
        (λ (advance, net, d₁).
          (advance ≡ p.advance_deducted)
          × Post
              (pay_logistics env (p.gross_amount -ℤ p.late_penalty_deducted) (net -ℤ advance) d₂)
              (λ (left, d₃). left ≡ p.supplier_net_amount))

-- For a milestone of a shipment that holds no payments back, with no rebate for long holds in force
-- and an advance that is not negative, a preview has the gross amount, the penalty and the advance of
-- a confirmation, and the net amount that the confirmation has left for referrer and payees after the
-- fee and the logistics provider's share, whatever it has done between the two, as long as the
-- logistics rate is the same.
pub preview_milestone_payout-IsForeseen :
    (env : Ledger) (id index : ℕ) (m : Milestone) (d d₂ : Desk)
    → get none id d.escrow.deals ≡ some d.deal
    → get_elem? d.deal.shipment.milestones index ≡ some m
    → d.deal.shipment.holdback_ledgers ≡ 0
    → d.escrow.policy.long_hold_terms.1 ≡ 0
    → pos 0 ≤ℤ peek_advance (get none index d.deal.advances)
    → d₂.deal.shipment.logistics_fee_bps ≡ d.deal.shipment.logistics_fee_bps
    → Post (preview_milestone_payout env id index d.escrow) (IsForeseen env id index m d d₂)
unfolding preview_milestone_payout or_panic
preview_milestone_payout-IsForeseen env id index m d d₂ found there no_holdback off not_negative
      kept =
    rw (found, there)
      (Post-bind _ (milestone_gross_payment d.deal index) _ λ gross e.
        Post-bind _ (late_penalty d.deal.shipment m gross) _ λ penalty f.
          Post-bind _ (sub_i128 gross penalty) _ λ payment g.
            Post-if _ (ltb 0 d.deal.shipment.holdback_ledgers) _ _ (λ h. absurd (ground arith))
              λ _.
                let value : gross -ℤ penalty ≡ payment = sym (
                  Post-ok (λ b. b ≡ gross -ℤ penalty) g
                    (Post-checked_last (λ b. b ≡ gross -ℤ penalty) (gross -ℤ penalty) λ _. refl)) in
                Post-mono _
                  (preview_settled env id d.deal index gross
                    (peek_advance (get none index d.deal.advances)) penalty payment d.escrow)
                  (λ p (gross_same, penalty_same, rest). record {
                    gross_seen = rw gross_same e;
                    penalty_seen = rw (gross_same, penalty_same) f;
                    payout_seen = rw (gross_same, penalty_same, value) rest;
                  })
                  (previewed_settled env id index gross penalty payment d d₂ off not_negative kept))
