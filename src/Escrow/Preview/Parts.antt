-- ===== src/Escrow/Preview/Parts.antt =====
-- The parts of a preview agree with those of a confirmation: fee, logistics share and advance.
use chainsettle_contract.Base.{
  ℕ, ◌≡◌, refl, inl, inr, Bool, false, ◌&&◌, Option, none, some, arith, ltb, Bool-cases,
}
use chainsettle_contract.Base.Int.{ℤ, pos, ◌-ℤ◌, ◌≤ℤ◌, ltb_ℤ, leb_ℤ, eq_of_parts}
use chainsettle_contract.Base.Result.{ok, sub_i128, Post, Post-bind, Post-ok, Post-checked, Post-if}
use chainsettle_contract.Escrow.Fees.{
  fee_holiday_active, resolve_fee_waiver_bps, track_treasury_revenue, track_shipment_fees_paid,
  bps_of, waived, rate_at_completion, take_fee, charge_fee, deduct_fee_at_completion,
}
use chainsettle_contract.Escrow.Host.{Ledger, send}
use chainsettle_contract.Escrow.Payout.{Desk, pay}
use chainsettle_contract.Escrow.Preview.{
  peek_advance, preview_take, preview_charge, preview_fee, preview_logistics,
}
use chainsettle_contract.Escrow.Settle.{pay_logistics}
use chainsettle_contract.Escrow.Shipment.{AdvanceRequest, Deal}
use chainsettle_contract.Escrow.State.{FeeConfig, Escrow}
use chainsettle_contract.Escrow.Terms.{use_advance}

previewed_take :
    (env : Ledger) (gross : ℤ) (bps token id : ℕ) (config : FeeConfig) (s : Escrow)
    → Post
        (take_fee env gross bps token id config s)
        (λ (net, fee, s'). preview_take gross bps ≡ ok (net, bps, fee))
unfolding take_fee
previewed_take env gross bps token id config s = Post-bind _ (bps_of gross bps) _ λ fee e.
    Post-if _ (ltb_ℤ (pos 0) fee) _ _
      (λ h. Post-bind _ (send env token env.this_contract config.treasury fee s) _ λ s₁ _.
        Post-bind _ (track_treasury_revenue token fee s₁) _ λ s₂ _.
          Post-bind _ (track_shipment_fees_paid id fee s₂) _
            λ s₃ _. Post-bind _ (sub_i128 gross fee) _ λ net f. rw (e, h, f) refl)
      λ h. rw (e, h) refl

previewed_charge :
    (env : Ledger) (gross : ℤ) (token id buyer : ℕ) (is_final : Bool) (config : Option FeeConfig)
    (s : Escrow)
    → Post (charge_fee env gross token id buyer is_final config s) (λ (net, bps, fee, s').
      preview_charge env gross id buyer is_final config s ≡ ok (net, bps, fee))
unfolding charge_fee
previewed_charge env gross token id buyer is_final none s = refl
previewed_charge env gross token id buyer is_final (some config) s =
    Post-bind _
      (waived (rate_at_completion s config id buyer is_final) (resolve_fee_waiver_bps env s buyer))
      _
      λ bps e.
        Post-bind _ (take_fee env gross bps token id config s) _
          λ (net, fee, s') f. rw e (Post-ok _ f (previewed_take env gross bps token id config s))

pub previewed_fee :
    (env : Ledger) (gross : ℤ) (token id buyer : ℕ) (is_final : Bool) (s : Escrow)
    → Post
        (deduct_fee_at_completion env gross token id buyer is_final s)
        (λ (net, bps, fee, s'). preview_fee env gross id buyer is_final s ≡ ok (net, bps, fee))
unfolding deduct_fee_at_completion preview_fee
previewed_fee env gross token id buyer is_final s =
    Post-if _ (fee_holiday_active env s) _ _ (λ h. rw h refl)
      λ h. rw h (previewed_charge env gross token id buyer is_final s.fee_config s)

-- What is left after the logistics provider's share is what the preview has left.
pub previewed_logistics :
    (env : Ledger) (payment actual : ℤ) (d : Desk)
    → Post (pay_logistics env payment actual d) (λ (left, d').
      (fee : ℤ) × (preview_logistics payment actual d.deal.shipment.logistics_fee_bps
        ≡ ok (fee, left)))
unfolding pay_logistics preview_logistics
previewed_logistics env payment actual d =
    let bps : ℕ = d.deal.shipment.logistics_fee_bps in
    Post-if _ (ltb 0 bps) _ _
      (λ h. Post-bind _ (bps_of payment bps) _ λ fee e.
        Post-if _ (ltb_ℤ (pos 0) fee && leb_ℤ fee actual) _ _
          (λ k. Post-bind _ (sub_i128 actual fee) _ λ left f.
            Post-bind _ (pay env d.deal.shipment.logistics fee d) _
              λ d₁ _. ((fee, rw (h, e, k, f) refl)))
          λ k. ((pos 0, rw (h, e, k) refl)))
      λ h. ((pos 0, rw h refl))

zero_amount : (a : ℤ) → pos 0 ≤ℤ a → ltb_ℤ (pos 0) a ≡ false → pos 0 ≡ a
zero_amount a h k = eq_of_parts (pos 0) a (ground arith)

-- An advance that is not negative is the one that the preview sees, and taking it leaves milestones
-- and buyers as they are.
pub previewed_advance :
    (index : ℕ) (req : Option AdvanceRequest) (deal : Deal)
    → pos 0 ≤ℤ peek_advance req
    → Post (use_advance index req deal) (λ (advance, deal').
      (advance ≡ peek_advance req)
      × (deal'.shipment.milestones ≡ deal.shipment.milestones)
      × (deal'.shipment.buyers ≡ deal.shipment.buyers))
unfolding use_advance
previewed_advance index none deal h = (refl, refl, refl)
previewed_advance index (some req) deal h =
    Post-if _ (req.granted && ltb_ℤ (pos 0) req.amount_advanced) _ _
      (λ k.
        Post-checked _ (deal.shipment.total_advanced_amount -ℤ req.amount_advanced) _
          λ _. (ground (arith, k), refl, refl))
      λ k. (
        elim (Bool-cases req.granted) [
          | inl g ↦ rw g (zero_amount req.amount_advanced (ground arith) (ground arith))
          | inr g ↦ rw g refl
        ],
        refl,
        refl,
      )
