-- ===== src/Escrow/Settlement/Exact.antt =====
-- A settlement is exact: what leaves the contract, and what it keeps for the shipment's parties, comes
-- to the payment and the penalty without the advance.
use chainsettle_contract.Base.{
  ℕ, ◌≡◌, refl, ap, ◌∙◌, inl, inr, false, ◌&&◌, none, some, ltb, if◌then◌else◌, Bool-cases, get_or,
  set, contains,
}
use chainsettle_contract.Base.Dict.{get}
use chainsettle_contract.Base.Int.{ℤ, pos, ◌+ℤ◌, ◌-ℤ◌, ◌≤ℤ◌, int_laws, ≈_of_eq}
use chainsettle_contract.Base.Result.{ok, Post, Post-bind, Post-ok, Post-checked, Post-mono}
use chainsettle_contract.Base.Sum.{total}
use chainsettle_contract.Base.Token.{sent_in_all}
use chainsettle_contract.Escrow.Fees.{deduct_fee_at_completion}
use chainsettle_contract.Escrow.Fees.Net.{SameBooks, deduct_fee_at_completion-Charges}
use chainsettle_contract.Escrow.Host.{Ledger}
use chainsettle_contract.Escrow.Limits.{check_circuit_breaker}
use chainsettle_contract.Escrow.Limits.Windows.{check_circuit_breaker-SameBooks}
use chainsettle_contract.Escrow.Payout.{
  Desk, set_shipment, pay_some, decrease_total_escrowed, pay_milestone_to_payees,
}
use chainsettle_contract.Escrow.Payout.Accounted.{Step, Steady, chain, relist, join, Step-IsShared}
use chainsettle_contract.Escrow.Payout.Disbursed.{decrease_total_escrowed-SameBooks}
use chainsettle_contract.Escrow.Payout.Exact.{IsShared}
use chainsettle_contract.Escrow.Payout.Steps.{
  MovesIf, pay_some-MovesIf, pay_milestone_to_payees-MovesIf, set_escrow-Steady,
}
use chainsettle_contract.Escrow.Settle.{
  append_audit, pay_logistics, pay_referral, pay_early_bonus, release_collateral_share,
  record_timeliness, record_reliability, record_release_counters, add_lifetime_volume, set_tallies,
  check_address_outflow,
}
use chainsettle_contract.Escrow.Settle.Exact.{
  pay_logistics-Steady, pay_early_bonus-Steady, refer-Steady, release_collateral_share-Steady,
  record_timeliness-SameWaiting, record_reliability-SameWaiting,
  record_release_counters-SameWaiting, check_address_outflow-SameWaiting, set_tallies-Steady,
}
use chainsettle_contract.Escrow.Settlement.{
  set_milestone, charge, enter_confirmation, distribute, leave_escrow, settle,
}
use chainsettle_contract.Escrow.Shipment.{
  confirmed, Milestone, all_milestones_done, is_final_milestone,
}
use chainsettle_contract.Escrow.State.{Escrow}
use chainsettle_contract.Escrow.Terms.{first_buyer, consume_advance, long_hold_rebate}
use chainsettle_contract.Escrow.Terms.Advance.{use_advance-Steady, long_hold_rebate_off}

-- The fee goes out, the advance is used up and the limits are checked: what is moved and what is left come
-- to the payment, and what is left is what is paid, unless a rebate is in force.
pub charge-Steady :
    (env : Ledger) (shipment_id index : ℕ) (payment : ℤ) (d : Desk)
    → Post (charge env shipment_id index payment d) (λ (advance, net, d').
      (left : ℤ) × Steady (payment -ℤ left) d d'
      × (d.escrow.policy.long_hold_terms.1 ≡ 0 → net ≡ left))
unfolding charge
charge-Steady env shipment_id index payment d =
    Post-bind _ (consume_advance index d.deal) _ λ (advance, deal) e.
      let used : Steady (pos 0) d (record { deal = deal; escrow = d.escrow }) =
        Post-ok _ e (use_advance-Steady index (get none index d.deal.advances) d.deal d.escrow) in
      let x = deal.shipment in
      Post-bind _ (first_buyer x) _ λ buyer _.
        Post-bind _
          (deduct_fee_at_completion env payment x.token shipment_id buyer
            (is_final_milestone x.milestones index) d.escrow)
          _
          λ (net, bps, fee, s) f.
            let (sums, tallies, policy, deals) = Post-ok _ f (
              deduct_fee_at_completion-Charges env payment x.token shipment_id buyer
                (is_final_milestone x.milestones index) d.escrow) in
            Post-bind _ (long_hold_rebate env s.policy x net fee) _ λ (net', fee') g.
              let same : d.escrow.policy.long_hold_terms.1 ≡ 0 → net' ≡ net =
                λ off. Post-ok _ g (long_hold_rebate_off env s.policy x net fee (rw policy off)) in
              Post-bind _ (check_circuit_breaker env payment s) _ λ s' k.
                let (sent', tallies', policy', deals') =
                  Post-ok _ k (check_circuit_breaker-SameBooks env payment s) in
                Post-bind _ (check_address_outflow env x.supplier payment s'.tallies) _ λ t l.
                  let waiting : t.pending_payout ≡ d.escrow.tallies.pending_payout =
                    Post-ok _ l
                      (check_address_outflow-SameWaiting env x.supplier payment s'.tallies)
                    ∙ ap (λ b. b.pending_payout) (tallies' ∙ tallies) in
                  (
                    net,
                    record {
                      exact = omega (
                        int_laws,
                        used.exact,
                        sums,
                        ≈_of_eq (ap sent_in_all sent'),
                        ≈_of_eq (ap (total (λ v. v)) waiting),
                      );
                      milestones_after = used.milestones_after;
                      payees_kept = used.payees_kept;
                      retainage_kept = used.retainage_kept;
                      warranty_kept = used.warranty_kept;
                      deals_kept = deals' ∙ deals;
                    },
                    same,
                  )

add_lifetime_volume-SameBooks :
    (buyer : ℕ) (payment : ℤ) (s : Escrow)
    → Post (add_lifetime_volume buyer payment s) (SameBooks s)
add_lifetime_volume-SameBooks buyer payment s =
    Post-checked _ (get (pos 0) buyer s.lifetime_volume +ℤ payment) _ λ _. (refl, refl, refl, refl)

-- What is entered changes the milestone's status only, and releasing collateral moves nothing else.
pub enter_confirmation-Step :
    (env : Ledger) (caller index : ℕ) (m : Milestone) (payment : ℤ) (d : Desk)
    → Post
        (enter_confirmation env caller index m payment d)
        (Step (pos 0) (set d.deal.shipment.milestones index (record m { status = confirmed })) d)
unfolding enter_confirmation
enter_confirmation-Step env caller index m payment d =
    let x = append_audit env caller "milestone_confirmed" "confirm_milestone" d.deal.shipment in
    let proof = get_or m.proof_submitted_ledger 0 in
    let t =
      if contains x.buyers caller && ltb 0 proof
      then record_reliability env caller proof d.escrow.tallies
      else d.escrow.tallies in
    let m' = record m { status = confirmed } in
    Post-checked _ (x.released_amount +ℤ payment) _ λ _.
      let x' = record (set_milestone index m' x) {
        released_amount = x.released_amount +ℤ payment;
        last_confirmed_milestone_index = some index;
      } in
      let d₀ = set_tallies (set_shipment d x') (record_timeliness x.supplier m' t) in
      let waiting : t.pending_payout ≡ d.escrow.tallies.pending_payout =
        elim (Bool-cases (contains x.buyers caller && ltb 0 proof)) [
          | inl e ↦ rw e (record_reliability-SameWaiting env caller proof d.escrow.tallies)
          | inr e ↦ rw e refl
        ] in
      let entered : Step (pos 0) (set d.deal.shipment.milestones index m') d d₀ = record {
        exact = omega (
          int_laws,
          ≈_of_eq (ap (total (λ v. v)) (record_timeliness-SameWaiting x.supplier m' t ∙ waiting)),
        );
        milestones_after = refl;
        payees_kept = refl;
        retainage_kept = refl;
        warranty_kept = refl;
        deals_kept = refl;
      } in
      Post-bind _ (release_collateral_share env index d₀) _ λ d₁ e.
        Post-bind _ (first_buyer x') _ λ buyer _.
          Post-bind _ (add_lifetime_volume buyer payment d₁.escrow) _ λ s f.
            let released = Post-ok _ e (release_collateral_share-Steady env index d₀) in
            let counted =
              set_escrow-Steady d₁ s
                (Post-ok _ f (add_lifetime_volume-SameBooks buyer payment d₁.escrow)) in
            join (pos 0) (join (pos 0) entered released (omega int_laws)) counted (omega int_laws)

-- The distribution moves what is left after fee and advance, and the penalty, where payees and holdbacks
-- fit and neither amount is negative.
pub distribute-MovesIf :
    (env : Ledger) (index : ℕ) (m : Milestone) (payment penalty actual : ℤ) (d : Desk)
    → Post (distribute env index m payment penalty actual d) (
        MovesIf
          (IsShared index d.deal × (pos 0 ≤ℤ actual) × (pos 0 ≤ℤ penalty))
          (actual +ℤ penalty)
          d.deal.shipment.milestones
          d)
unfolding distribute
distribute-MovesIf env index m payment penalty actual d =
    Post-bind _ (pay_logistics env payment actual d) _ λ (after_logistics, d₁) e₁.
      let (s₁, n₁) = Post-ok _ e₁ (pay_logistics-Steady env payment actual d) in
      Post-bind _ (pay_referral env after_logistics d₁) _ λ (left, d₂) e₂.
        let (s₂, n₂) =
          Post-ok _ e₂
            (refer-Steady env d₁.deal.shipment.referrer d₁.escrow.fee_config after_logistics d₁) in
        Post-bind _ (pay_early_bonus env m.deadline_ledger d₂) _ λ d₃ e₃.
          let s₃ = Post-ok _ e₃ (pay_early_bonus-Steady env m.deadline_ledger d₂) in
          let upto : Steady (actual -ℤ left) d d₃ =
            join (actual -ℤ left) (join (actual -ℤ left) s₁ s₂ (omega int_laws)) s₃
              (omega int_laws) in
          Post-bind _ (pay_milestone_to_payees env index left d₃) _ λ d₄ e₄.
            let x = d₄.deal.shipment in
            let (paid, s₄, h₄) = Post-ok _ e₄ (pay_milestone_to_payees-MovesIf env index left d₃) in
            Post-bind _ (first_buyer x) _ λ buyer _.
              Post-bind _
                (record_release_counters x.supplier buyer x.token payment left d₄.escrow.tallies) _
                λ t e₅.
                  let s₅ = set_tallies-Steady d₄ t (
                    Post-ok _ e₅ (
                      record_release_counters-SameWaiting x.supplier buyer x.token payment left
                        d₄.escrow.tallies)) in
                  let before : Steady (actual -ℤ left +ℤ paid) d (set_tallies d₄ t) =
                    join (actual -ℤ left +ℤ paid) (join (actual -ℤ left +ℤ paid) upto s₄ refl) s₅
                      (omega int_laws) in
                  Post-mono _ (pay_some env buyer penalty (set_tallies d₄ t))
                    (λ d₅ (returned, s₆, h₆). (
                      actual -ℤ left +ℤ paid +ℤ returned,
                      join (actual -ℤ left +ℤ paid +ℤ returned) before s₆ refl,
                      λ (shared, nonneg, fined). omega (
                        int_laws,
                        h₄ (Step-IsShared index upto shared, n₂ (n₁ nonneg)),
                        h₆ fined,
                      ),
                    ))
                    (pay_some-MovesIf env buyer penalty (set_tallies d₄ t))

pub leave_escrow-Steady :
    (payment advance : ℤ) (d : Desk) → Post (leave_escrow payment advance d) (Steady (pos 0) d)
leave_escrow-Steady payment advance d = Post-checked _ (payment -ℤ advance) _ λ _.
    Post-bind _ (decrease_total_escrowed d.deal.shipment.token (payment -ℤ advance) d.escrow) _
      λ s e. set_escrow-Steady d s (
        Post-ok _ e
          (decrease_total_escrowed-SameBooks d.deal.shipment.token (payment -ℤ advance) d.escrow))

-- A settlement that does not complete the shipment is exact: with no rebate in force, and the advance
-- within the net payment, what is sent to anyone, what is set aside for the parties, the bonus pool and
-- the collateral together change by the payment and the penalty less the advance, and the milestone is
-- confirmed.
pub settle-Step :
    (env : Ledger) (caller shipment_id index : ℕ) (m : Milestone) (payment penalty : ℤ) (d : Desk)
    → IsShared index d.deal
    → d.escrow.policy.long_hold_terms.1 ≡ 0
    → pos 0 ≤ℤ penalty
    → (advance net : ℤ) (d₁ : Desk) → charge env shipment_id index payment d ≡ ok (advance, net, d₁)
    → advance ≤ℤ net
    → all_milestones_done (set d.deal.shipment.milestones index (record m { status = confirmed }))
      ≡ false
    → Post (settle env caller shipment_id index m payment penalty d) (
        Step
          (payment +ℤ penalty -ℤ advance)
          (set d.deal.shipment.milestones index (record m { status = confirmed }))
          d)
unfolding settle
settle-Step env caller shipment_id index m payment penalty d shared off fined advance net d₁ e fits
      more =
    let ms = set d.deal.shipment.milestones index (record m { status = confirmed }) in
    let (left, charged, paid_net) = Post-ok _ e (charge-Steady env shipment_id index payment d) in
    let whole : net ≡ left = paid_net off in
    let same : set d₁.deal.shipment.milestones index (record m { status = confirmed }) ≡ ms =
      ap (λ l. set l index (record m { status = confirmed })) charged.milestones_after in
    rw e (
      Post-bind _ (enter_confirmation env caller index m payment d₁) _ λ d₂ e₂.
        let entered = Post-ok _ e₂ (enter_confirmation-Step env caller index m payment d₁) in
        let upto : Step (payment -ℤ net) ms d d₂ =
          chain (payment -ℤ net) charged (relist same entered) (omega (int_laws, ≈_of_eq whole)) in
        Post-checked _ (net -ℤ advance) _ λ _.
          Post-bind _ (distribute env index m payment penalty (net -ℤ advance) d₂) _ λ d₃ e₃.
            let (given, s₃, h₃) =
              Post-ok _ e₃ (distribute-MovesIf env index m payment penalty (net -ℤ advance) d₂) in
            let exactly = h₃ (Step-IsShared index upto shared, omega int_laws, fined) in
            let paid : Step (payment +ℤ penalty -ℤ advance) ms d d₃ =
              join (payment +ℤ penalty -ℤ advance) upto s₃ (omega (int_laws, exactly)) in
            let ended : all_milestones_done d₃.deal.shipment.milestones ≡ false =
              ap all_milestones_done paid.milestones_after ∙ more in
            rw ended (
              Post-mono _ (leave_escrow payment advance d₃)
                (λ d₄ left. join (payment +ℤ penalty -ℤ advance) paid left (omega int_laws))
                (leave_escrow-Steady payment advance d₃)))
