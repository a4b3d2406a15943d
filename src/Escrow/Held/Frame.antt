-- ===== src/Escrow/Held/Frame.antt =====
-- What the release of a held payment leaves as it is.
use chainsettle_contract.Base.{ℕ, ◌≡◌, refl, ap, ◌∙◌, Option, none, some, if◌then◌else◌, set}
use chainsettle_contract.Base.Dict.{get, erase}
use chainsettle_contract.Base.Int.{ℤ, pos, ◌+ℤ◌, ◌-ℤ◌, int_laws}
use chainsettle_contract.Base.Result.{
  ok, Post, Post-bind, Post-ok, Post-checked, Post-if, Post-mono,
}
use chainsettle_contract.Base.Token.{moved}
use chainsettle_contract.Escrow.Complete.{complete_held}
use chainsettle_contract.Escrow.Complete.Exact.{set_status-Steady, complete_held-Moves}
use chainsettle_contract.Escrow.Fees.{deduct_fee}
use chainsettle_contract.Escrow.Fees.Flat.{deduct_fee-SameRest}
use chainsettle_contract.Escrow.Held.{
  graded, charge_held, enter_release, distribute_held, settle_grade, release_held,
}
use chainsettle_contract.Escrow.Host.{Ledger}
use chainsettle_contract.Escrow.Limits.{check_circuit_breaker}
use chainsettle_contract.Escrow.Limits.Windows.{check_circuit_breaker-SameBooks}
use chainsettle_contract.Escrow.Payout.{Desk, set_shipment, pay_some, pay_milestone_to_payees}
use chainsettle_contract.Escrow.Payout.Accounted.{
  accounted, Step, Steady, stay, chain, relist, join,
}
use chainsettle_contract.Escrow.Payout.Steps.{
  Moves, pay_some-MovesIf, pay_milestone_to_payees-MovesIf,
}
use chainsettle_contract.Escrow.Settle.{
  append_audit, pay_logistics, pay_referral, release_collateral_share, record_release_counters,
  check_address_outflow,
}
use chainsettle_contract.Escrow.Settle.Exact.{
  pay_logistics-Steady, refer-Steady, release_collateral_share-Steady,
  record_release_counters-SameWaiting, set_tallies-Steady,
}
use chainsettle_contract.Escrow.Settlement.{set_milestone, leave_escrow}
use chainsettle_contract.Escrow.Settlement.Exact.{leave_escrow-Steady}
use chainsettle_contract.Escrow.Shipment.{confirmed, Milestone, all_milestones_done}
use chainsettle_contract.Escrow.Terms.{first_buyer, milestone_gross_payment, consume_advance}
use chainsettle_contract.Escrow.Terms.Advance.{use_advance-Steady}

charge_held-Moves :
    (env : Ledger) (index : ℕ) (payment : ℤ) (d : Desk)
    → Post
        (charge_held env index payment d)
        (λ (advance, net, d'). Moves d.deal.shipment.milestones d d')
unfolding charge_held
charge_held-Moves env index payment d =
    Post-bind _ (consume_advance index d.deal) _ λ (advance, deal) e.
      let used : Steady (pos 0) d (record { deal = deal; escrow = d.escrow }) =
        Post-ok _ e (use_advance-Steady index (get none index d.deal.advances) d.deal d.escrow) in
      Post-bind _ (deduct_fee env payment deal.shipment.token d.escrow) _ λ (net, s) f.
        let (tallies, policy, deals) =
          Post-ok _ f (deduct_fee-SameRest env payment deal.shipment.token d.escrow) in
        Post-bind _ (check_circuit_breaker env payment s) _ λ s' k.
          let (sent', tallies', policy', deals') =
            Post-ok _ k (check_circuit_breaker-SameBooks env payment s) in
          Post-bind _ (check_address_outflow env deal.shipment.supplier payment s'.tallies) _ λ t l.
            let d' : Desk = record { deal = deal; escrow = record s' { tallies = t } } in
            (
              accounted d' -ℤ accounted d,
              record {
                exact = omega int_laws;
                milestones_after = used.milestones_after;
                payees_kept = used.payees_kept;
                retainage_kept = used.retainage_kept;
                warranty_kept = used.warranty_kept;
                deals_kept = deals' ∙ deals;
              },
            )

abbrev pub released : Milestone → Milestone
released m = record m { status = confirmed; release_after_ledger = 0 }

enter_release-Step :
    (env : Ledger) (index : ℕ) (m : Milestone) (gross : ℤ) (d : Desk)
    → Post
        (enter_release env index m gross d)
        (Step (pos 0) (set d.deal.shipment.milestones index (released m)) d)
unfolding enter_release
enter_release-Step env index m gross d =
    let x = d.deal.shipment in
    Post-checked _ (x.released_amount +ℤ gross) _ λ _.
      let x' = record (set_milestone index (released m) x) {
        released_amount = x.released_amount +ℤ gross;
        last_confirmed_milestone_index = some index;
      } in
      let entered : Step (pos 0) (set x.milestones index (released m)) d (set_shipment d x') =
        record {
          exact = omega int_laws;
          milestones_after = refl;
          payees_kept = refl;
          retainage_kept = refl;
          warranty_kept = refl;
          deals_kept = refl;
        } in
      Post-mono _ (release_collateral_share env index (set_shipment d x'))
        (λ d₁ s. join (pos 0) entered s (omega int_laws))
        (release_collateral_share-Steady env index (set_shipment d x'))

distribute_held-Moves :
    (env : Ledger) (index : ℕ) (payment actual : ℤ) (d : Desk)
    → Post (distribute_held env index payment actual d) (Moves d.deal.shipment.milestones d)
unfolding distribute_held
distribute_held-Moves env index payment actual d =
    Post-bind _ (pay_logistics env payment actual d) _ λ (after_logistics, d₁) e₁.
      let (s₁, _) = Post-ok _ e₁ (pay_logistics-Steady env payment actual d) in
      Post-bind _ (pay_referral env after_logistics d₁) _ λ (left, d₂) e₂.
        let (s₂, _) =
          Post-ok _ e₂
            (refer-Steady env d₁.deal.shipment.referrer d₁.escrow.fee_config after_logistics d₁) in
        Post-bind _ (pay_milestone_to_payees env index left d₂) _ λ d₃ e₃.
          let x = d₃.deal.shipment in
          let (paid, s₃, _) = Post-ok _ e₃ (pay_milestone_to_payees-MovesIf env index left d₂) in
          Post-bind _ (first_buyer x) _ λ buyer _.
            Post-bind _
              (record_release_counters x.supplier buyer x.token payment left d₃.escrow.tallies) _
              λ t e₄.
                let s₄ = set_tallies-Steady d₃ t (
                  Post-ok _ e₄ (
                    record_release_counters-SameWaiting x.supplier buyer x.token payment left
                      d₃.escrow.tallies)) in
                let upto : Steady (actual -ℤ left) d d₂ =
                  join (actual -ℤ left) s₁ s₂ (omega int_laws) in
                (
                  actual -ℤ left +ℤ paid,
                  join (actual -ℤ left +ℤ paid) (join (actual -ℤ left +ℤ paid) upto s₃ refl) s₄
                      (omega int_laws),
                )

settle_grade-Moves :
    (env : Ledger) (index : ℕ) (grade : Option (ℕ × ℕ)) (refund : ℤ) (d : Desk)
    → Post (settle_grade env index grade refund d) (Moves d.deal.shipment.milestones d)
unfolding settle_grade
settle_grade-Moves env index none refund d = (pos 0, stay d)
settle_grade-Moves env index (some grade) refund d =
    let d₀ : Desk = record d {
      deal = record d.deal { pending_grade = erase index d.deal.pending_grade };
    } in
    let settled : Steady (pos 0) d d₀ = record {
      exact = omega int_laws;
      milestones_after = refl;
      payees_kept = refl;
      retainage_kept = refl;
      warranty_kept = refl;
      deals_kept = refl;
    } in
    Post-bind _ (first_buyer d.deal.shipment) _ λ buyer _.
      Post-bind _ (pay_some env buyer refund d₀) _ λ d₁ e.
        let (moved, s₁, _) = Post-ok _ e (pay_some-MovesIf env buyer refund d₀) in
        let x' =
          append_audit env env.this_contract "grade_settled" "release_held_payment"
            d₁.deal.shipment in
        (
          moved,
          join moved (join moved settled s₁ (omega int_laws)) (set_status-Steady x' d₁ refl refl)
              (omega int_laws),
        )

complete_held_if_done-Moves :
    (env : Ledger) (shipment_id : ℕ) (d : Desk)
    → Post
        (if all_milestones_done d.deal.shipment.milestones
          then complete_held env shipment_id d
          else ok d)
        (Moves d.deal.shipment.milestones d)
complete_held_if_done-Moves env shipment_id d =
    Post-if _ (all_milestones_done d.deal.shipment.milestones) _ _
      (λ _. complete_held-Moves env shipment_id d) λ _. (pos 0, stay d)

-- A release confirms its milestone and leaves the other milestones and every other shipment as they are.
pub release_held-Moves :
    (env : Ledger) (shipment_id index : ℕ) (m : Milestone) (d : Desk)
    → Post
        (release_held env shipment_id index m d)
        (Moves (set d.deal.shipment.milestones index (released m)) d)
unfolding release_held
release_held-Moves env shipment_id index m d =
    let ms = set d.deal.shipment.milestones index (released m) in
    let grade = get none index d.deal.pending_grade in
    Post-bind _ (milestone_gross_payment d.deal index) _ λ gross _.
      Post-bind _ (graded gross grade) _ λ payment _. Post-checked _ (gross -ℤ payment) _ λ _.
        Post-bind _ (charge_held env index payment d) _ λ (advance, net, d₁) e₁.
          let (a, s₁) = Post-ok _ e₁ (charge_held-Moves env index payment d) in
          let same : set d₁.deal.shipment.milestones index (released m) ≡ ms =
            ap (λ l. set l index (released m)) s₁.milestones_after in
          Post-bind _ (enter_release env index m gross d₁) _ λ d₂ e₂.
            let s₂ = Post-ok _ e₂ (enter_release-Step env index m gross d₁) in
            let entered : Step a ms d d₂ = chain a s₁ (relist same s₂) (omega int_laws) in
            Post-checked _ (net -ℤ advance) _ λ _.
              Post-bind _ (distribute_held env index payment (net -ℤ advance) d₂) _ λ d₃ e₃.
                let (b, s₃) =
                  Post-ok _ e₃ (distribute_held-Moves env index payment (net -ℤ advance) d₂) in
                Post-bind _ (settle_grade env index grade (gross -ℤ payment) d₃) _ λ d₄ e₄.
                  let (c, s₄) =
                    Post-ok _ e₄ (settle_grade-Moves env index grade (gross -ℤ payment) d₃) in
                  let paid : Step (a +ℤ b +ℤ c) ms d d₄ =
                    join (a +ℤ b +ℤ c) (join (a +ℤ b) entered s₃ refl) s₄ refl in
                  Post-bind _
                    (if all_milestones_done d₄.deal.shipment.milestones
                      then complete_held env shipment_id d₄
                      else ok d₄)
                    _
                    λ d₅ e₅.
                      let (e, s₅) = Post-ok _ e₅ (complete_held_if_done-Moves env shipment_id d₄) in
                      let all : Step (a +ℤ b +ℤ c +ℤ e) ms d d₅ =
                        join (a +ℤ b +ℤ c +ℤ e) paid s₅ refl in
                      Post-mono _ (leave_escrow gross advance d₅)
                        (λ d₆ s₆.
                          (a +ℤ b +ℤ c +ℤ e, join (a +ℤ b +ℤ c +ℤ e) all s₆ (omega int_laws)))
                        (leave_escrow-Steady gross advance d₅)
