-- ===== src/Escrow/Settlement/Frame.antt =====
-- What a confirmation leaves as it is, on each of its two ends.
use chainsettle_contract.Base.{ℕ, ◌+◌, ◌≡◌, refl, ap, if◌then◌else◌, set}
use chainsettle_contract.Base.Int.{ℤ, pos, ◌+ℤ◌, ◌-ℤ◌, int_laws}
use chainsettle_contract.Base.Result.{
  ok, Post, Post-bind, Post-ok, Post-checked, Post-checked_u32, Post-if, Post-mono,
}
use chainsettle_contract.Escrow.Complete.{complete}
use chainsettle_contract.Escrow.Complete.Exact.{complete-Moves}
use chainsettle_contract.Escrow.Host.{Ledger}
use chainsettle_contract.Escrow.Payout.{Desk, set_shipment}
use chainsettle_contract.Escrow.Payout.Accounted.{Step, Steady, stay, chain, relist, join}
use chainsettle_contract.Escrow.Payout.Steps.{Moves}
use chainsettle_contract.Escrow.Settle.{pay_early_bonus, record_timeliness, set_tallies}
use chainsettle_contract.Escrow.Settle.Exact.{
  pay_early_bonus-Steady, record_timeliness-SameWaiting, set_tallies-Steady,
}
use chainsettle_contract.Escrow.Settlement.{
  set_milestone, hold, charge, enter_confirmation, distribute, leave_escrow, settle,
}
use chainsettle_contract.Escrow.Settlement.Exact.{
  charge-Steady, enter_confirmation-Step, distribute-MovesIf, leave_escrow-Steady,
}
use chainsettle_contract.Escrow.Shipment.{confirmed, confirmed_held, Milestone, all_milestones_done}

complete_if_done-Moves :
    (env : Ledger) (caller shipment_id : ℕ) (d : Desk)
    → Post
        (if all_milestones_done d.deal.shipment.milestones
          then complete env caller shipment_id d
          else ok d)
        (Moves d.deal.shipment.milestones d)
complete_if_done-Moves env caller shipment_id d =
    Post-if _ (all_milestones_done d.deal.shipment.milestones) _ _
      (λ _. complete-Moves env caller shipment_id d) λ _. (pos 0, stay d)

-- Any settlement confirms its milestone and leaves the other milestones and every other shipment as they
-- are.
pub settle-Moves :
    (env : Ledger) (caller shipment_id index : ℕ) (m : Milestone) (payment penalty : ℤ) (d : Desk)
    → Post
        (settle env caller shipment_id index m payment penalty d)
        (Moves (set d.deal.shipment.milestones index (record m { status = confirmed })) d)
unfolding settle
settle-Moves env caller shipment_id index m payment penalty d =
    let ms = set d.deal.shipment.milestones index (record m { status = confirmed }) in
    Post-bind _ (charge env shipment_id index payment d) _ λ (advance, net, d₁) e₁.
      let (left, s₁, _) = Post-ok _ e₁ (charge-Steady env shipment_id index payment d) in
      let same : set d₁.deal.shipment.milestones index (record m { status = confirmed }) ≡ ms =
        ap (λ l. set l index (record m { status = confirmed })) s₁.milestones_after in
      Post-bind _ (enter_confirmation env caller index m payment d₁) _ λ d₂ e₂.
        let s₂ = Post-ok _ e₂ (enter_confirmation-Step env caller index m payment d₁) in
        let upto : Step (payment -ℤ left) ms d d₂ =
          chain (payment -ℤ left) s₁ (relist same s₂) (omega int_laws) in
        Post-checked _ (net -ℤ advance) _ λ _.
          Post-bind _ (distribute env index m payment penalty (net -ℤ advance) d₂) _ λ d₃ e₃.
            let (given, s₃, _) =
              Post-ok _ e₃ (distribute-MovesIf env index m payment penalty (net -ℤ advance) d₂) in
            Post-bind _
              (if all_milestones_done d₃.deal.shipment.milestones
                then complete env caller shipment_id d₃
                else ok d₃)
              _
              λ d₄ e₄.
                let (last, s₄) = Post-ok _ e₄ (complete_if_done-Moves env caller shipment_id d₃) in
                let before : Step (payment -ℤ left +ℤ given) ms d d₃ =
                  join (payment -ℤ left +ℤ given) upto s₃ refl in
                let all : Step (payment -ℤ left +ℤ given +ℤ last) ms d d₄ =
                  join (payment -ℤ left +ℤ given +ℤ last) before s₄ refl in
                Post-mono _ (leave_escrow payment advance d₄)
                  (λ d₅ s₅. (
                    payment -ℤ left +ℤ given +ℤ last,
                    join (payment -ℤ left +ℤ given +ℤ last) all s₅ (omega int_laws),
                  ))
                  (leave_escrow-Steady payment advance d₄)

-- A holdback marks its milestone as confirmed and held until the holdback is over, and leaves the
-- others as they are.
pub hold-Moves :
    (env : Ledger) (caller index : ℕ) (m : Milestone) (d : Desk)
    → Post (hold env caller index m d) (
        Moves
          (set d.deal.shipment.milestones index (record m {
            status = confirmed_held;
            release_after_ledger = env.sequence + d.deal.shipment.holdback_ledgers;
          }))
          d)
unfolding hold
hold-Moves env caller index m d =
    Post-checked_u32 _ (env.sequence + d.deal.shipment.holdback_ledgers) _ λ _.
      let release_after = env.sequence + d.deal.shipment.holdback_ledgers in
      let m' = record m { status = confirmed_held; release_after_ledger = release_after } in
      let t = record_timeliness d.deal.shipment.supplier m' d.escrow.tallies in
      let d₀ = set_shipment d (set_milestone index m' d.deal.shipment) in
      let d₁ = set_tallies d₀ t in
      let entered : Step (pos 0) (set d.deal.shipment.milestones index m') d d₀ = record {
        exact = omega int_laws;
        milestones_after = refl;
        payees_kept = refl;
        retainage_kept = refl;
        warranty_kept = refl;
        deals_kept = refl;
      } in
      let counted : Steady (pos 0) d₀ d₁ =
        set_tallies-Steady d₀ t
          (record_timeliness-SameWaiting d.deal.shipment.supplier m' d.escrow.tallies) in
      Post-bind _ (pay_early_bonus env m.deadline_ledger d₁) _ λ d₂ e.
        let s = Post-ok _ e (pay_early_bonus-Steady env m.deadline_ledger d₁) in
        let all : Step (pos 0) (set d.deal.shipment.milestones index m') d d₂ =
          join (pos 0) (join (pos 0) entered counted (omega int_laws)) s (omega int_laws) in
        (
          pos 0,
          record {
            exact = all.exact;
            milestones_after = all.milestones_after;
            payees_kept = all.payees_kept;
            retainage_kept = all.retainage_kept;
            warranty_kept = all.warranty_kept;
            deals_kept = all.deals_kept;
          },
        )
