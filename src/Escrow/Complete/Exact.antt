-- ===== src/Escrow/Complete/Exact.antt =====
-- What the completion of a shipment moves.
use chainsettle_contract.Base.{ℕ, ◌+◌, ◌≡◌, refl, ap, ◌||◌, Option, none, some, ◌==◌}
use chainsettle_contract.Base.Dict.{get}
use chainsettle_contract.Base.Int.{ℤ, pos, ◌+ℤ◌, ◌-ℤ◌, ltb_ℤ, leb_ℤ, int_laws, ≈_of_eq}
use chainsettle_contract.Base.Result.{
  Post, Post-bind, Post-ok, Post-checked, Post-checked_u32, Post-if, Post-mono,
}
use chainsettle_contract.Base.Token.{moved}
use chainsettle_contract.Escrow.Complete.{
  clean_rebate, rebate_payer, pay_rebate_from, pay_rebate, pay_clean_rebate, release_retainage,
  warranty_ledgers, start_warranty, settle_on_completion, count_completion, move_to_completed,
  return_bonus, count_completed, complete, complete_held,
}
use chainsettle_contract.Escrow.Host.{Ledger, Post-send}
use chainsettle_contract.Escrow.Payout.{
  Desk, set_escrow, set_shipment, pay, pay_some, decrease_total_escrowed,
}
use chainsettle_contract.Escrow.Payout.Accounted.{Steady, stay, join, pay-Steady}
use chainsettle_contract.Escrow.Payout.Disbursed.{decrease_total_escrowed-SameBooks}
use chainsettle_contract.Escrow.Payout.Steps.{
  pay-SameFile, Moves, pay_some-MovesIf, set_escrow-Steady,
}
use chainsettle_contract.Escrow.Policy.{Policy, Tallies}
use chainsettle_contract.Escrow.Settle.{append_audit}
use chainsettle_contract.Escrow.Settle.Exact.{SameWaiting, set_tallies-Steady}
use chainsettle_contract.Escrow.Shipment.{completed, Shipment}
use chainsettle_contract.Escrow.Split.{checked_u64}
use chainsettle_contract.Escrow.State.{FeeConfig}
use chainsettle_contract.Escrow.Terms.{first_buyer}

return_bonus-Steady : (env : Ledger) (d : Desk) → Post (return_bonus env d) (Steady (pos 0) d)
unfolding return_bonus
return_bonus-Steady env d =
    let x = d.deal.shipment in
    Post-if _ (ltb_ℤ (pos 0) x.early_bonus_remaining) _ _
      (λ _. Post-bind _ (first_buyer x) _ λ buyer _.
        Post-send _ env x.token env.this_contract buyer x.early_bonus_remaining d.escrow _ (record {
          exact = omega int_laws;
          milestones_after = refl;
          payees_kept = refl;
          retainage_kept = refl;
          warranty_kept = refl;
          deals_kept = refl;
        }))
      λ _. stay d

release_retainage-Steady :
    (env : Ledger) (d : Desk) → Post (release_retainage env d) (Steady (pos 0) d)
unfolding release_retainage
release_retainage-Steady env d =
    let x = d.deal.shipment in
    let retained = d.deal.retainage_balance in
    Post-if _ (ltb_ℤ (pos 0) retained) _ _
      (λ _. Post-bind _ (pay env x.supplier retained d) _ λ d₁ e.
        let paid = Post-ok _ e (pay-Steady env x.supplier retained d) in
        let (same, _) = Post-ok _ e (pay-SameFile env x.supplier retained d) in
        Post-bind _ (decrease_total_escrowed x.token retained d₁.escrow) _ λ s f.
          let books = Post-ok _ f (decrease_total_escrowed-SameBooks x.token retained d₁.escrow) in
          let kept = set_escrow-Steady d₁ s books in
          let both : Steady retained d (set_escrow d₁ s) =
            join retained paid kept (omega int_laws) in
          record {
            exact = omega (
              int_laws,
              both.exact,
              ≈_of_eq (ap (λ b. b.shipment.early_bonus_remaining) same),
              ≈_of_eq (ap (λ b. b.supplier_collateral) same),
              ≈_of_eq (ap (λ b. b.warranty_balance) same),
              ≈_of_eq (ap (λ b. b.retainage_balance) same),
            );
            milestones_after = refl;
            payees_kept = both.payees_kept;
            retainage_kept = both.retainage_kept;
            warranty_kept = both.warranty_kept;
            deals_kept = both.deals_kept;
          })
      λ _. stay d

start_warranty-Steady : (env : Ledger) (d : Desk) → Post (start_warranty env d) (Steady (pos 0) d)
unfolding start_warranty
start_warranty-Steady env d =
    Post-if _ (ltb_ℤ (pos 0) d.deal.warranty_balance) _ _
      (λ _. Post-checked_u32 _ (env.sequence + warranty_ledgers d.deal) _ λ _. record {
        exact = omega int_laws;
        milestones_after = refl;
        payees_kept = refl;
        retainage_kept = refl;
        warranty_kept = refl;
        deals_kept = refl;
      })
      λ _. stay d

pay_rebate_from-Moves :
    (env : Ledger) (source : Option ℕ) (rebate : ℤ) (d : Desk)
    → Post (pay_rebate_from env source rebate d) (Moves d.deal.shipment.milestones d)
unfolding pay_rebate_from
pay_rebate_from-Moves env none rebate d = (pos 0, stay d)
pay_rebate_from-Moves env (some source) rebate d =
    let x = d.deal.shipment in
    Post-send _ env x.token source x.supplier rebate d.escrow _ (
      Post-checked _ (get (pos 0) x.token d.escrow.treasury_revenue -ℤ rebate) _ λ _. (
        rebate,
        record {
          exact = omega int_laws;
          milestones_after = refl;
          payees_kept = refl;
          retainage_kept = refl;
          warranty_kept = refl;
          deals_kept = refl;
        },
      ))

pay_rebate-Moves :
    (env : Ledger) (config : Option FeeConfig) (rebate : ℤ) (d : Desk)
    → Post (pay_rebate env config rebate d) (Moves d.deal.shipment.milestones d)
unfolding pay_rebate
pay_rebate-Moves env none rebate d = (pos 0, stay d)
pay_rebate-Moves env (some config) rebate d =
    Post-bind _ (rebate_payer env config rebate d) _
      λ payer _. pay_rebate_from-Moves env payer rebate d

pay_clean_rebate-Moves :
    (env : Ledger) (shipment_id : ℕ) (d : Desk)
    → Post (pay_clean_rebate env shipment_id d) (Moves d.deal.shipment.milestones d)
unfolding pay_clean_rebate
pay_clean_rebate-Moves env shipment_id d =
    let fees_paid = get (pos 0) shipment_id d.escrow.fees_paid in
    let bps = d.escrow.policy.clean_rebate_bps in
    let revenue = get (pos 0) d.deal.shipment.token d.escrow.treasury_revenue in
    Post-if _ (bps == 0 || d.deal.had_dispute || leb_ℤ fees_paid (pos 0)) _ _ (λ _. (pos 0, stay d))
      λ _. Post-bind _ (clean_rebate fees_paid bps) _ λ rebate _.
        Post-if _ (leb_ℤ rebate (pos 0) || ltb_ℤ revenue rebate) _ _ (λ _. (pos 0, stay d))
          λ _. pay_rebate-Moves env d.escrow.fee_config rebate d

settle_on_completion-Moves :
    (env : Ledger) (shipment_id : ℕ) (d : Desk)
    → Post (settle_on_completion env shipment_id d) (Moves d.deal.shipment.milestones d)
unfolding settle_on_completion
settle_on_completion-Moves env shipment_id d =
    let d₀ : Desk = record d { deal = record d.deal { completed_at = some env.sequence } } in
    let stamped : Steady (pos 0) d d₀ = record {
      exact = omega int_laws;
      milestones_after = refl;
      payees_kept = refl;
      retainage_kept = refl;
      warranty_kept = refl;
      deals_kept = refl;
    } in
    Post-bind _ (release_retainage env d₀) _ λ d₁ e₁. Post-bind _ (start_warranty env d₁) _ λ d₂ e₂.
      let s₁ = Post-ok _ e₁ (release_retainage-Steady env d₀) in
      let s₂ = Post-ok _ e₂ (start_warranty-Steady env d₁) in
      Post-mono _ (pay_clean_rebate env shipment_id d₂)
        (λ d₃ (moved, s₃). (
          moved,
          join moved (join (pos 0) (join (pos 0) stamped s₁ (omega int_laws)) s₂ (omega int_laws))
              s₃ (omega int_laws),
        ))
        (pay_clean_rebate-Moves env shipment_id d₂)

count_completion-SameWaiting :
    (policy : Policy) (supplier : ℕ) (t : Tallies)
    → SameWaiting t (count_completion policy supplier t)
unfolding count_completion
count_completion-SameWaiting policy supplier t = refl

count_completed-Steady :
    (shipment_id : ℕ) (d : Desk) → Post (count_completed shipment_id d) (Steady (pos 0) d)
unfolding count_completed
count_completed-Steady shipment_id d =
    let t = d.escrow.tallies in
    Post-bind _ (checked_u64 (t.completed_shipments + 1)) _ λ done _.
      let t' = record t { completed_shipments = done } in
      set_tallies-Steady d
        (move_to_completed shipment_id
          (count_completion d.escrow.policy d.deal.shipment.supplier t'))
        (count_completion-SameWaiting d.escrow.policy d.deal.shipment.supplier t')

-- A shipment's new status moves nothing.
pub set_status-Steady :
    (x : Shipment) (d : Desk)
    → x.early_bonus_remaining ≡ d.deal.shipment.early_bonus_remaining
    → x.milestones ≡ d.deal.shipment.milestones
    → Steady (pos 0) d (set_shipment d x)
set_status-Steady x d h k = record {
  exact = omega (int_laws, ≈_of_eq h);
  milestones_after = k;
  payees_kept = refl;
  retainage_kept = refl;
  warranty_kept = refl;
  deals_kept = refl;
}

-- Completing a shipment leaves its milestones and every other shipment as they are.
pub complete-Moves :
    (env : Ledger) (caller shipment_id : ℕ) (d : Desk)
    → Post (complete env caller shipment_id d) (Moves d.deal.shipment.milestones d)
unfolding complete
complete-Moves env caller shipment_id d =
    let x = d.deal.shipment in
    let x' =
      append_audit env caller "shipment_completed" "confirm_milestone"
        (record x { status = completed }) in
    let closed : Steady (pos 0) d (set_shipment d x') = set_status-Steady x' d refl refl in
    Post-bind _ (return_bonus env (set_shipment d x')) _ λ d₁ e₁.
      let s₁ = Post-ok _ e₁ (return_bonus-Steady env (set_shipment d x')) in
      Post-bind _ (count_completed shipment_id d₁) _ λ d₂ e₂.
        let s₂ = Post-ok _ e₂ (count_completed-Steady shipment_id d₁) in
        Post-bind _ (pay_some env x.supplier d₂.deal.supplier_collateral d₂) _ λ d₃ e₃.
          let (returned, s₃, _) =
            Post-ok _ e₃ (pay_some-MovesIf env x.supplier d₂.deal.supplier_collateral d₂) in
          let upto : Steady returned d d₃ =
            join returned
              (join (pos 0) (join (pos 0) closed s₁ (omega int_laws)) s₂ (omega int_laws)) s₃
              (omega int_laws) in
          Post-mono _ (settle_on_completion env shipment_id d₃)
            (λ d₄ (moved, s₄). (returned +ℤ moved, join (returned +ℤ moved) upto s₄ refl))
            (settle_on_completion-Moves env shipment_id d₃)

pub complete_held-Moves :
    (env : Ledger) (shipment_id : ℕ) (d : Desk)
    → Post (complete_held env shipment_id d) (Moves d.deal.shipment.milestones d)
unfolding complete_held
complete_held-Moves env shipment_id d = Post-bind _ (return_bonus env d) _ λ d₁ e₁.
    let s₁ = Post-ok _ e₁ (return_bonus-Steady env d) in
    let x' = record d₁.deal.shipment { status = completed } in
    let closed : Steady (pos 0) d₁ (set_shipment d₁ x') = set_status-Steady x' d₁ refl refl in
    Post-bind _ (count_completed shipment_id (set_shipment d₁ x')) _ λ d₂ e₂.
      let s₂ = Post-ok _ e₂ (count_completed-Steady shipment_id (set_shipment d₁ x')) in
      let upto : Steady (pos 0) d d₂ =
        join (pos 0) (join (pos 0) s₁ closed (omega int_laws)) s₂ (omega int_laws) in
      Post-mono _ (settle_on_completion env shipment_id d₂)
        (λ d₃ (moved, s₃). (moved, join moved upto s₃ (omega int_laws)))
        (settle_on_completion-Moves env shipment_id d₂)
