-- ===== src/Escrow/Payout/Steps.antt =====
-- What a payout leaves as it is, and that it is a step that moves its amount.
use chainsettle_contract.Base.{
  ℕ, ◌≡◌, refl, ap, ◌∙◌, false, Option, none, some, List, [], ◌∷◌, arith, get_or,
}
use chainsettle_contract.Base.Dict.{get}
use chainsettle_contract.Base.Int.{
  ℤ, pos, negsuc, ◌+ℤ◌, ◌-ℤ◌, ◌≤ℤ◌, ltb_ℤ, leb_ℤ, int_laws, ◌≈◌, ≈_of_eq,
}
use chainsettle_contract.Base.Result.{
  Post, Post-bind, Post-ok, Post-checked, Post-if, Post-mono, Post-both, Post-given,
}
use chainsettle_contract.Base.Sum.{total}
use chainsettle_contract.Base.Token.{moved, sent_in_all}
use chainsettle_contract.Escrow.Fees.Net.{SameBooks}
use chainsettle_contract.Escrow.Host.{Ledger, Post-send}
use chainsettle_contract.Escrow.Payout.{
  Desk, set_escrow, pay, pay_some, add_some, withhold_settlement_holdbacks, percent_of, pay_payees,
  pay_supplier, pay_net_to, pay_net, pay_milestone_to_payees,
}
use chainsettle_contract.Escrow.Payout.Accounted.{accounted, Step, Steady, stay, pay-Steady}
use chainsettle_contract.Escrow.Payout.Exact.{
  IsShared, OnlyWithholds, withhold_settlement_holdbacks-OnlyWithholds,
  pay_milestone_to_payees-Disburses,
}
use chainsettle_contract.Escrow.Shipment.{Milestone, MilestonePayee}
use chainsettle_contract.Escrow.State.{Escrow}

-- What is stored under shipments' ids, at work and not, is the same.
abbrev SameFile : Desk → Desk → Type 0
SameFile d d' = (d'.deal ≡ d.deal) × (d'.escrow.deals ≡ d.escrow.deals)

-- A payment leaves what is stored under the shipment's id.
pub pay-SameFile :
    (env : Ledger) (receiver : ℕ) (amount : ℤ) (d : Desk)
    → Post (pay env receiver amount d) (SameFile d)
pay-SameFile env receiver amount d =
    Post-send _ env d.deal.shipment.token env.this_contract receiver amount d.escrow _ (refl, refl)

pay_some-SameFile :
    (env : Ledger) (receiver : ℕ) (amount : ℤ) (d : Desk)
    → Post (pay_some env receiver amount d) (SameFile d)
pay_some-SameFile env receiver amount d =
    Post-if _ (ltb_ℤ (pos 0) amount) _ _ (λ _. pay-SameFile env receiver amount d) λ _. (refl, refl)

pay_payees-SameFile :
    (env : Ledger) (net : ℤ) (ps : List MilestonePayee) (distributed : ℤ) (d : Desk)
    → Post (pay_payees env net ps distributed d) (SameFile d)
unfolding pay_payees
pay_payees-SameFile env net [] distributed d = (refl, refl)
pay_payees-SameFile env net (p ∷ []) distributed d =
    Post-checked _ (net -ℤ distributed) _ λ _. pay_some-SameFile env p.payee (net -ℤ distributed) d
pay_payees-SameFile env net (p ∷ q ∷ ps) distributed d =
    Post-bind _ (percent_of net p.percent) _ λ amount _.
      Post-bind _ (pay_some env p.payee amount d) _ λ d₁ e.
        Post-bind _ (add_some distributed amount) _ λ distributed' _.
          Post-mono _ (pay_payees env net (q ∷ ps) distributed' d₁)
            (λ d₂ (r, q).
              let (same, deals) = Post-ok _ e (pay_some-SameFile env p.payee amount d) in
              (r ∙ same, q ∙ deals))
            (pay_payees-SameFile env net (q ∷ ps) distributed' d₁)

pay_supplier-SameFile :
    (env : Ledger) (supplier : ℕ) (net : ℤ) (d : Desk)
    → Post (pay_supplier env supplier net d) (SameFile d)
unfolding pay_supplier
pay_supplier-SameFile env supplier net d =
    Post-if _ (get false supplier d.escrow.policy.batched_payouts) _ _
      (λ _.
        Post-checked _ (get (pos 0) supplier d.escrow.tallies.pending_payout +ℤ net) _
          λ _. (refl, refl))
      λ _. pay-SameFile env supplier net d

pay_net_to-SameFile :
    (env : Ledger) (assignee : Option ℕ) (ps : List MilestonePayee) (supplier : ℕ) (net : ℤ)
    (d : Desk)
    → Post (pay_net_to env assignee ps supplier net d) (SameFile d)
unfolding pay_net_to
pay_net_to-SameFile env (some financier) ps supplier net d = pay-SameFile env financier net d
pay_net_to-SameFile env none [] supplier net d = pay_supplier-SameFile env supplier net d
pay_net_to-SameFile env none (p ∷ ps) supplier net d =
    pay_payees-SameFile env net (p ∷ ps) (pos 0) d

pay_milestone_to_payees-OnlyWithholds :
    (env : Ledger) (index : ℕ) (net : ℤ) (d : Desk)
    → Post (pay_milestone_to_payees env index net d) (λ d'. OnlyWithholds d d')
unfolding pay_milestone_to_payees
pay_milestone_to_payees-OnlyWithholds env index net d =
    let supplier = get_or (get none index d.deal.milestone_supplier) d.deal.shipment.supplier in
    Post-if _ (leb_ℤ net (pos 0)) _ _
      (λ _. (d.deal.retainage_balance, d.deal.warranty_balance, refl, refl))
      λ _. Post-bind _ (withhold_settlement_holdbacks net d) _ λ (left, d₁) e.
        let only : OnlyWithholds d d₁ =
          Post-ok _ e (withhold_settlement_holdbacks-OnlyWithholds net d) in
        Post-if _ (leb_ℤ left (pos 0)) _ _ (λ _. only)
          λ _.
            Post-mono _ (pay_net env supplier index left d₁)
              (λ d₂ (same, deals). (only.0, only.1, same ∙ only.2, deals ∙ only.3))
              (pay_net_to-SameFile env d₁.deal.payout_assignee
                (get [] index d₁.deal.milestone_payees) supplier left d₁)

-- A payout moves its amount.
pay_milestone_to_payees-Steady :
    (env : Ledger) (index : ℕ) (net : ℤ) (d : Desk)
    → IsShared index d.deal
    → pos 0 ≤ℤ net
    → Post (pay_milestone_to_payees env index net d) (Steady net d)
pay_milestone_to_payees-Steady env index (negsuc n) d h nonneg = absurd (omega arith)
pay_milestone_to_payees-Steady env index (pos n) d h nonneg =
    Post-mono _ (pay_milestone_to_payees env index (pos n) d)
      (λ d' (moved, (r, w, same, deals)). record {
        exact = omega (
          int_laws,
          moved,
          ≈_of_eq (ap (λ x. x.shipment.early_bonus_remaining) same),
          ≈_of_eq (ap (λ x. x.supplier_collateral) same),
        );
        milestones_after = ap (λ x. x.shipment.milestones) same;
        payees_kept = ap (λ x. x.milestone_payees) same;
        retainage_kept = ap (λ x. x.retainage_bps) same;
        warranty_kept = ap (λ x. x.warranty_config) same;
        deals_kept = deals;
      })
      (Post-both _ _ (pay_milestone_to_payees env index (pos n) d)
        (pay_milestone_to_payees-Disburses env index n d h)
        (pay_milestone_to_payees-OnlyWithholds env index (pos n) d))

-- A step that moves something, and the amount where a condition holds.
abbrev pub MovesIf : Type 0 → ℤ → List Milestone → Desk → Desk → Type 0
MovesIf P amount ms d d' = (moved : ℤ) × Step moved ms d d' × (P → moved ≈ amount)

abbrev pub Moves : List Milestone → Desk → Desk → Type 0
Moves ms d d' = (moved : ℤ) × Step moved ms d d'

pub pay_some-MovesIf :
    (env : Ledger) (receiver : ℕ) (amount : ℤ) (d : Desk)
    → Post
        (pay_some env receiver amount d)
        (MovesIf (pos 0 ≤ℤ amount) amount d.deal.shipment.milestones d)
pay_some-MovesIf env receiver amount d =
    Post-if _ (ltb_ℤ (pos 0) amount) _ _
      (λ _.
        Post-mono _ (pay env receiver amount d) (λ d' r. (amount, r, λ _. refl))
          (pay-Steady env receiver amount d))
      λ none. (pos 0, stay d, λ nonneg. ground arith)

pub pay_milestone_to_payees-MovesIf :
    (env : Ledger) (index : ℕ) (net : ℤ) (d : Desk)
    → Post
        (pay_milestone_to_payees env index net d)
        (MovesIf (IsShared index d.deal × (pos 0 ≤ℤ net)) net d.deal.shipment.milestones d)
pay_milestone_to_payees-MovesIf env index net d =
    Post-mono _ (pay_milestone_to_payees env index net d)
      (λ d' ((r, w, same, deals), exactly). (
        accounted d' -ℤ accounted d,
        record {
          exact = omega int_laws;
          milestones_after = ap (λ x. x.shipment.milestones) same;
          payees_kept = ap (λ x. x.milestone_payees) same;
          retainage_kept = ap (λ x. x.retainage_bps) same;
          warranty_kept = ap (λ x. x.warranty_config) same;
          deals_kept = deals;
        },
        λ p. let moved = exactly p in omega (int_laws, moved.exact),
      ))
      (Post-both _ _ (pay_milestone_to_payees env index net d)
        (pay_milestone_to_payees-OnlyWithholds env index net d)
        (Post-given (IsShared index d.deal × (pos 0 ≤ℤ net)) _
          (pay_milestone_to_payees env index net d)
          λ (shared, nonneg). pay_milestone_to_payees-Steady env index net d shared nonneg))

-- Writing the same books moves nothing.
pub set_escrow-Steady :
    (d : Desk) (s : Escrow) → SameBooks d.escrow s → Steady (pos 0) d (set_escrow d s)
set_escrow-Steady d s h = record {
  exact = omega (
    int_laws,
    ≈_of_eq (ap sent_in_all h.0),
    ≈_of_eq (ap (λ t. total (λ v. v) t.pending_payout) h.1),
  );
  milestones_after = refl;
  payees_kept = refl;
  retainage_kept = refl;
  warranty_kept = refl;
  deals_kept = h.3;
}
