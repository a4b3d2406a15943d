-- ===== src/Escrow/Payout/Exact.antt =====
-- A payout is exact: what is sent, withheld and set aside comes to what is paid out.
use native.Mathlib.Nat.{mul-le-mul_left, mul-add}
use chainsettle_contract.Base.{
  ℕ, ◌+◌, ◌-◌, ◌*◌, ◌/◌, ◌≤◌, ◌≡◌, refl, ap, false, ◌&&◌, Option, none, some, List, [], ◌∷◌, arith,
  ◌==◌, if◌then◌else◌, get_or,
}
use chainsettle_contract.Base.Dict.{get}
use chainsettle_contract.Base.Int.{
  ℤ, pos, negsuc, ◌+ℤ◌, ◌-ℤ◌, ◌*ℤ◌, ◌≤ℤ◌, ltb_ℤ, leb_ℤ, int_laws, pos_add, pos_mul, pos_sub,
  pos_div, ◌≈◌, ≈_of_eq,
}
use chainsettle_contract.Base.Result.{
  ok, Post, Post-bind, Post-ok, Post-checked, Post-checked_last, Post-if, Post-mono,
}
use chainsettle_contract.Base.Sum.{total-insert}
use chainsettle_contract.Escrow.Fees.{bps_of}
use chainsettle_contract.Escrow.Host.{Ledger}
use chainsettle_contract.Escrow.Payout.{
  Desk, pay_some, increase_total_escrowed, warranty_bps, add_some, withhold,
  withhold_settlement_holdbacks, percent_of, pay_payees, pay_supplier, pay_net_to, pay_net,
  pay_milestone_to_payees,
}
use chainsettle_contract.Escrow.Payout.Disbursed.{
  disbursed, Disburses, pay-Disburses, pay_some-Disburses, increase_some-SameBooks,
  withhold-Disburses,
}
use chainsettle_contract.Escrow.Shipment.{MilestonePayee, Deal}

abbrev percents : List MilestonePayee → ℕ
percents [] = 0
percents (p ∷ ps) = p.percent + percents ps

percent_of-value :
    (n percent : ℕ) → Post (percent_of (pos n) percent) (λ a. a ≡ pos (n * percent / 100))
unfolding percent_of
percent_of-value n percent =
    Post-checked _ (pos n *ℤ pos percent) _
      λ _. rw (pos_mul n percent, pos_div (n * percent) 100) refl

add_some-exact : (g a : ℕ) → Post (add_some (pos g) (pos a)) (λ b. b ≡ pos (g + a))
add_some-exact g a =
    Post-if _ (ltb_ℤ (pos 0) (pos a)) _ _
      (λ _. Post-checked_last _ (pos g +ℤ pos a) λ _. pos_add g a) λ none. ap pos (ground arith)

-- What has been given out at `given` percent together fits below `limit` percent.
given-le : (n g given limit : ℕ) → g * 100 ≤ n * given → given ≤ limit → limit ≤ 100 → g ≤ n
given-le n g given limit h k l =
    let fits : n * given ≤ n * 100 = mul-le-mul_left n (omega arith) in omega arith

-- The split among the payees gives out what is left of the amount, to the last unit.
pay_payees-Disburses :
    (env : Ledger) (n : ℕ) (p : MilestonePayee) (ps : List MilestonePayee) (g given : ℕ) (d : Desk)
    → g * 100 ≤ n * given
    → given + percents (p ∷ ps) ≤ 100
    → Post (pay_payees env (pos n) (p ∷ ps) (pos g) d) (Disburses (pos (n - g)) d)
unfolding pay_payees
pay_payees-Disburses env n p [] g given d h whole =
    let fits : g ≤ n = given-le n g given 100 h (omega arith) (omega arith) in
    Post-checked _ (pos n -ℤ pos g) _
      λ _. rw (pos_sub n g fits) (pay_some-Disburses env p.payee (pos (n - g)) d (omega arith))
pay_payees-Disburses env n p (q ∷ ps) g given d h whole =
    let a = n * p.percent / 100 in
    let more : (g + a) * 100 ≤ n * (given + p.percent) = omega (arith, mul-add n given p.percent) in
    let fits : g + a ≤ n =
      given-le n (g + a) (given + p.percent) 100 more (omega arith) (omega arith) in
    Post-bind _ (percent_of (pos n) p.percent) _ λ amount e.
      rw (Post-ok _ e (percent_of-value n p.percent)) (
        Post-bind _ (pay_some env p.payee (pos a) d) _ λ d₁ f.
          Post-bind _ (add_some (pos g) (pos a)) _ λ distributed k.
            rw (Post-ok _ k (add_some-exact g a)) (
              Post-mono _ (pay_payees env (pos n) (q ∷ ps) (pos (g + a)) d₁)
                (λ d₂ r. omega (
                  int_laws,
                  r,
                  Post-ok _ f (pay_some-Disburses env p.payee (pos a) d (omega arith)),
                ))
                (pay_payees-Disburses env n q ps (g + a) (given + p.percent) d₁ more
                  (omega arith))))

pay_supplier-Disburses :
    (env : Ledger) (supplier : ℕ) (net : ℤ) (d : Desk)
    → Post (pay_supplier env supplier net d) (Disburses net d)
unfolding pay_supplier
pay_supplier-Disburses env supplier net d =
    let waiting = d.escrow.tallies.pending_payout in
    Post-if _ (get false supplier d.escrow.policy.batched_payouts) _ _
      (λ _. Post-checked _ (get (pos 0) supplier waiting +ℤ net) _ λ _. omega (
        int_laws,
        ≈_of_eq (
            total-insert (λ v. v) (pos 0) supplier (get (pos 0) supplier waiting +ℤ net) waiting
              refl),
      ))
      λ _. pay-Disburses env supplier net d

-- What the setters guarantee: the payees of a milestone have no more than everything, and the two
-- holdbacks take no more than everything.
pub record IsShared (index : ℕ) (deal : Deal) : Type 0 where
  pub shared : percents (get [] index deal.milestone_payees) ≤ 100
  pub withheld : deal.retainage_bps + warranty_bps deal ≤ 10000

pay_net_to-Disburses :
    (env : Ledger) (assignee : Option ℕ) (ps : List MilestonePayee) (supplier n : ℕ) (d : Desk)
    → percents ps ≤ 100
    → Post (pay_net_to env assignee ps supplier (pos n) d) (Disburses (pos n) d)
unfolding pay_net_to
pay_net_to-Disburses env (some financier) ps supplier n d h = pay-Disburses env financier (pos n) d
pay_net_to-Disburses env none [] supplier n d h = pay_supplier-Disburses env supplier (pos n) d
pay_net_to-Disburses env none (p ∷ ps) supplier n d h =
    Post-mono _ (pay_payees env (pos n) (p ∷ ps) (pos 0) d) (λ d₂ r. omega (int_laws, r))
      (pay_payees-Disburses env n p ps 0 0 d (omega arith) (omega arith))

-- The holdbacks change their two balances on the shipment and nothing else of what is stored there.
abbrev pub OnlyWithholds : Desk → Desk → Type 0
OnlyWithholds d d' =
    (r w : ℤ) × (d'.deal ≡ record d.deal { retainage_balance = r; warranty_balance = w })
    × (d'.escrow.deals ≡ d.escrow.deals)

withhold-OnlyWithholds :
    (net : ℤ) (d : Desk) → Post (withhold net d) (λ (left, d'). OnlyWithholds d d')
unfolding withhold
withhold-OnlyWithholds net d = Post-bind _ (bps_of net d.deal.retainage_bps) _ λ retained _.
    Post-bind _ (bps_of net (warranty_bps d.deal)) _ λ warranty _.
      Post-bind _ (add_some d.deal.retainage_balance retained) _ λ rb _.
        Post-bind _ (add_some d.deal.warranty_balance warranty) _ λ wb _.
          Post-checked _ (retained +ℤ warranty) _ λ _.
            Post-bind _
              (if ltb_ℤ (pos 0) (retained +ℤ warranty)
                then increase_total_escrowed d.deal.shipment.token (retained +ℤ warranty) d.escrow
                else ok d.escrow)
              _
              λ s e.
                let (_, _, _, deals) =
                  Post-ok _ e (
                    increase_some-SameBooks d.deal.shipment.token (retained +ℤ warranty)
                      d.escrow) in
                Post-checked _ (net -ℤ retained) _
                  λ _. Post-checked _ (net -ℤ retained -ℤ warranty) _ λ _. (rb, wb, refl, deals)

pub withhold_settlement_holdbacks-OnlyWithholds :
    (net : ℤ) (d : Desk)
    → Post (withhold_settlement_holdbacks net d) (λ (left, d'). OnlyWithholds d d')
unfolding withhold_settlement_holdbacks
withhold_settlement_holdbacks-OnlyWithholds net d =
    Post-if _ (d.deal.retainage_bps == 0 && warranty_bps d.deal == 0) _ _
      (λ _. (d.deal.retainage_balance, d.deal.warranty_balance, refl, refl))
      λ _. withhold-OnlyWithholds net d

withheld-Disburses :
    (n : ℕ) (d : Desk)
    → d.deal.retainage_bps + warranty_bps d.deal ≤ 10000
    → Post
        (withhold_settlement_holdbacks (pos n) d)
        (λ (left, d'). (disbursed d' +ℤ left ≈ disbursed d +ℤ pos n) × (pos 0 ≤ℤ left))
unfolding withhold_settlement_holdbacks
withheld-Disburses n d whole =
    Post-if _ (d.deal.retainage_bps == 0 && warranty_bps d.deal == 0) _ _ (λ _. (refl, omega arith))
      λ _. withhold-Disburses n d whole

-- What is left after the holdbacks is paid.
pay_left-Disburses :
    (env : Ledger) (supplier index : ℕ) (left : ℤ) (d : Desk)
    → pos 0 ≤ℤ left
    → percents (get [] index d.deal.milestone_payees) ≤ 100
    → Post
        (if leb_ℤ left (pos 0) then ok d else pay_net env supplier index left d)
        (Disburses left d)
pay_left-Disburses env supplier index (negsuc m) d h k = absurd (omega arith)
pay_left-Disburses env supplier index (pos m) d h k =
    Post-if _ (leb_ℤ (pos m) (pos 0)) _ _
      (λ none. let zero_units : m ≡ 0 = ground arith in omega (int_laws, zero_units))
      λ _.
        pay_net_to-Disburses env d.deal.payout_assignee (get [] index d.deal.milestone_payees)
          supplier m d k

-- A payout that goes through disburses exactly its amount: what is sent to the payees, withheld for
-- retainage and warranty and set aside for a batched payout comes to the amount, to the last unit,
-- where the payees' percents and the holdbacks' rates come to no more than the whole.
pub pay_milestone_to_payees-Disburses :
    (env : Ledger) (index n : ℕ) (d : Desk)
    → IsShared index d.deal
    → Post (pay_milestone_to_payees env index (pos n) d) (Disburses (pos n) d)
unfolding pay_milestone_to_payees
pay_milestone_to_payees-Disburses env index n d h =
    Post-if _ (leb_ℤ (pos n) (pos 0)) _ _
      (λ none. let zero_units : n ≡ 0 = ground arith in omega (int_laws, zero_units))
      λ _. Post-bind _ (withhold_settlement_holdbacks (pos n) d) _ λ (left, d₁) e.
        let (r, w, same, _) = Post-ok _ e (withhold_settlement_holdbacks-OnlyWithholds (pos n) d) in
        let (held, nonneg) = Post-ok _ e (withheld-Disburses n d h.withheld) in
        let supplier = get_or (get none index d.deal.milestone_supplier) d.deal.shipment.supplier in
        let shared : percents (get [] index d₁.deal.milestone_payees) ≤ 100 =
          rw (ap (λ x. x.milestone_payees) same) h.shared in
        Post-mono _ (if leb_ℤ left (pos 0) then ok d₁ else pay_net env supplier index left d₁)
          (λ d₂ paid. omega (int_laws, paid, held))
          (pay_left-Disburses env supplier index left d₁ nonneg shared)
