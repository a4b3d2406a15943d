-- ===== src/Escrow/Payout/Disbursed.antt =====
-- What a payment, an added amount and the holdbacks do to what has left the contract, is held back or
-- waits for a batch.
use native.Mathlib.Nat.{mul-le-mul_left, mul-add}
use chainsettle_contract.Base.{ℕ, ◌+◌, ◌*◌, ◌/◌, ◌≤◌, ◌≡◌, refl, arith, if◌then◌else◌}
use chainsettle_contract.Base.Dict.{get}
use chainsettle_contract.Base.Int.{ℤ, pos, ◌+ℤ◌, ◌-ℤ◌, ◌≤ℤ◌, ltb_ℤ, int_laws, ◌≈◌, not_less}
use chainsettle_contract.Base.Result.{
  ok, Post, Post-bind, Post-ok, Post-checked, Post-checked_last, Post-if,
}
use chainsettle_contract.Base.Sum.{total}
use chainsettle_contract.Base.Token.{sent_in_all}
use chainsettle_contract.Escrow.Fees.{bps_of}
use chainsettle_contract.Escrow.Fees.Net.{SameBooks, bps_of-value}
use chainsettle_contract.Escrow.Host.{Ledger, Post-send}
use chainsettle_contract.Escrow.Payout.{
  Desk, pay, pay_some, increase_total_escrowed, decrease_total_escrowed, warranty_bps, add_some,
  withhold,
}
use chainsettle_contract.Escrow.State.{Escrow}

-- What has left the contract, is held back on the shipment, or waits for a batched payout.
abbrev pub disbursed : Desk → ℤ
disbursed d =
    sent_in_all d.escrow.sent
    +ℤ (d.deal.retainage_balance
        +ℤ (d.deal.warranty_balance +ℤ total (λ v. v) d.escrow.tallies.pending_payout))

abbrev pub Disburses : ℤ → Desk → Desk → Type 0
Disburses amount d d' = disbursed d' ≈ disbursed d +ℤ amount

pub pay-Disburses :
    (env : Ledger) (receiver : ℕ) (amount : ℤ) (d : Desk)
    → Post (pay env receiver amount d) (Disburses amount d)
pay-Disburses env receiver amount d =
    Post-send _ env d.deal.shipment.token env.this_contract receiver amount d.escrow _
      (omega int_laws)

pub pay_some-Disburses :
    (env : Ledger) (receiver : ℕ) (amount : ℤ) (d : Desk)
    → pos 0 ≤ℤ amount
    → Post (pay_some env receiver amount d) (Disburses amount d)
pay_some-Disburses env receiver amount d h =
    Post-if _ (ltb_ℤ (pos 0) amount) _ _ (λ _. pay-Disburses env receiver amount d)
      λ none. omega (int_laws, not_less (pos 0) amount none)

-- Adding an amount that is not negative, if it is positive, adds it.
add_some-value :
    (balance amount : ℤ)
    → pos 0 ≤ℤ amount
    → Post (add_some balance amount) (λ b. b ≈ balance +ℤ amount)
add_some-value balance amount h =
    Post-if _ (ltb_ℤ (pos 0) amount) _ _ (λ _. Post-checked_last _ (balance +ℤ amount) λ _. refl)
      λ none. omega (int_laws, not_less (pos 0) amount none)

increase_total_escrowed-SameBooks :
    (token : ℕ) (amount : ℤ) (s : Escrow)
    → Post (increase_total_escrowed token amount s) (SameBooks s)
unfolding increase_total_escrowed
increase_total_escrowed-SameBooks token amount s =
    Post-checked _ (get (pos 0) token s.total_escrowed +ℤ amount) _ λ _. (refl, refl, refl, refl)

-- The same for an amount that is held only if it is positive.
pub increase_some-SameBooks :
    (token : ℕ) (amount : ℤ) (s : Escrow)
    → Post
        (if ltb_ℤ (pos 0) amount then increase_total_escrowed token amount s else ok s)
        (SameBooks s)
increase_some-SameBooks token amount s =
    Post-if _ (ltb_ℤ (pos 0) amount) _ _ (λ _. increase_total_escrowed-SameBooks token amount s)
      λ _. (refl, refl, refl, refl)

pub decrease_total_escrowed-SameBooks :
    (token : ℕ) (amount : ℤ) (s : Escrow)
    → Post (decrease_total_escrowed token amount s) (SameBooks s)
unfolding decrease_total_escrowed
decrease_total_escrowed-SameBooks token amount s =
    Post-checked _ (get (pos 0) token s.total_escrowed -ℤ amount) _ λ _. (refl, refl, refl, refl)

-- The parts of an amount at rates that come to no more than the whole.
parts-le : (n a b : ℕ) → a + b ≤ 10000 → n * a / 10000 + n * b / 10000 ≤ n
parts-le n a b h =
    let both : n * (a + b) ≤ n * 10000 = mul-le-mul_left n h in omega (arith, both, mul-add n a b)

-- What is withheld from a net amount and what is left come to it; nothing below zero is left where
-- the two rates come to no more than the whole.
pub withhold-Disburses :
    (n : ℕ) (d : Desk)
    → d.deal.retainage_bps + warranty_bps d.deal ≤ 10000
    → Post
        (withhold (pos n) d)
        (λ (left, d'). (disbursed d' +ℤ left ≈ disbursed d +ℤ pos n) × (pos 0 ≤ℤ left))
unfolding withhold
withhold-Disburses n d whole =
    let kept = n * d.deal.retainage_bps / 10000 in
    let warranted = n * warranty_bps d.deal / 10000 in
    Post-bind _ (bps_of (pos n) d.deal.retainage_bps) _ λ retained e.
      let er : retained ≡ pos kept = Post-ok _ e (bps_of-value n d.deal.retainage_bps) in
      Post-bind _ (bps_of (pos n) (warranty_bps d.deal)) _ λ warranty f.
        let ew : warranty ≡ pos warranted = Post-ok _ f (bps_of-value n (warranty_bps d.deal)) in
        rw (er, ew)
          (Post-bind _ (add_some d.deal.retainage_balance (pos kept)) _ λ rb g.
            Post-bind _ (add_some d.deal.warranty_balance (pos warranted)) _ λ wb k.
              Post-checked _ (pos kept +ℤ pos warranted) _ λ _.
                Post-bind _
                  (if ltb_ℤ (pos 0) (pos kept +ℤ pos warranted)
                    then increase_total_escrowed d.deal.shipment.token (pos kept +ℤ pos warranted)
                        d.escrow
                    else ok d.escrow)
                  _
                  λ s l.
                    let (same, tallies, _, _) = Post-ok _ l (
                      increase_some-SameBooks d.deal.shipment.token (pos kept +ℤ pos warranted)
                        d.escrow) in
                    Post-checked _ (pos n -ℤ pos kept) _ λ _.
                      Post-checked _ (pos n -ℤ pos kept -ℤ pos warranted) _ λ _.
                        rw (same, tallies)
                          ((
                            omega (
                              int_laws,
                              Post-ok _ g (
                                  add_some-value d.deal.retainage_balance (pos kept) (omega arith)),
                              Post-ok _ k (
                                  add_some-value d.deal.warranty_balance (pos warranted)
                                    (omega arith)),
                            ),
                            omega (
                              int_laws,
                              parts-le n d.deal.retainage_bps (warranty_bps d.deal) whole,
                            ),
                          )))
