-- ===== src/Escrow/Fees/Recipients.antt =====
-- Who gets what of a fee that several recipients share.
use chainsettle_contract.Base.{
  ℕ, zero, suc, ◌+◌, ◌-◌, ◌*◌, ◌/◌, ◌≡◌, refl, ap, ◌∙◌, true, false, List, [], ◌∷◌, arith,
  if◌then◌else◌,
}
use chainsettle_contract.Base.Int.{ℤ, pos, ◌+ℤ◌, ltb_ℤ, in_i128, int_laws, pos_sub, ◌≈◌}
use chainsettle_contract.Base.Result.{
  ok, checked_i128, add_i128, sub_i128, Post, Post-bind, Post-panic_if, Post-ok, Post-if, Post-mono,
}
use chainsettle_contract.Base.Token.{Transfer, sent_in_all}
use chainsettle_contract.Escrow.Fees.{bps_of, pay_recipients}
use chainsettle_contract.Escrow.Fees.Net.{bps_of-value}
use chainsettle_contract.Escrow.Host.{Ledger, send}
use chainsettle_contract.Escrow.State.{FeeRecipient, Escrow}

-- The recipients' shares of a fee, each rounded down.
abbrev pub shares_of : ℕ → List FeeRecipient → ℕ
shares_of fee [] = 0
shares_of fee (r ∷ rs) = fee * r.share_bps / 10000 + shares_of fee rs

-- The transfers with one of `n` units by the contract before them, if `n` is not zero.
abbrev pub paid_to : Ledger → ℕ → ℕ → ℕ → List Transfer → List Transfer
paid_to env token receiver zero ts = ts
paid_to env token receiver (suc n) ts =
    record { token = token; sender = env.this_contract; receiver = receiver; amount = pos (suc n) }
    ∷ ts

-- Each recipient is sent his own share, one after the other, the last one at the head.
abbrev pub shares_paid : Ledger → ℕ → ℕ → List FeeRecipient → List Transfer → List Transfer
shares_paid env token fee [] ts = ts
shares_paid env token fee (r ∷ rs) ts =
    shares_paid env token fee rs (paid_to env token r.recipient (fee * r.share_bps / 10000) ts)

paid_to-sent :
    (env : Ledger) (token receiver n : ℕ) (ts : List Transfer)
    → sent_in_all (paid_to env token receiver n ts) ≈ sent_in_all ts +ℤ pos n
paid_to-sent env token receiver zero ts = omega int_laws
paid_to-sent env token receiver (suc n) ts = omega int_laws

shares_paid-sent :
    (env : Ledger) (token fee : ℕ) (rs : List FeeRecipient) (ts : List Transfer)
    → sent_in_all (shares_paid env token fee rs ts) ≈ sent_in_all ts +ℤ pos (shares_of fee rs)
shares_paid-sent env token fee [] ts = omega int_laws
shares_paid-sent env token fee (r ∷ rs) ts =
    let n = fee * r.share_bps / 10000 in
    omega (
      int_laws,
      paid_to-sent env token r.recipient n ts,
      shares_paid-sent env token fee rs (paid_to env token r.recipient n ts),
    )

send_some-paid_to :
    (env : Ledger) (token receiver n : ℕ) (s : Escrow)
    → Post
        (if ltb_ℤ (pos 0) (pos n)
          then send env token env.this_contract receiver (pos n) s
          else ok s)
        (λ s'. s'.sent ≡ paid_to env token receiver n s.sent)
unfolding send
send_some-paid_to env token receiver zero s = refl
send_some-paid_to env token receiver (suc n) s =
    Post-if _ (ltb_ℤ (pos 0) (pos (suc n))) _ _ (λ _. Post-panic_if _ _ _ _ λ _. refl)
      λ none_sent. absurd (ground (arith, none_sent))

pay_recipients-shares_paid :
    (env : Ledger) (token fee : ℕ) (rs : List FeeRecipient) (d : ℤ) (s : Escrow)
    → Post
        (pay_recipients env token (pos fee) false rs d s)
        (λ s'. s'.sent ≡ shares_paid env token fee rs s.sent)
unfolding pay_recipients
pay_recipients-shares_paid env token fee [] d s = refl
pay_recipients-shares_paid env token fee (r ∷ rs) d s =
    let n = fee * r.share_bps / 10000 in
    Post-bind _ (bps_of (pos fee) r.share_bps) _ λ share e.
      let value : share ≡ pos n = Post-ok _ e (bps_of-value fee r.share_bps) in
      rw value (
        Post-bind _
          (if ltb_ℤ (pos 0) (pos n)
            then send env token env.this_contract r.recipient (pos n) s
            else ok s)
          _
          λ s₁ e₁.
            Post-bind _ (if ltb_ℤ (pos 0) (pos n) then add_i128 d (pos n) else ok d) _ λ d' _.
              Post-mono _ (pay_recipients env token (pos fee) false rs d' s₁)
                (λ s' h.
                  h
                  ∙ ap (shares_paid env token fee rs)
                      (Post-ok _ e₁ (send_some-paid_to env token r.recipient n s)))
                (pay_recipients-shares_paid env token fee rs d' s₁))

whole_fee : (n : ℕ) → Post (sub_i128 (pos n) (pos 0)) (λ x. x ≡ pos n)
unfolding checked_i128
whole_fee n =
    rw (pos_sub n 0 (omega arith))
      (Post-if _ (in_i128 (pos (n - 0))) _ _ (λ _. ap pos (omega arith)) λ _. tt)

-- The transfers are those of the whole fee to the first recipient and of his own share to every other
-- one, in their order, and come to the fee and the other shares.
abbrev pub IsOverpaid : Ledger → ℕ → ℕ → FeeRecipient → List FeeRecipient → Escrow → Escrow → Type 0
IsOverpaid env token fee r rs s s' =
    (s'.sent ≡ shares_paid env token fee rs (paid_to env token r.recipient fee s.sent))
    × (sent_in_all s'.sent ≈ sent_in_all s.sent +ℤ pos (fee + shares_of fee rs))

-- Where a fee that is not negative is shared between recipients and the transfers go through, the
-- contract sends the whole fee to the first recipient and then, in their order, to every other one his
-- own share of the fee, rounded down, on top of it, and makes no other transfer; a share of zero is
-- not sent. What it sends comes to the fee and the other recipients' shares together.
pub pay_recipients_over :
    (env : Ledger) (token fee : ℕ) (r : FeeRecipient) (rs : List FeeRecipient) (s : Escrow)
    → Post
        (pay_recipients env token (pos fee) true (r ∷ rs) (pos 0) s)
        (IsOverpaid env token fee r rs s)
unfolding pay_recipients
pay_recipients_over env token fee r rs s = Post-bind _ (sub_i128 (pos fee) (pos 0)) _ λ share e.
    let value : share ≡ pos fee = Post-ok _ e (whole_fee fee) in
    rw value (
      Post-bind _
        (if ltb_ℤ (pos 0) (pos fee)
          then send env token env.this_contract r.recipient (pos fee) s
          else ok s)
        _
        λ s₁ e₁.
          Post-bind _ (if ltb_ℤ (pos 0) (pos fee) then add_i128 (pos 0) (pos fee) else ok (pos 0)) _
            λ d' _.
              Post-mono _ (pay_recipients env token (pos fee) false rs d' s₁)
                (λ s' h.
                  let ts = paid_to env token r.recipient fee s.sent in
                  let list : s'.sent ≡ shares_paid env token fee rs ts =
                    h
                    ∙ ap (shares_paid env token fee rs)
                        (Post-ok _ e₁ (send_some-paid_to env token r.recipient fee s)) in
                  (
                    list,
                    rw list (
                        omega (
                          int_laws,
                          paid_to-sent env token r.recipient fee s.sent,
                          shares_paid-sent env token fee rs ts,
                        )),
                  ))
                (pay_recipients-shares_paid env token fee rs d' s₁))
