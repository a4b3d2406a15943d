-- ===== src/Escrow/Warranty/Pay.antt =====
-- What one call about a warranty does to the holdback.
use Prim.Native.String.{String}
use chainsettle_contract.Base.{
  ℕ, ◌≡◌, refl, ap, ◌∙◌, ◌⊎◌, inl, inr, Bool, not, ◌&&◌, Option, none, some, List, ◌∷◌, arith, ltb,
  leb, ◌==◌, if◌then◌else◌, is_some,
}
use chainsettle_contract.Base.Dict.{Dict, get, get-insert_self}
use chainsettle_contract.Base.Int.{ℤ, pos, ◌≤ℤ◌, ltb_ℤ, leb_ℤ, is_positive}
use chainsettle_contract.Base.Result.{
  Result, ok, or_panic, Post, Post-bind, Post-panic_if, Post-ok, Post-if, Post-mono,
}
use chainsettle_contract.Base.Token.{Transfer}
use chainsettle_contract.Escrow.Confirm.{save}
use chainsettle_contract.Escrow.Host.{Ledger, Post-send, assert_running}
use chainsettle_contract.Escrow.Payout.{Desk, pay, decrease_total_escrowed}
use chainsettle_contract.Escrow.Payout.Disbursed.{decrease_total_escrowed-SameBooks}
use chainsettle_contract.Escrow.Settle.{noted}
use chainsettle_contract.Escrow.Shipment.{Shipment, Deal}
use chainsettle_contract.Escrow.Warranty.{
  WarrantyClaim, WarrantyDesk, claim_of, is_completed, require_buyer_auth, file_warranty_claim,
  pay_warranty, resolve_warranty_claim, release_warranty,
}

pub data WarrantyCall : Type 0 where
  file_claim : ℕ → ℕ → WarrantyCall
  resolve_claim : ℕ → Bool → WarrantyCall
  release_holdback : WarrantyCall

abbrev pub warranty_call : Ledger → WarrantyCall → ℕ → WarrantyDesk → Result WarrantyDesk
warranty_call env (file_claim buyer evidence) id w = file_warranty_claim env buyer id evidence w
warranty_call env (resolve_claim arbiter refund_buyer) id w =
    resolve_warranty_claim env arbiter id refund_buyer w
warranty_call env release_holdback id w = release_warranty env id w

-- Nothing was transferred, and the holdback is as it was.
abbrev pub Unpaid : Deal → Deal → List Transfer → List Transfer → Type 0
Unpaid deal deal' ts ts' = (deal'.warranty_balance ≡ deal.warranty_balance) × (ts' ≡ ts)

-- The only transfer was the whole holdback, in the shipment's token, and none of it is left.
pub record Paid (here : ℕ) (deal deal' : Deal) (ts ts' : List Transfer) : Type 0 where
  pub receiver_of : ℕ
  pub something : pos 1 ≤ℤ deal.warranty_balance
  pub nothing_left : deal'.warranty_balance ≡ pos 0
  pub one_transfer :
      ts'
      ≡ record {
        token = deal.shipment.token;
        sender = here;
        receiver = receiver_of;
        amount = deal.warranty_balance;
      }
        ∷ ts

-- What becomes of a shipment's warranty.
pub record IsPaidOnce (here id : ℕ) (deal : Deal) (w w' : WarrantyDesk) : Type 0 where
  pub deal_after : Deal
  pub found_after : get none id w'.accounts.deals ≡ some deal_after
  pub token_kept : deal_after.shipment.token ≡ deal.shipment.token
  pub outcome :
      Unpaid deal deal_after w.accounts.sent w'.accounts.sent
      ⊎ Paid here deal deal_after w.accounts.sent w'.accounts.sent

abbrev payment_to : Ledger → ℕ → ℤ → Desk → Transfer
payment_to env receiver amount d = record {
  token = d.deal.shipment.token;
  sender = env.this_contract;
  receiver = receiver;
  amount = amount;
}

pay_lem :
    (env : Ledger) (receiver : ℕ) (amount : ℤ) (d : Desk)
    → Post (pay env receiver amount d) (λ d'.
      (d'.deal ≡ d.deal) × (d'.escrow.sent ≡ payment_to env receiver amount d ∷ d.escrow.sent))
pay_lem env receiver amount d =
    Post-send _ env d.deal.shipment.token env.this_contract receiver amount d.escrow _
      ((refl, refl))

pay_warranty-Paid :
    (env : Ledger) (receiver : ℕ) (d : Desk)
    → pos 1 ≤ℤ d.deal.warranty_balance
    → Post (pay_warranty env receiver d) (λ d'.
      (d'.deal.shipment ≡ d.deal.shipment)
      × Paid env.this_contract d.deal d'.deal d.escrow.sent d'.escrow.sent)
unfolding pay_warranty
pay_warranty-Paid env receiver d h =
    let amount : ℤ = d.deal.warranty_balance in
    Post-bind _ (pay env receiver amount d) _ λ d₁ e.
      Post-bind _ (decrease_total_escrowed d.deal.shipment.token amount d₁.escrow) _ λ s f.
        let (same, sent) = Post-ok _ e (pay_lem env receiver amount d) in
        let books =
          Post-ok _ f (decrease_total_escrowed-SameBooks d.deal.shipment.token amount d₁.escrow) in
        (
          ap (λ (x : Deal). x.shipment) same,
          record {
            receiver_of = receiver;
            something = h;
            nothing_left = refl;
            one_transfer = books.0 ∙ sent;
          },
        )

module _ (env : Ledger) (id : ℕ) (deal : Deal) (w : WarrantyDesk)
    (found : get none id w.accounts.deals ≡ some deal) where
  -- A shipment's data put back, with another entry in its log.
  settled_lem :
      (d : Desk) (who : ℕ) (action detail : String) (cs : Dict (Option WarrantyClaim))
      → d.deal.shipment.token ≡ deal.shipment.token
      → Unpaid deal d.deal w.accounts.sent d.escrow.sent
        ⊎ Paid env.this_contract deal d.deal w.accounts.sent d.escrow.sent
      → IsPaidOnce env.this_contract id deal w (record {
        accounts = save id (record d { deal = noted env who action detail d.deal });
        claims = cs;
      })
  settled_lem d who action detail cs token outcome = record {
    deal_after = noted env who action detail d.deal;
    found_after =
        get-insert_self none id (some (noted env who action detail d.deal)) d.escrow.deals;
    token_kept = token;
    outcome = elim outcome [
      | inl unpaid ↦ inl unpaid
      | inr paid ↦ inr (record {
        receiver_of = paid.receiver_of;
        something = paid.something;
        nothing_left = paid.nothing_left;
        one_transfer = paid.one_transfer;
      })
    ];
  }

  file-IsPaidOnce :
      (buyer evidence : ℕ)
      → Post (file_warranty_claim env buyer id evidence w) (IsPaidOnce env.this_contract id deal w)
  unfolding file_warranty_claim or_panic
  file-IsPaidOnce buyer evidence = rw found (
      Post-bind _ (assert_running w.accounts) _ λ _ _.
        Post-bind _ (require_buyer_auth env deal.shipment buyer) _ λ _ _.
          Post-panic_if _ (not (is_completed deal.shipment))
            "warranty claims require a completed shipment" _
            λ _. Post-panic_if _ (evidence == 0) "invalid evidence hash" _ λ _.
              Post-panic_if _ (leb_ℤ deal.warranty_balance (pos 0)) "no warranty holdback" _ λ _.
                Post-bind _ (or_panic deal.warranty_ends_at "no warranty holdback") _ λ ends_at _.
                  Post-panic_if _ (leb ends_at env.sequence) "warranty period has ended" _ λ _.
                    Post-panic_if _ (is_some (claim_of w id)) "warranty claim already open" _ λ _.
                      settled_lem (record { deal = deal; escrow = w.accounts }) buyer
                        "warranty_claim_filed" "file_warranty_claim" _ refl (inl (refl, refl)))

  release-IsPaidOnce : Post (release_warranty env id w) (IsPaidOnce env.this_contract id deal w)
  unfolding release_warranty or_panic
  release-IsPaidOnce = rw found (
      Post-bind _ (assert_running w.accounts) _ λ _ _.
        Post-panic_if _ (not (is_completed deal.shipment)) "shipment is not completed" _ λ _.
          Post-panic_if _ (leb_ℤ deal.warranty_balance (pos 0)) "no warranty holdback" _
            λ some_left.
              Post-bind _ (or_panic deal.warranty_ends_at "no warranty holdback") _ λ ends_at _.
                Post-panic_if _ (ltb env.sequence ends_at) "warranty period not yet ended" _ λ _.
                  Post-panic_if _ (is_some (claim_of w id)) "warranty claim pending" _ λ _.
                    let d₀ : Desk = record { deal = deal; escrow = w.accounts } in
                    Post-bind _ (pay_warranty env deal.shipment.supplier d₀) _ λ d e.
                      let (same, paid) = Post-ok _ e (
                        pay_warranty-Paid env deal.shipment.supplier d₀
                          (is_positive deal.warranty_balance some_left)) in
                      settled_lem d env.this_contract "warranty_released" "release_warranty"
                        w.claims (ap (λ (x : Shipment). x.token) same) (inr paid))

  refund-outcome :
      (refund : Bool) (claimant : ℕ)
      → Post
          (if refund && ltb_ℤ (pos 0) deal.warranty_balance
            then pay_warranty env claimant (record { deal = deal; escrow = w.accounts })
            else ok (record { deal = deal; escrow = w.accounts }))
          (λ d.
            (d.deal.shipment ≡ deal.shipment)
            × (Unpaid deal d.deal w.accounts.sent d.escrow.sent
                ⊎ Paid env.this_contract deal d.deal w.accounts.sent d.escrow.sent))
  refund-outcome refund claimant =
      let d₀ : Desk = record { deal = deal; escrow = w.accounts } in
      Post-if _ (refund && ltb_ℤ (pos 0) deal.warranty_balance) (pay_warranty env claimant d₀)
        (ok d₀)
        (λ h.
          Post-mono _ (pay_warranty env claimant d₀) (λ d (same, paid). (same, inr paid))
            (pay_warranty-Paid env claimant d₀ (ground (arith, h))))
        λ _. (refl, inl (refl, refl))

  resolve-IsPaidOnce :
      (arbiter : ℕ) (refund : Bool)
      → Post
          (resolve_warranty_claim env arbiter id refund w)
          (IsPaidOnce env.this_contract id deal w)
  unfolding resolve_warranty_claim or_panic
  resolve-IsPaidOnce arbiter refund = rw found (
      Post-bind _ (assert_running w.accounts) _ λ _ _.
        Post-panic_if _ (not (env.approved arbiter)) "not authorized" _ λ _.
          Post-panic_if _ (not (arbiter == deal.shipment.arbiter)) "unauthorized" _ λ _.
            Post-bind _ (or_panic (claim_of w id) "no open warranty claim") _ λ claim _.
              let d₀ : Desk = record { deal = deal; escrow = w.accounts } in
              Post-bind _
                (if refund && ltb_ℤ (pos 0) deal.warranty_balance
                  then pay_warranty env claim.claimant d₀
                  else ok d₀)
                _
                λ d e.
                  let (same, outcome) = Post-ok _ e (refund-outcome refund claim.claimant) in
                  settled_lem d arbiter "warranty_claim_resolved"
                    (if refund then "buyer" else "supplier") _ (ap (λ (x : Shipment). x.token) same)
                    outcome)

  pub call-IsPaidOnce :
      (c : WarrantyCall) → Post (warranty_call env c id w) (IsPaidOnce env.this_contract id deal w)
  call-IsPaidOnce (file_claim buyer evidence) = file-IsPaidOnce buyer evidence
  call-IsPaidOnce (resolve_claim arbiter refund) = resolve-IsPaidOnce arbiter refund
  call-IsPaidOnce release_holdback = release-IsPaidOnce
