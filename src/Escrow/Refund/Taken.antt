-- ===== src/Escrow/Refund/Taken.antt =====
-- What taking up an offered refund does.
use chainsettle_contract.Base.{
  ℕ, ◌≡◌, refl, inl, inr, true, false, not, ◌&&◌, none, some, List, ◌∷◌, arith, ◌==◌, if◌then◌else◌,
  Bool-cases, contains,
}
use chainsettle_contract.Base.Dict.{Dict, get, insert, get-insert, get-insert_self}
use chainsettle_contract.Base.Int.{ℤ, pos, ◌-ℤ◌, int_laws, ◌≈◌}
use chainsettle_contract.Base.Result.{
  ok, panic_if, or_panic, Post, Post-bind, Post-panic_if, Post-ok, Post-checked, Post-mono, Fails,
  Fails-bind,
}
use chainsettle_contract.Base.Token.{Transfer, flow}
use chainsettle_contract.Escrow.Confirm.Guards.{not_lem, or_panic_lem}
use chainsettle_contract.Escrow.Host.{Ledger, require_signature, Post-send}
use chainsettle_contract.Escrow.Refund.{
  RefundProposal, RefundDesk, get_voluntary_refund, shipment_of, accept_voluntary_refund,
  cancel_voluntary_refund,
}
use chainsettle_contract.Escrow.Refund.Offer.{get_voluntary_refund-put_proposal}
use chainsettle_contract.Escrow.Shipment.{Shipment}

abbrev refund_transfer : Shipment → ℕ → RefundProposal → Transfer
refund_transfer x buyer p = record {
  token = x.token;
  sender = x.supplier;
  receiver = buyer;
  amount = p.refund_amount;
}

-- The buyer is one of the shipment's, has signed, and has been sent the offer's amount by the supplier;
-- of all offers that one is gone, and of all totals in the books that of the shipment's token is less by
-- the amount.
pub record IsRefunded (env : Ledger) (buyer id index : ℕ) (r r' : RefundDesk) : Type 0 where
  pub shipment : Shipment
  pub proposal : RefundProposal
  pub found : shipment_of r id ≡ ok shipment
  pub signed : env.approved buyer ≡ true
  pub is_buyer : contains shipment.buyers buyer ≡ true
  pub offer : get_voluntary_refund r id index ≡ some proposal
  pub paid_out : r'.books.sent ≡ refund_transfer shipment buyer proposal ∷ r.books.sent
  pub offers_left :
      (i j : ℕ)
      → get_voluntary_refund r' i j
        ≡ (if (i == id) && (j == index) then none else get_voluntary_refund r i j)
  pub deals_left : r'.books.deals ≡ r.books.deals
  pub escrowed :
      (token : ℕ)
      → get (pos 0) token r'.books.total_escrowed ≡ (
          if token == shipment.token
          then get (pos 0) token r.books.total_escrowed -ℤ proposal.refund_amount
          else get (pos 0) token r.books.total_escrowed)

total_after :
    (shipment_token : ℕ) (amount : ℤ) (token : ℕ) (totals : Dict ℤ)
    → get (pos 0) token (insert shipment_token (get (pos 0) shipment_token totals -ℤ amount) totals)
      ≡ (if token == shipment_token
          then get (pos 0) token totals -ℤ amount
          else get (pos 0) token totals)
total_after shipment_token amount token totals = elim (Bool-cases (token == shipment_token)) [
  | inl same ↦
      let one : token ≡ shipment_token = ground arith in
      rw one (
        ground (
          arith,
          get-insert_self (pos 0) shipment_token (get (pos 0) shipment_token totals -ℤ amount)
              totals,
        ))
  | inr apart ↦ ground (
    arith,
    apart,
    get-insert (pos 0) token shipment_token (get (pos 0) shipment_token totals -ℤ amount) totals,
  )
]

-- A refund that is taken was offered for the milestone and is taken by a buyer of the shipment who has
-- signed; the offer's amount goes from the supplier to that buyer as the only transfer, the offer is used
-- up and no other one, the shipments are as they were, and of the stored totals of what is escrowed that
-- of the shipment's token falls by the amount and no other changes.
pub accept_voluntary_refund-IsRefunded :
    (env : Ledger) (buyer id index : ℕ) (r : RefundDesk)
    → Post (accept_voluntary_refund env buyer id index r) (IsRefunded env buyer id index r)
unfolding accept_voluntary_refund
accept_voluntary_refund-IsRefunded env buyer id index r =
    Post-panic_if _ (not (env.approved buyer)) "not authorized" _ λ unsigned.
      Post-bind _ (shipment_of r id) _ λ x found.
        Post-panic_if _ (not (contains x.buyers buyer)) "Unauthorized" _ λ own.
          Post-bind _ (or_panic (get_voluntary_refund r id index) "NoPendingRefund") _ λ p e.
            Post-send _ env x.token x.supplier buyer p.refund_amount r.books _ (
              Post-checked _ (get (pos 0) x.token r.books.total_escrowed -ℤ p.refund_amount) _ λ _.
                record {
                  shipment = x;
                  proposal = p;
                  found = found;
                  signed = not_lem _ unsigned;
                  is_buyer = not_lem _ own;
                  offer =
                      Post-ok _ e
                        (or_panic_lem (get_voluntary_refund r id index) "NoPendingRefund");
                  paid_out = refl;
                  offers_left =
                      λ i j. ground (arith, get_voluntary_refund-put_proposal id index none r i j);
                  deals_left = refl;
                  escrowed =
                      λ token. total_after x.token p.refund_amount token r.books.total_escrowed;
                })

-- A transfer between others brings a holder nothing and takes nothing.
flow_apart :
    (holder t : ℕ) (x : Transfer) (xs : List Transfer)
    → (x.sender == holder) ≡ false
    → (x.receiver == holder) ≡ false
    → flow holder t (x ∷ xs) ≈ flow holder t xs
flow_apart holder t x xs s r = elim (Bool-cases (x.token == t)) [
  | inl e ↦ rw (e, s, r) (omega int_laws)
  | inr e ↦ rw e (omega int_laws)
]

-- Where the contract is neither the supplier nor the buyer of an accepted refund, no token of its
-- own has moved.
pub accept_voluntary_refund_flow :
    (env : Ledger) (buyer id index t : ℕ) (r : RefundDesk) (x : Shipment)
    → shipment_of r id ≡ ok x
    → (x.supplier == env.this_contract) ≡ false
    → (buyer == env.this_contract) ≡ false
    → Post
        (accept_voluntary_refund env buyer id index r)
        (λ r'. flow env.this_contract t r'.books.sent ≈ flow env.this_contract t r.books.sent)
accept_voluntary_refund_flow env buyer id index t r x found s b =
    Post-mono _ (accept_voluntary_refund env buyer id index r)
      (λ r' h.
        let same : h.shipment ≡ x = cc (h.found, found) in
        let own : (h.shipment.supplier == env.this_contract) ≡ false = rw same s in
        rw h.paid_out (
          flow_apart env.this_contract t (refund_transfer h.shipment buyer h.proposal) r.books.sent
            own b))
      (accept_voluntary_refund-IsRefunded env buyer id index r)

module _ (env : Ledger) (who id index : ℕ) (r : RefundDesk)
    (gone : get_voluntary_refund r id index ≡ none) where
  accept_voluntary_refund-Fails : Fails (accept_voluntary_refund env who id index r)
  unfolding accept_voluntary_refund or_panic
  accept_voluntary_refund-Fails = Fails-bind (require_signature env who) _ λ _ _.
      Fails-bind (shipment_of r id) _ λ x _.
        Fails-bind (panic_if (not (contains x.buyers who)) "Unauthorized") _
          λ _ _. rw gone ("NoPendingRefund", refl)

  cancel_voluntary_refund-Fails : Fails (cancel_voluntary_refund env who id index r)
  unfolding cancel_voluntary_refund panic_if
  cancel_voluntary_refund-Fails = Fails-bind (require_signature env who) _ λ _ _.
      Fails-bind (shipment_of r id) _ λ x _.
        Fails-bind (panic_if (not (who == x.supplier)) "Unauthorized") _
          λ _ _. rw gone ("NoPendingRefund", refl)

offer_gone :
    {env : Ledger} {buyer id index : ℕ} {r r' : RefundDesk}
    → IsRefunded env buyer id index r r'
    → get_voluntary_refund r' id index ≡ none
offer_gone {env} {buyer} {id} {index} h = ground (arith, h.offers_left id index)

-- After a refund is taken, the same milestone's offer can be neither taken nor cancelled again:
-- whoever asks, in any ledger, the call panics.
pub accept_voluntary_refund_once :
    (env env' : Ledger) (buyer who id index : ℕ) (r : RefundDesk)
    → Post (accept_voluntary_refund env buyer id index r) (λ r'.
      Fails (accept_voluntary_refund env' who id index r')
      × Fails (cancel_voluntary_refund env' who id index r'))
accept_voluntary_refund_once env env' buyer who id index r =
    Post-mono _ (accept_voluntary_refund env buyer id index r)
      (λ r' h. (
        accept_voluntary_refund-Fails env' who id index r' (offer_gone h),
        cancel_voluntary_refund-Fails env' who id index r' (offer_gone h),
      ))
      (accept_voluntary_refund-IsRefunded env buyer id index r)
