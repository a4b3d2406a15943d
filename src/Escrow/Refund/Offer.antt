-- ===== src/Escrow/Refund/Offer.antt =====
-- What a supplier's offer of a refund, and its withdrawal, do.
use chainsettle_contract.Base.{
  ℕ, ◌≡◌, refl, true, not, ◌&&◌, ◌||◌, Option, none, some, arith, ◌==◌, if◌then◌else◌, get_elem?,
}
use chainsettle_contract.Base.Dict.{get-put_in}
use chainsettle_contract.Base.Int.{ℤ, pos, ◌*ℤ◌, ◌/ℤ◌, ◌≤ℤ◌, ltb_ℤ, leb_ℤ, is_positive, not_less}
use chainsettle_contract.Base.Result.{
  ok, panic_if, or_panic, Post, Post-bind, Post-panic_if, Post-ok, Post-checked, Ensures,
}
use chainsettle_contract.Escrow.Confirm.Guards.{not_lem, or_panic_lem}
use chainsettle_contract.Escrow.Host.{Ledger}
use chainsettle_contract.Escrow.Payout.{percent_of}
use chainsettle_contract.Escrow.Refund.{
  RefundProposal, RefundDesk, get_voluntary_refund, put_proposal, shipment_of, is_refundable,
  propose_voluntary_refund, cancel_voluntary_refund,
}
use chainsettle_contract.Escrow.Shipment.{Milestone, Shipment}

pub get_voluntary_refund-put_proposal :
    (id index : ℕ) (p : Option RefundProposal) (r : RefundDesk) (i j : ℕ)
    → get_voluntary_refund (put_proposal id index p r) i j ≡ (
        if i == id
        then (if j == index then p else get_voluntary_refund r i j)
        else get_voluntary_refund r i j)
get_voluntary_refund-put_proposal id index p r i j = get-put_in none id index p r.proposals i j

pub proposal_back :
    (id index : ℕ) (p : Option RefundProposal) (r : RefundDesk)
    → get_voluntary_refund (put_proposal id index p r) id index ≡ p
proposal_back id index p r = ground (arith, get_voluntary_refund-put_proposal id index p r id index)

-- The offer is of the shipment's supplier, for a milestone that was paid, of a positive amount that
-- is at most the milestone's share; it is stored, and nothing else changes.
pub record IsOffered (env : Ledger) (supplier id index : ℕ) (amount : ℤ) (reason : ℕ)
    (r r' : RefundDesk) : Type 0 where
  pub shipment : Shipment
  pub milestone : Milestone
  pub found : shipment_of r id ≡ ok shipment
  pub by_supplier : supplier ≡ shipment.supplier
  pub found_milestone : get_elem? shipment.milestones index ≡ some milestone
  pub is_paid : is_refundable milestone ≡ true
  pub above_nothing : pos 1 ≤ℤ amount
  pub at_most_share : amount ≤ℤ (shipment.total_amount *ℤ pos milestone.payment_percent) /ℤ pos 100
  pub offered :
      get_voluntary_refund r' id index
      ≡ some
          (record { refund_amount = amount; reason_hash = reason; proposed_ledger = env.sequence })
  pub books_kept : r'.books ≡ r.books

percent_of_lem :
    (a : ℤ) (percent : ℕ) → Post (percent_of a percent) (λ v. v ≡ (a *ℤ pos percent) /ℤ pos 100)
unfolding percent_of
percent_of_lem a percent = Post-checked _ (a *ℤ pos percent) _ λ _. refl

-- An offer that is made is the supplier's, for a milestone that is confirmed or resolved, of a
-- positive amount that is at most the percentage of the total that the milestone carries; the offer
-- with its amount, reason and ledger can be read back, and the escrow's books are as before.
propose_voluntary_refund-IsOffered :
    (env : Ledger) (supplier id index : ℕ) (amount : ℤ) (reason : ℕ) (r : RefundDesk)
    → Post
        (propose_voluntary_refund env supplier id index amount reason r)
        (IsOffered env supplier id index amount reason r)
unfolding propose_voluntary_refund
propose_voluntary_refund-IsOffered env supplier id index amount reason r =
    Post-panic_if _ (not (env.approved supplier)) "not authorized" _ λ _.
      Post-bind _ (shipment_of r id) _ λ x found.
        Post-panic_if _ (not (supplier == x.supplier)) "Unauthorized" _ λ own.
          Post-bind _ (or_panic (get_elem? x.milestones index) "InvalidMilestone") _ λ m e.
            Post-panic_if _ (not (is_refundable m)) "InvalidMilestone" _ λ paid.
              Post-bind _ (percent_of x.total_amount m.payment_percent) _ λ share f.
                Post-panic_if _ (leb_ℤ amount (pos 0) || ltb_ℤ share amount) "InvalidAmount" _
                  λ fits. record {
                    shipment = x;
                    milestone = m;
                    found = found;
                    by_supplier = ground (arith, not_lem (supplier == x.supplier) own);
                    found_milestone =
                        Post-ok _ e
                          (or_panic_lem (get_elem? x.milestones index) "InvalidMilestone");
                    is_paid = not_lem _ paid;
                    above_nothing = is_positive amount (ground (arith, fits));
                    at_most_share =
                        let known = Post-ok _ f (percent_of_lem x.total_amount m.payment_percent) in
                        rw⁻¹ known (not_less share amount (ground (arith, fits)));
                    offered = proposal_back id index (some _) r;
                    books_kept = refl;
                  }

-- The milestone has no offer, the others have the offers that they had, and so have the books.
pub record IsWithdrawn (id index : ℕ) (r r' : RefundDesk) : Type 0 where
  pub offers_after :
      (i j : ℕ)
      → get_voluntary_refund r' i j
        ≡ (if (i == id) && (j == index) then none else get_voluntary_refund r i j)
  pub books_left : r'.books ≡ r.books

put_twice-IsWithdrawn :
    (id index : ℕ) (p : Option RefundProposal) (r : RefundDesk)
    → IsWithdrawn id index r (put_proposal id index none (put_proposal id index p r))
put_twice-IsWithdrawn id index p r =
    let r₁ : RefundDesk = put_proposal id index p r in
    record {
      offers_after = λ i j. ground (
        arith,
        get_voluntary_refund-put_proposal id index none r₁ i j,
        get_voluntary_refund-put_proposal id index p r i j,
      );
      books_left = refl;
    }

-- A withdrawal of an offer that stands, signed by the supplier, goes through.
cancel-put :
    (env : Ledger) (supplier id index : ℕ) (p : RefundProposal) (r : RefundDesk) (x : Shipment)
    → env.approved supplier ≡ true
    → shipment_of r id ≡ ok x
    → supplier ≡ x.supplier
    → cancel_voluntary_refund env supplier id index (put_proposal id index (some p) r)
      ≡ ok (put_proposal id index none (put_proposal id index (some p) r))
unfolding cancel_voluntary_refund panic_if
cancel-put env supplier id index p r x signed found own =
    let same : (supplier == x.supplier) ≡ true = ground arith in
    let there : get_voluntary_refund (put_proposal id index (some p) r) id index ≡ some p =
      proposal_back id index (some p) r in
    rw (signed, found, same, there) refl

-- A supplier's offer that is made, followed by its cancellation in any ledger with the supplier's
-- signature: the cancellation succeeds, the milestone has no offer then, and every other milestone's
-- offer and the escrow's books are as before the two calls.
pub cancel_voluntary_refund_undoes :
    (env env' : Ledger) (supplier id index : ℕ) (amount : ℤ) (reason : ℕ) (r : RefundDesk)
    → env'.approved supplier ≡ true
    → Post
        (propose_voluntary_refund env supplier id index amount reason r)
        (λ r'. Ensures (cancel_voluntary_refund env' supplier id index r') (IsWithdrawn id index r))
unfolding propose_voluntary_refund
cancel_voluntary_refund_undoes env env' supplier id index amount reason r signed =
    Post-panic_if _ (not (env.approved supplier)) "not authorized" _ λ _.
      Post-bind _ (shipment_of r id) _ λ x found.
        Post-panic_if _ (not (supplier == x.supplier)) "Unauthorized" _ λ own.
          Post-bind _ (or_panic (get_elem? x.milestones index) "InvalidMilestone") _ λ m e.
            Post-panic_if _ (not (is_refundable m)) "InvalidMilestone" _ λ paid.
              Post-bind _ (percent_of x.total_amount m.payment_percent) _ λ share f.
                Post-panic_if _ (leb_ℤ amount (pos 0) || ltb_ℤ share amount) "InvalidAmount" _
                  λ fits.
                    let p : RefundProposal = record {
                      refund_amount = amount;
                      reason_hash = reason;
                      proposed_ledger = env.sequence;
                    } in
                    (
                      put_proposal id index none (put_proposal id index (some p) r),
                      cancel-put env' supplier id index p r x signed found (ground (arith, own)),
                      put_twice-IsWithdrawn id index (some p) r,
                    )
