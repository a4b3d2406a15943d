-- ===== src/Escrow/Confirm/Guards.antt =====
-- Who may confirm which milestone, and when.
use Prim.Native.String.{String}
use chainsettle_contract.Base.{
  ℕ, ◌≡◌, refl, ap, ◌⊎◌, inl, inr, Bool, true, false, not, ◌&&◌, Option, none, some, arith, ◌==◌,
  if◌then◌else◌, get_elem?, contains,
}
use chainsettle_contract.Base.Dict.{get}
use chainsettle_contract.Base.Result.{
  ok, ◌>>=◌, or_panic, Post, Post-bind, Post-panic_if, Post-panic_if_last, Post-ok, Post-if,
  Post-mono, Post-any,
}
use chainsettle_contract.Escrow.Confirm.{
  assert_confirmation_open, is_token_depegged, is_open, has_proof, is_co_buyer, authorise_delegate,
  authorise_confirmation, assert_inspection_complete, assert_oracle_attestation_met, vote,
  check_confirmable, confirm_voted, save, confirm_milestone,
}
use chainsettle_contract.Escrow.Host.{Ledger}
use chainsettle_contract.Escrow.Payout.{Desk}
use chainsettle_contract.Escrow.Policy.{confirm_operation}
use chainsettle_contract.Escrow.Shipment.{Milestone, Deal}
use chainsettle_contract.Escrow.State.{Escrow}
use chainsettle_contract.Escrow.Terms.{milestone_at}

-- A party of the shipment that may confirm.
abbrev IsParty : ℕ → Deal → Type 0
IsParty caller deal =
    (contains deal.shipment.buyers caller ≡ true)
    ⊎ (is_co_buyer deal caller ≡ true)
    ⊎ (deal.delegate ≡ some caller)

-- What holds of the shipment and the milestone.
pub record IsConfirmable (env : Ledger) (caller index : ℕ) (deal : Deal) (s : Escrow)
    (m : Milestone) : Type 0 where
  pub peg_kept : is_token_depegged env s.policy deal.shipment.token ≡ false
  pub is_active : is_open deal.shipment ≡ true
  pub hold_off : deal.on_hold ≡ false
  pub signed : env.approved caller ≡ true
  pub party : IsParty caller deal
  pub in_range : get_elem? deal.shipment.milestones index ≡ some m
  pub proof_in : has_proof m ≡ true
  pub inspected :
      (contains deal.inspected_milestones index && not (get false index deal.inspection_reports))
      ≡ false
  pub pause_off : deal.shipment_paused ≡ false

-- What holds of a confirmation that goes through.
pub record IsAllowed (env : Ledger) (caller shipment_id index : ℕ) (s : Escrow) : Type 0 where
  pub deal : Deal
  pub milestone : Milestone
  pub stored : get none shipment_id s.deals ≡ some deal
  pub halted_off : s.halted ≡ false
  pub frozen_off : s.emergency_frozen ≡ false
  pub operation_on : get false confirm_operation s.policy.paused_operations ≡ false
  pub confirmable : IsConfirmable env caller index deal s milestone

authorise_delegate_lem :
    (env : Ledger) (caller : ℕ) (delegate : Option ℕ)
    → Post
        (authorise_delegate env caller delegate)
        (λ acts_as_buyer. (env.approved caller ≡ true) × (delegate ≡ some caller))
unfolding authorise_delegate
authorise_delegate_lem env caller none = tt
authorise_delegate_lem env caller (some delegate) =
    Post-panic_if _ (not (caller == delegate)) _ _ λ f.
      Post-panic_if _ (not (env.approved caller)) _ _
        λ g. let same : delegate ≡ caller = ground arith in (ground arith, ap some same)

authorise_confirmation-IsParty :
    (env : Ledger) (caller : ℕ) (deal : Deal)
    → Post
        (authorise_confirmation env caller deal)
        (λ acts_as_buyer. (env.approved caller ≡ true) × IsParty caller deal)
unfolding authorise_confirmation
authorise_confirmation-IsParty env caller deal =
    Post-if _ (is_co_buyer deal caller) _ _
      (λ co. Post-panic_if _ (not (env.approved caller)) _ _ λ e. (ground arith, inr (inl co)))
      λ _.
        Post-if _ (contains deal.shipment.buyers caller) _ _
          (λ own. Post-panic_if _ (not (env.approved caller)) _ _ λ e. (ground arith, inl own))
          λ _.
            Post-mono _ (authorise_delegate env caller deal.delegate)
              (λ _ (signed, named). (signed, inr (inr named)))
              (authorise_delegate_lem env caller deal.delegate)

pub not_lem : (b : Bool) → not b ≡ false → b ≡ true
not_lem true h = refl
not_lem false h = absurd (cc h)

-- A value that is there.
pub or_panic_lem {ℓ} :
    {A : Type ℓ} (o : Option A) (e : String) → Post (or_panic o e) (λ a. o ≡ some a)
unfolding or_panic
or_panic_lem none e = tt
or_panic_lem (some a) e = refl

pub check_confirmable-IsConfirmable :
    (env : Ledger) (caller index : ℕ) (deal : Deal) (s : Escrow)
    → Post
        (check_confirmable env caller index deal s)
        (λ (m, acts_as_buyer). IsConfirmable env caller index deal s m)
unfolding check_confirmable assert_inspection_complete
check_confirmable-IsConfirmable env caller index deal s =
    Post-panic_if _ (is_token_depegged env s.policy deal.shipment.token) _ _ λ peg.
      Post-panic_if _ (not (is_open deal.shipment)) _ _ λ closed.
        Post-panic_if _ deal.on_hold _ _ λ hold.
          Post-bind _ (authorise_confirmation env caller deal) _ λ acts_as_buyer e.
            let (signed, party) = Post-ok _ e (authorise_confirmation-IsParty env caller deal) in
            Post-bind _ (milestone_at deal.shipment index) _ λ m f.
              Post-panic_if _ (not (has_proof m)) _ _ λ unproved.
                Post-panic_if _
                  (contains deal.inspected_milestones index
                    && not (get false index deal.inspection_reports))
                  _ _
                  λ inspected.
                    Post-bind _ (assert_oracle_attestation_met s.policy index deal) _ λ _ _.
                      Post-panic_if _ deal.shipment_paused _ _ λ unpaused. record {
                        peg_kept = peg;
                        is_active = not_lem _ closed;
                        hold_off = hold;
                        signed = signed;
                        party = party;
                        in_range = Post-ok _ f (
                            or_panic_lem (get_elem? deal.shipment.milestones index)
                              "invalid milestone index");
                        proof_in = not_lem _ unproved;
                        inspected = inspected;
                        pause_off = unpaused;
                      }

assert_confirmation_open_lem :
    (s : Escrow)
    → Post (assert_confirmation_open s) (λ _.
      (s.halted ≡ false)
      × (s.emergency_frozen ≡ false)
      × (get false confirm_operation s.policy.paused_operations ≡ false))
unfolding assert_confirmation_open
assert_confirmation_open_lem s = Post-panic_if _ s.halted _ _ λ h.
    Post-panic_if _ s.emergency_frozen _ _ λ f.
      Post-panic_if_last _ (get false confirm_operation s.policy.paused_operations) _ λ o. (h, f, o)

-- A confirmation goes through only if the contract runs, confirmations are not paused, the token holds
-- its peg, the shipment is active, neither held nor paused, the milestone has its proof in and the
-- sign-off it needs, and the caller is a buyer, the co-buyer or the delegate and has signed the call.
pub confirm_milestone-IsAllowed :
    (env : Ledger) (caller shipment_id index : ℕ) (s : Escrow)
    → Post
        (confirm_milestone env caller shipment_id index s)
        (λ s'. IsAllowed env caller shipment_id index s)
unfolding confirm_milestone
confirm_milestone-IsAllowed env caller shipment_id index s =
    Post-bind _ (assert_confirmation_open s) _ λ _ e₀.
      let (halted, frozen, operation) = Post-ok _ e₀ (assert_confirmation_open_lem s) in
      Post-bind _ (or_panic (get none shipment_id s.deals) "shipment not found") _ λ deal e₁.
        Post-bind _ (check_confirmable env caller index deal s) _ λ (m, acts_as_buyer) e₂.
          let (goes_on, voted) = vote s.policy index acts_as_buyer (is_co_buyer deal caller) deal in
          let d : Desk = record { deal = voted; escrow = s } in
          Post-any
            ((if goes_on then confirm_voted env caller shipment_id index m d else ok d) >>= λ d'.
              ok (save shipment_id d'))
            (record {
              deal = deal;
              milestone = m;
              stored =
                  Post-ok _ e₁ (or_panic_lem (get none shipment_id s.deals) "shipment not found");
              halted_off = halted;
              frozen_off = frozen;
              operation_on = operation;
              confirmable = Post-ok _ e₂ (check_confirmable-IsConfirmable env caller index deal s);
            })
