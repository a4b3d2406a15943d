-- ===== src/Escrow/Confirm/Voters.antt =====
-- Whose votes a confirmation counts, and whether it goes on.
use chainsettle_contract.Base.{
  ℕ, ◌≡◌, refl, ◌⊎◌, inl, inr, Bool, true, false, not, ◌&&◌, ◌||◌, Option, none, some, arith, ◌==◌,
  Bool-cases, contains,
}
use chainsettle_contract.Base.Dict.{get}
use chainsettle_contract.Base.Result.{Post, Post-bind, Post-panic_if, Post-ok, Post-if}
use chainsettle_contract.Escrow.Confirm.{
  is_token_depegged, is_open, has_proof, is_co_buyer, authorise_delegate, authorise_confirmation,
  assert_inspection_complete, assert_oracle_attestation_met, joint_confirmation_required, cast_vote,
  record_joint_confirmation, vote, check_confirmable,
}
use chainsettle_contract.Escrow.Host.{Ledger}
use chainsettle_contract.Escrow.Policy.{Policy}
use chainsettle_contract.Escrow.Shipment.{unconfirmed, Deal}
use chainsettle_contract.Escrow.State.{Escrow}
use chainsettle_contract.Escrow.Terms.{milestone_at}

-- A caller acts as a buyer unless he is the co-buyer alone.
abbrev pub acts_as_buyer : Deal → ℕ → Bool
acts_as_buyer deal caller = contains deal.shipment.buyers caller || not (is_co_buyer deal caller)

-- Both sides' votes are in, the caller's included.
abbrev pub both_in : ℕ → ℕ → Deal → Bool
both_in caller index deal =
    let v = get unconfirmed index deal.joint_confirmation in
    (acts_as_buyer deal caller || v.buyer_confirmed)
    && (is_co_buyer deal caller || v.co_buyer_confirmed)

-- The confirmation waits for a vote.
abbrev pub IsAwaited : Policy → ℕ → ℕ → Deal → Type 0
IsAwaited policy caller index deal =
    (joint_confirmation_required policy deal ≡ true) × (both_in caller index deal ≡ false)

-- No second vote is needed, or both are in.
abbrev pub IsAgreed : Policy → ℕ → ℕ → Deal → Type 0
IsAgreed policy caller index deal =
    (joint_confirmation_required policy deal ≡ false) ⊎ (both_in caller index deal ≡ true)

authorise_confirmation-acts_as_buyer :
    (env : Ledger) (caller : ℕ) (deal : Deal)
    → Post (authorise_confirmation env caller deal) (λ b. b ≡ acts_as_buyer deal caller)
unfolding authorise_confirmation authorise_delegate
authorise_confirmation-acts_as_buyer env caller deal =
    Post-if _ (is_co_buyer deal caller) _ _
      (λ co. Post-panic_if _ (not (env.approved caller)) _ _ λ _. ground (arith, co))
      λ not_co.
        Post-if _ (contains deal.shipment.buyers caller) _ _
          (λ own. Post-panic_if _ (not (env.approved caller)) _ _ λ _. ground (arith, own))
          λ _. by_delegate not_co deal.delegate
  where
    by_delegate :
        is_co_buyer deal caller ≡ false
        → (o : Option ℕ)
        → Post (authorise_delegate env caller o) (λ b. b ≡ acts_as_buyer deal caller)
    by_delegate not_co none = tt
    by_delegate not_co (some delegate) =
        Post-panic_if _ (not (caller == delegate)) _ _
          λ _. Post-panic_if _ (not (env.approved caller)) _ _ λ _. ground (arith, not_co)

-- What the guards say of the caller.
pub check_confirmable-acts_as_buyer :
    (env : Ledger) (caller index : ℕ) (deal : Deal) (s : Escrow)
    → Post
        (check_confirmable env caller index deal s)
        (λ (m, acts). acts ≡ acts_as_buyer deal caller)
unfolding check_confirmable assert_inspection_complete
check_confirmable-acts_as_buyer env caller index deal s =
    Post-panic_if _ (is_token_depegged env s.policy deal.shipment.token) _ _ λ _.
      Post-panic_if _ (not (is_open deal.shipment)) _ _ λ _. Post-panic_if _ deal.on_hold _ _ λ _.
        Post-bind _ (authorise_confirmation env caller deal) _ λ acts e.
          Post-bind _ (milestone_at deal.shipment index) _ λ m _.
            Post-panic_if _ (not (has_proof m)) _ _ λ _.
              Post-bind _ (assert_inspection_complete index deal) _ λ _ _.
                Post-bind _ (assert_oracle_attestation_met s.policy index deal) _ λ _ _.
                  Post-panic_if _ deal.shipment_paused _ _
                    λ _. Post-ok _ e (authorise_confirmation-acts_as_buyer env caller deal)

-- A vote leaves the shipment.
pub vote-shipment :
    (policy : Policy) (index : ℕ) (a b : Bool) (deal : Deal)
    → (vote policy index a b deal).1.shipment ≡ deal.shipment
unfolding vote record_joint_confirmation
vote-shipment policy index a b deal =
    let v = cast_vote a b (get unconfirmed index deal.joint_confirmation) in
    elim (Bool-cases (joint_confirmation_required policy deal)) [
      | inr e ↦ rw e refl
      | inl e ↦ rw e (elim (Bool-cases (v.buyer_confirmed && v.co_buyer_confirmed)) [
        | inl f ↦ rw f refl
        | inr f ↦ rw f refl
      ])
    ]

-- The confirmation goes on where nobody is awaited.
pub vote_goes_on :
    (policy : Policy) (caller index : ℕ) (deal : Deal)
    → (vote policy index (acts_as_buyer deal caller) (is_co_buyer deal caller) deal).0 ≡ true
    → IsAgreed policy caller index deal
unfolding vote record_joint_confirmation cast_vote
vote_goes_on policy caller index deal h =
    elim (Bool-cases (joint_confirmation_required policy deal)) [
      | inr e ↦ inl e
      | inl e ↦ elim (Bool-cases (both_in caller index deal)) [
        | inl f ↦ inr f
        | inr f ↦ absurd (cc (rw (e, f) at h))
      ]
    ]

pub vote_waits :
    (policy : Policy) (caller index : ℕ) (deal : Deal)
    → (vote policy index (acts_as_buyer deal caller) (is_co_buyer deal caller) deal).0 ≡ false
    → IsAwaited policy caller index deal
unfolding vote record_joint_confirmation cast_vote
vote_waits policy caller index deal h =
    elim (Bool-cases (joint_confirmation_required policy deal)) [
      | inr e ↦ absurd (cc (rw e at h))
      | inl e ↦ elim (Bool-cases (both_in caller index deal)) [
        | inl f ↦ absurd (cc (rw (e, f) at h))
        | inr f ↦ (e, f)
      ]
    ]
