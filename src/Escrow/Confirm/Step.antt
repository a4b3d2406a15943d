-- ===== src/Escrow/Confirm/Step.antt =====
-- What a confirmation changes: the status of one milestone of one shipment.
use chainsettle_contract.Base.{
  ℕ, zero, suc, ◌+◌, ◌≤◌, ◌≡◌, refl, sym, ap, ◌∙◌, Bool, true, false, none, some, List, [], ◌∷◌,
  arith, ltb, if◌then◌else◌, get_elem?, set,
}
use chainsettle_contract.Base.Dict.{get, insert}
use chainsettle_contract.Base.Int.{pos, ◌-ℤ◌}
use chainsettle_contract.Base.Result.{
  ok, or_panic, Post, Post-bind, Post-ok, Post-checked, Post-if, Post-mono,
}
use chainsettle_contract.Base.Token.{moved}
use chainsettle_contract.Escrow.Confirm.{
  assert_confirmation_open, has_proof, is_co_buyer, vote, check_timing, check_confirmable,
  confirm_voted, confirm_milestone,
}
use chainsettle_contract.Escrow.Confirm.Guards.{or_panic_lem, check_confirmable-IsConfirmable}
use chainsettle_contract.Escrow.Confirm.Voters.{
  acts_as_buyer, IsAwaited, IsAgreed, check_confirmable-acts_as_buyer, vote-shipment, vote_goes_on,
  vote_waits,
}
use chainsettle_contract.Escrow.Host.{Ledger}
use chainsettle_contract.Escrow.Payout.{Desk}
use chainsettle_contract.Escrow.Payout.Accounted.{stay, relist}
use chainsettle_contract.Escrow.Payout.Steps.{Moves}
use chainsettle_contract.Escrow.Policy.{Policy}
use chainsettle_contract.Escrow.Settlement.{hold, settle}
use chainsettle_contract.Escrow.Settlement.Frame.{settle-Moves, hold-Moves}
use chainsettle_contract.Escrow.Shipment.{
  MilestoneStatus, pending, proof_submitted, confirmed, disputed, resolved, confirmed_held,
  resolved_pending_finality, Milestone, Deal,
}
use chainsettle_contract.Escrow.State.{Escrow}
use chainsettle_contract.Escrow.Terms.{milestone_gross_payment, late_penalty}

-- What `confirm_milestone` makes of a milestone: it is as it was where the other side's vote is awaited;
-- otherwise it is confirmed where the shipment holds no payments back, and confirmed and held for the
-- shipment's holdback where it does.
pub data ConfirmStep (env : Ledger) (policy : Policy) (caller index : ℕ) (deal : Deal)
    (old : Milestone) : Milestone → Type 0 where
  awaits : IsAwaited policy caller index deal → ConfirmStep env policy caller index deal old old
  settles :
      IsAgreed policy caller index deal
      → deal.shipment.holdback_ledgers ≡ 0
      → ConfirmStep env policy caller index deal old (record old { status = confirmed })
  holds_back :
      IsAgreed policy caller index deal
      → 1 ≤ deal.shipment.holdback_ledgers
      → ConfirmStep env policy caller index deal old (record old {
        status = confirmed_held;
        release_after_ledger = env.sequence + deal.shipment.holdback_ledgers;
      })

-- One milestone of one shipment has made a step; the other entries of either are the same.
pub record IsConfirmation (env : Ledger) (caller shipment_id index : ℕ) (s s' : Escrow)
    : Type 0 where
  pub before : Deal
  pub after : Deal
  pub old : Milestone
  pub new : Milestone
  pub stored : get none shipment_id s.deals ≡ some before
  pub in_range : get_elem? before.shipment.milestones index ≡ some old
  pub written : s'.deals ≡ insert shipment_id (some after) s.deals
  pub others_kept : after.shipment.milestones ≡ set before.shipment.milestones index new
  pub submitted : old.status ≡ proof_submitted
  pub step : ConfirmStep env s.policy caller index before old new

-- A proof that is in.
has_proof_lem :
    (status : MilestoneStatus) (m : Milestone)
    → m.status ≡ status
    → has_proof m ≡ true
    → m.status ≡ proof_submitted
has_proof_lem proof_submitted m e h = e
has_proof_lem pending m e h = absurd (cc (rw e at h))
has_proof_lem confirmed m e h = absurd (cc (rw e at h))
has_proof_lem disputed m e h = absurd (cc (rw e at h))
has_proof_lem resolved m e h = absurd (cc (rw e at h))
has_proof_lem confirmed_held m e h = absurd (cc (rw e at h))
has_proof_lem resolved_pending_finality m e h = absurd (cc (rw e at h))

set-same :
    (ms : List Milestone) (index : ℕ) (m : Milestone)
    → get_elem? ms index ≡ some m
    → set ms index m ≡ ms
set-same [] index m h = refl
set-same (x ∷ xs) zero m h = let same : x ≡ m = cc h in rw same refl
set-same (x ∷ xs) (suc index) m h = rw (set-same xs index m h) refl

-- A confirmation that goes on settles the milestone or holds its payment back.
confirm_voted-Moves :
    (env : Ledger) (policy : Policy) (caller shipment_id index : ℕ) (m : Milestone) (deal : Deal)
    (d : Desk)
    → IsAgreed policy caller index deal
    → d.deal.shipment ≡ deal.shipment
    → Post (confirm_voted env caller shipment_id index m d) (λ d'.
      (m' : Milestone) × Moves (set d.deal.shipment.milestones index m') d d'
      × ConfirmStep env policy caller index deal m m')
unfolding confirm_voted
confirm_voted-Moves env policy caller shipment_id index m deal d agreed same =
    Post-bind _ (check_timing env m d.deal d.escrow) _ λ _ _.
      Post-bind _ (milestone_gross_payment d.deal index) _ λ gross _.
        Post-bind _ (late_penalty d.deal.shipment m gross) _ λ penalty _.
          Post-checked _ (gross -ℤ penalty) _ λ _.
            Post-if _ (ltb 0 d.deal.shipment.holdback_ledgers) _ _
              (λ some.
                Post-mono _ (hold env caller index m d)
                  (λ d' moves. (
                    record m {
                      status = confirmed_held;
                      release_after_ledger = env.sequence + d.deal.shipment.holdback_ledgers;
                    },
                    moves,
                    rw same (holds_back agreed (ground (arith, some, same))),
                  ))
                  (hold-Moves env caller index m d))
              λ none.
                Post-mono _ (settle env caller shipment_id index m (gross -ℤ penalty) penalty d)
                  (λ d' moves.
                    (record m { status = confirmed }, moves, settles agreed (ground (arith, same))))
                  (settle-Moves env caller shipment_id index m (gross -ℤ penalty) penalty d)

-- The confirmation after the vote, where it goes on.
confirm_or_wait-Moves :
    (env : Ledger) (policy : Policy) (caller shipment_id index : ℕ) (m : Milestone) (goes_on : Bool)
    (deal : Deal) (d : Desk)
    → (goes_on ≡ true → IsAgreed policy caller index deal)
    → (goes_on ≡ false → IsAwaited policy caller index deal)
    → d.deal.shipment ≡ deal.shipment
    → get_elem? d.deal.shipment.milestones index ≡ some m
    → Post (if goes_on then confirm_voted env caller shipment_id index m d else ok d) (λ d'.
      (m' : Milestone) × Moves (set d.deal.shipment.milestones index m') d d'
      × ConfirmStep env policy caller index deal m m')
confirm_or_wait-Moves env policy caller shipment_id index m goes_on deal d agreed awaited same
      found =
    Post-if _ goes_on _ _
      (λ on. confirm_voted-Moves env policy caller shipment_id index m deal d (agreed on) same)
      λ off. (
        m,
        (pos 0, relist (sym (set-same d.deal.shipment.milestones index m found)) (stay d)),
        awaits (awaited off),
      )

-- A confirmation that goes through takes one milestone, whose proof was in. Where the shipment needs the
-- votes of both sides and one of them is not in, the milestone is as it was. Otherwise it is confirmed
-- where the shipment holds no payments back, and where it does it is confirmed and held until the
-- holdback, counted from the current ledger, is over. Every other milestone of the shipment, and every
-- other shipment, is the same.
pub confirm_milestone-IsConfirmation :
    (env : Ledger) (caller shipment_id index : ℕ) (s : Escrow)
    → Post
        (confirm_milestone env caller shipment_id index s)
        (IsConfirmation env caller shipment_id index s)
unfolding confirm_milestone
confirm_milestone-IsConfirmation env caller shipment_id index s =
    Post-bind _ (assert_confirmation_open s) _ λ _ _.
      Post-bind _ (or_panic (get none shipment_id s.deals) "shipment not found") _ λ deal e₁.
        Post-bind _ (check_confirmable env caller index deal s) _ λ (m, acts) e₂.
          let allowed = Post-ok _ e₂ (check_confirmable-IsConfirmable env caller index deal s) in
          let by : acts ≡ acts_as_buyer deal caller =
            Post-ok _ e₂ (check_confirmable-acts_as_buyer env caller index deal s) in
          let co = is_co_buyer deal caller in
          let (goes_on, voted) = vote s.policy index acts co deal in
          let same : voted.shipment ≡ deal.shipment = vote-shipment s.policy index acts co deal in
          let d : Desk = record { deal = voted; escrow = s } in
          Post-bind _ (if goes_on then confirm_voted env caller shipment_id index m d else ok d) _
            λ d' e₃.
              let (m', (moved, r), step) = Post-ok _ e₃ (
                confirm_or_wait-Moves env s.policy caller shipment_id index m goes_on deal d
                  (λ on. vote_goes_on s.policy caller index deal (rw⁻¹ by on))
                  (λ off. vote_waits s.policy caller index deal (rw⁻¹ by off)) same
                  (rw same allowed.in_range)) in
              record {
                before = deal;
                after = d'.deal;
                old = m;
                new = m';
                stored =
                    Post-ok _ e₁ (or_panic_lem (get none shipment_id s.deals) "shipment not found");
                in_range = allowed.in_range;
                written = ap (insert shipment_id (some d'.deal)) r.deals_kept;
                others_kept = r.milestones_after ∙ ap (λ x. set x.milestones index m') same;
                submitted = has_proof_lem m.status m refl allowed.proof_in;
                step = step;
              }
