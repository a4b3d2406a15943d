-- ===== src/Escrow/Settle/Exact.antt =====
-- The fees to third parties, the bonus and the collateral move what they say.
use chainsettle_contract.Base.{
  ℕ, ◌≡◌, refl, ap, inl, inr, ◌&&◌, Option, none, some, arith, ltb, leb, if◌then◌else◌,
  Option-cases,
}
use chainsettle_contract.Base.Dict.{get}
use chainsettle_contract.Base.Int.{
  ℤ, pos, ◌+ℤ◌, ◌-ℤ◌, ◌≤ℤ◌, ltb_ℤ, leb_ℤ, eqb_ℤ, min_ℤ, int_laws, ≈_of_eq,
}
use chainsettle_contract.Base.Result.{
  ok, ◌>>=◌, sub_i128, Post, Post-bind, Post-panic_if, Post-ok, Post-checked, Post-if,
}
use chainsettle_contract.Base.Sum.{total}
use chainsettle_contract.Escrow.Fees.{bps_of}
use chainsettle_contract.Escrow.Host.{Ledger, Post-send}
use chainsettle_contract.Escrow.Limits.{is_over}
use chainsettle_contract.Escrow.Payout.{Desk, pay, percent_of}
use chainsettle_contract.Escrow.Payout.Accounted.{Steady, stay, reweigh, pay-Steady}
use chainsettle_contract.Escrow.Payout.Steps.{pay-SameFile}
use chainsettle_contract.Escrow.Policy.{Policy, no_outflow, Tallies}
use chainsettle_contract.Escrow.Settle.{
  pay_logistics, referral_due, pay_referral_to, refer, bonus_share, pay_early_bonus,
  release_collateral_share, record_timeliness, record_reliability, count_some,
  record_release_counters, set_tallies, check_address_outflow,
}
use chainsettle_contract.Escrow.Shipment.{Milestone, Shipment, all_milestones_done}
use chainsettle_contract.Escrow.State.{FeeConfig}
use chainsettle_contract.Escrow.Terms.{milestone_at}

-- What is left of an amount, and the step that moved the rest. Nothing below zero is left of an amount that
-- is not.
abbrev Parted : ℤ → Desk → ℤ × Desk → Type 0
Parted actual d (left, d') = Steady (actual -ℤ left) d d' × (pos 0 ≤ℤ actual → pos 0 ≤ℤ left)

-- A part of an amount, taken out of it by a payment.
pay_part-Steady :
    (env : Ledger) (receiver : ℕ) (actual part : ℤ) (d : Desk)
    → (pos 0 ≤ℤ actual → part ≤ℤ actual)
    → Post
        (sub_i128 actual part >>= λ left. pay env receiver part d >>= λ d₁. ok (left, d₁))
        (Parted actual d)
pay_part-Steady env receiver actual part d h = Post-checked _ (actual -ℤ part) _ λ _.
    Post-bind _ (pay env receiver part d) _ λ d₁ e. (
      reweigh part (actual -ℤ (actual -ℤ part)) d.deal.shipment.milestones d d₁ (omega int_laws)
          (Post-ok _ e (pay-Steady env receiver part d)),
      λ nonneg. omega (int_laws, h nonneg),
    )

-- All of an amount is left.
nothing_paid : (actual : ℤ) (d : Desk) → Parted actual d (actual, d)
nothing_paid actual d = (
  reweigh (pos 0) (actual -ℤ actual) d.deal.shipment.milestones d d (omega int_laws) (stay d),
  λ nonneg. nonneg,
)

pub pay_logistics-Steady :
    (env : Ledger) (payment actual : ℤ) (d : Desk)
    → Post (pay_logistics env payment actual d) (Parted actual d)
unfolding pay_logistics
pay_logistics-Steady env payment actual d =
    Post-if _ (ltb 0 d.deal.shipment.logistics_fee_bps) _ _
      (λ _. Post-bind _ (bps_of payment d.deal.shipment.logistics_fee_bps) _ λ fee _.
        Post-if _ (ltb_ℤ (pos 0) fee && leb_ℤ fee actual) _ _
          (λ p. pay_part-Steady env d.deal.shipment.logistics actual fee d λ _. ground arith)
          λ _. nothing_paid actual d)
      λ _. nothing_paid actual d

pub pay_early_bonus-Steady :
    (env : Ledger) (deadline : ℕ) (d : Desk)
    → Post (pay_early_bonus env deadline d) (Steady (pos 0) d)
unfolding pay_early_bonus
pay_early_bonus-Steady env deadline d =
    let x = d.deal.shipment in
    let bonus = bonus_share x in
    Post-if _
      (ltb_ℤ (pos 0) x.early_bonus_pool
        && ltb 0 deadline
        && leb env.sequence deadline
        && ltb_ℤ (pos 0) x.early_bonus_remaining
        && ltb_ℤ (pos 0) bonus
        && leb_ℤ bonus x.early_bonus_remaining)
      _ _
      (λ _. Post-checked _ (x.early_bonus_remaining -ℤ bonus) _ λ _.
        Post-send _ env x.token env.this_contract x.supplier bonus d.escrow _ (record {
          exact = omega int_laws;
          milestones_after = refl;
          payees_kept = refl;
          retainage_kept = refl;
          warranty_kept = refl;
          deals_kept = refl;
        }))
      λ _. stay d

-- The referrer gets no more than what is left.
referral_due-fits :
    (config : FeeConfig) (policy : Policy) (x : Shipment) (actual : ℤ)
    → Post (referral_due config policy x actual) (λ r. r ≤ℤ actual)
unfolding referral_due
referral_due-fits config policy x actual =
    Post-bind _ (bps_of x.total_amount config.fee_bps) _ λ total_fee _.
      Post-bind _ (bps_of total_fee policy.referral_fee_bps) _ λ referral _. ground (arith)

pay_referral_to-Steady :
    (env : Ledger) (referrer : ℕ) (config : FeeConfig) (actual : ℤ) (d : Desk)
    → Post (pay_referral_to env referrer config actual d) (Parted actual d)
unfolding pay_referral_to
pay_referral_to-Steady env referrer config actual d =
    Post-bind _ (referral_due config d.escrow.policy d.deal.shipment actual) _ λ referral e.
      let fits : referral ≤ℤ actual =
        Post-ok _ e (referral_due-fits config d.escrow.policy d.deal.shipment actual) in
      Post-if _ (ltb_ℤ (pos 0) referral) _ _
        (λ _. pay_part-Steady env referrer actual referral d λ _. fits) λ _. nothing_paid actual d

pub refer-Steady :
    (env : Ledger) (referrer : Option ℕ) (config : Option FeeConfig) (actual : ℤ) (d : Desk)
    → Post (refer env referrer config actual d) (Parted actual d)
unfolding refer
refer-Steady env none config actual d = nothing_paid actual d
refer-Steady env (some referrer) none actual d = nothing_paid actual d
refer-Steady env (some referrer) (some config) actual d =
    Post-if _ (all_milestones_done d.deal.shipment.milestones) _ _
      (λ _. pay_referral_to-Steady env referrer config actual d) λ _. nothing_paid actual d

pub release_collateral_share-Steady :
    (env : Ledger) (index : ℕ) (d : Desk)
    → Post (release_collateral_share env index d) (Steady (pos 0) d)
unfolding release_collateral_share
release_collateral_share-Steady env index d =
    Post-if _ d.deal.incremental_collateral _ _
      (λ _. Post-bind _ (milestone_at d.deal.shipment index) _ λ m _.
        Post-bind _ (percent_of d.deal.incremental_base m.payment_percent) _ λ part _.
          let share = min_ℤ part d.deal.supplier_collateral in
          Post-if _ (leb_ℤ share (pos 0)) _ _ (λ _. stay d)
            λ _. Post-bind _ (pay env d.deal.shipment.supplier share d) _ λ d₁ e.
              Post-checked (Steady (pos 0) d) (d.deal.supplier_collateral -ℤ share) _ λ _.
                let paid : Steady share d d₁ =
                  Post-ok _ e (pay-Steady env d.deal.shipment.supplier share d) in
                let (same, _) = Post-ok _ e (pay-SameFile env d.deal.shipment.supplier share d) in
                let kept : d₁.deal.supplier_collateral ≡ d.deal.supplier_collateral =
                  ap (λ x. x.supplier_collateral) same in
                record {
                  exact = omega (int_laws, paid.exact, ≈_of_eq kept);
                  milestones_after = paid.milestones_after;
                  payees_kept = paid.payees_kept;
                  retainage_kept = paid.retainage_kept;
                  warranty_kept = paid.warranty_kept;
                  deals_kept = paid.deals_kept;
                })
      λ _. stay d

-- The tallies with the same payouts waiting.
abbrev pub SameWaiting : Tallies → Tallies → Type 0
SameWaiting t t' = t'.pending_payout ≡ t.pending_payout

pub record_timeliness-SameWaiting :
    (supplier : ℕ) (m : Milestone) (t : Tallies) → SameWaiting t (record_timeliness supplier m t)
unfolding record_timeliness
record_timeliness-SameWaiting supplier m t = elim (Option-cases m.proof_submitted_ledger) [
  | inl e ↦ rw (e, record_timeliness) refl
  | inr (proof, e) ↦ rw (e, record_timeliness) (ground arith)
]

pub record_reliability-SameWaiting :
    (env : Ledger) (buyer proof : ℕ) (t : Tallies)
    → SameWaiting t (record_reliability env buyer proof t)
unfolding record_reliability
record_reliability-SameWaiting env buyer proof t = refl

pub record_release_counters-SameWaiting :
    (supplier buyer token : ℕ) (spend net : ℤ) (t : Tallies)
    → Post (record_release_counters supplier buyer token spend net t) (SameWaiting t)
unfolding record_release_counters
record_release_counters-SameWaiting supplier buyer token spend net t =
    Post-bind _ (count_some token buyer spend t.buyer_spent) _
      λ spent _. Post-bind _ (count_some token supplier net t.supplier_earned) _ λ earned _. refl

pub check_address_outflow-SameWaiting :
    (env : Ledger) (address : ℕ) (payment : ℤ) (t : Tallies)
    → Post (check_address_outflow env address payment t) (SameWaiting t)
unfolding check_address_outflow
check_address_outflow-SameWaiting env address payment t =
    let o = get no_outflow address t.outflows in
    Post-if _ (eqb_ℤ o.outflow_limit (pos 0)) _ _ (λ _. refl)
      λ _. Post-bind _ (is_over o.outflow_start o.outflow_window env.sequence) _ λ over _.
        Post-checked _ ((if over then pos 0 else o.outflow_used) +ℤ payment) _
          λ _. Post-panic_if _ (ltb_ℤ o.outflow_limit _) _ _ λ _. refl

-- Writing tallies with the same payouts waiting moves nothing.
pub set_tallies-Steady :
    (d : Desk) (t : Tallies) → SameWaiting d.escrow.tallies t → Steady (pos 0) d (set_tallies d t)
set_tallies-Steady d t h = record {
  exact = omega (int_laws, ≈_of_eq (ap (total (λ v. v)) h));
  milestones_after = refl;
  payees_kept = refl;
  retainage_kept = refl;
  warranty_kept = refl;
  deals_kept = refl;
}
