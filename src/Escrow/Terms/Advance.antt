-- ===== src/Escrow/Terms/Advance.antt =====
-- An advance that is used up moves nothing, and a rebate raises the net payment.
use chainsettle_contract.Base.{ℕ, ◌-◌, ◌≡◌, refl, ◌&&◌, Option, none, some, arith, ltb, leb}
use chainsettle_contract.Base.Int.{ℤ, pos, ◌-ℤ◌, ltb_ℤ, int_laws}
use chainsettle_contract.Base.Result.{Post, Post-checked, Post-if}
use chainsettle_contract.Escrow.Host.{Ledger}
use chainsettle_contract.Escrow.Payout.Accounted.{Steady, stay}
use chainsettle_contract.Escrow.Policy.{Policy}
use chainsettle_contract.Escrow.Shipment.{Shipment, AdvanceRequest, Deal}
use chainsettle_contract.Escrow.State.{Escrow}
use chainsettle_contract.Escrow.Terms.{use_advance, long_hold_rebate}

pub use_advance-Steady :
    (index : ℕ) (req : Option AdvanceRequest) (deal : Deal) (s : Escrow)
    → Post (use_advance index req deal) (λ (advance, deal').
      Steady (pos 0) (record { deal = deal; escrow = s }) (record { deal = deal'; escrow = s }))
unfolding use_advance
use_advance-Steady index none deal s = stay (record { deal = deal; escrow = s })
use_advance-Steady index (some req) deal s =
    Post-if _ (req.granted && ltb_ℤ (pos 0) req.amount_advanced) _ _
      (λ _. Post-checked _ (deal.shipment.total_advanced_amount -ℤ req.amount_advanced) _ λ _.
        record {
          exact = omega int_laws;
          milestones_after = refl;
          payees_kept = refl;
          retainage_kept = refl;
          warranty_kept = refl;
          deals_kept = refl;
        })
      λ _. stay (record { deal = deal; escrow = s })

-- Without a rate for the rebate the net payment is the one before.
pub long_hold_rebate_off :
    (env : Ledger) (policy : Policy) (x : Shipment) (net fee : ℤ)
    → policy.long_hold_terms.1 ≡ 0
    → Post (long_hold_rebate env policy x net fee) (λ (net', fee'). net' ≡ net)
unfolding long_hold_rebate
long_hold_rebate_off env policy x net fee h =
    let (threshold, rebate_bps) = policy.long_hold_terms in
    Post-if _
      (ltb 0 rebate_bps
        && ltb 0 threshold
        && leb threshold (env.sequence - x.created_at)
        && ltb_ℤ (pos 0) fee)
      _ _ (λ c. absurd (ground arith)) λ _. refl
