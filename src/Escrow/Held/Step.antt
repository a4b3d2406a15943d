-- ===== src/Escrow/Held/Step.antt =====
-- When a held payment is released, and what the release changes.
use chainsettle_contract.Base.{
  ℕ, ◌≤◌, ◌≡◌, ap, true, false, not, none, some, arith, ltb, get_elem?, set,
}
use chainsettle_contract.Base.Dict.{get, insert}
use chainsettle_contract.Base.Result.{or_panic, Post, Post-bind, Post-panic_if, Post-ok}
use chainsettle_contract.Base.Token.{moved}
use chainsettle_contract.Escrow.Confirm.{is_open}
use chainsettle_contract.Escrow.Confirm.Guards.{not_lem, or_panic_lem}
use chainsettle_contract.Escrow.Held.{is_held, release_held, release_held_payment}
use chainsettle_contract.Escrow.Held.Frame.{released, release_held-Moves}
use chainsettle_contract.Escrow.Host.{Ledger}
use chainsettle_contract.Escrow.Payout.{Desk}
use chainsettle_contract.Escrow.Shipment.{Milestone, Deal}
use chainsettle_contract.Escrow.State.{Escrow}
use chainsettle_contract.Escrow.Terms.{milestone_at}

-- One held milestone of one active shipment is confirmed after its holdback; the other entries of either are
-- the same.
pub record IsRelease (env : Ledger) (shipment_id index : ℕ) (s s' : Escrow) : Type 0 where
  pub before : Deal
  pub after : Deal
  pub old : Milestone
  pub halted_off : s.halted ≡ false
  pub frozen_off : s.emergency_frozen ≡ false
  pub stored : get none shipment_id s.deals ≡ some before
  pub is_active : is_open before.shipment ≡ true
  pub in_range : get_elem? before.shipment.milestones index ≡ some old
  pub was_held : is_held old ≡ true
  pub holdback_over : old.release_after_ledger ≤ env.sequence
  pub written : s'.deals ≡ insert shipment_id (some after) s.deals
  pub others_kept : after.shipment.milestones ≡ set before.shipment.milestones index (released old)

-- A release that goes through takes one milestone, whose payment is held and whose holdback is over, of an
-- active shipment to confirmed. Every other milestone, and every other shipment, is the same.
pub release_held_payment-IsRelease :
    (env : Ledger) (shipment_id index : ℕ) (s : Escrow)
    → Post (release_held_payment env shipment_id index s) (IsRelease env shipment_id index s)
unfolding release_held_payment
release_held_payment-IsRelease env shipment_id index s = Post-panic_if _ s.halted _ _ λ halted.
    Post-panic_if _ s.emergency_frozen _ _ λ frozen.
      Post-bind _ (or_panic (get none shipment_id s.deals) "shipment not found") _ λ deal e₁.
        Post-panic_if _ (not (is_open deal.shipment)) _ _ λ closed.
          Post-bind _ (milestone_at deal.shipment index) _ λ m e₂.
            Post-panic_if _ (not (is_held m)) _ _ λ unheld.
              Post-panic_if _ (ltb env.sequence m.release_after_ledger) _ _ λ early.
                let d : Desk = record { deal = deal; escrow = s } in
                Post-bind _ (release_held env shipment_id index m d) _ λ d' e₃.
                  let (moved, r) = Post-ok _ e₃ (release_held-Moves env shipment_id index m d) in
                  record {
                    before = deal;
                    after = d'.deal;
                    old = m;
                    halted_off = halted;
                    frozen_off = frozen;
                    stored =
                        Post-ok _ e₁
                          (or_panic_lem (get none shipment_id s.deals) "shipment not found");
                    is_active = not_lem _ closed;
                    in_range = Post-ok _ e₂ (
                        or_panic_lem (get_elem? deal.shipment.milestones index)
                          "invalid milestone index");
                    was_held = not_lem _ unheld;
                    holdback_over = ground arith;
                    written = ap (insert shipment_id (some d'.deal)) r.deals_kept;
                    others_kept = r.milestones_after;
                  }
