-- ===== src/Escrow/Warranty.antt =====
-- The warranty holdback of a completed shipment (contracts/chainsetttle/src/lib.rs): claims on it,
-- their resolution, and its release.
pub mod Pay
pub mod Once
mod Tests
use Prim.Native.String.{String}
use chainsettle_contract.Base.{
  ℕ, Bool, true, false, not, ◌&&◌, Option, none, some, ltb, leb, ◌==◌, if◌then◌else◌, is_some,
  contains,
}
use chainsettle_contract.Base.Dict.{Dict, get, insert}
use chainsettle_contract.Base.Int.{pos, ltb_ℤ, leb_ℤ}
use chainsettle_contract.Base.Result.{Result, ok, ◌>>◌, panic_if, or_panic, ◌>>=◌}
use chainsettle_contract.Escrow.Confirm.{save}
use chainsettle_contract.Escrow.Host.{Ledger, require_signature, assert_running}
use chainsettle_contract.Escrow.Payout.{Desk, pay, decrease_total_escrowed}
use chainsettle_contract.Escrow.Settle.{noted}
use chainsettle_contract.Escrow.Shipment.{completed, Shipment}
use chainsettle_contract.Escrow.State.{Escrow}
use chainsettle_contract.Escrow.Terms.{deal_of}

pub record WarrantyClaim : Type 0 where
  pub claimant : ℕ
  pub evidence : ℕ
  pub filed_ledger : ℕ

-- The contract's state with the keys `WarrantyClaim(shipment_id)`.
pub record WarrantyDesk : Type 0 where
  pub accounts : Escrow
  pub claims : Dict (Option WarrantyClaim)

abbrev pub claim_of : WarrantyDesk → ℕ → Option WarrantyClaim
claim_of w shipment_id = get none shipment_id w.claims

abbrev pub is_completed : Shipment → Bool
is_completed x = elim x.status [ completed ↦ true | _ ↦ false ]

abbrev pub require_buyer_auth : Ledger → Shipment → ℕ → Result (Unit {0})
require_buyer_auth env x buyer =
    require_signature env buyer >> panic_if (not (contains x.buyers buyer)) "unauthorized"

-- A hash of 32 bytes is held as a number, and zero is the one without a bit set.
pub file_warranty_claim : Ledger → ℕ → ℕ → ℕ → WarrantyDesk → Result WarrantyDesk
file_warranty_claim env buyer shipment_id evidence w = do
  assert_running w.accounts
  deal ← deal_of w.accounts shipment_id
  require_buyer_auth env deal.shipment buyer
  panic_if (not (is_completed deal.shipment)) "warranty claims require a completed shipment"
  panic_if (evidence == 0) "invalid evidence hash"
  panic_if (leb_ℤ deal.warranty_balance (pos 0)) "no warranty holdback"
  ends_at ← or_panic deal.warranty_ends_at "no warranty holdback"
  panic_if (leb ends_at env.sequence) "warranty period has ended"
  panic_if (is_some (claim_of w shipment_id)) "warranty claim already open"
  let claim : WarrantyClaim = record {
    claimant = buyer;
    evidence = evidence;
    filed_ledger = env.sequence;
  }
  let d : Desk = record {
    deal = noted env buyer "warranty_claim_filed" "file_warranty_claim" deal;
    escrow = w.accounts;
  }
  ok (record { accounts = save shipment_id d; claims = insert shipment_id (some claim) w.claims })

-- The whole holdback leaves the contract, and the books follow.
pub pay_warranty : Ledger → ℕ → Desk → Result Desk
pay_warranty env receiver d = do
  d₁ ← pay env receiver d.deal.warranty_balance d
  s ← decrease_total_escrowed d.deal.shipment.token d.deal.warranty_balance d₁.escrow
  ok (record { deal = record d₁.deal { warranty_balance = pos 0 }; escrow = s })

pub resolve_warranty_claim : Ledger → ℕ → ℕ → Bool → WarrantyDesk → Result WarrantyDesk
resolve_warranty_claim env arbiter shipment_id refund_buyer w = do
  assert_running w.accounts
  deal ← deal_of w.accounts shipment_id
  require_signature env arbiter
  panic_if (not (arbiter == deal.shipment.arbiter)) "unauthorized"
  claim ← or_panic (claim_of w shipment_id) "no open warranty claim"
  let d : Desk = record { deal = deal; escrow = w.accounts }
  d₁ ←
      if refund_buyer && ltb_ℤ (pos 0) deal.warranty_balance
      then pay_warranty env claim.claimant d
      else ok d
  let deal' =
      noted env arbiter "warranty_claim_resolved" (if refund_buyer then "buyer" else "supplier")
        d₁.deal
  ok (record {
    accounts = save shipment_id (record d₁ { deal = deal' });
    claims = insert shipment_id none w.claims;
  })

pub release_warranty : Ledger → ℕ → WarrantyDesk → Result WarrantyDesk
release_warranty env shipment_id w = do
  assert_running w.accounts
  deal ← deal_of w.accounts shipment_id
  panic_if (not (is_completed deal.shipment)) "shipment is not completed"
  panic_if (leb_ℤ deal.warranty_balance (pos 0)) "no warranty holdback"
  ends_at ← or_panic deal.warranty_ends_at "no warranty holdback"
  panic_if (ltb env.sequence ends_at) "warranty period not yet ended"
  panic_if (is_some (claim_of w shipment_id)) "warranty claim pending"
  d ← pay_warranty env deal.shipment.supplier (record { deal = deal; escrow = w.accounts })
  let deal' = noted env env.this_contract "warranty_released" "release_warranty" d.deal
  ok (record w { accounts = save shipment_id (record d { deal = deal' }) })
