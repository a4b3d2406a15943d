-- ===== src/Escrow/Shipment.antt =====
-- Shipments and what is stored under a shipment's id (contracts/chainsetttle/src/lib.rs).
pub mod Done
use Prim.Native.String.{String}
use chainsettle_contract.Base.{
  ℕ, zero, suc, Bool, true, false, ◌&&◌, Option, List, [], ◌∷◌, ◌++◌, leb, if◌then◌else◌, length,
}
use chainsettle_contract.Base.Dict.{Dict}
use chainsettle_contract.Base.Int.{ℤ}

pub data MilestoneStatus : Type 0 where
  pending proof_submitted confirmed disputed resolved confirmed_held resolved_pending_finality :
      MilestoneStatus

pub data ShipmentStatus : Type 0 where
  active completed cancelled expired : ShipmentStatus

pub record Milestone : Type 0 where
  pub name : String
  pub payment_percent : ℕ
  pub proof_hash : String
  pub status : MilestoneStatus
  pub release_after_ledger : ℕ
  pub proof_submitted_ledger : Option ℕ
  pub dispute_opened_ledger : Option ℕ
  pub not_before_ledger : ℕ
  pub deadline_ledger : ℕ
  pub penalty_bps_per_ledger : ℕ

pub record AuditEntry : Type 0 where
  pub action : String
  pub caller : ℕ
  pub ledger : ℕ
  pub detail : String

-- The fields of `Shipment` that the modelled operations read or write.
pub record Shipment : Type 0 where
  pub audit_log : List AuditEntry
  pub buyers : List ℕ
  pub supplier : ℕ
  pub logistics : ℕ
  pub arbiter : ℕ
  pub token : ℕ
  pub total_amount : ℤ
  pub released_amount : ℤ
  pub total_advanced_amount : ℤ
  pub milestones : List Milestone
  pub status : ShipmentStatus
  pub created_at : ℕ
  pub holdback_ledgers : ℕ
  pub late_penalty_bps_per_ledger : ℕ
  pub auto_confirm_ledgers : ℕ
  pub logistics_fee_bps : ℕ
  pub referrer : Option ℕ
  pub early_bonus_pool : ℤ
  pub early_bonus_remaining : ℤ
  pub review_window_ledgers : Option ℕ
  pub last_confirmed_milestone_index : Option ℕ

pub record AdvanceRequest : Type 0 where
  pub requested_percent : ℕ
  pub granted : Bool
  pub amount_advanced : ℤ

pub record MilestonePayee : Type 0 where
  pub payee : ℕ
  pub percent : ℕ

pub record JointConfirmationStatus : Type 0 where
  pub buyer_confirmed : Bool
  pub co_buyer_confirmed : Bool

abbrev pub unconfirmed : JointConfirmationStatus
unconfirmed = record { buyer_confirmed = false; co_buyer_confirmed = false }

-- The shipment and the keys that carry its id; those that carry a milestone's index as well are
-- dictionaries from the index. `attestations` go by milestone and then by the oracles' purpose.
pub record Deal : Type 0 where
  pub shipment : Shipment
  pub on_hold : Bool
  pub shipment_paused : Bool
  pub delegate : Option ℕ
  pub co_buyer : Option ℕ
  pub joint_confirmation : Dict JointConfirmationStatus
  pub inspected_milestones : List ℕ
  pub inspection_reports : Dict Bool
  pub oracle_purpose : Option ℕ
  pub attestations : Dict (Dict (List ℕ))
  pub cooldown_override : Option ℕ
  pub milestone_splits : Option (List ℕ)
  pub partial_released : Dict ℤ
  pub advances : Dict (Option AdvanceRequest)
  pub pending_grade : Dict (Option (ℕ × ℕ))
  pub incremental_collateral : Bool
  pub incremental_base : ℤ
  pub supplier_collateral : ℤ
  pub milestone_supplier : Dict (Option ℕ)
  pub milestone_payees : Dict (List MilestonePayee)
  pub payout_assignee : Option ℕ
  pub retainage_bps : ℕ
  pub retainage_balance : ℤ
  pub warranty_config : Option (ℕ × ℕ)
  pub warranty_balance : ℤ
  pub warranty_ends_at : Option ℕ
  pub completed_at : Option ℕ
  pub had_dispute : Bool

-- `SHIPMENT_AUDIT_LOG_MAX_ENTRIES`
abbrev pub shipment_audit_log_max_entries : ℕ
shipment_audit_log_max_entries = 20

abbrev pub without_oldest : List AuditEntry → List AuditEntry
without_oldest [] = []
without_oldest (x ∷ xs) = xs

pub append_entry : List AuditEntry → AuditEntry → List AuditEntry
append_entry log entry =
    (if leb shipment_audit_log_max_entries (length log) then without_oldest log else log)
    ++ entry ∷ []

abbrev pub is_done : Milestone → Bool
is_done m = elim m.status [ confirmed ↦ true | resolved ↦ true | _ ↦ false ]

abbrev pub all_milestones_done : List Milestone → Bool
all_milestones_done [] = true
all_milestones_done (m ∷ ms) = is_done m && all_milestones_done ms

-- Whether the milestones other than the one at `index` are done.
unfoldable pub is_final_milestone : List Milestone → ℕ → Bool
is_final_milestone [] index = true
is_final_milestone (m ∷ ms) zero = all_milestones_done ms
is_final_milestone (m ∷ ms) (suc index) = is_done m && is_final_milestone ms index
