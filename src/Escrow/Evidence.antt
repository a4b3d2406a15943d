-- ===== src/Escrow/Evidence.antt =====
-- What is stored for the proofs of milestones, and the checks that a proof has to pass
-- (contracts/chainsetttle/src/lib.rs).
use Prim.Native.String.{String}
use chainsettle_contract.Base.{
  ℕ, zero, suc, Bool, true, false, not, ◌&&◌, ◌||◌, Option, none, List, [], ◌∷◌, ltb, ◌==◌,
  if◌then◌else◌, get_or, length, get_elem?, contains,
}
use chainsettle_contract.Base.Dict.{Dict, get}
use chainsettle_contract.Base.Result.{Result, ok, ◌>>=◌, panic_if, or_panic, ◌>>◌}
use chainsettle_contract.Escrow.Shipment.{
  pending, proof_submitted, Milestone, Shipment, Deal, is_done,
}
use chainsettle_contract.Escrow.State.{Escrow}

pub record PendingDualProof : Type 0 where
  pub first_attester : ℕ
  pub pending_hash : String
  pub pending_type : ℕ

-- What is stored for the proofs of one shipment; dictionaries go by milestone.
pub record ProofFile : Type 0 where
  pub sequential : Bool
  pub dual_attestation : Bool
  pub designated : List ℕ
  pub whitelists : Dict (List ℕ)
  pub evidence_counts : Dict ℕ
  pub pending_dual : Dict (Option PendingDualProof)
  pub submitted_at : Dict (Option ℕ)
  pub submitted_type : Dict (Option ℕ)
  pub submitters : Dict (Option ℕ)

abbrev pub no_file : ProofFile
no_file = record {
  sequential = false;
  dual_attestation = false;
  designated = [];
  whitelists = [];
  evidence_counts = [];
  pending_dual = [];
  submitted_at = [];
  submitted_type = [];
  submitters = [];
}

-- The contract's state with the proofs' files and the settings for proofs; 0 and the empty string stand
-- for settings that are not made.
pub record ProofDesk : Type 0 where
  pub office : Escrow
  pub files : Dict ProofFile
  pub proof_hash_min_len : ℕ
  pub proof_hash_max_len : ℕ
  pub required_prefix : String
  pub max_evidence : Option ℕ

abbrev pub file_of : ProofDesk → ℕ → ProofFile
file_of s id = get no_file id s.files

abbrev starts_with : List ℕ → List ℕ → Bool
starts_with [] bs = true
starts_with (a ∷ cs) [] = false
starts_with (a ∷ cs) (b ∷ bs) = (a == b) && starts_with cs bs

abbrev pub check_prefix : List ℕ → List ℕ → Result (Unit {0})
check_prefix [] bytes = ok tt
check_prefix (a ∷ cs) bytes = do
  panic_if (ltb (length bytes) (length (a ∷ cs))) "proof hash does not match the required prefix"
  panic_if (ltb 256 (length (a ∷ cs))) "configured proof hash prefix is too long"
  panic_if (ltb 256 (length bytes)) "proof hash exceeds the internal prefix-check length limit"
  panic_if (not (starts_with (a ∷ cs) bytes)) "proof hash does not match the required prefix"

abbrev pub is_pending : Milestone → Bool
is_pending m = elim m.status [ pending ↦ true | _ ↦ false ]

abbrev pub is_submitted : Milestone → Bool
is_submitted m = elim m.status [ proof_submitted ↦ true | _ ↦ false ]

-- `designated_proof_submitter`
unfoldable pub designated_submitter : Deal → ProofFile → ℕ → Result ℕ
designated_submitter deal file index = elim file.designated [
  | [] ↦ ok (get_or (get none index deal.milestone_supplier) deal.shipment.supplier)
  | a ∷ cs ↦ or_panic (get_elem? (a ∷ cs) index) "invalid milestone index"
]

unfoldable pub assert_proof_submitter : Deal → ProofFile → ℕ → ℕ → Result (Unit {0})
assert_proof_submitter deal file index caller = do
  chosen ← designated_submitter deal file index
  panic_if
      (not (
        (caller == chosen)
        || ((length file.designated == 0) && (caller == deal.shipment.logistics))))
      "unauthorized"

unfoldable pub check_whitelist : ProofFile → ℕ → ℕ → Result (Unit {0})
check_whitelist file index kind =
    panic_if
      (not (length (get [] index file.whitelists) == 0)
        && not (contains (get [] index file.whitelists) kind))
      "proof type not in whitelist"

-- In sequential mode a milestone waits for the one before it.
unfoldable pub check_order : ProofFile → Shipment → ℕ → Result (Unit {0})
check_order file x zero = ok tt
check_order file x (suc before) =
    let checked = or_panic (get_elem? x.milestones before) "no milestone" >>= λ m.
    panic_if (not (is_done m)) "MilestoneOutOfOrder" in
    if file.sequential then checked else ok tt
