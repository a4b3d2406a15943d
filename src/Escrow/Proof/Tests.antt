-- ===== src/Escrow/Proof/Tests.antt =====
-- A proof of a pending milestone, by the supplier alone and with a second party.
use Prim.Native.String.{String}
use chainsettle_contract.Base.{ℕ, ◌≡◌, refl, Bool, true, false, none, some, List, [], ◌∷◌}
use chainsettle_contract.Base.Result.{Result, ok, panic, panic_if, or_panic, checked_u32, Post}
use chainsettle_contract.Escrow.Confirm.Tests.{shipped, delivered, shipment_x, deal_x, escrow_x}
use chainsettle_contract.Escrow.Evidence.{
  ProofFile, no_file, ProofDesk, designated_submitter, assert_proof_submitter, check_whitelist,
  check_order,
}
use chainsettle_contract.Escrow.Proof.{
  attest_proof, validate_proof_hash, check_submission, submit_proof_internal,
}
use chainsettle_contract.Escrow.Proof.Attested.{IsAttested, attest_proof-IsAttested}
use chainsettle_contract.Escrow.Proof.Submitted.{IsSubmission, submit_proof_internal-IsSubmission}
use chainsettle_contract.Escrow.Shipment.{pending, Deal}
use chainsettle_contract.Escrow.Tests.{at_ledger}

-- The host's bytes are not looked at without settings.
abbrev no_bytes : String → List ℕ
no_bytes hash = []

abbrev waiting_deal : Deal
waiting_deal = record deal_x {
  shipment = record shipment_x {
    milestones = record shipped { status = pending } ∷ delivered ∷ [];
  };
}

abbrev proof_desk : ProofDesk
proof_desk = record {
  office = record escrow_x { deals = (77, some waiting_deal) ∷ [] };
  files = [];
  proof_hash_min_len = 0;
  proof_hash_max_len = 0;
  required_prefix = "";
  max_evidence = none;
}

abbrev dual_file : ProofFile
dual_file = record no_file {
  dual_attestation = true;
  pending_dual =
      (0, some (record { first_attester = 2; pending_hash = "cafe"; pending_type = 1 })) ∷ [];
}

abbrev dual_desk : ProofDesk
dual_desk = record proof_desk { files = (77, dual_file) ∷ [] }

submit_proof_internal-IsSubmission_example :
    Post
      (submit_proof_internal no_bytes (at_ledger 100) true 2 77 0 "cafe" 1 proof_desk)
      (IsSubmission (at_ledger 100) 2 77 0 "cafe" proof_desk)
submit_proof_internal-IsSubmission_example =
    submit_proof_internal-IsSubmission no_bytes (at_ledger 100) true 2 77 0 "cafe" 1 proof_desk

attest_proof-IsAttested_example :
    Post
      (attest_proof (at_ledger 110) 3 77 0 "cafe" dual_desk)
      (IsAttested (at_ledger 110) 3 77 0 "cafe" dual_desk)
attest_proof-IsAttested_example = attest_proof-IsAttested (at_ledger 110) 3 77 0 "cafe" dual_desk

goes_through : Result ProofDesk → Bool
goes_through (ok s) = true
goes_through (panic e) = false

submission_goes_through :
    goes_through (submit_proof_internal no_bytes (at_ledger 100) true 2 77 0 "cafe" 1 proof_desk)
    ≡ true
unfolding goes_through submit_proof_internal check_submission assert_proof_submitter
    designated_submitter validate_proof_hash check_whitelist check_order panic_if or_panic
    checked_u32
submission_goes_through = refl

attestation_goes_through :
    goes_through (attest_proof (at_ledger 110) 3 77 0 "cafe" dual_desk) ≡ true
unfolding goes_through attest_proof panic_if or_panic checked_u32
attestation_goes_through = refl
