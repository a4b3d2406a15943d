-- ===== src/Escrow/Proof.antt =====
-- Proofs of milestones: their submission, one by one and in batches, their attestation by a second
-- party, and their correction (contracts/chainsetttle/src/lib.rs).
pub mod Submitted
pub mod Attested
mod Tests
use Prim.Native.Nat.{Ordering}
use Prim.Native.String
use Prim.Native.String.{String}
use chainsettle_contract.Base.{
  ℕ, suc, Bool, true, false, not, ◌&&◌, ◌||◌, none, some, List, [], ◌∷◌, ◌++◌, map, ltb, leb, ◌==◌,
  if◌then◌else◌, get_or, length, contains,
}
use chainsettle_contract.Base.Dict.{get, insert, erase}
use chainsettle_contract.Base.Result.{Result, ok, ◌>>=◌, ◌>>◌, panic_if, or_panic, checked_u32}
use chainsettle_contract.Escrow.Confirm.{is_open, save}
use chainsettle_contract.Escrow.Evidence.{
  PendingDualProof, ProofFile, ProofDesk, file_of, check_prefix, is_pending, is_submitted,
  assert_proof_submitter, check_whitelist, check_order,
}
use chainsettle_contract.Escrow.Host.{Ledger, require_signature, assert_running}
use chainsettle_contract.Escrow.Settle.{append_audit, noted}
use chainsettle_contract.Escrow.Settlement.{set_milestone}
use chainsettle_contract.Escrow.Shipment.{proof_submitted, Milestone, Deal}
use chainsettle_contract.Escrow.Terms.{deal_of, milestone_at}

abbrev pub with_file : ℕ → ProofFile → Deal → ProofDesk → ProofDesk
with_file id file deal s = record s {
  office = save id (record { deal = deal; escrow = s.office });
  files = insert id file s.files;
}

-- The milestone has its proof, and the shipment's log an entry.
abbrev pub proven : Ledger → ℕ → ℕ → String → String → String → Milestone → Deal → Deal
proven env caller index hash action detail m deal = record deal {
  shipment = append_audit env caller action detail (
      set_milestone index
        (record m {
          proof_hash = hash;
          status = proof_submitted;
          proof_submitted_ledger = some env.sequence;
        })
        deal.shipment);
}

-- What is filed with a proof that counts.
abbrev pub filed : Ledger → ℕ → ℕ → ℕ → ℕ → ProofFile → ProofFile
filed env submitter index kind count file = record file {
  evidence_counts = insert index count file.evidence_counts;
  submitted_at = insert index (some env.sequence) file.submitted_at;
  submitted_type = insert index (some kind) file.submitted_type;
  submitters = insert index (some submitter) file.submitters;
}

abbrev pub same_string : String → String → Bool
same_string a b = elim (String.compare a b) [ Ordering.eq ↦ true | _ ↦ false ]

pub attest_proof : Ledger → ℕ → ℕ → ℕ → String → ProofDesk → Result ProofDesk
attest_proof env caller id index hash s = do
  assert_running s.office
  require_signature env caller
  deal ← deal_of s.office id
  let file = file_of s id
  panic_if (not (is_open deal.shipment)) "shipment is not active"
  panic_if deal.shipment_paused "shipment is paused"
  m ← milestone_at deal.shipment index
  panic_if (not file.dual_attestation) "dual attestation not required for this shipment"
  panic_if (not ((caller == deal.shipment.supplier) || (caller == deal.shipment.logistics)))
      "unauthorized"
  first ← or_panic (get none index file.pending_dual) "no pending dual proof"
  panic_if (caller == first.first_attester) "caller already attested"
  panic_if (not (same_string hash first.pending_hash)) "proof hash mismatch"
  panic_if (not (is_pending m)) "milestone is not in pending status"
  count ← checked_u32 (suc (get 0 index file.evidence_counts))
  let file' = record (filed env first.first_attester index first.pending_type count file) {
    pending_dual = erase index file.pending_dual;
  }
  ok (with_file id file' (proven env caller index hash "proof_attested" "attest_proof" m deal) s)

-- `MAX_BATCH_PROOF_SUBMISSIONS`
abbrev max_batch_proof_submissions : ℕ
max_batch_proof_submissions = 20

-- The first loop of `batch_submit_proofs`.
abbrev has_repeated : List ℕ → List ℕ → Bool
has_repeated [] seen = false
has_repeated (i ∷ rest) seen = if contains seen i then true else has_repeated rest (seen ++ i ∷ [])

-- The bytes of a string are what the host says.
module _ (bytes_of : String → List ℕ) where
  pub validate_proof_hash : ProofDesk → String → Result (Unit {0})
  validate_proof_hash s hash = do
    let bytes = bytes_of hash
    panic_if (ltb 0 s.proof_hash_min_len && ltb (length bytes) s.proof_hash_min_len)
        "proof hash is shorter than the minimum configured length"
    panic_if (ltb 0 s.proof_hash_max_len && ltb s.proof_hash_max_len (length bytes))
        "proof hash exceeds the maximum configured length"
    check_prefix (bytes_of s.required_prefix) bytes

  -- `submit_proof_internal` up to the dual attestation: the shipment's data, its proofs' file, and the
  -- milestone.
  pub check_submission :
      Ledger → Bool → ℕ → ℕ → ℕ → String → ℕ → ProofDesk → Result (Deal × Milestone)
  check_submission env check_auth caller id index hash kind s = do
    assert_running s.office
    deal ← deal_of s.office id
    let file = file_of s id
    panic_if (not (is_open deal.shipment)) "shipment is not active"
    panic_if deal.shipment_paused "shipment is paused"
    m ← milestone_at deal.shipment index
    panic_if (not (is_pending m)) "milestone is not in pending status"
    panic_if (check_auth && not (env.approved caller)) "not authorized"
    assert_proof_submitter deal file index caller
    validate_proof_hash s hash
    check_whitelist file index kind
    check_order file deal.shipment index
    panic_if (leb (get_or s.max_evidence 5) (get 0 index file.evidence_counts))
        "evidence submission limit reached"
    ok (deal, m)

  pub submit_proof_internal : Ledger → Bool → ℕ → ℕ → ℕ → String → ℕ → ProofDesk → Result ProofDesk
  submit_proof_internal env check_auth caller id index hash kind s = do
    (deal, m) ← check_submission env check_auth caller id index hash kind s
    let file = file_of s id
    let first : PendingDualProof = record {
      first_attester = caller;
      pending_hash = hash;
      pending_type = kind;
    }
    let waiting =
        panic_if (not ((caller == deal.shipment.supplier) || (caller == deal.shipment.logistics)))
          "dual attestation requires supplier or logistics"
        >> ok (
            with_file id
              (record file { pending_dual = insert index (some first) file.pending_dual })
              (noted env caller "dual_proof_pending" "submit_proof" deal) s)
    let submitted = checked_u32 (suc (get 0 index file.evidence_counts)) >>= λ count. ok (
        with_file id (filed env caller index kind count file)
          (proven env caller index hash "proof_submitted" "submit_proof" m deal) s)
    if file.dual_attestation then waiting else submitted

  abbrev submit_proof : Ledger → ℕ → ℕ → ℕ → String → ℕ → ProofDesk → Result ProofDesk
  submit_proof env caller id index hash kind s =
      submit_proof_internal env true caller id index hash kind s

  -- The second loop of `batch_submit_proofs`, over indices, hashes and types.
  submit_all : Ledger → ℕ → ℕ → List (ℕ × String × ℕ) → ProofDesk → Result ProofDesk
  submit_all env caller id [] s = ok s
  submit_all env caller id ((index, hash, kind) ∷ entries) s =
      submit_proof_internal env false caller id index hash kind s >>= λ s'.
      submit_all env caller id entries s'

  batch_submit_proofs : Ledger → ℕ → ℕ → List (ℕ × String × ℕ) → ProofDesk → Result ProofDesk
  batch_submit_proofs env caller id entries s = do
    assert_running s.office
    require_signature env caller
    panic_if (length entries == 0) "batch is empty"
    panic_if (ltb max_batch_proof_submissions (length entries)) "batch too large"
    panic_if (has_repeated (map (λ (index, hash, kind). index) entries) [])
        "duplicate milestone index in batch"
    s' ← submit_all env caller id entries s
    deal ← deal_of s'.office id
    ok (
        with_file id (file_of s' id)
          (noted env caller "batch_proofs_submitted" "batch_submit_proofs" deal) s')

  correct_proof : Ledger → ℕ → ℕ → ℕ → String → ℕ → ProofDesk → Result ProofDesk
  correct_proof env caller id index hash kind s = do
    assert_running s.office
    deal ← deal_of s.office id
    let file = file_of s id
    panic_if (not (is_open deal.shipment)) "shipment is not active"
    m ← milestone_at deal.shipment index
    panic_if (not (is_submitted m)) "milestone is not in proof submitted status"
    require_signature env caller
    assert_proof_submitter deal file index caller
    original ← or_panic (get none index file.submitters) "unauthorized"
    panic_if (not (caller == original)) "unauthorized"
    validate_proof_hash s hash
    check_whitelist file index kind
    let deal' = record deal {
      shipment =
          append_audit env caller "proof_corrected" "correct_proof"
            (set_milestone index (record m { proof_hash = hash }) deal.shipment);
    }
    let file' = record file { submitted_type = insert index (some kind) file.submitted_type }
    ok (with_file id file' deal' s)
