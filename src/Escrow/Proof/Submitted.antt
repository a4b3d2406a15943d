-- ===== src/Escrow/Proof/Submitted.antt =====
-- What the submission of a proof does.
use Prim.Native.String.{String}
use chainsettle_contract.Base.{
  ℕ, zero, suc, ◌<◌, ◌≡◌, refl, ap, ◌∙◌, ◌⊎◌, inl, inr, Bool, true, false, not, ◌&&◌, ◌||◌, Option,
  none, some, List, leb, ◌==◌, if◌then◌else◌, leb→gt, get_or, get_elem?, set,
}
use chainsettle_contract.Base.Dict.{get, insert, get-insert, get-insert_self}
use chainsettle_contract.Base.Result.{
  or_panic, Post, Post-bind, Post-panic_if, Post-panic_if_last, Post-ok, Post-checked_u32, Post-if,
}
use chainsettle_contract.Escrow.Confirm.{is_open}
use chainsettle_contract.Escrow.Confirm.Guards.{not_lem, or_panic_lem}
use chainsettle_contract.Escrow.Evidence.{
  PendingDualProof, ProofFile, no_file, ProofDesk, file_of, is_pending, assert_proof_submitter,
  check_whitelist, check_order,
}
use chainsettle_contract.Escrow.Host.{Ledger, assert_running}
use chainsettle_contract.Escrow.Proof.{
  with_file, validate_proof_hash, check_submission, submit_proof_internal,
}
use chainsettle_contract.Escrow.Settle.{noted}
use chainsettle_contract.Escrow.Shipment.{proof_submitted, Milestone, Shipment, Deal, is_done}
use chainsettle_contract.Escrow.Terms.{deal_of, milestone_at}

abbrev is_there_done : Option Milestone → Bool
is_there_done none = false
is_there_done (some m) = is_done m

-- The milestone before is done, where the shipment goes in sequence.
abbrev in_sequence : Bool → List Milestone → ℕ → Bool
in_sequence sequential ms zero = true
in_sequence false ms (suc before) = true
in_sequence true ms (suc before) = is_there_done (get_elem? ms before)

-- A party of the shipment whose word counts as one of two.
abbrev pub is_party : Deal → ℕ → Bool
is_party deal caller = (caller == deal.shipment.supplier) || (caller == deal.shipment.logistics)

-- The proof waits for a second party, or it is in.
abbrev IsFiled :
    Ledger → ℕ → ℕ → ℕ → String → Milestone → Deal → ProofDesk → Deal → ProofDesk → Type 0
IsFiled env caller id index hash m deal s deal' s' =
    (((file_of s id).dual_attestation ≡ true)
      × (is_party deal caller ≡ true)
      × (deal'.shipment.milestones ≡ deal.shipment.milestones)
      × ((first : PendingDualProof) × (get none index (file_of s' id).pending_dual ≡ some first)
          × (first.first_attester ≡ caller)
          × (first.pending_hash ≡ hash)))
    ⊎ (((file_of s id).dual_attestation ≡ false)
        × (deal'.shipment.milestones
            ≡ set deal.shipment.milestones index (record m {
              proof_hash = hash;
              status = proof_submitted;
              proof_submitted_ledger = some env.sequence;
            })))

pub record IsSubmission (env : Ledger) (caller id index : ℕ) (hash : String) (s s' : ProofDesk)
    : Type 0 where
  pub deal_then : Deal
  pub proven_milestone : Milestone
  pub found_then : get none id s.office.deals ≡ some deal_then
  pub is_active : is_open deal_then.shipment ≡ true
  pub in_range : get_elem? deal_then.shipment.milestones index ≡ some proven_milestone
  pub was_pending : is_pending proven_milestone ≡ true
  pub in_turn : in_sequence (file_of s id).sequential deal_then.shipment.milestones index ≡ true
  pub below_cap : get 0 index (file_of s id).evidence_counts < get_or s.max_evidence 5
  pub deal_now : Deal
  pub deals_now :
      (j : ℕ)
      → get none j s'.office.deals ≡ (if j == id then some deal_now else get none j s.office.deals)
  pub transfers_same : s'.office.sent ≡ s.office.sent
  pub filed_as : IsFiled env caller id index hash proven_milestone deal_then s deal_now s'

module _ (bytes_of : String → List ℕ) where
  check_order_lem :
      (file : ProofFile) (x : Shipment) (index : ℕ)
      → Post (check_order file x index) (λ _. in_sequence file.sequential x.milestones index ≡ true)
  unfolding check_order or_panic
  check_order_lem file x zero = refl
  check_order_lem file x (suc before) =
      Post-if _ file.sequential _ _
        (λ h. Post-bind _ (or_panic (get_elem? x.milestones before) "no milestone") _ λ m e.
          Post-panic_if_last _ (not (is_done m)) "MilestoneOutOfOrder" λ k.
            rw (h, Post-ok _ e (or_panic_lem (get_elem? x.milestones before) "no milestone"))
              (not_lem _ k))
        λ h. rw h refl

  check_submission_lem :
      (env : Ledger) (check_auth : Bool) (caller id index : ℕ) (hash : String) (kind : ℕ)
      (s : ProofDesk)
      → Post (check_submission bytes_of env check_auth caller id index hash kind s) (λ (deal, m).
        (get none id s.office.deals ≡ some deal)
        × (is_open deal.shipment ≡ true)
        × (get_elem? deal.shipment.milestones index ≡ some m)
        × (is_pending m ≡ true)
        × (in_sequence (file_of s id).sequential deal.shipment.milestones index ≡ true)
        × (get 0 index (file_of s id).evidence_counts < get_or s.max_evidence 5))
  unfolding check_submission
  check_submission_lem env check_auth caller id index hash kind s =
      let file : ProofFile = file_of s id in
      Post-bind _ (assert_running s.office) _ λ _ _. Post-bind _ (deal_of s.office id) _ λ deal e.
        Post-panic_if _ (not (is_open deal.shipment)) "shipment is not active" _ λ not_open.
          Post-panic_if _ deal.shipment_paused "shipment is paused" _ λ _.
            Post-bind _ (milestone_at deal.shipment index) _ λ m f.
              Post-panic_if _ (not (is_pending m)) "milestone is not in pending status" _ λ not_new.
                Post-panic_if _ (check_auth && not (env.approved caller)) "not authorized" _ λ _.
                  Post-bind _ (assert_proof_submitter deal file index caller) _ λ _ _.
                    Post-bind _ (validate_proof_hash bytes_of s hash) _ λ _ _.
                      Post-bind _ (check_whitelist file index kind) _ λ _ _.
                        Post-bind _ (check_order file deal.shipment index) _ λ _ g.
                          Post-panic_if _
                            (leb (get_or s.max_evidence 5) (get 0 index file.evidence_counts))
                            "evidence submission limit reached" _
                            λ below.
                              ((
                                Post-ok _ e (
                                    or_panic_lem (get none id s.office.deals) "shipment not found"),
                                not_lem _ not_open,
                                Post-ok _ f (
                                    or_panic_lem (get_elem? deal.shipment.milestones index)
                                      "invalid milestone index"),
                                not_lem _ not_new,
                                Post-ok _ g (check_order_lem file deal.shipment index),
                                leb→gt _ _ below,
                              ))

  -- A submission that goes through is for a pending milestone of an active shipment, in its turn where
  -- the shipment goes in sequence, and below the cap on submissions. Where two attestations are
  -- needed it is by the supplier or the logistics provider, leaves every milestone as it is, and waits
  -- with its hash; otherwise the milestone alone has the proof and the status for it. Every other
  -- shipment, and what was transferred, stays the same.
  pub submit_proof_internal-IsSubmission :
      (env : Ledger) (check_auth : Bool) (caller id index : ℕ) (hash : String) (kind : ℕ)
      (s : ProofDesk)
      → Post
          (submit_proof_internal bytes_of env check_auth caller id index hash kind s)
          (IsSubmission env caller id index hash s)
  unfolding submit_proof_internal
  submit_proof_internal-IsSubmission env check_auth caller id index hash kind s =
      let file : ProofFile = file_of s id in
      Post-bind _ (check_submission bytes_of env check_auth caller id index hash kind s) _
        λ (deal, m) e.
          let (found, running, there, new, turn, below) =
            Post-ok _ e (check_submission_lem env check_auth caller id index hash kind s) in
          let submission : (deal' : Deal) (file' : ProofFile)
              → IsFiled env caller id index hash m deal s deal' (with_file id file' deal' s)
              → IsSubmission env caller id index hash s (with_file id file' deal' s) =
            λ deal' file' filed_as. record {
              deal_then = deal;
              proven_milestone = m;
              found_then = found;
              is_active = running;
              in_range = there;
              was_pending = new;
              in_turn = turn;
              below_cap = below;
              deal_now = deal';
              deals_now = λ j. get-insert none j id (some deal') s.office.deals;
              transfers_same = refl;
              filed_as = filed_as;
            } in
          Post-if _ file.dual_attestation _ _
            (λ h.
              Post-panic_if _ (not (is_party deal caller))
                "dual attestation requires supplier or logistics" _
                λ party.
                  let first : PendingDualProof = record {
                    first_attester = caller;
                    pending_hash = hash;
                    pending_type = kind;
                  } in
                  let waiting : ProofFile = record file {
                    pending_dual = insert index (some first) file.pending_dual;
                  } in
                  let stored_first : get none index
                        (get no_file id (insert id waiting s.files)).pending_dual
                      ≡ some first =
                    ap (λ (f : ProofFile). get none index f.pending_dual)
                      (get-insert_self no_file id waiting s.files)
                    ∙ get-insert_self none index (some first) file.pending_dual in
                  submission (noted env caller "dual_proof_pending" "submit_proof" deal) waiting
                    (inl (h, not_lem _ party, refl, (first, stored_first, refl, refl))))
            λ h.
              Post-checked_u32 _ (suc (get 0 index file.evidence_counts)) _
                λ _. submission _ _ (inr (h, refl))
