-- ===== src/Escrow/Proof/Attested.antt =====
-- What the attestation of a proof by a second party does.
use Prim.Native.Nat.{Ordering}
use Prim.Native.String
use Prim.Native.String.{String}
use text.Mathlib.TextEquality.{path_by_compare}
use chainsettle_contract.Base.{
  ℕ, suc, ◌≡◌, refl, ap, ◌∙◌, true, false, not, none, some, arith, ◌==◌, if◌then◌else◌, get_elem?,
  set,
}
use chainsettle_contract.Base.Dict.{get, insert, erase, get-insert, get-erase, get-insert_self}
use chainsettle_contract.Base.Result.{
  or_panic, Post, Post-bind, Post-panic_if, Post-ok, Post-checked_u32,
}
use chainsettle_contract.Escrow.Confirm.{is_open}
use chainsettle_contract.Escrow.Confirm.Guards.{not_lem, or_panic_lem}
use chainsettle_contract.Escrow.Evidence.{
  PendingDualProof, ProofFile, no_file, ProofDesk, file_of, is_pending,
}
use chainsettle_contract.Escrow.Host.{Ledger, require_signature, assert_running}
use chainsettle_contract.Escrow.Proof.{proven, filed, same_string, attest_proof}
use chainsettle_contract.Escrow.Proof.Submitted.{is_party}
use chainsettle_contract.Escrow.Shipment.{proof_submitted, Milestone, Deal}
use chainsettle_contract.Escrow.Terms.{deal_of, milestone_at}

eq_of_test : (o : Ordering) → (elim o [ Ordering.eq ↦ true | _ ↦ false ]) ≡ true → o ≡ Ordering.eq
eq_of_test Ordering.eq h = refl
eq_of_test Ordering.lt h = absurd (cc h)
eq_of_test Ordering.gt h = absurd (cc h)

same_string_lem : (a b : String) → same_string a b ≡ true → a ≡ b
same_string_lem a b h = path_by_compare a b (eq_of_test (String.compare a b) h)

pub record IsAttested (env : Ledger) (caller id index : ℕ) (hash : String) (s s' : ProofDesk)
    : Type 0 where
  pub deal_before : Deal
  pub attested_milestone : Milestone
  pub first_party : PendingDualProof
  pub found_before : get none id s.office.deals ≡ some deal_before
  pub there : get_elem? deal_before.shipment.milestones index ≡ some attested_milestone
  pub was_new : is_pending attested_milestone ≡ true
  pub waited : get none index (file_of s id).pending_dual ≡ some first_party
  pub second_party : is_party deal_before caller ≡ true
  pub another : (caller == first_party.first_attester) ≡ false
  pub same_hash : hash ≡ first_party.pending_hash
  pub deal_attested : Deal
  pub deals_attested :
      (j : ℕ)
      → get none j s'.office.deals
        ≡ (if j == id then some deal_attested else get none j s.office.deals)
  pub milestones_attested :
      deal_attested.shipment.milestones
      ≡ set deal_before.shipment.milestones index (record attested_milestone {
        proof_hash = hash;
        status = proof_submitted;
        proof_submitted_ledger = some env.sequence;
      })
  pub waits_no_more : get none index (file_of s' id).pending_dual ≡ none
  pub first_recorded : get none index (file_of s' id).submitters ≡ some first_party.first_attester

-- An attestation that goes through is of a pending milestone whose proof waits for it, by the supplier
-- or the logistics provider and not by the one who was first, and names the hash that waits. The
-- milestone alone then has that proof and the status for it, nothing waits any more, the first of
-- the two is recorded as the submitter, and every other shipment stays the same.
pub attest_proof-IsAttested :
    (env : Ledger) (caller id index : ℕ) (hash : String) (s : ProofDesk)
    → Post (attest_proof env caller id index hash s) (IsAttested env caller id index hash s)
unfolding attest_proof
attest_proof-IsAttested env caller id index hash s =
    let file : ProofFile = file_of s id in
    Post-bind _ (assert_running s.office) _ λ _ _.
      Post-bind _ (require_signature env caller) _ λ _ _.
        Post-bind _ (deal_of s.office id) _ λ deal e.
          Post-panic_if _ (not (is_open deal.shipment)) "shipment is not active" _ λ _.
            Post-panic_if _ deal.shipment_paused "shipment is paused" _ λ _.
              Post-bind _ (milestone_at deal.shipment index) _ λ m f.
                Post-panic_if _ (not file.dual_attestation)
                  "dual attestation not required for this shipment" _
                  λ _. Post-panic_if _ (not (is_party deal caller)) "unauthorized" _ λ party.
                    Post-bind _
                      (or_panic (get none index file.pending_dual) "no pending dual proof") _
                      λ first g.
                        Post-panic_if _ (caller == first.first_attester) "caller already attested" _
                          λ other_one.
                            Post-panic_if _ (not (same_string hash first.pending_hash))
                              "proof hash mismatch" _
                              λ matches.
                                Post-panic_if _ (not (is_pending m))
                                  "milestone is not in pending status" _
                                  λ new.
                                    Post-checked_u32 _ (suc (get 0 index file.evidence_counts)) _
                                      λ _.
                                        let count : ℕ = suc (get 0 index file.evidence_counts) in
                                        let file' : ProofFile =
                                          record (filed env first.first_attester index
                                            first.pending_type count file) {
                                              pending_dual = erase index file.pending_dual;
                                            } in
                                        let now : get no_file id (insert id file' s.files) ≡ file' =
                                          get-insert_self no_file id file' s.files in
                                        let deal' : Deal =
                                          proven env caller index hash "proof_attested"
                                            "attest_proof" m deal in
                                        record {
                                          deal_before = deal;
                                          attested_milestone = m;
                                          first_party = first;
                                          found_before = Post-ok _ e (
                                              or_panic_lem (get none id s.office.deals)
                                                "shipment not found");
                                          there = Post-ok _ f (
                                              or_panic_lem
                                                (get_elem? deal.shipment.milestones index)
                                                "invalid milestone index");
                                          was_new = not_lem _ new;
                                          waited = Post-ok _ g (
                                              or_panic_lem (get none index file.pending_dual)
                                                "no pending dual proof");
                                          second_party = not_lem _ party;
                                          another = other_one;
                                          same_hash =
                                              same_string_lem hash first.pending_hash
                                                (not_lem _ matches);
                                          deal_attested = deal';
                                          deals_attested =
                                              λ j. get-insert none j id (some deal') s.office.deals;
                                          milestones_attested = refl;
                                          waits_no_more =
                                              ap (λ (x : ProofFile). get none index x.pending_dual)
                                                now
                                              ∙ ground (
                                                arith,
                                                get-erase none index index file.pending_dual,
                                              );
                                          first_recorded =
                                              ap (λ (x : ProofFile). get none index x.submitters)
                                                now
                                              ∙ get-insert_self none index
                                                  (some first.first_attester) file.submitters;
                                        }
