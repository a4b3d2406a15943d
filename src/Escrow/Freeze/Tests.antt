-- ===== src/Escrow/Freeze/Tests.antt =====
-- Three administrators, of whom the default share asks all three.
use chainsettle_contract.Base.{◌≡◌, refl, true, none, some, [], ◌∷◌}
use chainsettle_contract.Base.Result.{ok, panic_if, or_panic, Post}
use chainsettle_contract.Escrow.Freeze.{
  MultiAdminConfig, FreezeDesk, set_frozen, execute_proposal, store_approvals, propose_with,
  propose_change, approve_change,
}
use chainsettle_contract.Escrow.Freeze.Cast.{
  propose, approve, freeze_call, no_votes, then_vote, IsBacked,
}
use chainsettle_contract.Escrow.Freeze.Quorum.{Votes-IsBacked}
use chainsettle_contract.Escrow.State.{new_escrow}
use chainsettle_contract.Escrow.Tests.{at_ledger}

abbrev three_admins : MultiAdminConfig
three_admins = record { admins = 1 ∷ 2 ∷ 3 ∷ []; threshold = 2 }

abbrev calm : FreezeDesk
calm = record {
  governed = new_escrow;
  chief = some 1;
  multisig = some three_admins;
  freeze_supermajority = none;
  proposal_counter = 0;
  freeze_proposals = [];
  unfreeze_proposals = [];
}

abbrev one_approval : FreezeDesk
one_approval = record calm { proposal_counter = 1; freeze_proposals = (1, some (1 ∷ [])) ∷ [] }

abbrev two_approvals : FreezeDesk
two_approvals = record one_approval { freeze_proposals = (1, some (1 ∷ 2 ∷ [])) ∷ [] }

proposed_once : freeze_call (at_ledger 10) (propose true 1) calm ≡ ok one_approval
unfolding propose_change propose_with store_approvals panic_if
proposed_once = refl

approved_once : freeze_call (at_ledger 20) (approve true 2 1) one_approval ≡ ok two_approvals
unfolding approve_change store_approvals panic_if or_panic
approved_once = refl

-- The third approval freezes the contract.
approved_by_all :
    freeze_call (at_ledger 30) (approve true 3 1) two_approvals
    ≡ ok (set_frozen true (record two_approvals { freeze_proposals = [] }))
unfolding approve_change store_approvals execute_proposal panic_if or_panic
approved_by_all = refl

Votes-IsBacked_example :
    Post
      (freeze_call (at_ledger 30) (approve true 3 1) two_approvals)
      (IsBacked three_admins (3 ∷ 2 ∷ 1 ∷ []) two_approvals)
Votes-IsBacked_example =
    Votes-IsBacked three_admins calm two_approvals (2 ∷ 1 ∷ []) (at_ledger 30) (approve true 3 1)
      (record {
        configured = refl;
        freezes = λ id approvals e. absurd (cc e);
        unfreezes = λ id approvals e. absurd (cc e);
      })
      (then_vote (at_ledger 20) (approve true 2 1)
        (then_vote (at_ledger 10) (propose true 1) no_votes proposed_once) approved_once)
