-- ===== src/Escrow/Claim/Tests.antt =====
-- Seventy units that supplier 2 has coming, claimed in a token that he chose.
use chainsettle_contract.Base.{some, [], ◌∷◌}
use chainsettle_contract.Base.Int.{pos}
use chainsettle_contract.Base.Result.{Post}
use chainsettle_contract.Escrow.Claim.{PayoutDesk, claim_payout}
use chainsettle_contract.Escrow.Claim.Paid.{IsClaimed, claim_payout-IsClaimed}
use chainsettle_contract.Escrow.Confirm.Tests.{escrow_x}
use chainsettle_contract.Escrow.Tests.{at_ledger}

abbrev due_desk : PayoutDesk
due_desk = record {
  ledgers = record escrow_x {
    tallies = record escrow_x.tallies { pending_payout = (2, pos 70) ∷ [] };
  };
  preferences = [];
  conversion_rates = [];
  administrator = some 9;
}

claim_payout-IsClaimed_example :
    Post (claim_payout (at_ledger 300) 2 6 due_desk) (IsClaimed (at_ledger 300) 2 6 due_desk)
claim_payout-IsClaimed_example = claim_payout-IsClaimed (at_ledger 300) 2 6 due_desk
