-- ===== src/Escrow/Freeze/Quorum.antt =====
-- A freeze, and its end, take the approval of a supermajority.
use chainsettle_contract.Base.{ℕ, List, [], ◌∷◌}
use chainsettle_contract.Base.Result.{Post, Post-ok, Post-mono}
use chainsettle_contract.Escrow.Freeze.{MultiAdminConfig, FreezeDesk}
use chainsettle_contract.Escrow.Freeze.Cast.{
  FreezeCall, maker, freeze_call, Votes, no_votes, then_vote, IsTallied, IsBacked,
}
use chainsettle_contract.Escrow.Freeze.Step.{freeze_call_lem}
use chainsettle_contract.Escrow.Host.{Ledger}

Votes-IsTallied :
    (config : MultiAdminConfig) (s t : FreezeDesk) (makers : List ℕ)
    → IsTallied config [] s
    → Votes s t makers
    → IsTallied config makers t
Votes-IsTallied config s _ _ start no_votes = start
Votes-IsTallied config s _ _ start (then_vote {t} {t'} {makers} env c before e) =
    (Post-ok _ e
      (freeze_call_lem config env c makers t (Votes-IsTallied config s t makers start before))).0

-- With several administrators configured and no proposal open, after any successful calls of
-- proposals, approvals and settings, a further call that goes through leaves the freeze as it was,
-- unless at least the required number of approvals, as it was set before that call, came from
-- different registered administrators, each of whom made one of the calls, this one included.
pub Votes-IsBacked :
    (config : MultiAdminConfig) (s t : FreezeDesk) (makers : List ℕ) (env : Ledger) (c : FreezeCall)
    → IsTallied config [] s
    → Votes s t makers
    → Post (freeze_call env c t) (IsBacked config (maker c ∷ makers) t)
Votes-IsBacked config s t makers env c start votes =
    Post-mono _ (freeze_call env c t) (λ t' (tallied, backed). backed)
      (freeze_call_lem config env c makers t (Votes-IsTallied config s t makers start votes))
