-- ===== src/Escrow/Freeze/Cast.antt =====
-- Approvals of a change by different administrators.
use chainsettle_contract.Base.{
  ℕ, ◌≤◌, ◌≡◌, ◌⊎◌, inl, inr, Bool, true, false, Option, none, some, List, [], ◌∷◌, ◌++◌, arith,
  ◌==◌, Bool-cases, length, All, contains, Distinct, Distinct-append,
}
use chainsettle_contract.Base.Dict.{Dict, get, insert, erase, get-insert, get-erase}
use chainsettle_contract.Base.Result.{Result, ok, ◌>>=◌}
use chainsettle_contract.Escrow.Freeze.{
  MultiAdminConfig, FreezeDesk, get_freeze_supermajority_bps, is_emergency_frozen,
  supermajority_required, set_freeze_supermajority_bps, propose_change, approve_change,
}
use chainsettle_contract.Escrow.Host.{Ledger}

pub data FreezeCall : Type 0 where
  propose : Bool → ℕ → FreezeCall
  approve : Bool → ℕ → ℕ → FreezeCall
  require_share : ℕ → ℕ → FreezeCall

-- Who makes the call, and must sign it.
abbrev pub maker : FreezeCall → ℕ
maker (propose frozen admin) = admin
maker (approve frozen admin id) = admin
maker (require_share admin bps) = admin

abbrev pub freeze_call : Ledger → FreezeCall → FreezeDesk → Result FreezeDesk
freeze_call env (propose frozen admin) s = propose_change env frozen admin s >>= λ (id, s'). ok s'
freeze_call env (approve frozen admin id) s = approve_change env frozen admin id s
freeze_call env (require_share admin bps) s = set_freeze_supermajority_bps env admin bps s

-- Successful calls one after the other, with those who made them, the last one first.
pub data Votes (s : FreezeDesk) : FreezeDesk → List ℕ → Type 0 where
  no_votes : Votes s s []
  then_vote :
      {t t' : FreezeDesk} {makers : List ℕ} (env : Ledger) (c : FreezeCall)
      → Votes s t makers
      → freeze_call env c t ≡ ok t'
      → Votes s t' (maker c ∷ makers)

-- Approvals by different administrators, each of whom made one of the calls.
pub record IsCast (config : MultiAdminConfig) (makers : List ℕ) (approvals : List ℕ) : Type 0 where
  pub different : Distinct approvals
  pub registered : All (λ a. contains config.admins a ≡ true) approvals
  pub made : All (λ a. contains makers a ≡ true) approvals

abbrev pub AreCast : MultiAdminConfig → List ℕ → Dict (Option (List ℕ)) → Type 0
AreCast config makers ps =
    (id : ℕ) (approvals : List ℕ) → get none id ps ≡ some approvals → IsCast config makers approvals

pub record IsTallied (config : MultiAdminConfig) (makers : List ℕ) (s : FreezeDesk) : Type 0 where
  pub configured : s.multisig ≡ some config
  pub freezes : AreCast config makers s.freeze_proposals
  pub unfreezes : AreCast config makers s.unfreeze_proposals

-- The freeze is as before, or enough administrators have approved the change.
abbrev pub IsBacked : MultiAdminConfig → List ℕ → FreezeDesk → FreezeDesk → Type 0
IsBacked config makers s s' =
    (is_emergency_frozen s' ≡ is_emergency_frozen s)
    ⊎ ((approvals : List ℕ) × IsCast config makers approvals
        × (supermajority_required (length config.admins) (get_freeze_supermajority_bps s)
            ≤ length approvals))

module _ (config : MultiAdminConfig) where
  All-later :
      (maker : ℕ) (makers xs : List ℕ)
      → All (λ a. contains makers a ≡ true) xs
      → All (λ a. contains (maker ∷ makers) a ≡ true) xs
  All-later maker makers [] h = tt
  All-later maker makers (x ∷ xs) h = (ground (arith, h.0), All-later maker makers xs h.1)

  All-append : (P : ℕ → Type 0) (xs : List ℕ) (y : ℕ) → All P xs → P y → All P (xs ++ y ∷ [])
  All-append P [] y h p = (p, tt)
  All-append P (x ∷ xs) y h p = (h.0, All-append P xs y h.1 p)

  IsCast-later :
      (maker : ℕ) (makers xs : List ℕ) → IsCast config makers xs → IsCast config (maker ∷ makers) xs
  IsCast-later maker makers xs h = record {
    different = h.different;
    registered = h.registered;
    made = All-later maker makers xs h.made;
  }

  -- One more approval, by the maker of the call.
  pub IsCast-append :
      (maker : ℕ) (makers xs : List ℕ)
      → contains config.admins maker ≡ true
      → contains xs maker ≡ false
      → IsCast config makers xs
      → IsCast config (maker ∷ makers) (xs ++ maker ∷ [])
  IsCast-append maker makers xs own fresh h = record {
    different = Distinct-append xs maker fresh h.different;
    registered = All-append _ xs maker h.registered own;
    made = All-append _ xs maker (All-later maker makers xs h.made) (ground arith);
  }

  pub AreCast-later :
      (maker : ℕ) (makers : List ℕ) (ps : Dict (Option (List ℕ)))
      → AreCast config makers ps
      → AreCast config (maker ∷ makers) ps
  AreCast-later maker makers ps h id xs e = IsCast-later maker makers xs (h id xs e)

  pub AreCast-insert :
      (makers : List ℕ) (id : ℕ) (xs : List ℕ) (ps : Dict (Option (List ℕ)))
      → IsCast config makers xs
      → AreCast config makers ps
      → AreCast config makers (insert id (some xs) ps)
  AreCast-insert makers id xs ps x h j ys e = elim (Bool-cases (j == id)) [
    | inl same ↦
        let known : ys ≡ xs = ground (arith, e, get-insert none j id (some xs) ps) in rw known x
    | inr apart ↦ h j ys (ground (arith, e, get-insert none j id (some xs) ps))
  ]

  pub AreCast-erase :
      (makers : List ℕ) (id : ℕ) (ps : Dict (Option (List ℕ)))
      → AreCast config makers ps
      → AreCast config makers (erase id ps)
  AreCast-erase makers id ps h j ys e = elim (Bool-cases (j == id)) [
    | inl same ↦ absurd (ground (arith, e, get-erase none j id ps))
    | inr apart ↦ h j ys (ground (arith, e, get-erase none j id ps))
  ]
