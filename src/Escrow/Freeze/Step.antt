-- ===== src/Escrow/Freeze/Step.antt =====
-- What one call about the freeze does to the approvals.
use chainsettle_contract.Base.{
  ℕ, suc, ◌≡◌, refl, sym, subst, inl, inr, Bool, true, false, not, ◌||◌, Option, none, some, List,
  [], ◌∷◌, ◌++◌, ltb, leb, ◌==◌, leb→le, is_some, length, contains,
}
use chainsettle_contract.Base.Dict.{Dict, get, insert, erase}
use chainsettle_contract.Base.Int.{u64_max}
use chainsettle_contract.Base.Result.{
  ◌>>=◌, ◌>>◌, panic_if, or_panic, Post, Post-bind, Post-panic_if, Post-ok, Post-if,
}
use chainsettle_contract.Escrow.Confirm.Guards.{not_lem, or_panic_lem}
use chainsettle_contract.Escrow.Freeze.{
  MultiAdminConfig, FreezeDesk, get_freeze_supermajority_bps, is_emergency_frozen,
  supermajority_required, set_freeze_supermajority_bps, proposals_for, set_proposals, not_found,
  set_frozen, execute_proposal, store_approvals, propose_with, propose_change, approve_change,
}
use chainsettle_contract.Escrow.Freeze.Cast.{
  FreezeCall, propose, approve, require_share, maker, freeze_call, IsCast, AreCast, IsTallied,
  IsBacked, IsCast-append, AreCast-later, AreCast-insert, AreCast-erase,
}
use chainsettle_contract.Escrow.Host.{Ledger, require_signature, assert_stored_admin}

module _ (config : MultiAdminConfig) where
  set_proposals-IsTallied :
      (makers : List ℕ) (frozen : Bool) (ps : Dict (Option (List ℕ))) (s : FreezeDesk)
      → AreCast config makers ps
      → IsTallied config makers s
      → IsTallied config makers (set_proposals frozen ps s)
  set_proposals-IsTallied makers true ps s h t = record {
    configured = t.configured;
    freezes = h;
    unfreezes = t.unfreezes;
  }
  set_proposals-IsTallied makers false ps s h t = record {
    configured = t.configured;
    freezes = t.freezes;
    unfreezes = h;
  }

  proposals_for-AreCast :
      (makers : List ℕ) (frozen : Bool) (s : FreezeDesk)
      → IsTallied config makers s
      → AreCast config makers (proposals_for frozen s)
  proposals_for-AreCast makers true s t = t.freezes
  proposals_for-AreCast makers false s t = t.unfreezes

  set_frozen-IsTallied :
      (makers : List ℕ) (frozen : Bool) (s : FreezeDesk)
      → IsTallied config makers s
      → IsTallied config makers (set_frozen frozen s)
  set_frozen-IsTallied makers frozen s t = record {
    configured = t.configured;
    freezes = t.freezes;
    unfreezes = t.unfreezes;
  }

  frozen_kept :
      (frozen : Bool) (ps : Dict (Option (List ℕ))) (s : FreezeDesk)
      → is_emergency_frozen (set_proposals frozen ps s) ≡ is_emergency_frozen s
  frozen_kept true ps s = refl
  frozen_kept false ps s = refl

  -- Storing approvals keeps what is known, and changes the freeze only with enough of them.
  store_approvals_lem :
      (makers : List ℕ) (frozen : Bool) (id : ℕ) (xs : List ℕ) (s : FreezeDesk)
      → IsCast config makers xs
      → IsTallied config makers s
      → Post
          (store_approvals config frozen id xs s)
          (λ s'. IsTallied config makers s' × IsBacked config makers s s')
  unfolding store_approvals execute_proposal
  store_approvals_lem makers frozen id xs s cast t =
      let ps : Dict (Option (List ℕ)) = insert id (some xs) (proposals_for frozen s) in
      let s₁ : FreezeDesk = set_proposals frozen ps s in
      let put : IsTallied config makers s₁ =
        set_proposals-IsTallied makers frozen ps s
          (AreCast-insert config makers id xs (proposals_for frozen s) cast
            (proposals_for-AreCast makers frozen s t))
          t in
      Post-if _
        (leb (supermajority_required (length config.admins) (get_freeze_supermajority_bps s))
          (length xs))
        _ _
        (λ enough.
          Post-panic_if _ (not (is_some (get none id (proposals_for frozen s₁)))) (not_found frozen)
            _
            λ _.
              let left : Dict (Option (List ℕ)) = erase id (proposals_for frozen s₁) in
              (
                set_frozen-IsTallied makers frozen (set_proposals frozen left s₁) (
                    set_proposals-IsTallied makers frozen left s₁
                      (AreCast-erase config makers id (proposals_for frozen s₁)
                        (proposals_for-AreCast makers frozen s₁ put))
                      put),
                inr (xs, cast, leb→le _ (length xs) enough),
              ))
        λ _. (put, inl (frozen_kept frozen ps s))

  IsTallied-later :
      (maker : ℕ) (makers : List ℕ) (s : FreezeDesk)
      → IsTallied config makers s
      → IsTallied config (maker ∷ makers) s
  IsTallied-later maker makers s t = record {
    configured = t.configured;
    freezes = AreCast-later config maker makers s.freeze_proposals t.freezes;
    unfreezes = AreCast-later config maker makers s.unfreeze_proposals t.unfreezes;
  }

  abbrev Counted : List ℕ → FreezeDesk → FreezeDesk → Type 0
  Counted makers s s' = IsTallied config makers s' × IsBacked config makers s s'

  propose_with_lem :
      (frozen : Bool) (admin : ℕ) (makers : List ℕ) (s : FreezeDesk)
      → IsTallied config makers s
      → Post (propose_with (some config) frozen admin s) (λ (id, s'). Counted (admin ∷ makers) s s')
  unfolding propose_with
  propose_with_lem frozen admin makers s t =
      Post-panic_if _ (not (contains config.admins admin)) "unauthorized" _ λ own.
        Post-panic_if _ (leb u64_max s.proposal_counter) "overflow" _ λ _.
          let id : ℕ = suc s.proposal_counter in
          let s₁ : FreezeDesk = record s { proposal_counter = id } in
          let later = IsTallied-later admin makers s t in
          Post-bind _ (store_approvals config frozen id (admin ∷ []) s₁) _ λ s' e. Post-ok _ e (
            store_approvals_lem (admin ∷ makers) frozen id (admin ∷ []) s₁
              (IsCast-append config admin makers [] (not_lem _ own) refl
                (record { different = tt; registered = tt; made = tt }))
              (record {
                configured = later.configured;
                freezes = later.freezes;
                unfreezes = later.unfreezes;
              }))

  approve_with_lem :
      (frozen : Bool) (admin id : ℕ) (makers : List ℕ) (s : FreezeDesk)
      → IsTallied config makers s
      → Post
          (panic_if (not (contains config.admins admin)) "unauthorized"
            >> (or_panic (get none id (proposals_for frozen s)) (not_found frozen) >>= λ xs.
                panic_if (contains xs admin) "already approved by this admin"
                >> store_approvals config frozen id (xs ++ admin ∷ []) s))
          (Counted (admin ∷ makers) s)
  approve_with_lem frozen admin id makers s t =
      Post-panic_if _ (not (contains config.admins admin)) "unauthorized" _ λ own.
        Post-bind _ (or_panic (get none id (proposals_for frozen s)) (not_found frozen)) _ λ xs e.
          Post-panic_if _ (contains xs admin) "already approved by this admin" _ λ fresh.
            let stored' =
              Post-ok _ e
                (or_panic_lem (get none id (proposals_for frozen s)) (not_found frozen)) in
            store_approvals_lem (admin ∷ makers) frozen id (xs ++ admin ∷ []) s
              (IsCast-append config admin makers xs (not_lem _ own) fresh
                (proposals_for-AreCast makers frozen s t id xs stored'))
              (IsTallied-later admin makers s t)

  pub freeze_call_lem :
      (env : Ledger) (c : FreezeCall) (makers : List ℕ) (s : FreezeDesk)
      → IsTallied config makers s
      → Post (freeze_call env c s) (Counted (maker c ∷ makers) s)
  unfolding propose_change approve_change set_freeze_supermajority_bps or_panic
  freeze_call_lem env (propose frozen admin) makers s t =
      let Q : ℕ × FreezeDesk → Type 0 = λ (id, s'). Counted (admin ∷ makers) s s' in
      let proposed : Post (require_signature env admin >> propose_with s.multisig frozen admin s)
          Q =
        Post-bind Q (require_signature env admin) (λ _. propose_with s.multisig frozen admin s)
          λ _ _.
            subst (λ o. Post (propose_with o frozen admin s) Q) (sym t.configured)
              (propose_with_lem frozen admin makers s t) in
      Post-bind _ (require_signature env admin >> propose_with s.multisig frozen admin s) _
        λ (id, s') e. Post-ok Q e proposed
  freeze_call_lem env (approve frozen admin id) makers s t =
      Post-bind _ (require_signature env admin) _ λ _ _.
        Post-bind _ (or_panic s.multisig "multisig admin not configured") _ λ config' e.
          let same : config' ≡ config =
            cc (
              Post-ok _ e (or_panic_lem s.multisig "multisig admin not configured"),
              t.configured,
            ) in
          subst
            (λ (k : MultiAdminConfig).
              Post
                (panic_if (not (contains k.admins admin)) "unauthorized"
                  >> (or_panic (get none id (proposals_for frozen s)) (not_found frozen) >>= λ xs.
                      panic_if (contains xs admin) "already approved by this admin"
                      >> store_approvals k frozen id (xs ++ admin ∷ []) s))
                (Counted (admin ∷ makers) s))
            (sym same) (approve_with_lem frozen admin id makers s t)
  freeze_call_lem env (require_share admin bps) makers s t =
      Post-bind _ (require_signature env admin) _ λ _ _.
        Post-bind _ (assert_stored_admin s.chief admin) _ λ _ _.
          Post-panic_if _ ((bps == 0) || ltb 10000 bps) "supermajority bps must be in (0, 10000]" _
            λ _.
              let later = IsTallied-later admin makers s t in
              (
                record {
                  configured = later.configured;
                  freezes = later.freezes;
                  unfreezes = later.unfreezes;
                },
                inl refl,
              )
