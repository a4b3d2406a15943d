-- ===== src/Escrow/Vault/History.antt =====
-- The vault over any sequence of deposits and withdrawals.
use chainsettle_contract.Base.{
  ℕ, ◌≡◌, subst, inl, inr, true, false, not, List, [], ◌∷◌, arith, ◌==◌, if◌then◌else◌, Bool-cases,
  All,
}
use chainsettle_contract.Base.Dict.{get}
use chainsettle_contract.Base.Int.{ℤ, pos, ◌-ℤ◌, leb_ℤ, int_laws, ◌≈◌, is_positive}
use chainsettle_contract.Base.Result.{
  Result, ok, panic, Post, Post-bind, Post-panic_if, Post-ok, Post-mono,
}
use chainsettle_contract.Base.Token.{Transfer, moved, flow}
use chainsettle_contract.Escrow.Host.{Ledger, send, Post-send, assert_running}
use chainsettle_contract.Escrow.State.{Escrow}
use chainsettle_contract.Escrow.Vault.{add_to_vault, take_from_vault, vault_deposit, vault_withdraw}
use chainsettle_contract.Escrow.Vault.Backing.{
  IsVaulted, IsVaulted-sent, add_to_vault-IsVaulted, take_from_vault-IsVaulted,
}

pub data VaultCall : Type 0 where
  put_in take_out : ℕ → ℕ → ℤ → VaultCall

vault_call : Ledger → VaultCall → Escrow → Result Escrow
vault_call env (put_in buyer token amount) s = vault_deposit env buyer token amount s
vault_call env (take_out buyer token amount) s = vault_withdraw env buyer token amount s

-- A call that panics is reverted.
abbrev kept_state : Escrow → Result Escrow → Escrow
kept_state s (ok s') = s'
kept_state s (panic e) = s

pub run_vault : Escrow → List (Ledger × VaultCall) → Escrow
run_vault s [] = s
run_vault s ((env, c) ∷ cs) = run_vault (kept_state s (vault_call env c s)) cs

-- The books are kept, and the contract has received, in every token, exactly what they say.
pub record IsBacked (here : ℕ) (s : Escrow) : Type 0 where
  pub vaulted : IsVaulted s
  pub covered : (t : ℕ) → flow here t s.sent ≈ get (pos 0) t s.total_vaulted

-- The calls are made at the contract `here`, which signs none of them.
abbrev AllAt : ℕ → List (Ledger × VaultCall) → Type 0
AllAt here cs = All (λ c. (c.0.this_contract ≡ here) × (c.0.approved here ≡ false)) cs

signer_apart :
    (env : Ledger) (buyer : ℕ)
    → env.approved env.this_contract ≡ false
    → not (env.approved buyer) ≡ false
    → (buyer == env.this_contract) ≡ false
signer_apart env buyer h k = elim (Bool-cases (buyer == env.this_contract)) [
  | inl same ↦ let e : buyer ≡ env.this_contract = ground arith in absurd (cc (rw (e, h) at k))
  | inr other ↦ other
]

module _ (here other token t : ℕ) (amount : ℤ) (apart : (other == here) ≡ false) where
  received :
      moved here t (record { token = token; sender = other; receiver = here; amount = amount })
      ≈ (if token == t then amount else pos 0)
  received =
      let same : (here == here) ≡ true = ground arith in
      rw (same, apart)
        (elim (Bool-cases (token == t)) [
          | inl e ↦ rw e (omega int_laws)
          | inr e ↦ rw e (omega int_laws)
        ])

  paid_out :
      moved here t (record { token = token; sender = here; receiver = other; amount = amount })
      ≈ (if token == t then pos 0 -ℤ amount else pos 0)
  paid_out =
      let same : (here == here) ≡ true = ground arith in
      rw (same, apart)
        (elim (Bool-cases (token == t)) [
          | inl e ↦ rw e (omega int_laws)
          | inr e ↦ rw e (omega int_laws)
        ])

module _ (env : Ledger) (buyer token : ℕ) (amount : ℤ) (s : Escrow) where
  deposit-IsBacked :
      env.approved env.this_contract ≡ false
      → IsBacked env.this_contract s
      → Post (vault_deposit env buyer token amount s) (IsBacked env.this_contract)
  unfolding vault_deposit
  deposit-IsBacked unsigned h =
      let here = env.this_contract in
      let x : Transfer = record {
        token = token;
        sender = buyer;
        receiver = here;
        amount = amount;
      } in
      let paid = record s { sent = x ∷ s.sent } in
      Post-bind _ (assert_running s) _ λ _ _.
        Post-panic_if _ (not (env.approved buyer)) _ _ λ signed.
          Post-panic_if _ (leb_ℤ amount (pos 0)) _ _ λ p.
            Post-send _ env token buyer here amount s (λ s₁. add_to_vault buyer token amount s₁)
              (Post-mono _ (add_to_vault buyer token amount paid)
                (λ s' (v, (same, change)). record {
                  vaulted = v;
                  covered = λ t. rw same (
                      omega (
                        int_laws,
                        received here buyer token t amount (signer_apart env buyer unsigned signed),
                        h.covered t,
                        change t,
                      ));
                })
                (add_to_vault-IsVaulted buyer token amount paid
                  (IsVaulted-sent s (x ∷ s.sent) h.vaulted) (is_positive amount p)))

  withdraw-IsBacked :
      env.approved env.this_contract ≡ false
      → IsBacked env.this_contract s
      → Post (vault_withdraw env buyer token amount s) (IsBacked env.this_contract)
  unfolding vault_withdraw send
  withdraw-IsBacked unsigned h =
      let here = env.this_contract in
      let x : Transfer = record {
        token = token;
        sender = here;
        receiver = buyer;
        amount = amount;
      } in
      Post-bind _ (assert_running s) _ λ _ _.
        Post-panic_if _ (not (env.approved buyer)) _ _ λ signed.
          Post-panic_if _ (leb_ℤ amount (pos 0)) _ _ λ p.
            Post-bind _ (take_from_vault buyer token amount s) _ λ s' e.
              let (v, (same, change)) =
                Post-ok _ e (
                  take_from_vault-IsVaulted buyer token amount s h.vaulted
                    (is_positive amount p)) in
              Post-panic_if _ _ _ _ λ _. record {
                vaulted = IsVaulted-sent s' (x ∷ s'.sent) v;
                covered = λ t. rw same (
                    omega (
                      int_laws,
                      paid_out here buyer token t amount (signer_apart env buyer unsigned signed),
                      h.covered t,
                      change t,
                    ));
              }

vault_call-IsBacked :
    (env : Ledger) (c : VaultCall) (s : Escrow)
    → env.approved env.this_contract ≡ false
    → IsBacked env.this_contract s
    → Post (vault_call env c s) (IsBacked env.this_contract)
unfolding vault_call
vault_call-IsBacked env (put_in buyer token amount) s u h =
    deposit-IsBacked env buyer token amount s u h
vault_call-IsBacked env (take_out buyer token amount) s u h =
    withdraw-IsBacked env buyer token amount s u h

kept_state-IsBacked :
    (here : ℕ) (s : Escrow) (m : Result Escrow)
    → IsBacked here s
    → Post m (IsBacked here)
    → IsBacked here (kept_state s m)
kept_state-IsBacked here s (ok s') h p = p
kept_state-IsBacked here s (panic e) h p = h

-- Any deposits and withdrawals, made at one contract that signs none of them, keep the vault's books
-- and its backing: no balance is below zero, in every token the balances come to the stored total,
-- and that total is what the token's transfers have brought to the contract.
pub run_vault-IsBacked :
    (here : ℕ) (cs : List (Ledger × VaultCall)) (s : Escrow)
    → AllAt here cs
    → IsBacked here s
    → IsBacked here (run_vault s cs)
unfolding run_vault
run_vault-IsBacked here [] s a h = h
run_vault-IsBacked here ((env, c) ∷ cs) s ((at, unsigned), a) h =
    run_vault-IsBacked here cs (kept_state s (vault_call env c s)) a (
      kept_state-IsBacked here s (vault_call env c s) h (
        subst (λ k. Post (vault_call env c s) (IsBacked k)) at
          (vault_call-IsBacked env c s (rw at unsigned) (rw at h))))
