-- ===== src/Loan/Contract/Access.antt =====
-- Who may call what, and when.
use chainsettle_contract.Loan.Handlers.Admin
use chainsettle_contract.Loan.Handlers.Liquidity
use chainsettle_contract.Loan.Handlers.Borrower
use chainsettle_contract.Loan.Handlers.Liquidation
use chainsettle_contract.Base.{
  ℕ, ◌≡◌, refl, ap, Bool, true, false, not, Option, none, some, arith, ◌==◌, is_some,
}
use chainsettle_contract.Base.Int.{ℤ}
use chainsettle_contract.Base.Result.{
  Result, ok, panic, ◌>>=◌, ◌>>◌, panic_if, or_panic, Post, Post-bind, Post-panic_if,
  Post-panic_if_last, Post-ok, Post-mono, Post-any,
}
use chainsettle_contract.Loan.Contract.{
  Call, init, set_oracles, set_market, set_liq_params, pause, unpause, deposit, withdraw,
  deposit_collateral, borrow, repay, withdraw_collateral, liquidate, health_factor, record_price,
  preview_price, without_result, call,
}
use chainsettle_contract.Loan.Guards.{assert_admin, as_admin, as_user}
use chainsettle_contract.Loan.Host.{Env}
use chainsettle_contract.Loan.Store.{Market, Store}

-- What a call that goes through shows of its caller and of the state it found.
abbrev pub IsAuthorised : Env → Call → Store → Type 0
IsAuthorised env (init a) s = (env.signed a ≡ true) × (s.admin ≡ none)
IsAuthorised env (set_oracles a p q) s = (env.signed a ≡ true) × (s.admin ≡ some a)
IsAuthorised env (set_market a c d t) s = (env.signed a ≡ true) × (s.admin ≡ some a)
IsAuthorised env (set_liq_params a b m l) s = (env.signed a ≡ true) × (s.admin ≡ some a)
IsAuthorised env (pause a) s = (env.signed a ≡ true) × (s.admin ≡ some a)
IsAuthorised env (unpause a) s = (env.signed a ≡ true) × (s.admin ≡ some a)
IsAuthorised env (deposit u x) s = (env.signed u ≡ true) × (s.paused ≡ false)
IsAuthorised env (withdraw u x) s = (env.signed u ≡ true) × (s.paused ≡ false)
IsAuthorised env (deposit_collateral u x) s = (env.signed u ≡ true) × (s.paused ≡ false)
IsAuthorised env (borrow u x) s = (env.signed u ≡ true) × (s.paused ≡ false)
IsAuthorised env (repay u x) s = (env.signed u ≡ true) × (s.paused ≡ false)
IsAuthorised env (withdraw_collateral u x) s = (env.signed u ≡ true) × (s.paused ≡ false)
IsAuthorised env (liquidate l b x) s =
    (env.signed l ≡ true) × (s.paused ≡ false) × ((l == b) ≡ false)
IsAuthorised env (health_factor u) s = Unit
IsAuthorised env (record_price a) s = s.paused ≡ false
IsAuthorised env (preview_price a) s = Unit

signs : (b : Bool) → not b ≡ false → b ≡ true
signs true h = refl
signs false h = cc

as_user-authorised :
    (env : Env) (s : Store) (user : ℕ)
    → Post (as_user env s user) (λ m. (env.signed user ≡ true) × (s.paused ≡ false))
as_user-authorised env s user = Post-panic_if _ (not (env.signed user)) _ _ λ a.
    Post-panic_if _ s.paused _ _
      λ b. Post-any (or_panic s.market "market not initialized") (signs _ a, b)

as_admin-authorised :
    (env : Env) (s : Store) (admin : ℕ)
    → Post (as_admin env s admin) (λ m. (env.signed admin ≡ true) × (s.admin ≡ some admin))
unfolding or_panic
as_admin-authorised env s admin =
    Post-panic_if _ (not (env.signed admin)) _ _
      λ a. Post-mono _ (assert_admin s admin) (λ m e. (signs _ a, e)) (known s.admin)
  where
    known :
        (a : Option ℕ)
        → Post
            (or_panic a "admin not set" >>= λ stored.
              panic_if (not (stored == admin)) "unauthorized")
            (λ m. a ≡ some admin)
    known none = tt
    known (some stored) =
        Post-panic_if_last (some stored ≡ some admin) (not (stored == admin)) "unauthorized"
          λ e. ap some (ground arith)

by_user {ℓ} :
    {A : Type ℓ} (env : Env) (s : Store) (user : ℕ) (f : Market → Result A)
    → Post (as_user env s user >>= f) (λ m. (env.signed user ≡ true) × (s.paused ≡ false))
by_user env s user f =
    Post-bind _ (as_user env s user) _
      λ m e. Post-any (f m) (Post-ok _ e (as_user-authorised env s user))

by_admin {ℓ} :
    {A : Type ℓ} (env : Env) (s : Store) (admin : ℕ) (m : Result A)
    → Post (as_admin env s admin >> m) (λ r. (env.signed admin ≡ true) × (s.admin ≡ some admin))
by_admin env s admin m =
    Post-bind _ (as_admin env s admin) _
      λ u e. Post-any m (Post-ok _ e (as_admin-authorised env s admin))

without_result-guarded {ℓ κ} :
    {A : Type ℓ} (P : Type κ) (m : Result (A × Store))
    → Post m (λ _. P)
    → Post (without_result m) (λ _. P)
without_result-guarded P (ok (a, s)) h = h
without_result-guarded P (panic e) h = tt

init-guarded :
    (env : Env) (a : ℕ) (s : Store)
    → Post (Admin.init env a s) (λ _. (env.signed a ≡ true) × (s.admin ≡ none))
unfolding Admin.init
init-guarded env a s =
    Post-panic_if _ (not (env.signed a)) _ _
      λ g. Post-panic_if _ (is_some s.admin) _ _ λ h. (signs _ g, absent s.admin h)
  where
    absent : (x : Option ℕ) → is_some x ≡ false → x ≡ none
    absent none e = refl
    absent (some y) e = cc

liquidate-guarded :
    (env : Env) (l b : ℕ) (x : ℤ) (s : Store)
    → Post
        (Liquidation.liquidate env l b x s)
        (λ _. (env.signed l ≡ true) × (s.paused ≡ false) × ((l == b) ≡ false))
unfolding Liquidation.liquidate
liquidate-guarded env l b x s = Post-bind _ (as_user env s l) _ λ m e.
    Post-panic_if _ (l == b) _ _ λ other.
      let (signed, running) = Post-ok _ e (as_user-authorised env s l) in
      Post-any {P = (env.signed l ≡ true) × (s.paused ≡ false) × ((l == b) ≡ false)} _
        (signed, running, other)

-- A call that goes through, other than `record_price`, `health_factor` and `preview_price`, was signed by
-- the address that it names as its caller, which is the stored administrator for an administrator's
-- call. A user's call (`deposit`, `withdraw`, `deposit_collateral`, `borrow`, `repay`,
-- `withdraw_collateral`, `liquidate`) and `record_price` find the contract running; nobody liquidates
-- himself; `init` finds no administrator.
pub call-IsAuthorised :
    (env : Env) (c : Call) (s : Store) → Post (call env c s) (λ _. IsAuthorised env c s)
unfolding call Admin.set_oracles Admin.set_market Admin.set_liq_params Admin.pause Admin.unpause
    Liquidity.deposit Liquidity.withdraw Borrower.deposit_collateral Borrower.borrow Borrower.repay
    Borrower.withdraw_collateral Liquidation.record_price
call-IsAuthorised env (init a) s = init-guarded env a s
call-IsAuthorised env (set_oracles a p q) s = by_admin env s a _
call-IsAuthorised env (set_market a c d t) s = by_admin env s a _
call-IsAuthorised env (set_liq_params a b m l) s = by_admin env s a _
call-IsAuthorised env (pause a) s = by_admin env s a _
call-IsAuthorised env (unpause a) s = by_admin env s a _
call-IsAuthorised env (deposit u x) s = by_user env s u _
call-IsAuthorised env (withdraw u x) s = by_user env s u _
call-IsAuthorised env (deposit_collateral u x) s = by_user env s u _
call-IsAuthorised env (borrow u x) s = by_user env s u _
call-IsAuthorised env (repay u x) s = by_user env s u _
call-IsAuthorised env (withdraw_collateral u x) s = by_user env s u _
call-IsAuthorised env (liquidate l b x) s =
    without_result-guarded _ (Liquidation.liquidate env l b x s) (liquidate-guarded env l b x s)
call-IsAuthorised env (health_factor u) s = Post-any _ tt
call-IsAuthorised env (record_price a) s = Post-panic_if _ s.paused _ _ λ e. Post-any _ e
call-IsAuthorised env (preview_price a) s = Post-any _ tt
