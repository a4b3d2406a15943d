-- ===== src/Loan/Contract/History.antt =====
-- The account invariant over the whole life of the contract.
use chainsettle_contract.Loan.Handlers.Borrower
use chainsettle_contract.Loan.Handlers.Liquidation
use chainsettle_contract.Base.{ℕ, refl, List, [], ◌∷◌, arith}
use chainsettle_contract.Base.Result.{Result, ok, panic, Post, Post-mono}
use chainsettle_contract.Loan.Contract.{
  Call, init, set_oracles, set_market, set_liq_params, pause, unpause, deposit, withdraw,
  deposit_collateral, borrow, repay, withdraw_collateral, liquidate, health_factor, record_price,
  preview_price, without_result, call, committed, run,
}
use chainsettle_contract.Loan.Handlers.Admin.Sound.{
  init-IsSound, set_oracles-IsSound, set_market-IsSound, set_liq_params-IsSound, pause-IsSound,
  unpause-IsSound,
}
use chainsettle_contract.Loan.Handlers.Borrower.Sound.{
  deposit_collateral-IsSound, borrow-IsSound, repay-IsSound, withdraw_collateral-IsSound,
  health_factor-IsSound,
}
use chainsettle_contract.Loan.Handlers.Liquidation.Sound.{liquidate-IsSound, record_price-IsSound}
use chainsettle_contract.Loan.Handlers.Liquidity.Sound.{deposit-IsSound, withdraw-IsSound}
use chainsettle_contract.Loan.Host.{Env}
use chainsettle_contract.Loan.Oracle.{resolve_price}
use chainsettle_contract.Loan.Oracle.Failover.{resolve_price-OnlyObserves}
use chainsettle_contract.Loan.Sound.{IsSound, IsSound-OnlyObserves}
use chainsettle_contract.Loan.Store.{Store, empty_store}

empty_store-IsSound : IsSound empty_store
empty_store-IsSound = record {
  accounts = record { distinct = tt; held = tt; unlisted = λ k e. refl; balanced = refl };
  keyed = tt;
  solid = tt;
  lent = refl;
  lent_le = omega arith;
  in_range = omega arith;
  capped = omega arith;
}

without_result-IsSound {ℓ} :
    {A : Type ℓ} (m : Result (A × Store))
    → Post m (λ r. IsSound r.1)
    → Post (without_result m) IsSound
without_result-IsSound (ok (a, s)) h = h
without_result-IsSound (panic e) h = tt

committed-IsSound :
    (s : Store) (m : Result Store) → IsSound s → Post m IsSound → IsSound (committed s m)
committed-IsSound s (ok s') h p = p
committed-IsSound s (panic e) h p = h

resolve_price-IsSound :
    (env : Env) (s : Store) (asset : ℕ)
    → IsSound s
    → Post (resolve_price env s asset) (λ r. IsSound r.1)
resolve_price-IsSound env s asset h =
    Post-mono _ (resolve_price env s asset) (λ r e. IsSound-OnlyObserves e h)
      (resolve_price-OnlyObserves env s asset)

-- Each entry point that goes through keeps the account invariant.
call-IsSound : (env : Env) (c : Call) (s : Store) → IsSound s → Post (call env c s) IsSound
unfolding call
call-IsSound env (init a) s h = init-IsSound env a s h
call-IsSound env (set_oracles a p q) s h = set_oracles-IsSound env a s h p q
call-IsSound env (set_market a c d t) s h = set_market-IsSound env a s h c d t
call-IsSound env (set_liq_params a b m l) s h = set_liq_params-IsSound env a s h b m l
call-IsSound env (pause a) s h = pause-IsSound env a s h
call-IsSound env (unpause a) s h = unpause-IsSound env a s h
call-IsSound env (deposit u x) s h = deposit-IsSound env u x s h
call-IsSound env (withdraw u x) s h = withdraw-IsSound env u x s h
call-IsSound env (deposit_collateral u x) s h = deposit_collateral-IsSound env u x s h
call-IsSound env (borrow u x) s h = borrow-IsSound env u x s h
call-IsSound env (repay u x) s h = repay-IsSound env u x s h
call-IsSound env (withdraw_collateral u x) s h = withdraw_collateral-IsSound env u x s h
call-IsSound env (liquidate l b x) s h =
    without_result-IsSound (Liquidation.liquidate env l b x s) (liquidate-IsSound env l b x s h)
call-IsSound env (health_factor u) s h =
    without_result-IsSound (Borrower.health_factor env u s) (health_factor-IsSound env u s h)
call-IsSound env (record_price a) s h = record_price-IsSound env a s h
call-IsSound env (preview_price a) s h =
    without_result-IsSound (resolve_price env s a) (resolve_price-IsSound env s a h)

-- From a sound state every sequence of calls, by anybody and in any environment, leads to a sound one.
run-IsSound : (s : Store) (cs : List (Env × Call)) → IsSound s → IsSound (run s cs)
unfolding run
run-IsSound s [] h = h
run-IsSound s ((env, c) ∷ cs) h =
    run-IsSound (committed s (call env c s)) cs
      (committed-IsSound s (call env c s) h (call-IsSound env c s h))

-- Whatever happens to the contract from its deployment on: the depositors' balances add up to the
-- total deposits and the debts to the total borrowed, nothing is below zero, and no more is lent
-- than is deposited.
pub run_from_start-IsSound : (cs : List (Env × Call)) → IsSound (run empty_store cs)
run_from_start-IsSound cs = run-IsSound empty_store cs empty_store-IsSound
