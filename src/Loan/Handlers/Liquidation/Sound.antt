-- ===== src/Loan/Handlers/Liquidation/Sound.antt =====
-- A liquidation keeps the account invariant, bad debt included.
use chainsettle_contract.Base.{ℕ, ◌&&◌, arith}
use chainsettle_contract.Base.Int.{ℤ, pos, eqb_ℤ}
use chainsettle_contract.Base.Result.{
  Result, ◌>>=◌, ◌>>◌, panic_if, Post, Post-bind, Post-panic_if, Post-ok,
}
use chainsettle_contract.Loan.Engine.{RepayMode, compute_plan}
use chainsettle_contract.Loan.Engine.Bounds.{compute_plan-IsBounded}
use chainsettle_contract.Loan.Guards.{as_user}
use chainsettle_contract.Loan.Handlers.Liquidation.{liquidate, record_price, execute_plan}
use chainsettle_contract.Loan.Handlers.Liquidation.Executed.{execute_plan-IsSound}
use chainsettle_contract.Loan.Host.{Env}
use chainsettle_contract.Loan.Oracle.{resolve_price}
use chainsettle_contract.Loan.Oracle.Failover.{
  resolve_price-OnlyObserves, OnlyObserves-trans, OnlyObserves-position,
}
use chainsettle_contract.Loan.Sound.{get-IsSolid, IsSound, IsSound-OnlyObserves}
use chainsettle_contract.Loan.Store.{Market, Store, get_position}

planned_liquidation :
    (env : Env) (market : Market) (liquidator borrower : ℕ) (s : Store) (price_coll price_debt : ℤ)
    (m : Result RepayMode)
    → IsSound s
    → let p = get_position s borrower in
      Post
        (m >>= λ mode.
          compute_plan p.collateral p.debt price_coll price_debt market.liq_threshold_bps
            s.liq_params.base_bonus_bps s.liq_params.max_bonus_bps s.liq_params.penalty_cap_bps mode
          >>= λ plan.
              panic_if
                (eqb_ℤ plan.repay_units (pos 0) && eqb_ℤ plan.bad_debt_units (pos 0))
                "position not liquidatable"
              >> execute_plan env market liquidator borrower p plan s)
        (λ r. IsSound r.1)
planned_liquidation env market liquidator borrower s price_coll price_debt m h =
    let p = get_position s borrower in
    let v = get-IsSolid borrower s.positions h.solid in
    Post-bind _ m _ λ mode _.
      Post-bind _
        (compute_plan p.collateral p.debt price_coll price_debt market.liq_threshold_bps
          s.liq_params.base_bonus_bps s.liq_params.max_bonus_bps s.liq_params.penalty_cap_bps mode)
        _
        λ plan e.
          let bounded =
            (Post-ok _ e (
              compute_plan-IsBounded p.collateral p.debt price_coll price_debt
                market.liq_threshold_bps s.liq_params.base_bonus_bps s.liq_params.max_bonus_bps
                s.liq_params.penalty_cap_bps mode v.0 v.1 (omega (arith, h.capped)))).0 in
          Post-panic_if _ _ _ _ λ _.
            execute_plan-IsSound env market liquidator borrower plan s h (record {
              repay_nonneg = bounded.repay_nonneg;
              seize_nonneg = bounded.seize_nonneg;
              seize_le = bounded.seize_le;
              bad_nonneg = bounded.bad_nonneg;
              cleared_le = bounded.cleared_le;
            })

-- A liquidation that goes through keeps the account invariant: what is repaid and written off leaves
-- the borrower's debt and the total lent together, and what is written off leaves the deposits.
pub liquidate-IsSound :
    (env : Env) (liquidator borrower : ℕ) (requested : ℤ) (s : Store)
    → IsSound s
    → Post (liquidate env liquidator borrower requested s) (λ r. IsSound r.1)
unfolding liquidate
liquidate-IsSound env liquidator borrower requested s h =
    let p = get_position s borrower in
    Post-bind _ (as_user env s liquidator) _ λ market _. Post-panic_if _ _ _ _ λ _.
      Post-panic_if _ _ _ _ λ _. Post-bind _ (resolve_price env s market.collateral_token) _ λ r e.
        Post-bind _ (resolve_price env r.1 market.debt_token) _ λ q f.
          let seen =
            OnlyObserves-trans s r.1 q.1 (Post-ok _ e (resolve_price-OnlyObserves env s _))
              (Post-ok _ f (resolve_price-OnlyObserves env r.1 _)) in
          rw (OnlyObserves-position s q.1 borrower seen) (
            planned_liquidation env market liquidator borrower q.1 r.0.price q.0.price _
              (IsSound-OnlyObserves seen h))

pub record_price-IsSound :
    (env : Env) (asset : ℕ) (s : Store) → IsSound s → Post (record_price env asset s) IsSound
unfolding record_price
record_price-IsSound env asset s h = Post-panic_if _ _ _ _ λ _.
    Post-bind _ (resolve_price env s asset) _
      λ r e. IsSound-OnlyObserves (Post-ok _ e (resolve_price-OnlyObserves env s asset)) h
