-- ===== src/Loan/Handlers/Admin/Sound.antt =====
-- The administrator's entry points keep the account invariant.
use chainsettle_contract.Base.{ℕ, ◌≤◌, ◌≡◌, true, false, ◌||◌, Option, some, arith, ltb}
use chainsettle_contract.Base.Result.{Post, Post-bind, Post-panic_if}
use chainsettle_contract.Loan.Guards.{as_admin}
use chainsettle_contract.Loan.Handlers.Admin.{
  init, set_oracles, set_market, set_liq_params, pause, unpause,
}
use chainsettle_contract.Loan.Host.{Env, require_auth}
use chainsettle_contract.Loan.Sound.{IsSound, IsSound-keep}
use chainsettle_contract.Loan.Store.{max_configurable_bonus_bps, LiqParams, default_params, Store}

-- New incentives that respect the ceiling.
IsSound-params :
    {s : Store} (owner : Option ℕ) (q : LiqParams)
    → IsSound s
    → q.penalty_cap_bps ≤ max_configurable_bonus_bps
    → IsSound (record s { admin = owner; liq_params = q })
IsSound-params owner q h c = record {
  accounts = record {
    distinct = h.accounts.distinct;
    held = h.accounts.held;
    unlisted = h.accounts.unlisted;
    balanced = h.accounts.balanced;
  };
  keyed = h.keyed;
  solid = h.solid;
  lent = h.lent;
  lent_le = h.lent_le;
  in_range = h.in_range;
  capped = c;
}

within_ceiling :
    (base top limit : ℕ)
    → (ltb max_configurable_bonus_bps base
        || ltb max_configurable_bonus_bps top
        || ltb max_configurable_bonus_bps limit)
      ≡ false
    → limit ≤ max_configurable_bonus_bps
within_ceiling base top limit h = ground arith

module _ (env : Env) (admin : ℕ) (s : Store) (h : IsSound s) where
  pub init-IsSound : Post (init env admin s) IsSound
  unfolding init
  init-IsSound =
      Post-bind _ (require_auth env admin) _
        λ _ _. Post-panic_if _ _ _ _ λ _. IsSound-params (some admin) default_params h (omega arith)

  pub set_oracles-IsSound :
      (first second : Option ℕ) → Post (set_oracles env admin first second s) IsSound
  unfolding set_oracles
  set_oracles-IsSound first second = Post-bind _ (as_admin env s admin) _ λ _ _.
      IsSound-keep s.admin s.paused s.market first second s.twaps s.twap_fallback_count s.transfers
        h

  pub set_market-IsSound : (coll debt thr : ℕ) → Post (set_market env admin coll debt thr s) IsSound
  unfolding set_market
  set_market-IsSound coll debt thr = Post-bind _ (as_admin env s admin) _ λ _ _.
      Post-panic_if _ _ _ _ λ _. Post-panic_if _ _ _ _ λ _.
        IsSound-keep s.admin s.paused (some _) s.primary_oracle s.secondary_oracle s.twaps
          s.twap_fallback_count s.transfers h

  pub set_liq_params-IsSound :
      (base top limit : ℕ) → Post (set_liq_params env admin base top limit s) IsSound
  unfolding set_liq_params
  set_liq_params-IsSound base top limit = Post-bind _ (as_admin env s admin) _ λ _ _.
      Post-panic_if _ _ _ _
        λ a. Post-panic_if _ _ _ _ λ _. IsSound-params s.admin _ h (within_ceiling base top limit a)

  pub pause-IsSound : Post (pause env admin s) IsSound
  unfolding pause
  pause-IsSound = Post-bind _ (as_admin env s admin) _ λ _ _.
      IsSound-keep s.admin true s.market s.primary_oracle s.secondary_oracle s.twaps
        s.twap_fallback_count s.transfers h

  pub unpause-IsSound : Post (unpause env admin s) IsSound
  unfolding unpause
  unpause-IsSound = Post-bind _ (as_admin env s admin) _ λ _ _.
      IsSound-keep s.admin false s.market s.primary_oracle s.secondary_oracle s.twaps
        s.twap_fallback_count s.transfers h
