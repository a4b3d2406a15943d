-- ===== src/Loan/Oracle/Failover.antt =====
-- Which source a price comes from, and what a lookup changes.
use chainsettle_contract.Base.{ℕ, ◌+◌, ◌≡◌, refl, inl, inr, Option-cases}
use chainsettle_contract.Base.Dict.{Dict}
use chainsettle_contract.Base.Result.{checked_u32, Post, Post-bind, Post-panic_if, Post-ok}
use chainsettle_contract.Loan.Host.{Env}
use chainsettle_contract.Loan.Oracle.{
  record_observation, twap_price, fetch_from, fall_back, resolve_price, require_price,
}
use chainsettle_contract.Loan.Store.{TwapState, Store, get_position, bump_twap_fallback_count}

-- A price lookup changes the price history and its counter, and nothing else.
abbrev pub OnlyObserves : Store → Store → Type 0
OnlyObserves s s' =
    (t : Dict TwapState) × (n : ℕ) × (s' ≡ record s { twaps = t; twap_fallback_count = n })

bump-OnlyObserves :
    (s : Store)
    → Post
        (bump_twap_fallback_count s)
        (λ s'. (n : ℕ) × (s' ≡ record s { twap_fallback_count = n }))
unfolding bump_twap_fallback_count
bump-OnlyObserves s = Post-bind _ (checked_u32 (s.twap_fallback_count + 1)) _ λ n e. (n, refl)

fall_back-OnlyObserves :
    (env : Env) (s : Store) (asset : ℕ) → Post (fall_back env s asset) (λ r. OnlyObserves s r.1)
unfolding fall_back
fall_back-OnlyObserves env s asset = Post-bind _ (bump_twap_fallback_count s) _ λ s' e.
    let (n, f) = Post-ok _ e (bump-OnlyObserves s) in
    Post-bind _ (twap_price s' asset env.timestamp) _ λ price g. (s.twaps, n, f)

pub resolve_price-OnlyObserves :
    (env : Env) (s : Store) (asset : ℕ) → Post (resolve_price env s asset) (λ r. OnlyObserves s r.1)
unfolding resolve_price record_observation
resolve_price-OnlyObserves env s asset =
    elim (Option-cases (fetch_from env s.primary_oracle asset)) [
      | inr (p, e) ↦ rw (e, resolve_price) ((_, _, refl))
      | inl e ↦
          rw (e, resolve_price)
            (elim (Option-cases (fetch_from env s.secondary_oracle asset)) [
              | inr (p, f) ↦ rw (f, resolve_price) ((_, _, refl))
              | inl f ↦ rw (f, resolve_price) (fall_back-OnlyObserves env s asset)
            ])
    ]

pub require_price-OnlyObserves :
    (env : Env) (s : Store) (asset : ℕ) → Post (require_price env s asset) (λ r. OnlyObserves s r.1)
unfolding require_price
require_price-OnlyObserves env s asset =
    Post-bind _ (resolve_price env s asset) _
      λ r e. Post-panic_if _ _ _ _ λ _. Post-ok _ e (resolve_price-OnlyObserves env s asset)

pub OnlyObserves-refl : (s : Store) → OnlyObserves s s
OnlyObserves-refl s = (s.twaps, s.twap_fallback_count, refl)

pub OnlyObserves-trans :
    (s s' s'' : Store) → OnlyObserves s s' → OnlyObserves s' s'' → OnlyObserves s s''
OnlyObserves-trans s s' s'' (t, n, e) (t', n', e') = (t', n', rw (e', e))

pub OnlyObserves-borrowed :
    (s s' : Store) → OnlyObserves s s' → s'.total_borrowed ≡ s.total_borrowed
OnlyObserves-borrowed s s' (t, n, e) = rw e

pub OnlyObserves-position :
    (s s' : Store) (user : ℕ) → OnlyObserves s s' → get_position s user ≡ get_position s' user
OnlyObserves-position s s' user (t, n, e) = rw e
