-- ===== src/Loan/Oracle/Sources.antt =====
-- Which source the price of a lookup comes from.
use chainsettle_contract.Base.{
  ℕ, ◌+◌, ◌-◌, ◌≤◌, min, ◌≡◌, refl, inl, inr, true, Option, none, some, arith, Bool-cases,
  Option-cases,
}
use chainsettle_contract.Base.Int.{ℤ, pos, ◌≤ℤ◌, u64_max}
use chainsettle_contract.Base.Result.{checked_u32, Post, Post-bind, Post-ok, Post-mono}
use chainsettle_contract.Loan.Host.{Env}
use chainsettle_contract.Loan.Oracle.{
  validate_answer, valid_only, try_fetch, twap_price, fetch_from, fall_back, resolve_price,
}
use chainsettle_contract.Loan.Oracle.Average.{IsAverage, twap_price-IsAverage}
use chainsettle_contract.Loan.Store.{
  Source, primary, secondary, twap, PriceResolution, Store, get_twap_state,
  bump_twap_fallback_count,
}

-- The oracle is there, and its answer is positive, not older than 300 seconds, and not more than 60
-- seconds ahead.
abbrev IsFresh : Env → Option ℕ → ℕ → ℤ → Type 0
IsFresh env oracle asset price =
    (o ts : ℕ) × (oracle ≡ some o)
    × (env.latest_price o asset ≡ some (price, ts))
    × (pos 1 ≤ℤ price)
    × (ts ≤ min (env.timestamp + 60) u64_max)
    × (env.timestamp - ts ≤ 300)

validate_answer-fresh :
    (price : ℤ) (ts now : ℕ)
    → validate_answer price ts now ≡ true
    → (pos 1 ≤ℤ price) × (ts ≤ min (now + 60) u64_max) × (now - ts ≤ 300)
unfolding validate_answer
validate_answer-fresh price ts now h = ground arith

fresh-validate_answer :
    (price : ℤ) (ts now : ℕ)
    → pos 1 ≤ℤ price
    → ts ≤ min (now + 60) u64_max
    → now - ts ≤ 300
    → validate_answer price ts now ≡ true
unfolding validate_answer
fresh-validate_answer price ts now a b c = ground arith

valid_only-found :
    (env : Env) (o asset : ℕ) (a : Option (ℤ × ℕ)) (price : ℤ)
    → env.latest_price o asset ≡ a
    → valid_only env.timestamp a ≡ some price
    → IsFresh env (some o) asset price
valid_only-found env o asset none price e h = absurd (cc h)
valid_only-found env o asset (some (p, ts)) price e h =
    elim (Bool-cases (validate_answer p ts env.timestamp)) [
      | inr stale ↦ absurd (cc (rw stale at h))
      | inl fresh ↦
          let same : p ≡ price = cc (rw fresh at h) in
          let (a, b, c) = validate_answer-fresh p ts env.timestamp fresh in
          (o, ts, refl, rw same at e, rw same at a, b, c)
    ]

fetch_from-found :
    (env : Env) (oracle : Option ℕ) (asset : ℕ) (price : ℤ)
    → fetch_from env oracle asset ≡ some price
    → IsFresh env oracle asset price
unfolding fetch_from try_fetch
fetch_from-found env none asset price h = absurd (cc h)
fetch_from-found env (some o) asset price h =
    valid_only-found env o asset (env.latest_price o asset) price refl h

fetch_from-missed :
    (env : Env) (oracle : Option ℕ) (asset : ℕ) (price : ℤ)
    → fetch_from env oracle asset ≡ none
    → ¬ IsFresh env oracle asset price
unfolding fetch_from try_fetch
fetch_from-missed env none asset price h (o, ts, e, f, a, b, c) = cc e
fetch_from-missed env (some x) asset price h (o, ts, e, f, a, b, c) =
    let same : env.latest_price x asset ≡ some (price, ts) = cc (e, f) in
    cc (rw (same, fresh-validate_answer price ts env.timestamp a b c) at h)

-- What is said of a price and its source.
abbrev pub IsSourced : Env → Store → ℕ → PriceResolution → Type 0
IsSourced env s asset r = elim r.source [
  | primary ↦ IsFresh env s.primary_oracle asset r.price
  | secondary ↦
      ((p : ℤ) → ¬ IsFresh env s.primary_oracle asset p)
      × IsFresh env s.secondary_oracle asset r.price
  | twap ↦
      ((p : ℤ) → ¬ IsFresh env s.primary_oracle asset p)
      × ((p : ℤ) → ¬ IsFresh env s.secondary_oracle asset p)
      × IsAverage (get_twap_state s asset) env.timestamp r.price
]

bump-twaps : (s : Store) → Post (bump_twap_fallback_count s) (λ s'. s'.twaps ≡ s.twaps)
unfolding bump_twap_fallback_count
bump-twaps s = Post-bind _ (checked_u32 (s.twap_fallback_count + 1)) _ λ n e. refl

-- What the lookup falls back on is the average of the prices that were observed before it.
fall_back-IsAverage :
    (env : Env) (s : Store) (asset : ℕ)
    → Post (fall_back env s asset) (λ r.
      (r.0.source ≡ Source.twap) × IsAverage (get_twap_state s asset) env.timestamp r.0.price)
unfolding fall_back
fall_back-IsAverage env s asset = Post-bind _ (bump_twap_fallback_count s) _ λ s' e.
    Post-bind _ (twap_price s' asset env.timestamp) _ λ price f.
      let same : s'.twaps ≡ s.twaps = Post-ok _ e (bump-twaps s) in
      (refl, rw⁻¹ same (Post-ok _ f (twap_price-IsAverage s' asset env.timestamp)))

-- A price that a lookup gives is a fresh answer of the primary oracle (positive, at most 300 seconds old,
-- at most 60 seconds ahead), or, where that has none, a fresh answer of the secondary one. Where neither
-- has one it is the average over the window of 1800 seconds: the asset has a positive last price and at
-- least two snapshots, and the price is what the accumulator, carried on to now at the last price, has
-- gained since the first snapshot in the window (the last one, where all are older), which is positive,
-- divided by the at least 60 seconds since that snapshot.
pub resolve_price-IsSourced :
    (env : Env) (s : Store) (asset : ℕ)
    → Post (resolve_price env s asset) (λ r. IsSourced env s asset r.0)
unfolding resolve_price
resolve_price-IsSourced env s asset = elim (Option-cases (fetch_from env s.primary_oracle asset)) [
  | inr (p, e) ↦ rw (e, resolve_price) (fetch_from-found env s.primary_oracle asset p e)
  | inl e ↦
      rw (e, resolve_price)
        (elim (Option-cases (fetch_from env s.secondary_oracle asset)) [
          | inr (p, f) ↦
              rw (f, resolve_price)
                ((
                  λ q. fetch_from-missed env s.primary_oracle asset q e,
                  fetch_from-found env s.secondary_oracle asset p f,
                ))
          | inl f ↦
              rw (f, resolve_price)
                (Post-mono _ (fall_back env s asset)
                  (λ r (source, average). rw source (
                    (
                      λ q. fetch_from-missed env s.primary_oracle asset q e,
                      λ q. fetch_from-missed env s.secondary_oracle asset q f,
                      average,
                    )))
                  (fall_back-IsAverage env s asset))
        ])
]
