-- ===== src/Loan/Oracle.antt =====
-- contracts/loan_manager/src/oracle.rs: the failover chain and the time-weighted average.
pub mod Failover
pub mod Average
pub mod Sources
mod Tests
use chainsettle_contract.Base.{
  ℕ, ◌+◌, ◌-◌, min, Bool, true, false, ◌||◌, Option, none, some, List, [], ◌∷◌, ◌++◌, ltb, leb,
  if◌then◌else◌, length,
}
use chainsettle_contract.Base.Int.{
  ℤ, pos, ◌/ℤ◌, ltb_ℤ, leb_ℤ, eqb_ℤ, saturating_add, saturating_mul, u32_max, u64_max,
}
use chainsettle_contract.Base.Result.{Result, ok, panic, panic_if, sub_i128, ◌>>=◌, ◌>>◌}
use chainsettle_contract.Loan.Host.{Env}
use chainsettle_contract.Loan.Store.{
  price_scale, max_price_staleness_secs, max_future_skew_secs, twap_window_secs, twap_min_span_secs,
  twap_snapshot_interval_secs, twap_max_snapshots, PriceObservation, TwapState, Source,
  PriceResolution, Store, get_twap_state, set_twap_state, bump_twap_fallback_count,
}

-- `u64::saturating_add`
abbrev saturating_add_u64 : ℕ → ℕ → ℕ
saturating_add_u64 a b = min (a + b) u64_max

pub validate_answer : ℤ → ℕ → ℕ → Bool
validate_answer price ts now =
    if leb_ℤ price (pos 0)
    then false
    else if ltb (saturating_add_u64 now max_future_skew_secs) ts
    then false
    else if ltb max_price_staleness_secs (now - ts)
    then false
    else true

abbrev pub valid_only : ℕ → Option (ℤ × ℕ) → Option ℤ
valid_only now none = none
valid_only now (some (price, ts)) = if validate_answer price ts now then some price else none

pub try_fetch : Env → ℕ → ℕ → Option ℤ
try_fetch env oracle asset = valid_only env.timestamp (env.latest_price oracle asset)

-- `while st.snapshots.len() > TWAP_MAX_SNAPSHOTS { st.snapshots.remove(0) }`
trim : List PriceObservation → List PriceObservation
trim [] = []
trim (x ∷ xs) = if ltb twap_max_snapshots (length (x ∷ xs)) then trim xs else x ∷ xs

snapshot_due : TwapState → ℕ → Bool
snapshot_due st now = elim st.snapshots [
  | [] ↦ true
  | x ∷ xs ↦ leb (saturating_add_u64 st.last_snapshot_ts twap_snapshot_interval_secs) now
]

seed : TwapState → ℤ → ℕ → TwapState
seed st price now = record st { last_ts = now; last_price = price }

-- The accumulator moved on to `now` at the previous price.
accumulate : TwapState → ℤ → ℕ → TwapState
accumulate st price now = record st {
  cumulative =
      saturating_add st.cumulative
        (saturating_mul st.last_price (pos (min (now - st.last_ts) u32_max)));
  last_ts = now;
  last_price = price;
}

take_snapshot : TwapState → ℕ → TwapState
take_snapshot st now = record st {
  snapshots = trim (st.snapshots ++ record { ts = now; cum = st.cumulative } ∷ []);
  last_snapshot_ts = now;
}

-- `record_observation`, on the asset's accumulator.
observe : TwapState → ℤ → ℕ → TwapState
observe st price now =
    if eqb_ℤ st.last_price (pos 0) || leb now st.last_ts
    then seed st price now
    else let moved = accumulate st price now in
      if snapshot_due moved now then take_snapshot moved now else moved

pub record_observation : Store → ℕ → ℤ → ℕ → Store
record_observation s asset price now =
    set_twap_state s asset (observe (get_twap_state s asset) price now)

newest : PriceObservation → List PriceObservation → PriceObservation
newest y [] = y
newest y (z ∷ zs) = newest z zs

first_inside : ℕ → List PriceObservation → PriceObservation → PriceObservation
first_inside cutoff [] d = d
first_inside cutoff (y ∷ ys) d = if leb cutoff y.ts then y else first_inside cutoff ys d

-- The loop that picks the start of the window: the first snapshot at or after `cutoff`, and the last
-- one where none is.
window_start : ℕ → PriceObservation → List PriceObservation → PriceObservation
window_start cutoff x xs = first_inside cutoff (x ∷ xs) (newest x xs)

-- `cum_now`
cumulative_at : TwapState → ℕ → ℤ
cumulative_at st now =
    saturating_add st.cumulative
      (saturating_mul st.last_price (pos (min (now - st.last_ts) u32_max)))

window_price : TwapState → PriceObservation → ℕ → Result ℤ
window_price st start now = do
  let span = now - start.ts
  panic_if (ltb span twap_min_span_secs) "no valid price source"
  delta ← sub_i128 (cumulative_at st now) start.cum
  panic_if (leb_ℤ delta (pos 0)) "no valid price source"
  ok (delta /ℤ pos span)

-- At least two snapshots are wanted.
twap_over : TwapState → List PriceObservation → ℕ → Result ℤ
twap_over st [] now = panic "no valid price source"
twap_over st (x ∷ []) now = panic "no valid price source"
twap_over st (x ∷ y ∷ ys) now =
    window_price st (window_start (now - twap_window_secs) x (y ∷ ys)) now

pub twap_price : Store → ℕ → ℕ → Result ℤ
twap_price s asset now = do
  let st = get_twap_state s asset
  panic_if (leb_ℤ st.last_price (pos 0)) "no valid price source"
  twap_over st st.snapshots now

pub fetch_from : Env → Option ℕ → ℕ → Option ℤ
fetch_from env none asset = none
fetch_from env (some oracle) asset = try_fetch env oracle asset

abbrev answered : Env → Store → ℕ → Source → ℤ → Result (PriceResolution × Store)
answered env s asset source price =
    ok (record { price = price; source = source }, record_observation s asset price env.timestamp)

-- Both direct sources have failed.
pub fall_back : Env → Store → ℕ → Result (PriceResolution × Store)
fall_back env s asset = do
  s' ← bump_twap_fallback_count s
  price ← twap_price s' asset env.timestamp
  ok (record { price = price; source = Source.twap }, s')

pub resolve_price : Env → Store → ℕ → Result (PriceResolution × Store)
resolve_price env s asset = elim (fetch_from env s.primary_oracle asset) [
  | some price ↦ answered env s asset Source.primary price
  | none ↦ elim (fetch_from env s.secondary_oracle asset) [
    | some price ↦ answered env s asset Source.secondary price
    | none ↦ fall_back env s asset
  ]
]

pub require_price : Env → Store → ℕ → Result (ℤ × Store)
require_price env s asset = do
  (r, s') ← resolve_price env s asset
  panic_if (leb_ℤ r.price (pos 0) || ltb_ℤ (saturating_mul price_scale (pos 1000000000)) r.price)
      "invalid price"
  ok (r.price, s')
