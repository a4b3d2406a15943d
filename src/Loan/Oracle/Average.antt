-- ===== src/Loan/Oracle/Average.antt =====
-- The average that a lookup falls back on, as the difference of the accumulator over a window.
use chainsettle_contract.Base.{
  ℕ, ◌-◌, ◌≤◌, ◌<◌, min, ◌≡◌, refl, inl, inr, List, [], ◌∷◌, arith, ltb, leb, Bool-cases, length,
}
use chainsettle_contract.Base.Int.{
  ℤ, pos, ◌-ℤ◌, ◌/ℤ◌, ◌≤ℤ◌, leb_ℤ, saturating_add, saturating_mul, u32_max, is_positive,
}
use chainsettle_contract.Base.Result.{Post, Post-panic_if, Post-checked}
use chainsettle_contract.Loan.Oracle.{
  newest, first_inside, window_start, cumulative_at, window_price, twap_over, twap_price,
}
use chainsettle_contract.Loan.Store.{
  twap_window_secs, twap_min_span_secs, PriceObservation, TwapState, Store, get_twap_state,
}

-- The snapshot that the window starts with: the first one at or after `cutoff`, or the last one where
-- all are older.
pub data IsStart (cutoff : ℕ) : List PriceObservation → PriceObservation → Type 0 where
  inside :
      (x : PriceObservation) (xs : List PriceObservation)
      → cutoff ≤ x.ts
      → IsStart cutoff (x ∷ xs) x
  all_older : (x : PriceObservation) → x.ts < cutoff → IsStart cutoff (x ∷ []) x
  later :
      (x y : PriceObservation) (xs : List PriceObservation)
      → x.ts < cutoff
      → IsStart cutoff xs y
      → IsStart cutoff (x ∷ xs) y

-- The accumulator carried on to `now` at the last price.
abbrev carried_on : TwapState → ℕ → ℤ
carried_on st now =
    saturating_add st.cumulative
      (saturating_mul st.last_price (pos (min (now - st.last_ts) u32_max)))

-- The price is what the accumulator, carried on to `now` at the last price, has gained since the start of
-- the window, divided by the seconds since then, of which there are at least 60.
pub record IsAverage (st : TwapState) (now : ℕ) (price : ℤ) : Type 0 where
  pub start : PriceObservation
  pub several : 2 ≤ length st.snapshots
  pub known : pos 1 ≤ℤ st.last_price
  pub starts : IsStart (now - 1800) st.snapshots start
  pub spans : 60 ≤ now - start.ts
  pub gained : pos 1 ≤ℤ carried_on st now -ℤ start.cum
  pub averaged : price ≡ (carried_on st now -ℤ start.cum) /ℤ pos (now - start.ts)

window_start-IsStart :
    (cutoff : ℕ) (x : PriceObservation) (xs : List PriceObservation)
    → IsStart cutoff (x ∷ xs) (window_start cutoff x xs)
unfolding window_start first_inside newest
window_start-IsStart cutoff x [] = elim (Bool-cases (leb cutoff x.ts)) [
  | inl young ↦ rw young (inside x [] (ground arith))
  | inr old ↦ rw old (all_older x (ground arith))
]
window_start-IsStart cutoff x (y ∷ ys) = elim (Bool-cases (leb cutoff x.ts)) [
  | inl young ↦ rw young (inside x (y ∷ ys) (ground arith))
  | inr old ↦ rw old (later x _ (y ∷ ys) (ground arith) (window_start-IsStart cutoff y ys))
]

-- The average over at least two snapshots.
twap_over-IsAverage :
    (st : TwapState) (now : ℕ)
    → pos 1 ≤ℤ st.last_price
    → Post (twap_over st st.snapshots now) (IsAverage st now)
unfolding twap_over window_price cumulative_at
twap_over-IsAverage st now known = over st.snapshots refl
  where
    over :
        (xs : List PriceObservation)
        → st.snapshots ≡ xs
        → Post (twap_over st xs now) (IsAverage st now)
    over [] e = tt
    over (x ∷ []) e = tt
    over (x ∷ y ∷ ys) e =
        let start = window_start (now - twap_window_secs) x (y ∷ ys) in
        Post-panic_if _ (ltb (now - start.ts) twap_min_span_secs) _ _ λ long.
          Post-checked _ (carried_on st now -ℤ start.cum) _ λ _.
            Post-panic_if _ (leb_ℤ (carried_on st now -ℤ start.cum) (pos 0)) _ _ λ more. record {
              start = start;
              several = rw e (omega arith);
              known = known;
              starts = rw e (window_start-IsStart (now - twap_window_secs) x (y ∷ ys));
              spans = ground arith;
              gained = is_positive _ more;
              averaged = refl;
            }

pub twap_price-IsAverage :
    (s : Store) (asset now : ℕ)
    → Post (twap_price s asset now) (IsAverage (get_twap_state s asset) now)
unfolding twap_price
twap_price-IsAverage s asset now =
    Post-panic_if _ (leb_ℤ (get_twap_state s asset).last_price (pos 0)) _ _
      λ some_price. twap_over-IsAverage (get_twap_state s asset) now (is_positive _ some_price)
