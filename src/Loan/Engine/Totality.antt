-- ===== src/Loan/Engine/Totality.antt =====
-- The liquidation arithmetic does not overflow on any position and prices in range.
use chainsettle_contract.Base.{
  ℕ, ◌+◌, ◌-◌, ◌*◌, ◌/◌, ◌≤◌, ◌<◌, min, ◌≡◌, refl, inl, inr, ◌||◌, arith, ◌==◌, Bool-cases,
}
use chainsettle_contract.Base.Int.{
  ℤ, pos, negsuc, ◌/ℤ◌, ◌≤ℤ◌, leb_ℤ, eqb_ℤ, min_ℤ, max_ℤ, i128_max, saturating_add, saturating_mul,
  u32_max, pos_add, pos_sub, pos_div, pos_saturating_mul,
}
use chainsettle_contract.Base.Result.{
  Post-ok, Returns, Returns-bind, Returns-checked, Returns-checked_last,
}
use chainsettle_contract.Loan.Engine.{
  health_ratio, is_liquidatable, raw_bonus, dynamic_bonus_bps, units_to_value, value_to_units,
  RepayMode, capped_repay, seizure, planned, compute_plan,
}
use chainsettle_contract.Loan.Engine.Bounds.{dynamic_bonus_bounds}
use chainsettle_contract.Loan.Store.{bps_denominator}
use native.Mathlib.Nat.{mul-le-mul_left}

-- A quotient is bounded where its dividend is bounded by a product.
div_bound : (x k d : ℕ) → 0 < d → x ≤ k * d → x / d ≤ k
div_bound x k d p h = grind arith

interpolated_le : (span x y z d : ℕ) → y ≤ d * 2 → z ≤ span * min x y → z ≤ 2 * span * d
interpolated_le span x y z d ly lz =
    let scaled : span * min x y ≤ span * (d * 2) = mul-le-mul_left span (omega arith) in omega arith

-- The interpolated part of the bonus is at most twice the span.
interpolated :
    (below d span : ℕ)
    → 0 < d
    → (v : ℕ) × (saturating_mul
            (pos span)
            (min_ℤ (saturating_mul (pos below) (pos 2)) (saturating_mul (pos d) (pos 2)))
          /ℤ pos d
        ≡ pos v)
      × (v ≤ 2 * span)
interpolated below d span h =
    let (x, ex, lx, _) = pos_saturating_mul below 2 in
    let (y, ey, ly, _) = pos_saturating_mul d 2 in
    let (z, ez, lz, _) = pos_saturating_mul span (min x y) in
    let least : min_ℤ (pos x) (pos y) ≡ pos (min x y) = ground arith in
    (
      z / d,
      rw (ex, ey, least, ez) (pos_div z d),
      div_bound z (2 * span) d h (interpolated_le span x y z d ly lz),
    )

raw_bonus-Returns :
    (n d base span : ℕ)
    → d ≤ i128_max
    → base ≤ u32_max
    → span ≤ u32_max
    → Returns (raw_bonus (pos n) (pos d) base span)
unfolding raw_bonus
raw_bonus-Returns n d base span hd hb hs =
    elim (Bool-cases (leb_ℤ (pos d) (pos 0) || leb_ℤ (pos d) (pos n) || span == 0)) [
      | inl e ↦ (pos base, rw e)
      | inr e ↦ rw e (
          let under : n < d = ground arith in
          let (v, ev, lv) = interpolated (d - n) d span (omega arith) in
          rw (pos_sub d n (omega arith)) (
            Returns-checked (pos (d - n)) _ (ground arith)
              (rw (ev, pos_add base v) (Returns-checked_last (pos (base + v)) (ground arith)))))
    ]

dynamic_bonus-Returns :
    (n d base top limit : ℕ)
    → d ≤ i128_max
    → base ≤ u32_max
    → top ≤ u32_max
    → Returns (dynamic_bonus_bps (pos n) (pos d) base top limit)
unfolding dynamic_bonus_bps
dynamic_bonus-Returns n d base top limit hd hb ht =
    Returns-bind (raw_bonus (pos n) (pos d) base (top - base)) _
      (raw_bonus-Returns n d base (top - base) hd hb (omega arith))
      λ x _.
        rw (pos_add base (top - base))
          (Returns-checked (pos (base + (top - base))) _ (ground arith) (_, refl))

-- A number of units that is not negative has such a value, in range.
units_value :
    (units : ℕ) (price : ℤ) → (v : ℕ) × (units_to_value (pos units) price ≡ pos v) × (v ≤ i128_max)
unfolding units_to_value
units_value units (negsuc q) = (0, ground arith, omega arith)
units_value units (pos q) = elim (Bool-cases (leb_ℤ (pos q) (pos 0))) [
  | inl e ↦ (0, rw e, omega arith)
  | inr e ↦ rw e (
      let (z, ez, _, lz) = pos_saturating_mul units q in
      (z / 100000000, rw ez (pos_div z 100000000), omega arith))
]

pub gross_pos :
    (bonus : ℕ) → bonus ≤ u32_max → saturating_add (pos 10000) (pos bonus) ≡ pos (10000 + bonus)
unfolding saturating_add
gross_pos bonus h = rw (pos_add 10000 bonus) (ground arith)

held_pos : (x : ℤ) (n : ℕ) → x ≤ℤ pos n → (r : ℕ) × (max_ℤ x (pos 0) ≡ pos r) × (r ≤ n)
held_pos (pos x) n h = (x, ground arith, omega arith)
held_pos (negsuc x) n h = (0, ground arith, omega arith)

seizure-Returns :
    (coll price value repay_value : ℤ) (debt r : ℕ) (bonus : ℕ) (gross : ℤ)
    → r ≤ debt
    → debt ≤ i128_max
    → Returns (seizure coll (pos debt) price value repay_value (pos r) bonus gross)
unfolding seizure
seizure-Returns coll price value repay_value debt r bonus gross h k =
    rw (pos_sub debt r h) (Returns-checked (pos (debt - r)) _ (ground arith) (_, refl))

capped_repay-Returns :
    (target coll_value debt_value : ℤ) (bonus : ℕ)
    → bonus ≤ u32_max
    → Returns
        (capped_repay target coll_value debt_value (saturating_add bps_denominator (pos bonus)))
unfolding capped_repay
capped_repay-Returns target coll_value debt_value bonus h =
    rw (gross_pos bonus h, pos_sub (10000 + bonus) 1 (omega arith))
      (Returns-checked (pos (10000 + bonus - 1)) _ (ground arith) (_, refl))

planned-Returns :
    (debt : ℕ) (coll price_coll price_debt coll_value debt_value : ℤ) (thr bonus : ℕ)
    (mode : RepayMode)
    → debt ≤ i128_max
    → bonus ≤ u32_max
    → Returns (planned coll (pos debt) price_coll price_debt coll_value debt_value thr bonus mode)
unfolding planned
planned-Returns debt coll price_coll price_debt coll_value debt_value thr bonus mode hd hb =
    Returns-bind (capped_repay _ _ _ _) _ (capped_repay-Returns _ coll_value debt_value bonus hb)
      λ v _.
        let units = min_ℤ (value_to_units v price_debt) (pos debt) in
        let (r, er, lr) = held_pos units debt (ground arith) in
        elim (Bool-cases (eqb_ℤ (max_ℤ units (pos 0)) (pos 0))) [
          | inl e ↦ rw e (_, refl)
          | inr e ↦ rw (e, er) (seizure-Returns coll price_coll coll_value v debt r bonus _ lr hd)
        ]

-- On a position that is in range the plan is computed: no arithmetic panics, whatever the prices,
-- the parameters and the request are.
pub compute_plan-Returns :
    (coll debt : ℕ) (price_coll price_debt : ℤ) (thr base top limit : ℕ) (mode : RepayMode)
    → debt ≤ i128_max
    → base ≤ u32_max
    → top ≤ u32_max
    → limit ≤ u32_max
    → Returns (compute_plan (pos coll) (pos debt) price_coll price_debt thr base top limit mode)
unfolding compute_plan health_ratio
compute_plan-Returns coll debt price_coll price_debt thr base top limit mode hd hb ht hl =
    let (cv, ecv, _) = units_value coll price_coll in
    let (dv, edv, _) = units_value debt price_debt in
    let (n, en, _, _) = pos_saturating_mul cv thr in
    let (d, ed, _, ld) = pos_saturating_mul dv 10000 in
    rw (ecv, edv, en, ed)
      (Returns-bind (dynamic_bonus_bps (pos n) (pos d) base top limit) _
        (dynamic_bonus-Returns n d base top limit ld hb ht)
        λ bonus e.
          let capped : bonus ≤ limit =
            (Post-ok _ e (dynamic_bonus_bounds (pos n) (pos d) base top limit hl)).0 in
          elim (Bool-cases (is_liquidatable (pos n) (pos d))) [
            | inl t ↦ rw t (
                planned-Returns debt (pos coll) price_coll price_debt (pos cv) (pos dv) thr bonus
                  mode hd (omega arith))
            | inr t ↦ rw t (_, refl)
          ])
