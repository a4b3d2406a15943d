-- ===== src/Loan/Engine/Bounds.antt =====
-- Bounds on what a liquidation plan takes from a position, for every mode and all prices.
use chainsettle_contract.Base.{
  ℕ, ◌+◌, ◌-◌, ◌≤◌, min, max, ◌≡◌, refl, sym, subst, inl, inr, Bool, true, false, ◌&&◌, arith,
  if◌then◌else◌, Bool-cases,
}
use chainsettle_contract.Base.Int.{
  ℤ, pos, ◌+ℤ◌, ◌-ℤ◌, ◌/ℤ◌, ◌≤ℤ◌, ltb_ℤ, leb_ℤ, eqb_ℤ, min_ℤ, max_ℤ, saturating_mul, u32_max,
  as_u32, int_laws, pos_add, held_between,
}
use chainsettle_contract.Base.Result.{Post, Post-bind, Post-ok, Post-checked, Post-mono}
use chainsettle_contract.Loan.Engine.{
  health_ratio, is_liquidatable, clamp, raw_bonus, dynamic_bonus_bps, units_to_value,
  value_to_units, RepayMode, LiquidationPlan, capped_repay, seizure, planned, compute_plan,
}
use chainsettle_contract.Loan.Store.{bps_denominator}

clamped_bonus :
    (x : ℤ) (base top limit : ℕ)
    → base ≤ top
    → limit ≤ u32_max
    → let b = as_u32 (min_ℤ (clamp x (pos base) (pos top)) (pos limit)) in
      (b ≤ limit) × (min base limit ≤ b) × (b ≤ top)
clamped_bonus x base top limit h k = ground arith

-- The bonus never passes the penalty cap, and lies between the base bonus (or the cap, if that is
-- smaller) and the larger of the two configured bonuses.
pub dynamic_bonus_bounds :
    (num den : ℤ) (base top limit : ℕ)
    → limit ≤ u32_max
    → Post
        (dynamic_bonus_bps num den base top limit)
        (λ b. (b ≤ limit) × (min base limit ≤ b) × (b ≤ max base top))
unfolding dynamic_bonus_bps
dynamic_bonus_bounds num den base top limit h =
    Post-bind _ (raw_bonus num den base (top - base)) _ λ x _. Post-checked _ _ _ λ _.
      rw (pos_add base (top - base))
        (ground (arith, clamped_bonus x base (base + (top - base)) limit))

-- What every plan for a position of `coll` and `debt` units respects.
pub record IsBounded (coll debt : ℤ) (bonus : ℕ) (p : LiquidationPlan) : Type 0 where
  pub repay_nonneg : pos 0 ≤ℤ p.repay_units
  pub seize_nonneg : pos 0 ≤ℤ p.seize_units
  pub seize_le : p.seize_units ≤ℤ coll
  pub bad_nonneg : pos 0 ≤ℤ p.bad_debt_units
  pub cleared_le : p.repay_units +ℤ p.bad_debt_units ≤ℤ debt
  pub bonus_eq : p.bonus_bps ≡ bonus

-- The debt left is bad only where the collateral is drained.
bad_part :
    (drained : Bool) (debt r : ℤ)
    → r ≤ℤ debt
    → let bad = if drained then debt -ℤ r else pos 0 in (pos 0 ≤ℤ bad) × (r +ℤ bad ≤ℤ debt)
bad_part true debt r l = (omega int_laws, omega int_laws)
bad_part false debt r l = (omega int_laws, omega int_laws)

seizure-IsBounded :
    (coll debt price value repay_value r : ℤ) (bonus : ℕ) (gross : ℤ)
    → pos 0 ≤ℤ coll
    → pos 0 ≤ℤ r
    → r ≤ℤ debt
    → Post (seizure coll debt price value repay_value r bonus gross) (IsBounded coll debt bonus)
unfolding seizure
seizure-IsBounded coll debt price value repay_value r bonus gross c n l =
    let seize_value = saturating_mul repay_value gross /ℤ bps_denominator in
    let seize = held_between (value_to_units seize_value price) coll c in
    let bad = bad_part (ltb_ℤ (pos 0) value && leb_ℤ value seize_value) debt r l in
    Post-checked _ _ _ λ _. record {
      repay_nonneg = n;
      seize_nonneg = seize.0;
      seize_le = seize.1;
      bad_nonneg = bad.0;
      cleared_le = bad.1;
      bonus_eq = refl;
    }

-- A plan that repays and seizes nothing, for debt that is bad as a whole or not at all.
untouched :
    (coll debt bad : ℤ) (bonus : ℕ)
    → pos 0 ≤ℤ coll
    → pos 0 ≤ℤ bad
    → bad ≤ℤ debt
    → IsBounded coll debt bonus (record {
      repay_units = pos 0;
      seize_units = pos 0;
      bonus_bps = bonus;
      bad_debt_units = bad;
    })
untouched coll debt bad bonus c b l = record {
  repay_nonneg = omega arith;
  seize_nonneg = omega arith;
  seize_le = c;
  bad_nonneg = b;
  cleared_le = omega int_laws;
  bonus_eq = refl;
}

planned-IsBounded :
    (coll debt price_coll price_debt coll_value debt_value : ℤ) (thr bonus : ℕ) (mode : RepayMode)
    → pos 0 ≤ℤ coll
    → pos 0 ≤ℤ debt
    → Post
        (planned coll debt price_coll price_debt coll_value debt_value thr bonus mode)
        (IsBounded coll debt bonus)
unfolding planned
planned-IsBounded coll debt price_coll price_debt coll_value debt_value thr bonus mode c d =
    Post-bind _ (capped_repay _ _ _ _) _ λ v _.
      let r = held_between (value_to_units v price_debt) debt d in
      let repay_units : ℤ = max_ℤ (min_ℤ (value_to_units v price_debt) debt) (pos 0) in
      elim (Bool-cases (eqb_ℤ repay_units (pos 0))) [
        | inl e ↦ rw e (untouched coll debt debt bonus c d (omega arith))
        | inr e ↦ rw e (seizure-IsBounded coll debt price_coll coll_value v _ bonus _ c r.0 r.1)
      ]

own_bonus :
    (coll debt : ℤ) (bonus limit : ℕ) (p : LiquidationPlan)
    → IsBounded coll debt bonus p
    → bonus ≤ limit
    → IsBounded coll debt p.bonus_bps p × (p.bonus_bps ≤ limit)
own_bonus coll debt bonus limit p b h =
    (subst (λ k. IsBounded coll debt k p) (sym b.bonus_eq) b, omega (arith, b.bonus_eq, h))

-- Whatever the mode, the prices and the parameters: a plan asks for no more than the debt, seizes no
-- more than the collateral, writes off no more than what is left of the debt, and its bonus respects
-- the penalty cap.
pub compute_plan-IsBounded :
    (coll debt price_coll price_debt : ℤ) (thr base top limit : ℕ) (mode : RepayMode)
    → pos 0 ≤ℤ coll
    → pos 0 ≤ℤ debt
    → limit ≤ u32_max
    → Post
        (compute_plan coll debt price_coll price_debt thr base top limit mode)
        (λ p. IsBounded coll debt p.bonus_bps p × (p.bonus_bps ≤ limit))
unfolding compute_plan
compute_plan-IsBounded coll debt price_coll price_debt thr base top limit mode c d h =
    let coll_value = units_to_value coll price_coll in
    let debt_value = units_to_value debt price_debt in
    let (num, den) = health_ratio coll_value debt_value thr in
    Post-bind _ (dynamic_bonus_bps num den base top limit) _ λ bonus e.
      let capped : bonus ≤ limit =
        (Post-ok _ e (dynamic_bonus_bounds num den base top limit h)).0 in
      elim (Bool-cases (is_liquidatable num den)) [
        | inl e ↦ rw e (
            Post-mono _
              (planned coll debt price_coll price_debt coll_value debt_value thr bonus mode)
              (λ p b. own_bonus coll debt bonus limit p b capped)
              (planned-IsBounded coll debt price_coll price_debt coll_value debt_value thr bonus
                mode c d))
        | inr e ↦ rw e ((untouched coll debt (pos 0) bonus c (omega arith) (omega arith), capped))
      ]
