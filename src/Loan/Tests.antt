-- ===== src/Loan/Tests.antt =====
-- The loan manager at concrete states: a market with two depositors and one borrower, in a calm
-- environment and after the collateral's price has fallen.
use chainsettle_contract.Loan.Handlers.Borrower
use chainsettle_contract.Loan.Handlers.Liquidation
use chainsettle_contract.Base.{
  ℕ, ◌≤◌, min, max, ◌≡◌, refl, true, false, not, some, List, [], ◌∷◌, arith, ◌==◌, if◌then◌else◌,
  contains,
}
use chainsettle_contract.Base.Int.{
  ℤ, pos, ◌+ℤ◌, ◌-ℤ◌, ◌*ℤ◌, ◌/ℤ◌, ◌≤ℤ◌, i128_max, saturating_mul, int_laws,
}
use chainsettle_contract.Base.Result.{ok, checked_i128, Post, Returns, Ensures}
use chainsettle_contract.Loan.Contract.{
  Call, init, set_oracles, set_market, deposit, withdraw, deposit_collateral, borrow, liquidate,
  call, run,
}
use chainsettle_contract.Loan.Contract.Access.{IsAuthorised, call-IsAuthorised}
use chainsettle_contract.Loan.Contract.History.{run_from_start-IsSound}
use chainsettle_contract.Loan.Engine.{
  health_ratio, is_liquidatable, raw_bonus, dynamic_bonus_bps, units_to_value, full, specified,
  LiquidationPlan, compute_plan,
}
use chainsettle_contract.Loan.Engine.Bounds.{dynamic_bonus_bounds, IsBounded}
use chainsettle_contract.Loan.Engine.Modes.{compute_plan_safe, position_health, compute_plan_dust}
use chainsettle_contract.Loan.Handlers.Borrower.Health.{
  IsHealthyAfter, borrow_keeps_healthy, withdraw_collateral_keeps_healthy,
}
use chainsettle_contract.Loan.Handlers.Liquidation.Sound.{liquidate-IsSound}
use chainsettle_contract.Loan.Host.{Env}
use chainsettle_contract.Loan.Socialize.{socialize_bad_debt}
use chainsettle_contract.Loan.Socialize.WriteOff.{
  IsBalanced, IsWrittenOff, socialize_bad_debt-Ensures,
}
use chainsettle_contract.Loan.Sound.{IsSound}
use chainsettle_contract.Loan.Store.{Store, empty_store, get_position, get_depositor_balance}

abbrev contract_address : ℕ
contract_address = 9

abbrev pub gold : ℕ
gold = 10

abbrev dollar : ℕ
dollar = 11

-- Everybody but the contract signs, every transfer goes through, and each oracle gives 8 decimals.
abbrev quoted : ℕ → ℤ → Env
quoted now gold_price = record {
  contract = contract_address;
  signed = λ a. not (a == contract_address);
  timestamp = now;
  accepts = λ ts t. true;
  latest_price =
      λ oracle asset. if asset == gold then some (gold_price, now) else some (pos 100000000, now);
}

abbrev pub calm : Env
calm = quoted 1000 (pos 100000000)

abbrev crash : Env
crash = quoted 2000 (pos 50000000)

abbrev opening : List (Env × Call)
opening =
    (calm, init 1)
    ∷ (calm, set_oracles 1 (some 20) (some 21))
    ∷ (calm, set_market 1 gold dollar 8000)
    ∷ (calm, deposit 2 (pos 1000))
    ∷ (calm, deposit 3 (pos 500))
    ∷ (calm, deposit_collateral 4 (pos 1000))
    ∷ (calm, borrow 4 (pos 700))
    ∷ (crash, liquidate 5 4 (pos i128_max))
    ∷ (crash, withdraw 2 (pos 300))
    ∷ []

-- The state before the loan of the story above.
abbrev pub funded : Store
funded = record empty_store {
  admin = some 1;
  market = some (record { collateral_token = gold; debt_token = dollar; liq_threshold_bps = 8000 });
  primary_oracle = some 20;
  secondary_oracle = some 21;
  positions = (4, record { collateral = pos 1000; debt = pos 0 }) ∷ [];
  depositor_balances = (2, pos 1000) ∷ (3, pos 500) ∷ [];
  depositors = 2 ∷ 3 ∷ [];
  total_deposits = pos 1500;
}

-- And after it.
abbrev lent_out : Store
lent_out = record funded {
  positions = (4, record { collateral = pos 1000; debt = pos 700 }) ∷ [];
  total_borrowed = pos 700;
}

funded-IsBalanced : IsBalanced funded
funded-IsBalanced = record {
  distinct = (refl, (refl, tt));
  held = ((omega arith, omega arith), ((omega arith, omega arith), tt));
  unlisted = λ k e. unknown k e;
  balanced = omega int_laws;
}
  where
    unknown : (k : ℕ) → contains (2 ∷ 3 ∷ []) k ≡ false → get_depositor_balance funded k ≡ pos 0
    unknown k e = ground arith

lent_out-IsSound : IsSound lent_out
lent_out-IsSound = record {
  accounts = record {
    distinct = funded-IsBalanced.distinct;
    held = funded-IsBalanced.held;
    unlisted = funded-IsBalanced.unlisted;
    balanced = funded-IsBalanced.balanced;
  };
  keyed = (refl, tt);
  solid = ((omega arith, omega arith), tt);
  lent = omega int_laws;
  lent_le = omega arith;
  in_range = omega arith;
  capped = omega arith;
}

run_from_start-IsSound_example : IsSound (run empty_store opening)
run_from_start-IsSound_example = run_from_start-IsSound opening

liquidate-IsSound_example :
    Post (Liquidation.liquidate crash 5 4 (pos i128_max) lent_out) (λ r. IsSound r.1)
liquidate-IsSound_example = liquidate-IsSound crash 5 4 (pos i128_max) lent_out lent_out-IsSound

socialize_bad_debt-Ensures_example :
    Ensures (socialize_bad_debt funded (pos 700)) (IsWrittenOff funded (pos 700))
socialize_bad_debt-Ensures_example =
    socialize_bad_debt-Ensures funded (pos 700) funded-IsBalanced (omega arith) (omega arith)
      (omega arith)

compute_plan_safe_example :
    (p : LiquidationPlan) × (compute_plan
        (pos 1000)
        (pos 700)
        (pos 50000000)
        (pos 100000000)
        8000
        500
        1500
        2000
        full
      ≡ ok p)
    × (IsBounded (pos 1000) (pos 700) p.bonus_bps p × (p.bonus_bps ≤ 2000))
compute_plan_safe_example =
    compute_plan_safe 1000 700 (pos 50000000) (pos 100000000) 8000 500 1500 2000 full (omega arith)
      (omega arith) (omega arith) (omega arith)

borrow_keeps_healthy_example : Post (Borrower.borrow calm 4 (pos 700) funded) (λ s'.
    IsHealthyAfter calm funded 4 s'
    × ((get_position s' 4).debt ≡ (get_position funded 4).debt +ℤ pos 700)
    × ((get_position s' 4).collateral ≡ (get_position funded 4).collateral))
borrow_keeps_healthy_example = borrow_keeps_healthy calm 4 (pos 700) funded

withdraw_collateral_keeps_healthy_example :
    Post (Borrower.withdraw_collateral calm 4 (pos 100) lent_out) (λ s'.
      (pos 1 ≤ℤ (get_position lent_out 4).debt → IsHealthyAfter calm lent_out 4 s')
      × (pos 100 ≤ℤ (get_position lent_out 4).collateral)
      × ((get_position s' 4).collateral ≡ (get_position lent_out 4).collateral -ℤ pos 100)
      × ((get_position s' 4).debt ≡ (get_position lent_out 4).debt))
withdraw_collateral_keeps_healthy_example =
    withdraw_collateral_keeps_healthy calm 4 (pos 100) lent_out

call-IsAuthorised_example :
    Post
      (call crash (liquidate 5 4 (pos i128_max)) lent_out)
      (λ _. IsAuthorised crash (liquidate 5 4 (pos i128_max)) lent_out)
call-IsAuthorised_example = call-IsAuthorised crash (liquidate 5 4 (pos i128_max)) lent_out

dynamic_bonus_bounds_example :
    Post
      (dynamic_bonus_bps (pos 4000000) (pos 7000000) 500 1500 2000)
      (λ b. (b ≤ 2000) × (min 500 2000 ≤ b) × (b ≤ max 500 1500))
dynamic_bonus_bounds_example =
    dynamic_bonus_bounds (pos 4000000) (pos 7000000) 500 1500 2000 (omega arith)

-- The health fraction of 1000 gold at half a dollar and 700 dollars at just below one.
crash_health :
    position_health (pos 1000) (pos 700) (pos 50000000) (pos 99999999) 8000
    ≡ (pos 4000000, pos 6990000)
unfolding health_ratio units_to_value saturating_mul ◌*ℤ◌ ◌/ℤ◌
crash_health = refl

crash_liquidatable : is_liquidatable (pos 4000000) (pos 6990000) ≡ true
unfolding is_liquidatable
crash_liquidatable = refl

crash_bonus : Returns (dynamic_bonus_bps (pos 4000000) (pos 6990000) 500 1500 2000)
unfolding dynamic_bonus_bps raw_bonus checked_i128 saturating_mul ◌+ℤ◌ ◌-ℤ◌ ◌*ℤ◌ ◌/ℤ◌
crash_bonus = (_, refl)

compute_plan_dust_example :
    (bonus : ℕ) × (compute_plan
        (pos 1000)
        (pos 700)
        (pos 50000000)
        (pos 99999999)
        8000
        500
        1500
        2000
        (specified (pos 1))
      ≡ ok (record {
        repay_units = pos 0;
        seize_units = pos 0;
        bonus_bps = bonus;
        bad_debt_units = pos 700;
      }))
compute_plan_dust_example =
    compute_plan_dust (pos 1000) (pos 700) (pos 50000000) 1 99999999 8000 500 1500 2000
      (omega arith) (omega arith) (rw crash_health crash_liquidatable) (rw crash_health crash_bonus)
