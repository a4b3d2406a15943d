-- ===== src/Loan/Sound.antt =====
-- The account invariant of the pool, which every entry point keeps.
use chainsettle_contract.Base.{
  ℕ, ◌≤◌, refl, inl, inr, Bool, Option, List, [], ◌∷◌, arith, ◌==◌, Bool-cases,
}
use chainsettle_contract.Base.Dict.{Dict, get, insert, erase}
use chainsettle_contract.Base.Int.{
  ℤ, pos, ◌+ℤ◌, ◌-ℤ◌, ◌≤ℤ◌, i128_max, saturating_sub, int_laws, ◌≈◌, ≈_of_eq, free_amount,
}
use chainsettle_contract.Base.Sum.{DistinctKeys, insert-DistinctKeys, total, total-insert}
use chainsettle_contract.Base.Token.{Transfer}
use chainsettle_contract.Loan.Oracle.Failover.{OnlyObserves}
use chainsettle_contract.Loan.Socialize.WriteOff.{IsBalanced}
use chainsettle_contract.Loan.Store.{
  max_configurable_bonus_bps, Market, Position, no_position, TwapState, Store, get_position,
}

-- Nobody's collateral or debt is below zero.
abbrev pub IsSolid : Position → Type 0
IsSolid p = (pos 0 ≤ℤ p.collateral) × (pos 0 ≤ℤ p.debt)

abbrev pub AllSolid : Dict Position → Type 0
AllSolid [] = Unit
AllSolid ((k, p) ∷ m) = IsSolid p × AllSolid m

pub get-IsSolid : (k : ℕ) (m : Dict Position) → AllSolid m → IsSolid (get no_position k m)
get-IsSolid k [] h = (omega arith, omega arith)
get-IsSolid k ((j, p) ∷ m) h = ground (arith, get-IsSolid k m h.1)

pub insert-AllSolid :
    (k : ℕ) (p : Position) (m : Dict Position) → IsSolid p → AllSolid m → AllSolid (insert k p m)
insert-AllSolid k p [] v h = (v, tt)
insert-AllSolid k p ((j, q) ∷ m) v h = ground (arith, insert-AllSolid k p m v h.1)

pub erase-AllSolid : (k : ℕ) (m : Dict Position) → AllSolid m → AllSolid (erase k m)
erase-AllSolid k [] h = tt
erase-AllSolid k ((j, q) ∷ m) h = ground (arith, erase-AllSolid k m h.1)

abbrev pub debts : Dict Position → ℤ
debts = total (λ p. p.debt)

debts_nonneg : (m : Dict Position) → AllSolid m → pos 0 ≤ℤ debts m
debts_nonneg [] h = omega arith
debts_nonneg ((j, q) ∷ m) h = omega (int_laws, debts_nonneg m h.1)

-- One position's debt is no more than all debt.
pub debt-le-debts : (k : ℕ) (m : Dict Position) → AllSolid m → (get no_position k m).debt ≤ℤ debts m
debt-le-debts k [] h = omega arith
debt-le-debts k ((j, q) ∷ m) h = elim (Bool-cases (k == j)) [
  | inl e ↦ rw e (omega (int_laws, debts_nonneg m h.1))
  | inr e ↦ rw e (omega (int_laws, debt-le-debts k m h.1))
]

-- The depositors' balances add up to `total_deposits` and the debts to `total_borrowed`, no balance,
-- collateral or debt is below zero, and no more is lent than is deposited.
pub record IsSound (s : Store) : Type 0 where
  pub accounts : IsBalanced s
  pub keyed : DistinctKeys s.positions
  pub solid : AllSolid s.positions
  pub lent : debts s.positions ≈ s.total_borrowed
  pub lent_le : s.total_borrowed ≤ℤ s.total_deposits
  pub in_range : s.total_deposits ≤ℤ pos i128_max
  pub capped : s.liq_params.penalty_cap_bps ≤ max_configurable_bonus_bps

-- The invariant is about the accounts alone.
pub IsSound-keep :
    {s : Store} (owner : Option ℕ) (stopped : Bool) (m : Option Market) (o o' : Option ℕ)
    (t : Dict TwapState) (n : ℕ) (x : List Transfer)
    → IsSound s
    → IsSound (record s {
      admin = owner;
      paused = stopped;
      market = m;
      primary_oracle = o;
      secondary_oracle = o';
      twaps = t;
      twap_fallback_count = n;
      transfers = x;
    })
IsSound-keep owner stopped m o o' t n x h = record {
  accounts = record {
    distinct = h.accounts.distinct;
    held = h.accounts.held;
    unlisted = h.accounts.unlisted;
    balanced = h.accounts.balanced;
  };
  keyed = h.keyed;
  solid = h.solid;
  lent = h.lent;
  lent_le = h.lent_le;
  in_range = h.in_range;
  capped = h.capped;
}

pub IsSound-OnlyObserves : {s s' : Store} → OnlyObserves s s' → IsSound s → IsSound s'
IsSound-OnlyObserves {s} (t, n, e) h =
    rw e
      (IsSound-keep s.admin s.paused s.market s.primary_oracle s.secondary_oracle t n s.transfers h)

-- One position is replaced, and the debt that is lent moves with it.
pub IsSound-position :
    {s : Store} (user : ℕ) (p : Position) (tb : ℤ) (x : List Transfer)
    → IsSound s
    → IsSolid p
    → tb +ℤ (get_position s user).debt ≈ s.total_borrowed +ℤ p.debt
    → tb ≤ℤ s.total_deposits
    → IsSound
        (record s { positions = insert user p s.positions; total_borrowed = tb; transfers = x })
IsSound-position {s} user p tb x h v e l = record {
  accounts = record {
    distinct = h.accounts.distinct;
    held = h.accounts.held;
    unlisted = h.accounts.unlisted;
    balanced = h.accounts.balanced;
  };
  keyed = insert-DistinctKeys user p s.positions h.keyed;
  solid = insert-AllSolid user p s.positions v h.solid;
  lent = omega (
    int_laws,
    e,
    h.lent,
    ≈_of_eq (total-insert (λ q. q.debt) no_position user p s.positions refl),
  );
  lent_le = l;
  in_range = h.in_range;
  capped = h.capped;
}

-- The pool's free liquidity, as the entry points compute it.
pub free_liquidity :
    {s : Store}
    → IsSound s
    → saturating_sub s.total_deposits s.total_borrowed ≈ s.total_deposits -ℤ s.total_borrowed
free_liquidity {s} h = ≈_of_eq (
    free_amount s.total_deposits s.total_borrowed h.lent_le
      (omega (arith, h.lent, debts_nonneg s.positions h.solid)) h.in_range)
