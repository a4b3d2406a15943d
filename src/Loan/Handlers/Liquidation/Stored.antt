-- ===== src/Loan/Handlers/Liquidation/Stored.antt =====
-- The state after a position is stored or removed.
use chainsettle_contract.Base.{ℕ, ◌≤◌, ◌≡◌, refl, inl, inr, true, ◌&&◌, arith, Bool-cases}
use chainsettle_contract.Base.Int.{pos, ◌+ℤ◌, ◌≤ℤ◌, eqb_ℤ, i128_max, int_laws, ◌≈◌, ≈_of_eq}
use chainsettle_contract.Base.Sum.{
  DistinctKeys, insert-DistinctKeys, erase-DistinctKeys, total-insert, total-erase,
}
use chainsettle_contract.Loan.Handlers.Liquidation.{store_position}
use chainsettle_contract.Loan.Socialize.WriteOff.{IsBalanced}
use chainsettle_contract.Loan.Sound.{
  IsSolid, AllSolid, insert-AllSolid, erase-AllSolid, debts, IsSound,
}
use chainsettle_contract.Loan.Store.{
  max_configurable_bonus_bps, Position, no_position, Store, get_position,
}

cleared_debt :
    (p : Position) → (eqb_ℤ p.collateral (pos 0) && eqb_ℤ p.debt (pos 0)) ≡ true → p.debt ≈ pos 0
cleared_debt p h = ground arith

-- Any state whose accounts are in order, but for one position that is then stored.
pub store_position-IsSound :
    (s : Store) (borrower : ℕ) (p : Position)
    → IsBalanced s
    → DistinctKeys s.positions
    → AllSolid s.positions
    → IsSolid p
    → debts s.positions +ℤ p.debt ≈ s.total_borrowed +ℤ (get_position s borrower).debt
    → s.total_borrowed ≤ℤ s.total_deposits
    → s.total_deposits ≤ℤ pos i128_max
    → s.liq_params.penalty_cap_bps ≤ max_configurable_bonus_bps
    → IsSound (store_position s borrower p)
unfolding store_position
store_position-IsSound s borrower p b k a v e l r c =
    elim (Bool-cases (eqb_ℤ p.collateral (pos 0) && eqb_ℤ p.debt (pos 0))) [
      | inl gone ↦ rw gone (record {
        accounts = record {
          distinct = b.distinct;
          held = b.held;
          unlisted = b.unlisted;
          balanced = b.balanced;
        };
        keyed = erase-DistinctKeys borrower s.positions k;
        solid = erase-AllSolid borrower s.positions a;
        lent = omega (
          int_laws,
          e,
          cleared_debt p gone,
          ≈_of_eq (total-erase (λ q. q.debt) no_position borrower s.positions refl k),
        );
        lent_le = l;
        in_range = r;
        capped = c;
      })
      | inr kept ↦ rw kept (record {
        accounts = record {
          distinct = b.distinct;
          held = b.held;
          unlisted = b.unlisted;
          balanced = b.balanced;
        };
        keyed = insert-DistinctKeys borrower p s.positions k;
        solid = insert-AllSolid borrower p s.positions v a;
        lent = omega (
          int_laws,
          e,
          ≈_of_eq (total-insert (λ q. q.debt) no_position borrower p s.positions refl),
        );
        lent_le = l;
        in_range = r;
        capped = c;
      })
    ]
