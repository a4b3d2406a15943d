-- ===== src/Loan/Socialize/WriteOff.antt =====
-- Bad debt is written off exactly: the depositors lose the loss, together, and nobody more than he
-- holds.
use chainsettle_contract.Base.{
  ℕ, ◌≡◌, refl, ◌∙◌, ◌⊎◌, inl, inr, false, List, [], ◌∷◌, map, arith, Bool-cases, contains,
  Distinct,
}
use chainsettle_contract.Base.Dict.{Dict}
use chainsettle_contract.Base.Int.{
  ℤ, pos, ◌-ℤ◌, ◌≤ℤ◌, ltb_ℤ, leb_ℤ, i128_max, saturating_sub, int_laws, IsAmount,
  saturating_sub_amount, ◌≈◌, ≈_of_eq,
}
use chainsettle_contract.Base.Result.{Ensures, Ensures-bind}
use chainsettle_contract.Base.Sum.{sum_over}
use chainsettle_contract.Loan.Socialize.{
  Progress, pass_one, pass_two, write_off, is_empty, socialize_bad_debt,
}
use chainsettle_contract.Loan.Socialize.Cuts.{Held, Within, CutsOnly, CutsOnly-trans, Snapshot}
use chainsettle_contract.Loan.Socialize.Loops.{IsProgress, pass_one-Ensures, pass_two-Ensures}
use chainsettle_contract.Loan.Store.{Store, get_depositor_balance}

-- The balances as they are read before the first loop.
Snapshot-map :
    (xs : List ℕ) (s : Store) → Snapshot xs (map (get_depositor_balance s) xs) s.depositor_balances
Snapshot-map [] s = tt
Snapshot-map (x ∷ xs) s = (refl, Snapshot-map xs s)

no_residual : (r : ℤ) → pos 0 ≤ℤ r → ltb_ℤ (pos 0) r ≡ false → r ≈ pos 0
no_residual r h e = ground arith

Within-cons : (xs ys : List ℕ) (y : ℕ) → Within xs ys → Within xs (y ∷ ys)
Within-cons [] ys y h = tt
Within-cons (x ∷ xs) ys y h = (ground arith, Within-cons xs ys y h.1)

Within-self : (xs : List ℕ) → Within xs xs
Within-self [] = tt
Within-self (x ∷ xs) = (ground arith, Within-cons xs xs x (Within-self xs))

-- The depositors' accounts: each is listed once and holds an amount, nobody else holds anything, and
-- together they hold `total_deposits`.
pub record IsBalanced (s : Store) : Type 0 where
  pub distinct : Distinct s.depositors
  pub held : Held s.depositors s.depositor_balances
  pub unlisted : (k : ℕ) → contains s.depositors k ≡ false → get_depositor_balance s k ≡ pos 0
  pub balanced : sum_over s.depositors s.depositor_balances ≈ s.total_deposits

-- What a write-off of `loss` units has done to the depositors' accounts.
pub record IsWrittenOff (s : Store) (loss : ℤ) (r : ℤ × Store) : Type 0 where
  pub applied_eq : r.0 ≈ loss
  pub deposits_eq : r.1.total_deposits ≈ s.total_deposits -ℤ loss
  pub still_balanced : IsBalanced r.1
  pub only :
      (m : Dict ℤ) × (td : ℤ) × (r.1 ≡ record s { depositor_balances = m; total_deposits = td })
  pub cuts : CutsOnly s.depositors s.depositor_balances r.1.depositor_balances

module _ (s : Store) (loss : ℤ) (b : IsBalanced s) (positive : pos 1 ≤ℤ loss)
    (coverable : loss ≤ℤ s.total_deposits) (in_range : s.total_deposits ≤ℤ pos i128_max) where
  finish :
      (q : Progress)
      → IsProgress s.depositors s.total_deposits loss q
      → CutsOnly s.depositors s.depositor_balances q.balances
      → (q.residual ≈ pos 0) ⊎ (sum_over s.depositors q.balances ≈ pos 0)
      → IsWrittenOff s loss (
        q.applied_total,
        record s {
          depositor_balances = q.balances;
          total_deposits = saturating_sub s.total_deposits q.applied_total;
        },
      )
  finish q h c z =
      let residual : q.residual ≈ pos 0 = omega int_laws in
      let left : IsAmount (s.total_deposits -ℤ q.applied_total) =
        (omega (int_laws, h.split_loss, residual), omega (int_laws, h.applied_nonneg)) in
      let exact = ≈_of_eq (saturating_sub_amount s.total_deposits q.applied_total left) in
      record {
        applied_eq = omega (int_laws, residual);
        deposits_eq = omega (int_laws, exact, residual);
        still_balanced = record {
          distinct = b.distinct;
          held = h.held;
          unlisted = λ k e. (c k).1 e ∙ b.unlisted k e;
          balanced = omega (int_laws, exact);
        };
        only = (q.balances, saturating_sub s.total_deposits q.applied_total, refl);
        cuts = c;
      }

  write_off-Ensures : Ensures (write_off s loss) (IsWrittenOff s loss)
  unfolding write_off
  write_off-Ensures =
      let start : Progress = record {
        balances = s.depositor_balances;
        applied_total = pos 0;
        residual = loss;
      } in
      let begun : IsProgress s.depositors s.total_deposits loss start = record {
        split_loss = omega int_laws;
        split_total = omega (int_laws, b.balanced);
        residual_nonneg = omega arith;
        applied_nonneg = omega arith;
        held = b.held;
      } in
      Ensures-bind _ (pass_one s.depositors _ _ start) _
        (pass_one-Ensures s.depositors s.total_deposits loss b.distinct (omega arith) s.depositors _
          _ start b.distinct (Within-self s.depositors) (Snapshot-map s.depositors s) begun)
        λ p k. elim (Bool-cases (ltb_ℤ (pos 0) p.residual)) [
          | inl e ↦ rw e (
              Ensures-bind _ (pass_two s.depositors p) _
                (pass_two-Ensures s.depositors s.total_deposits loss b.distinct (omega arith)
                  s.depositors p b.distinct (Within-self s.depositors) k.0)
                λ q m. (_, refl, finish q m.0 (CutsOnly-trans s.depositors _ _ _ k.1 m.1) m.2))
          | inr e ↦
              rw e (_, refl, finish p k.0 k.1 (inl (no_residual p.residual k.0.residual_nonneg e)))
        ]

-- Deposits above zero are somebody's.
has_depositor :
    (xs : List ℕ) (m : Dict ℤ) (td : ℤ) → sum_over xs m ≈ td → pos 1 ≤ℤ td → is_empty xs ≡ false
has_depositor [] m td e h = absurd (omega arith)
has_depositor (x ∷ xs) m td e h = refl

-- While the depositors' accounts are balanced, a loss that their deposits cover is written off
-- without a panic: the loss is taken in full, the total falls by it, the accounts stay balanced with
-- no balance below zero, no balance grows, and nobody but the depositors is touched.
pub socialize_bad_debt-Ensures :
    (s : Store) (loss : ℤ)
    → IsBalanced s
    → pos 1 ≤ℤ loss
    → loss ≤ℤ s.total_deposits
    → s.total_deposits ≤ℤ pos i128_max
    → Ensures (socialize_bad_debt s loss) (IsWrittenOff s loss)
unfolding socialize_bad_debt
socialize_bad_debt-Ensures s loss b some_units coverable in_range =
    let some_loss : leb_ℤ loss (pos 0) ≡ false = ground arith in
    let some_total : leb_ℤ s.total_deposits (pos 0) ≡ false = ground arith in
    rw
      (
        some_loss,
        some_total,
        has_depositor s.depositors s.depositor_balances s.total_deposits b.balanced (omega arith),
      )
      (write_off-Ensures s loss b some_units coverable in_range)
