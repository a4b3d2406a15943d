-- ===== src/Loan/Handlers/Liquidation/Executed.antt =====
-- What the execution of a plan leaves: the funds moved, the debt cleared, the bad debt written off.
use chainsettle_contract.Base.{
  ℕ, ◌≡◌, refl, ap, ◌∙◌, inl, inr, List, arith, if◌then◌else◌, Bool-cases,
}
use chainsettle_contract.Base.Dict.{Dict}
use chainsettle_contract.Base.Int.{
  ℤ, pos, ◌+ℤ◌, ◌-ℤ◌, ◌≤ℤ◌, ltb_ℤ, saturating_sub, int_laws, ◌≈◌, ≈_of_eq, not_less, free_amount,
}
use chainsettle_contract.Base.Result.{ok, Post, Post-bind, Post-ok, Post-checked, Ensures-Post}
use chainsettle_contract.Base.Token.{Transfer}
use chainsettle_contract.Loan.Engine.{LiquidationPlan}
use chainsettle_contract.Loan.Handlers.Borrower.{reduce_borrowed}
use chainsettle_contract.Loan.Handlers.Liquidation.{transfer_some, store_position, execute_plan}
use chainsettle_contract.Loan.Handlers.Liquidation.Stored.{store_position-IsSound}
use chainsettle_contract.Loan.Host.{Env, transfer-transfers}
use chainsettle_contract.Loan.Socialize.{socialize_bad_debt}
use chainsettle_contract.Loan.Socialize.WriteOff.{IsBalanced, socialize_bad_debt-Ensures}
use chainsettle_contract.Loan.Sound.{IsSolid, get-IsSolid, debt-le-debts, IsSound}
use chainsettle_contract.Loan.Store.{Market, Position, Store, get_position}

-- What a plan may do to the position that it is made for.
pub record IsPlanFor (p : Position) (plan : LiquidationPlan) : Type 0 where
  pub repay_nonneg : pos 0 ≤ℤ plan.repay_units
  pub seize_nonneg : pos 0 ≤ℤ plan.seize_units
  pub seize_le : plan.seize_units ≤ℤ p.collateral
  pub bad_nonneg : pos 0 ≤ℤ plan.bad_debt_units
  pub cleared_le : plan.repay_units +ℤ plan.bad_debt_units ≤ℤ p.debt

transfer_some-transfers :
    (env : Env) (token sender receiver : ℕ) (units : ℤ) (s : Store)
    → Post
        (transfer_some env token sender receiver units s)
        (λ s'. (x : List Transfer) × (s' ≡ record s { transfers = x }))
transfer_some-transfers env token sender receiver units s =
    elim (Bool-cases (ltb_ℤ (pos 0) units)) [
      | inl e ↦ rw e (transfer-transfers env token sender receiver units s)
      | inr e ↦ rw e ((s.transfers, refl))
    ]

module _ (env : Env) (market : Market) (liquidator borrower : ℕ) (plan : LiquidationPlan)
    (s : Store) (h : IsSound s) (v : IsPlanFor (get_position s borrower) plan) where
  own : IsSolid (get_position s borrower)
  own = get-IsSolid borrower s.positions h.solid

  owed : (get_position s borrower).debt ≤ℤ s.total_borrowed
  owed = omega (arith, debt-le-debts borrower s.positions h.solid, h.lent)

  rebooked-IsBalanced :
      (x : List Transfer) (tb : ℤ) → IsBalanced (record s { total_borrowed = tb; transfers = x })
  rebooked-IsBalanced x tb = record {
    distinct = h.accounts.distinct;
    held = h.accounts.held;
    unlisted = h.accounts.unlisted;
    balanced = h.accounts.balanced;
  }

  -- The accounts once the bad debt is written off.
  abbrev Settled : List Transfer → ℤ → ℤ × Store → Type 0
  Settled x tb r =
      (m : Dict ℤ) × (td : ℤ) × (r.1 ≡ record s {
        depositor_balances = m;
        total_deposits = td;
        total_borrowed = tb;
        transfers = x;
      })
      × IsBalanced r.1
      × (td ≈ s.total_deposits -ℤ plan.bad_debt_units)

  loss-Settled :
      (x : List Transfer) (tb : ℤ)
      → pos 1 ≤ℤ plan.bad_debt_units
      → Post
          (socialize_bad_debt (record s { total_borrowed = tb; transfers = x }) plan.bad_debt_units)
          (Settled x tb)
  loss-Settled x tb n =
      let t : Store = record s { total_borrowed = tb; transfers = x } in
      let covered : plan.bad_debt_units ≤ℤ s.total_deposits =
        omega (int_laws, v.cleared_le, v.repay_nonneg, owed, h.lent_le) in
      Ensures-Post _ (socialize_bad_debt t plan.bad_debt_units) (
        let (r, e, w) =
          socialize_bad_debt-Ensures t plan.bad_debt_units (rebooked-IsBalanced x tb) n covered
            h.in_range in
        let (m, td, o) = w.only in
        (
          r,
          e,
          (
            m,
            td,
            o,
            w.still_balanced,
            omega (arith, w.deposits_eq, ≈_of_eq (ap (λ (z : Store). z.total_deposits) o)),
          ),
        ))

  settled :
      (x : List Transfer) (tb : ℤ)
      → Post
          (if ltb_ℤ (pos 0) plan.bad_debt_units
            then socialize_bad_debt
                (record s { total_borrowed = tb; transfers = x })
                plan.bad_debt_units
            else ok (pos 0, record s { total_borrowed = tb; transfers = x }))
          (Settled x tb)
  settled x tb = elim (Bool-cases (ltb_ℤ (pos 0) plan.bad_debt_units)) [
    | inl e ↦ rw e (loss-Settled x tb (ground arith))
    | inr e ↦ rw e (
        (
          s.depositor_balances,
          s.total_deposits,
          refl,
          rebooked-IsBalanced x tb,
          omega (int_laws, v.bad_nonneg, not_less (pos 0) plan.bad_debt_units e),
        ))
  ]

  -- The position's debt after the plan, and what is lent.
  debt_left :
      saturating_sub
        (saturating_sub (get_position s borrower).debt plan.repay_units)
        plan.bad_debt_units
      ≈ (get_position s borrower).debt -ℤ (plan.repay_units +ℤ plan.bad_debt_units)
  debt_left =
      let d = (get_position s borrower).debt in
      let first : saturating_sub d plan.repay_units ≡ d -ℤ plan.repay_units =
        free_amount d plan.repay_units (omega (int_laws, v.cleared_le, v.bad_nonneg)) v.repay_nonneg
          (omega (arith, owed, h.lent_le, h.in_range)) in
      let second =
        free_amount (d -ℤ plan.repay_units) plan.bad_debt_units (omega (int_laws, v.cleared_le))
          v.bad_nonneg (omega (int_laws, owed, h.lent_le, h.in_range, v.repay_nonneg)) in
      rw first (omega (int_laws, ≈_of_eq second))

  lent_left :
      saturating_sub s.total_borrowed (plan.repay_units +ℤ plan.bad_debt_units)
      ≈ s.total_borrowed -ℤ (plan.repay_units +ℤ plan.bad_debt_units)
  lent_left = ≈_of_eq (
      free_amount s.total_borrowed (plan.repay_units +ℤ plan.bad_debt_units)
        (omega (arith, v.cleared_le, owed)) (omega (int_laws, v.repay_nonneg, v.bad_nonneg))
        (omega (arith, h.lent_le, h.in_range)))

  stored :
      (x : List Transfer) (r : ℤ × Store)
      → Settled x (saturating_sub s.total_borrowed (plan.repay_units +ℤ plan.bad_debt_units)) r
      → IsSound (
          store_position r.1 borrower (record {
            collateral = (get_position s borrower).collateral -ℤ plan.seize_units;
            debt =
                saturating_sub
                  (saturating_sub (get_position s borrower).debt plan.repay_units)
                  plan.bad_debt_units;
          }))
  stored x r (m, td, e, b, t) = rw e (
      store_position-IsSound _ borrower _ (rw e at b) h.keyed h.solid
        (omega (int_laws, v.seize_le), omega (int_laws, debt_left, v.cleared_le))
        (omega (int_laws, debt_left, lent_left, h.lent))
        (omega (int_laws, lent_left, t, h.lent_le, v.repay_nonneg))
        (omega (int_laws, t, h.in_range, v.bad_nonneg)) h.capped)

  -- Once a plan is executed the account invariant holds again.
  pub execute_plan-IsSound :
      Post
        (execute_plan env market liquidator borrower (get_position s borrower) plan s)
        (λ r. IsSound r.1)
  unfolding execute_plan reduce_borrowed
  execute_plan-IsSound =
      Post-bind _ (transfer_some env market.debt_token liquidator env.contract plan.repay_units s) _
        λ s₁ e₁.
          Post-bind _
            (transfer_some env market.collateral_token env.contract liquidator plan.seize_units s₁)
            _
            λ s₂ e₂.
              let (_, f) = Post-ok _ e₁ (transfer_some-transfers env _ _ _ plan.repay_units s) in
              let (x, g) = Post-ok _ e₂ (transfer_some-transfers env _ _ _ plan.seize_units s₁) in
              let moved : s₂ ≡ record s { transfers = x } =
                g ∙ ap (λ (z : Store). record z { transfers = x }) f in
              let tb = saturating_sub s.total_borrowed (plan.repay_units +ℤ plan.bad_debt_units) in
              rw moved (
                Post-checked _ ((get_position s borrower).collateral -ℤ plan.seize_units) _ λ _.
                  Post-checked _ (plan.repay_units +ℤ plan.bad_debt_units) _ λ _.
                    Post-bind _
                      (if ltb_ℤ (pos 0) plan.bad_debt_units
                        then socialize_bad_debt (record s { total_borrowed = tb; transfers = x })
                            plan.bad_debt_units
                        else ok (pos 0, record s { total_borrowed = tb; transfers = x }))
                      _ λ r e. stored x r (Post-ok _ e (settled x tb)))
