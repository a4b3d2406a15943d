-- ===== src/Loan/Handlers/Borrower/Sound.antt =====
-- The borrowers' entry points keep the account invariant.
use chainsettle_contract.Base.{
  ℕ, ◌≡◌, inl, inr, Bool, true, false, List, arith, if◌then◌else◌, Bool-cases,
}
use chainsettle_contract.Base.Dict.{insert}
use chainsettle_contract.Base.Int.{
  ℤ, pos, ◌+ℤ◌, ◌-ℤ◌, ◌≤ℤ◌, ltb_ℤ, eqb_ℤ, min_ℤ, saturating_sub, int_laws, ◌≈◌, ≈_of_eq,
  is_positive, not_less, free_amount,
}
use chainsettle_contract.Base.Result.{ok, Post, Post-bind, Post-panic_if, Post-ok, Post-checked}
use chainsettle_contract.Base.Token.{Transfer}
use chainsettle_contract.Loan.Guards.{as_user}
use chainsettle_contract.Loan.Handlers.Borrower.{
  deposit_collateral, borrow, repay, withdraw_collateral, health_factor, reduce_borrowed,
  check_withdrawal,
}
use chainsettle_contract.Loan.Host.{Env, Post-transfer}
use chainsettle_contract.Loan.Oracle.{require_price}
use chainsettle_contract.Loan.Oracle.Failover.{
  OnlyObserves, require_price-OnlyObserves, OnlyObserves-refl, OnlyObserves-trans,
  OnlyObserves-borrowed,
}
use chainsettle_contract.Loan.Sound.{
  IsSolid, get-IsSolid, debt-le-debts, IsSound, IsSound-keep, IsSound-OnlyObserves,
  IsSound-position, free_liquidity,
}
use chainsettle_contract.Loan.Store.{Market, Position, Store, require_market, get_position}

part_paid :
    (amount debt : ℤ)
    → pos 1 ≤ℤ amount
    → pos 0 ≤ℤ debt
    → (pos 0 ≤ℤ min_ℤ amount debt) × (min_ℤ amount debt ≤ℤ debt)
part_paid amount debt a d = ground arith

module _ (env : Env) (user : ℕ) (amount : ℤ) (s : Store) (h : IsSound s) where
  own : IsSolid (get_position s user)
  own = get-IsSolid user s.positions h.solid

  -- What a position owes is part of what is lent.
  owed : (get_position s user).debt ≤ℤ s.total_borrowed
  owed = omega (arith, debt-le-debts user s.positions h.solid, h.lent)

  -- `reduce_borrowed` is exact for what the position owes.
  less_paid :
      (paid : ℤ)
      → pos 0 ≤ℤ paid
      → paid ≤ℤ (get_position s user).debt
      → saturating_sub s.total_borrowed paid ≡ s.total_borrowed -ℤ paid
  less_paid paid n l =
      free_amount s.total_borrowed paid (omega (arith, l, owed)) n
        (omega (arith, h.lent_le, h.in_range))

  debt-IsSound :
      {s' : Store} {x : List Transfer} (debt tb : ℤ)
      → OnlyObserves s s'
      → pos 0 ≤ℤ debt
      → tb +ℤ (get_position s user).debt ≈ s.total_borrowed +ℤ debt
      → tb ≤ℤ s.total_deposits
      → IsSound (record s' {
        positions = insert user (record (get_position s user) { debt = debt }) s'.positions;
        total_borrowed = tb;
        transfers = x;
      })
  debt-IsSound {x = x} debt tb (t, n, e) d l m =
      let k =
        IsSound-keep s.admin s.paused s.market s.primary_oracle s.secondary_oracle t n s.transfers
          h in
      rw e
        (IsSound-position user (record (get_position s user) { debt = debt }) tb x k (own.0, d) l m)

  collateral-IsSound :
      {s' : Store} {x : List Transfer} (coll : ℤ)
      → OnlyObserves s s'
      → pos 0 ≤ℤ coll
      → IsSound (record s' {
        positions = insert user (record (get_position s user) { collateral = coll }) s'.positions;
        transfers = x;
      })
  collateral-IsSound {x = x} coll (t, n, e) c =
      let k =
        IsSound-keep s.admin s.paused s.market s.primary_oracle s.secondary_oracle t n s.transfers
          h in
      rw e (
        IsSound-position user (record (get_position s user) { collateral = coll }) s.total_borrowed
          x k (c, own.1) (omega arith) h.lent_le)

  -- A deposit of collateral that goes through keeps the account invariant.
  pub deposit_collateral-IsSound : Post (deposit_collateral env user amount s) IsSound
  unfolding deposit_collateral
  deposit_collateral-IsSound =
      let p = get_position s user in
      Post-bind _ (as_user env s user) _ λ market _. Post-panic_if _ _ _ _ λ a.
        Post-transfer _ env market.collateral_token user env.contract amount s _ (
          Post-checked _ (p.collateral +ℤ amount) _ λ b.
            collateral-IsSound (p.collateral +ℤ amount) (OnlyObserves-refl s)
              (omega (int_laws, own.0, is_positive amount a)))

  -- A loan that goes through keeps the account invariant.
  pub borrow-IsSound : Post (borrow env user amount s) IsSound
  unfolding borrow
  borrow-IsSound =
      let p = get_position s user in
      let free = saturating_sub s.total_deposits s.total_borrowed in
      Post-bind _ (as_user env s user) _ λ market _. Post-panic_if _ _ _ _ λ a.
        Post-panic_if _ (ltb_ℤ free amount) _ _ λ within.
          Post-bind _ (require_price env s market.collateral_token) _ λ r e.
            Post-bind _ (require_price env r.1 market.debt_token) _ λ q f.
              let seen : OnlyObserves s q.1 =
                OnlyObserves-trans s r.1 q.1 (Post-ok _ e (require_price-OnlyObserves env s _))
                  (Post-ok _ f (require_price-OnlyObserves env r.1 _)) in
              Post-panic_if _ _ _ _ λ covered.
                Post-transfer _ env market.debt_token env.contract user amount q.1 _ (
                  Post-checked _ (p.debt +ℤ amount) _ λ b.
                    Post-checked _ (q.1.total_borrowed +ℤ amount) _ λ c.
                      let same = ≈_of_eq (OnlyObserves-borrowed s q.1 seen) in
                      debt-IsSound (p.debt +ℤ amount) (q.1.total_borrowed +ℤ amount) seen
                        (omega (int_laws, own.1, is_positive amount a)) (omega (int_laws, same))
                        (omega (int_laws, same, free_liquidity h, not_less free amount within)))

  -- A repayment that goes through keeps the account invariant.
  pub repay-IsSound : Post (repay env user amount s) IsSound
  unfolding repay reduce_borrowed
  repay-IsSound =
      let p = get_position s user in
      let paid : ℤ = min_ℤ amount p.debt in
      Post-bind _ (as_user env s user) _ λ market _. Post-panic_if _ _ _ _ λ a.
        Post-panic_if _ (eqb_ℤ paid (pos 0)) _ _ λ b.
          Post-transfer _ env market.debt_token user env.contract paid s _ (
            Post-checked _ (p.debt -ℤ paid) _ λ c.
              let part = part_paid amount p.debt (is_positive amount a) own.1 in
              let left = ≈_of_eq (less_paid paid part.0 part.1) in
              debt-IsSound (p.debt -ℤ paid) (saturating_sub s.total_borrowed paid)
                (OnlyObserves-refl s) (omega (int_laws, part.1)) (omega (int_laws, left))
                (omega (int_laws, left, part.0, h.lent_le)))

  check_withdrawal-OnlyObserves :
      (market : Market) (p : Position)
      → Post (check_withdrawal env market p amount s) (OnlyObserves s)
  unfolding check_withdrawal
  check_withdrawal-OnlyObserves market p =
      Post-bind _ (require_price env s market.collateral_token) _ λ r e.
        Post-bind _ (require_price env r.1 market.debt_token) _ λ q f.
          Post-checked _ (p.collateral -ℤ amount) _ λ c. Post-panic_if _ _ _ _ λ covered.
            OnlyObserves-trans s r.1 q.1 (Post-ok _ e (require_price-OnlyObserves env s _))
              (Post-ok _ f (require_price-OnlyObserves env r.1 _))

  checked_if_owing :
      (owing : Bool) (market : Market) (p : Position)
      → Post (if owing then check_withdrawal env market p amount s else ok s) (OnlyObserves s)
  checked_if_owing true market p = check_withdrawal-OnlyObserves market p
  checked_if_owing false market p = OnlyObserves-refl s

  -- A withdrawal of collateral that goes through keeps the account invariant.
  pub withdraw_collateral-IsSound : Post (withdraw_collateral env user amount s) IsSound
  unfolding withdraw_collateral
  withdraw_collateral-IsSound =
      let p = get_position s user in
      let owing = ltb_ℤ (pos 0) p.debt in
      Post-bind _ (as_user env s user) _ λ market _. Post-panic_if _ _ _ _ λ a.
        Post-panic_if _ (ltb_ℤ p.collateral amount) _ _ λ enough.
          Post-bind _ (if owing then check_withdrawal env market p amount s else ok s) _ λ s' e.
            let seen = Post-ok _ e (checked_if_owing owing market p) in
            Post-transfer _ env market.collateral_token env.contract user amount s' _ (
              Post-checked _ (p.collateral -ℤ amount) _ λ c.
                collateral-IsSound (p.collateral -ℤ amount) seen
                  (omega (int_laws, not_less p.collateral amount enough)))

-- The health view keeps the account invariant: it records prices and changes nothing else.
pub health_factor-IsSound :
    (env : Env) (user : ℕ) (s : Store)
    → IsSound s
    → Post (health_factor env user s) (λ r. IsSound r.1)
unfolding health_factor
health_factor-IsSound env user s h = Post-bind _ (require_market s) _ λ market _.
    elim (Bool-cases (eqb_ℤ (get_position s user).debt (pos 0))) [
      | inl e ↦ rw e h
      | inr e ↦ rw e (
          Post-bind _ (require_price env s market.collateral_token) _ λ r f.
            Post-bind _ (require_price env r.1 market.debt_token) _ λ q g.
              IsSound-OnlyObserves
                (OnlyObserves-trans s r.1 q.1 (Post-ok _ f (require_price-OnlyObserves env s _))
                  (Post-ok _ g (require_price-OnlyObserves env r.1 _)))
                h)
    ]
