-- ===== src/Loan/Handlers/Borrower/Health.antt =====
-- Borrowing and withdrawing leave a position healthy at the prices that the call has read.
use chainsettle_contract.Base.{
  ℕ, ◌≡◌, refl, Bool, true, false, not, Option, none, some, arith, if◌then◌else◌,
}
use chainsettle_contract.Base.Dict.{get-insert_self}
use chainsettle_contract.Base.Int.{
  ℤ, pos, ◌+ℤ◌, ◌-ℤ◌, ◌≤ℤ◌, ltb_ℤ, saturating_add, not_less, saturating_add_exact,
}
use chainsettle_contract.Base.Result.{
  ok, or_panic, Post, Post-bind, Post-panic_if, Post-ok, Post-checked,
}
use chainsettle_contract.Loan.Engine.{is_liquidatable}
use chainsettle_contract.Loan.Engine.Modes.{position_health}
use chainsettle_contract.Loan.Guards.{as_user}
use chainsettle_contract.Loan.Handlers.Borrower.{
  borrow, withdraw_collateral, is_covered, check_withdrawal,
}
use chainsettle_contract.Loan.Host.{Env, require_auth, Post-transfer}
use chainsettle_contract.Loan.Oracle.{require_price}
use chainsettle_contract.Loan.Store.{Market, Position, no_position, Store, get_position}

as_user-market :
    (env : Env) (s : Store) (user : ℕ) → Post (as_user env s user) (λ m. s.market ≡ some m)
unfolding or_panic
as_user-market env s user =
    Post-bind _ (require_auth env user) _ λ _ _. Post-panic_if _ _ _ _ λ _. found s.market
  where
    found : (m : Option Market) → Post (or_panic m "market not initialized") (λ k. m ≡ some k)
    found none = tt
    found (some k) = refl

-- At the prices that `require_price` gives for the market's tokens, one after the other from state
-- `s`, the position of `user` in state `s'` cannot be liquidated.
abbrev pub IsHealthyAfter : Env → Store → ℕ → Store → Type 0
IsHealthyAfter env s user s' =
    (m : Market) × (r q : ℤ × Store) × (s.market ≡ some m)
    × (require_price env s m.collateral_token ≡ ok r)
    × (require_price env r.1 m.debt_token ≡ ok q)
    × (let p = get_position s' user in
        let (num, den) = position_health p.collateral p.debt r.0 q.0 m.liq_threshold_bps in
        is_liquidatable num den ≡ false)

covered_safe :
    (m : Market) (coll debt price_coll price_debt : ℤ)
    → is_covered m coll debt price_coll price_debt ≡ true
    → let (num, den) = position_health coll debt price_coll price_debt m.liq_threshold_bps in
      is_liquidatable num den ≡ false
unfolding is_covered is_liquidatable
covered_safe m coll debt price_coll price_debt h = ground arith

true_of_not : (b : Bool) → not b ≡ false → b ≡ true
true_of_not true h = refl
true_of_not false h = cc

-- A loan that goes through adds its amount to the borrower's debt, leaves his collateral, and leaves
-- a position that cannot be liquidated at the prices of the call.
pub borrow_keeps_healthy :
    (env : Env) (user : ℕ) (amount : ℤ) (s : Store)
    → Post (borrow env user amount s) (λ s'.
      IsHealthyAfter env s user s'
      × ((get_position s' user).debt ≡ (get_position s user).debt +ℤ amount)
      × ((get_position s' user).collateral ≡ (get_position s user).collateral))
unfolding borrow
borrow_keeps_healthy env user amount s =
    let p = get_position s user in
    Post-bind _ (as_user env s user) _ λ market m. Post-panic_if _ _ _ _ λ _.
      Post-panic_if _ _ _ _ λ _. Post-bind _ (require_price env s market.collateral_token) _ λ r e.
        Post-bind _ (require_price env r.1 market.debt_token) _ λ q f.
          Post-panic_if _
            (not (is_covered market p.collateral (saturating_add p.debt amount) r.0 q.0)) _ _
            λ covered. Post-transfer _ env market.debt_token env.contract user amount q.1 _ (
              Post-checked _ (p.debt +ℤ amount) _ λ b.
                Post-checked _ (q.1.total_borrowed +ℤ amount) _ λ c.
                  rw
                    (get-insert_self no_position user (record p { debt = p.debt +ℤ amount })
                      q.1.positions)
                    ((
                      (
                        market,
                        r,
                        q,
                        Post-ok _ m (as_user-market env s user),
                        e,
                        f,
                        covered_safe market p.collateral (p.debt +ℤ amount) r.0 q.0
                            (rw (saturating_add_exact p.debt amount b) at (true_of_not _ covered)),
                      ),
                      refl,
                      refl,
                    )))

-- What `check_withdrawal` has checked, if it goes through.
checked_withdrawal :
    (env : Env) (market : Market) (p : Position) (amount : ℤ) (s : Store)
    → Post (check_withdrawal env market p amount s) (λ s'.
      (r q : ℤ × Store) × (require_price env s market.collateral_token ≡ ok r)
      × (require_price env r.1 market.debt_token ≡ ok q)
      × (is_covered market (p.collateral -ℤ amount) p.debt r.0 q.0 ≡ true))
unfolding check_withdrawal
checked_withdrawal env market p amount s =
    Post-bind _ (require_price env s market.collateral_token) _ λ r e.
      Post-bind _ (require_price env r.1 market.debt_token) _ λ q f.
        Post-checked _ (p.collateral -ℤ amount) _ λ _.
          Post-panic_if _ (not (is_covered market (p.collateral -ℤ amount) p.debt r.0 q.0)) _ _
            λ c. (r, q, e, f, true_of_not _ c)

-- A withdrawal of collateral that goes through takes its amount, which the position held, leaves the
-- debt, and, where there is debt, leaves a position that cannot be liquidated at the call's prices.
pub withdraw_collateral_keeps_healthy :
    (env : Env) (user : ℕ) (amount : ℤ) (s : Store)
    → Post (withdraw_collateral env user amount s) (λ s'.
      (pos 1 ≤ℤ (get_position s user).debt → IsHealthyAfter env s user s')
      × (amount ≤ℤ (get_position s user).collateral)
      × ((get_position s' user).collateral ≡ (get_position s user).collateral -ℤ amount)
      × ((get_position s' user).debt ≡ (get_position s user).debt))
unfolding withdraw_collateral
withdraw_collateral_keeps_healthy env user amount s =
    let p = get_position s user in
    let owing = ltb_ℤ (pos 0) p.debt in
    Post-bind _ (as_user env s user) _ λ market m. Post-panic_if _ _ _ _ λ _.
      Post-panic_if _ (ltb_ℤ p.collateral amount) _ _ λ enough.
        Post-bind _ (if owing then check_withdrawal env market p amount s else ok s) _ λ s' e.
          Post-transfer _ env market.collateral_token env.contract user amount s' _ (
            Post-checked _ (p.collateral -ℤ amount) _ λ _.
              rw
                (get-insert_self no_position user (record p { collateral = p.collateral -ℤ amount })
                  s'.positions)
                ((
                  λ d.
                      let owes : owing ≡ true = ground arith in
                      let (r, q, f, g, c) =
                        Post-ok _ (rw owes at e) (checked_withdrawal env market p amount s) in
                      (
                        market,
                        r,
                        q,
                        Post-ok _ m (as_user-market env s user),
                        f,
                        g,
                        covered_safe market (p.collateral -ℤ amount) p.debt r.0 q.0 c,
                      ),
                  not_less p.collateral amount enough,
                  refl,
                  refl,
                )))
