-- ===== src/Loan/Handlers/Liquidity/Sound.antt =====
-- Deposits and withdrawals keep the account invariant.
use chainsettle_contract.Base.{
  ℕ, ◌≡◌, inl, inr, true, false, List, [], ◌∷◌, ◌++◌, arith, Bool-cases, contains, contains-append,
  Distinct-append,
}
use chainsettle_contract.Base.Dict.{Dict, get, insert, get-insert}
use chainsettle_contract.Base.Int.{
  ℤ, pos, ◌+ℤ◌, ◌-ℤ◌, ◌≤ℤ◌, ltb_ℤ, in_i128, saturating_sub, int_laws, IsAmount, ◌≈◌, ≈_of_eq,
  in_i128-le, is_positive, not_less,
}
use chainsettle_contract.Base.Result.{Post, Post-bind, Post-panic_if, Post-checked}
use chainsettle_contract.Base.Sum.{sum_over-insert, sum_over-append}
use chainsettle_contract.Base.Token.{Transfer}
use chainsettle_contract.Loan.Guards.{as_user}
use chainsettle_contract.Loan.Handlers.Liquidity.{deposit, withdraw}
use chainsettle_contract.Loan.Host.{Env, Post-transfer}
use chainsettle_contract.Loan.Socialize.Cuts.{Held, Held-insert, Held-get}
use chainsettle_contract.Loan.Socialize.WriteOff.{IsBalanced}
use chainsettle_contract.Loan.Sound.{IsSound, free_liquidity}
use chainsettle_contract.Loan.Store.{
  Store, get_depositor_balance, set_depositor_balance, register_depositor,
}

-- The depositor's balance and the total move to new values by the same amount.
credited :
    (s : Store) (d : ℕ) (bal td : ℤ)
    → IsBalanced s
    → IsAmount bal
    → bal +ℤ s.total_deposits ≈ get_depositor_balance s d +ℤ td
    → contains s.depositors d ≡ true
    → IsBalanced
        (record s { depositor_balances = insert d bal s.depositor_balances; total_deposits = td })
credited s d bal td h a e c = record {
  distinct = h.distinct;
  held = Held-insert s.depositors d bal s.depositor_balances a h.held;
  unlisted = λ k f. ground (arith, get-insert (pos 0) k d bal s.depositor_balances, h.unlisted k f);
  balanced = omega (
    int_laws,
    h.balanced,
    e,
    ≈_of_eq (sum_over-insert s.depositors d bal s.depositor_balances h.distinct c),
  );
}

Held-append :
    (xs : List ℕ) (y : ℕ) (m : Dict ℤ)
    → IsAmount (get (pos 0) y m)
    → Held xs m
    → Held (xs ++ y ∷ []) m
Held-append [] y m a h = (a, tt)
Held-append (x ∷ xs) y m a h = (h.0, Held-append xs y m a h.1)

-- A new depositor is listed with nothing.
registered :
    (s : Store) (d : ℕ)
    → IsBalanced s
    → contains s.depositors d ≡ false
    → IsBalanced (record s { depositors = s.depositors ++ d ∷ [] })
registered s d h c =
    let zero_balance = h.unlisted d c in
    record {
      distinct = Distinct-append s.depositors d c h.distinct;
      held =
          Held-append s.depositors d s.depositor_balances
            (rw zero_balance ((omega arith, omega arith))) h.held;
      unlisted = λ k f. h.unlisted k (ground (arith, contains-append s.depositors d k));
      balanced = omega (
        int_laws,
        h.balanced,
        ≈_of_eq zero_balance,
        ≈_of_eq (sum_over-append s.depositors d s.depositor_balances),
      );
    }

deposited :
    (s : Store) (d : ℕ) (bal td : ℤ)
    → IsBalanced s
    → IsAmount bal
    → bal +ℤ s.total_deposits ≈ get_depositor_balance s d +ℤ td
    → IsBalanced
        (record (register_depositor (set_depositor_balance s d bal) d) { total_deposits = td })
deposited s d bal td h a e = elim (Bool-cases (contains s.depositors d)) [
  | inl c ↦ rw c (credited s d bal td h a e c)
  | inr c ↦ rw c (
      credited (record s { depositors = s.depositors ++ d ∷ [] }) d bal td (registered s d h c) a e
        (ground (arith, contains-append s.depositors d d)))
]

-- A balance that is not zero is a listed depositor's.
listed :
    (s : Store) (d : ℕ)
    → IsBalanced s
    → pos 1 ≤ℤ get_depositor_balance s d
    → contains s.depositors d ≡ true
listed s d h n = elim (Bool-cases (contains s.depositors d)) [
  | inl c ↦ c
  | inr c ↦ absurd (omega (arith, n, ≈_of_eq (h.unlisted d c)))
]

own-IsAmount : (s : Store) (d : ℕ) → IsBalanced s → IsAmount (get_depositor_balance s d)
own-IsAmount s d h = elim (Bool-cases (contains s.depositors d)) [
  | inl c ↦ Held-get s.depositors d s.depositor_balances c h.held
  | inr c ↦ rw (h.unlisted d c) ((omega arith, omega arith))
]

IsBalanced-transfers :
    {s : Store} (x : List Transfer) → IsBalanced s → IsBalanced (record s { transfers = x })
IsBalanced-transfers x h = record {
  distinct = h.distinct;
  held = h.held;
  unlisted = h.unlisted;
  balanced = h.balanced;
}

module _ (env : Env) (depositor : ℕ) (amount : ℤ) (s : Store) (h : IsSound s) where
  own : IsAmount (get_depositor_balance s depositor)
  own = own-IsAmount s depositor h.accounts

  booked_deposit-IsSound :
      {x : List Transfer}
      → pos 1 ≤ℤ amount
      → in_i128 (get_depositor_balance s depositor +ℤ amount) ≡ true
      → in_i128 (s.total_deposits +ℤ amount) ≡ true
      → IsSound
          (record (register_depositor
            (set_depositor_balance
              (record s { transfers = x })
              depositor
              (get_depositor_balance s depositor +ℤ amount))
            depositor) { total_deposits = s.total_deposits +ℤ amount })
  booked_deposit-IsSound {x} p b t = record {
    accounts =
        deposited (record s { transfers = x }) depositor
          (get_depositor_balance s depositor +ℤ amount) (s.total_deposits +ℤ amount)
          (IsBalanced-transfers x h.accounts)
          (omega (int_laws, own.0), in_i128-le (get_depositor_balance s depositor +ℤ amount) b)
          (omega int_laws);
    keyed = h.keyed;
    solid = h.solid;
    lent = h.lent;
    lent_le = omega (int_laws, h.lent_le);
    in_range = in_i128-le (s.total_deposits +ℤ amount) t;
    capped = h.capped;
  }

  booked_withdrawal-IsSound :
      {x : List Transfer}
      → pos 1 ≤ℤ amount
      → amount ≤ℤ get_depositor_balance s depositor
      → amount ≤ℤ saturating_sub s.total_deposits s.total_borrowed
      → IsSound
          (record (set_depositor_balance
            (record s { transfers = x })
            depositor
            (get_depositor_balance s depositor -ℤ amount)) {
              total_deposits = s.total_deposits -ℤ amount;
            })
  booked_withdrawal-IsSound {x} p enough free = record {
    accounts =
        credited (record s { transfers = x }) depositor
          (get_depositor_balance s depositor -ℤ amount) (s.total_deposits -ℤ amount)
          (IsBalanced-transfers x h.accounts) (omega int_laws, omega (int_laws, own.1))
          (omega int_laws) (listed s depositor h.accounts (omega arith));
    keyed = h.keyed;
    solid = h.solid;
    lent = h.lent;
    lent_le = omega (int_laws, free_liquidity h);
    in_range = omega (int_laws, h.in_range);
    capped = h.capped;
  }

  -- A deposit that goes through keeps the account invariant.
  pub deposit-IsSound : Post (deposit env depositor amount s) IsSound
  unfolding deposit
  deposit-IsSound = Post-bind _ (as_user env s depositor) _ λ market _. Post-panic_if _ _ _ _ λ p.
      Post-transfer _ env market.debt_token depositor env.contract amount s _ (
        Post-checked _ (get_depositor_balance s depositor +ℤ amount) _ λ b.
          Post-checked _ (s.total_deposits +ℤ amount) _
            λ t. booked_deposit-IsSound (is_positive amount p) b t)

  -- A withdrawal that goes through keeps the account invariant.
  pub withdraw-IsSound : Post (withdraw env depositor amount s) IsSound
  unfolding withdraw
  withdraw-IsSound =
      let bal = get_depositor_balance s depositor in
      let free = saturating_sub s.total_deposits s.total_borrowed in
      Post-bind _ (as_user env s depositor) _ λ market _. Post-panic_if _ _ _ _ λ p.
        Post-panic_if _ (ltb_ℤ bal amount) _ _ λ enough.
          Post-panic_if _ (ltb_ℤ free amount) _ _ λ within.
            Post-transfer _ env market.debt_token env.contract depositor amount s _ (
              Post-checked _ (bal -ℤ amount) _ λ b.
                Post-checked _ (s.total_deposits -ℤ amount) _ λ t.
                  booked_withdrawal-IsSound (is_positive amount p) (not_less bal amount enough)
                    (not_less free amount within))
