-- ===== src/Escrow/Claim/Paid.antt =====
-- What a claim pays out.
use chainsettle_contract.Base.{
  ℕ, ◌≡◌, refl, ◌⊎◌, inl, inr, false, not, ◌&&◌, Option, none, some, ◌∷◌, arith, ◌==◌,
  if◌then◌else◌, Bool-cases,
}
use chainsettle_contract.Base.Dict.{get, get-insert}
use chainsettle_contract.Base.Int.{ℤ, pos, ◌*ℤ◌, ◌/ℤ◌, ◌≤ℤ◌, ltb_ℤ, leb_ℤ, is_positive}
use chainsettle_contract.Base.Result.{
  Post, Post-bind, Post-panic_if, Post-ok, Post-checked, Post-if,
}
use chainsettle_contract.Base.Token.{Transfer}
use chainsettle_contract.Escrow.Claim.{
  PayoutDesk, claim_operation, get_pending_payout, get_conversion_rate, converted_at, payout_of,
  without_pending, claim_payout,
}
use chainsettle_contract.Escrow.Host.{Ledger, Post-send, assert_running}

-- The contract's transfer to the supplier.
abbrev claim_transfer : Ledger → ℕ → ℕ → ℤ → Transfer
claim_transfer env supplier token amount = record {
  token = token;
  sender = env.this_contract;
  receiver = supplier;
  amount = amount;
}

-- The amount that was pending in the token that was named, or, at a rate from that token to the
-- preferred one, what it comes to there, rounded down, where the contract holds that much.
pub record IsConverted (env : Ledger) (supplier token : ℕ) (due : ℤ) (c : PayoutDesk) (token' : ℕ)
    (amount : ℤ) : Type 0 where
  pub preferred_token : get none supplier c.preferences ≡ some token'
  pub rate : ℕ
  pub at_rate : get_conversion_rate c token token' ≡ some rate
  pub converted : amount ≡ (due *ℤ pos rate) /ℤ pos 10000
  pub above_zero : pos 1 ≤ℤ amount
  pub in_hand : amount ≤ℤ env.balance_of c.ledgers.sent token' env.this_contract

abbrev IsRouted : Ledger → ℕ → ℕ → ℤ → PayoutDesk → ℕ → ℤ → Type 0
IsRouted env supplier token due c token' amount =
    ((token' ≡ token) × (amount ≡ due)) ⊎ IsConverted env supplier token due c token' amount

-- A payout that was claimed.
pub record IsClaimed (env : Ledger) (supplier token : ℕ) (c c' : PayoutDesk) : Type 0 where
  pub was_due : pos 1 ≤ℤ get_pending_payout c supplier
  pub paid_token : ℕ
  pub paid_amount : ℤ
  pub routed : IsRouted env supplier token (get_pending_payout c supplier) c paid_token paid_amount
  pub only_transfer :
      c'.ledgers.sent ≡ claim_transfer env supplier paid_token paid_amount ∷ c.ledgers.sent
  pub due_after :
      (other : ℕ)
      → get_pending_payout c' other
        ≡ (if other == supplier then pos 0 else get_pending_payout c other)
  pub deals_same : c'.ledgers.deals ≡ c.ledgers.deals

module _ (env : Ledger) (supplier token : ℕ) (due : ℤ) (c : PayoutDesk) where
  converted_at-IsRouted :
      (preferred : ℕ) (rate : Option ℕ)
      → get none supplier c.preferences ≡ some preferred
      → get_conversion_rate c token preferred ≡ rate
      → Post
          (converted_at env token preferred due c.ledgers.sent rate)
          (λ (token', amount). IsRouted env supplier token due c token' amount)
  unfolding converted_at
  converted_at-IsRouted preferred none e f = inl (refl, refl)
  converted_at-IsRouted preferred (some rate) e f = Post-checked _ (due *ℤ pos rate) _ λ _.
      let converted : ℤ = (due *ℤ pos rate) /ℤ pos 10000 in
      let held : ℤ = env.balance_of c.ledgers.sent preferred env.this_contract in
      elim (Bool-cases (ltb_ℤ (pos 0) converted && leb_ℤ converted held)) [
        | inl enough ↦ rw enough (
            inr (record {
              preferred_token = e;
              rate = rate;
              at_rate = f;
              converted = refl;
              above_zero = ground (arith, enough);
              in_hand = ground (arith, enough);
            }))
        | inr short ↦ rw short (inl (refl, refl))
      ]

  payout_of-IsRouted :
      (preference : Option ℕ)
      → get none supplier c.preferences ≡ preference
      → Post
          (payout_of env token due c preference)
          (λ (token', amount). IsRouted env supplier token due c token' amount)
  unfolding payout_of
  payout_of-IsRouted none e = inl (refl, refl)
  payout_of-IsRouted (some preferred) e =
      Post-if _ (preferred == token) _ _ (λ _. inl (refl, refl))
        λ _. converted_at-IsRouted preferred (get_conversion_rate c token preferred) e refl

-- A claim that goes through pays out, in one transfer from the contract to the supplier, all that was
-- pending for him, and that was more than nothing: in the token that he names, or, at the rate from
-- that token to the one that he prefers, rounded down, in that one, where the contract holds enough.
-- Nothing is pending for him then, and for every other supplier as much as before.
pub claim_payout-IsClaimed :
    (env : Ledger) (supplier token : ℕ) (c : PayoutDesk)
    → Post (claim_payout env supplier token c) (IsClaimed env supplier token c)
unfolding claim_payout
claim_payout-IsClaimed env supplier token c =
    let due : ℤ = get_pending_payout c supplier in
    Post-bind _ (assert_running c.ledgers) _ λ _ _.
      Post-panic_if _ (get false claim_operation c.ledgers.policy.paused_operations)
        "operation is paused" _
        λ _. Post-panic_if _ (not (env.approved supplier)) "not authorized" _ λ _.
          Post-panic_if _ (leb_ℤ due (pos 0)) "no pending payout" _ λ some_due.
            Post-bind _ (payout_of env token due c (get none supplier c.preferences)) _
              λ (token', amount) e.
                Post-send _ env token' env.this_contract supplier amount
                  (without_pending supplier c) _
                  (record {
                    was_due = is_positive due some_due;
                    paid_token = token';
                    paid_amount = amount;
                    routed = Post-ok _ e (payout_of-IsRouted env supplier token due c _ refl);
                    only_transfer = refl;
                    due_after = λ other.
                        get-insert (pos 0) other supplier (pos 0) c.ledgers.tallies.pending_payout;
                    deals_same = refl;
                  })
