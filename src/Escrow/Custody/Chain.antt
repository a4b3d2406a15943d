-- ===== src/Escrow/Custody/Chain.antt =====
-- What the check of a custody chain decides, position by position.
use chainsettle_contract.Base.{
  ℕ, zero, suc, ◌≤◌, ◌<◌, ◌≡◌, refl, sym, ap, subst, ◌≢◌, ◌↔◌, Bool, true, false, Option, none,
  some, List, [], ◌∷◌, arith,
}
use chainsettle_contract.Escrow.Custody.{
  HandoffType, received, transferred, CustodyHandoff, CustodyStore, get_custody_log, verify_from,
  verify_custody_chain,
}

abbrev kind_at : List CustodyHandoff → ℕ → Option HandoffType
kind_at [] i = none
kind_at (x ∷ xs) zero = some x.handoff_type
kind_at (x ∷ xs) (suc i) = kind_at xs i

-- A receipt stands at some position from `from` on, with no transfer between.
abbrev IsReceivedFrom : List CustodyHandoff → ℕ → Type 0
IsReceivedFrom log from =
    (p : ℕ) × (from ≤ p)
    × (kind_at log p ≡ some received)
    × ((k : ℕ) → from ≤ k → k < p → kind_at log k ≢ some transferred)

-- Every transfer is followed by a receipt before the next transfer.
abbrev pub IsUnbroken : List CustodyHandoff → Type 0
IsUnbroken log = (i : ℕ) → kind_at log i ≡ some transferred → IsReceivedFrom log (suc i)

-- What the loop has left to find.
abbrev IsFine : Bool → List CustodyHandoff → Type 0
IsFine true log = IsReceivedFrom log 0 × IsUnbroken log
IsFine false log = IsUnbroken log

module _ (x : CustodyHandoff) (xs : List CustodyHandoff) where
  IsReceivedFrom-tail : (n : ℕ) → IsReceivedFrom (x ∷ xs) (suc n) → IsReceivedFrom xs n
  IsReceivedFrom-tail n (zero, le, e, f) = absurd (omega (arith, le))
  IsReceivedFrom-tail n (suc p, le, e, f) =
      (p, omega (arith, le), e, λ k lo hi. f (suc k) (omega (arith, lo)) (omega (arith, hi)))

  no_transfer_cons :
      (n : ℕ) (r : IsReceivedFrom xs n) (k : ℕ)
      → suc n ≤ k
      → k < suc (r.0)
      → kind_at (x ∷ xs) k ≢ some transferred
  no_transfer_cons n r zero lo hi = absurd (omega (arith, lo))
  no_transfer_cons n (p, le, e, f) (suc k) lo hi = f k (omega (arith, lo)) (omega (arith, hi))

  IsReceivedFrom-cons : (n : ℕ) → IsReceivedFrom xs n → IsReceivedFrom (x ∷ xs) (suc n)
  IsReceivedFrom-cons n (p, le, e, f) =
      (suc p, omega (arith, le), e, no_transfer_cons n (p, le, e, f))

  IsUnbroken-tail : IsUnbroken (x ∷ xs) → IsUnbroken xs
  IsUnbroken-tail h i e = IsReceivedFrom-tail (suc i) (h (suc i) e)

  -- An entry that is no transfer leaves a chain as it is.
  IsUnbroken-cons : x.handoff_type ≢ transferred → IsUnbroken xs → IsUnbroken (x ∷ xs)
  IsUnbroken-cons h u zero e = absurd (h (cc e))
  IsUnbroken-cons h u (suc i) e = IsReceivedFrom-cons (suc i) (u i e)

  IsUnbroken-transfer : IsReceivedFrom xs 0 → IsUnbroken xs → IsUnbroken (x ∷ xs)
  IsUnbroken-transfer r u zero e = IsReceivedFrom-cons 0 r
  IsUnbroken-transfer r u (suc i) e = IsReceivedFrom-cons (suc i) (u i e)

  -- An entry that is neither does not answer a transfer.
  IsReceived_skip : x.handoff_type ≢ received → IsReceivedFrom (x ∷ xs) 0 → IsReceivedFrom xs 0
  IsReceived_skip h (zero, le, e, f) = absurd (h (cc e))
  IsReceived_skip h (suc p, le, e, f) =
      (p, omega arith, e, λ k lo hi. f (suc k) (omega arith) (omega (arith, hi)))

  no_transfer_more :
      x.handoff_type ≢ transferred
      → (r : IsReceivedFrom xs 0) (k : ℕ) → k < suc (r.0)
      → kind_at (x ∷ xs) k ≢ some transferred
  no_transfer_more h r zero hi = λ e. h (cc e)
  no_transfer_more h (p, le, e, f) (suc k) hi = f k (omega arith) (omega (arith, hi))

  IsReceived_cons : x.handoff_type ≢ transferred → IsReceivedFrom xs 0 → IsReceivedFrom (x ∷ xs) 0
  IsReceived_cons h (p, le, e, f) =
      (suc p, omega arith, e, λ k lo hi. no_transfer_more h (p, le, e, f) k hi)

  not_received_at_transfer : x.handoff_type ≡ transferred → IsReceivedFrom (x ∷ xs) 0 → ⊥
  not_received_at_transfer h (zero, le, e, f) = cc (h, e)
  not_received_at_transfer h (suc p, le, e, f) = f 0 (omega arith) (omega arith) (rw h refl)

along : {v : Bool} (w : Bool) {F : Type 0} → v ≡ w → ((w ≡ true) ↔ F) → (v ≡ true) ↔ F
along w {F = F} e p = subst (λ b. (b ≡ true) ↔ F) (sym e) p

module _ (x : CustodyHandoff) (xs : List CustodyHandoff) where
  plain_iff :
      (b : Bool)
      → x.handoff_type ≢ transferred
      → x.handoff_type ≢ received
      → IsFine b xs ↔ IsFine b (x ∷ xs)
  plain_iff true h k = (
    λ (r, u). (IsReceived_cons x xs h r, IsUnbroken-cons x xs h u),
    λ (r, u). (IsReceived_skip x xs k r, IsUnbroken-tail x xs u),
  )
  plain_iff false h k = (IsUnbroken-cons x xs h, IsUnbroken-tail x xs)

  entry_iff :
      (b : Bool) (kind : HandoffType)
      → x.handoff_type ≡ kind
      → ((c : Bool) → (verify_from c xs ≡ true) ↔ IsFine c xs)
      → (verify_from b (x ∷ xs) ≡ true) ↔ IsFine b (x ∷ xs)
  unfolding verify_from
  entry_iff true transferred e ih =
      along false (rw e refl) (λ v. cc v, λ (r, u). absurd (not_received_at_transfer x xs e r))
  entry_iff false transferred e ih = along (verify_from true xs) (rw e refl) (
    λ v. let (r, u) = (ih true).0 v in IsUnbroken-transfer x xs r u,
    λ u. (ih true).1 (IsReceivedFrom-tail x xs 0 (u 0 (ap some e)), IsUnbroken-tail x xs u),
  )
  entry_iff true received e ih = along (verify_from false xs) (rw e refl) (
    λ v. (
      (0, omega arith, ap some e, λ k lo hi. absurd (omega (arith, hi))),
      IsUnbroken-cons x xs (λ q. cc (e, q)) ((ih false).0 v),
    ),
    λ (r, u). (ih false).1 (IsUnbroken-tail x xs u),
  )
  entry_iff false received e ih = along (verify_from false xs) (rw e refl) (
    λ v. IsUnbroken-cons x xs (λ q. cc (e, q)) ((ih false).0 v),
    λ u. (ih false).1 (IsUnbroken-tail x xs u),
  )
  entry_iff b _ e ih =
      let (to, from) = plain_iff b (λ q. cc (e, q)) (λ q. cc (e, q)) in
      along (verify_from b xs) (rw e refl) (λ v. to ((ih b).0 v), λ f. (ih b).1 (from f))

verify_from_iff : (b : Bool) (log : List CustodyHandoff) → (verify_from b log ≡ true) ↔ IsFine b log
unfolding verify_from
verify_from_iff true [] = (λ v. cc v, λ ((p, le, e, f), u). cc e)
verify_from_iff false [] = (λ v i e. cc e, λ u. refl)
verify_from_iff b (x ∷ xs) = entry_iff x xs b x.handoff_type refl λ c. verify_from_iff c xs

-- The check of a milestone's custody chain succeeds exactly when every transfer of its log is
-- followed by a receipt, with no other transfer between the two.
pub verify_custody_chain_iff :
    (s : CustodyStore) (id index : ℕ)
    → (verify_custody_chain s id index ≡ true) ↔ IsUnbroken (get_custody_log s id index)
verify_custody_chain_iff s id index = verify_from_iff false (get_custody_log s id index)
