-- ===== src/Escrow/Limits/Windows.antt =====
-- How much passes through one window of the circuit breaker.
use chainsettle_contract.Base.{
  ℕ, ◌+◌, ◌<◌, ◌≡◌, refl, false, List, [], ◌∷◌, arith, leb, if◌then◌else◌, All,
}
use chainsettle_contract.Base.Int.{
  ℤ, pos, ◌+ℤ◌, ◌≤ℤ◌, ltb_ℤ, eqb_ℤ, int_laws, ◌≈◌, ≈_of_eq, not_less,
}
use chainsettle_contract.Base.Result.{
  Result, ok, panic, Post, Post-panic_if, Post-checked, Post-checked_u32, Post-if,
}
use chainsettle_contract.Escrow.Fees.Net.{SameBooks}
use chainsettle_contract.Escrow.Host.{Ledger}
use chainsettle_contract.Escrow.Limits.{check_circuit_breaker}
use chainsettle_contract.Escrow.State.{Escrow}

-- Payments that are tried one after the other; one that panics is reverted. With the state comes the
-- sum of the payments that went through.
abbrev tally : ℤ → (Escrow → ℤ × Escrow) → Escrow → Result Escrow → ℤ × Escrow
tally payment others s (ok s') = (payment +ℤ (others s').0, (others s').1)
tally payment others s (panic e) = others s

abbrev pub pay_all : List (Ledger × ℤ) → Escrow → ℤ × Escrow
pay_all [] s = (pos 0, s)
pay_all ((env, payment) ∷ ps) s = tally payment (pay_all ps) s (check_circuit_breaker env payment s)

-- The breaker is on, and has not let through more than its limit.
pub record IsGuarded (s : Escrow) : Type 0 where
  pub on : eqb_ℤ s.breaker_limit (pos 0) ≡ false
  pub kept : s.breaker_outflow ≤ℤ s.breaker_limit

-- What one payment changes before the window's end.
abbrev IsCounted : Escrow → ℤ → Escrow → Type 0
IsCounted s payment s' =
    (s'.breaker_limit ≡ s.breaker_limit)
    × (s'.breaker_window ≡ s.breaker_window)
    × (s'.breaker_start ≡ s.breaker_start)
    × (s'.breaker_outflow ≈ s.breaker_outflow +ℤ payment)
    × (s'.breaker_outflow ≤ℤ s.breaker_limit)

check_circuit_breaker-IsCounted :
    (env : Ledger) (payment : ℤ) (s : Escrow)
    → eqb_ℤ s.breaker_limit (pos 0) ≡ false
    → env.sequence < s.breaker_start + s.breaker_window
    → Post (check_circuit_breaker env payment s) (IsCounted s payment)
unfolding check_circuit_breaker
check_circuit_breaker-IsCounted env payment s on early =
    let edge = s.breaker_start + s.breaker_window in
    let still : leb edge env.sequence ≡ false = ground arith in
    rw on (
      Post-checked_u32 _ edge _ λ _. rw still (
        Post-checked _ (s.breaker_outflow +ℤ payment) _ λ _.
          Post-panic_if _ (ltb_ℤ s.breaker_limit (s.breaker_outflow +ℤ payment)) _ _ λ within. (
            refl,
            refl,
            refl,
            omega int_laws,
            not_less s.breaker_limit (s.breaker_outflow +ℤ payment) within,
          )))

-- Whether every call is made before the ledger `edge`.
abbrev AllBefore : ℕ → List (Ledger × ℤ) → Type 0
AllBefore edge ps = All (λ p. p.0.sequence < edge) ps

-- What is left to show of the payments after one, if it went through or not.
tally_within :
    (payment : ℤ) (ps : List (Ledger × ℤ)) (s : Escrow) (m : Result Escrow)
    → IsGuarded s
    → Post m (IsCounted s payment)
    → ((t : Escrow)
        → IsGuarded t
        → t.breaker_start + t.breaker_window ≡ s.breaker_start + s.breaker_window
        → t.breaker_outflow +ℤ (pay_all ps t).0 ≤ℤ t.breaker_limit)
    → s.breaker_outflow +ℤ (tally payment (pay_all ps) s m).0 ≤ℤ s.breaker_limit
tally_within payment ps s (ok s') h (same_limit, same_window, same_start, counted, kept) ih =
    let later =
      ih s' (record { on = rw same_limit h.on; kept = rw same_limit kept })
        (rw (same_start, same_window) refl) in
    omega (int_laws, counted, later, ≈_of_eq same_limit)
tally_within payment ps s (panic e) h c ih = ih s h refl

-- Of payments tried before the end of a window, those that go through and what had gone through the
-- window before come to no more than the breaker's limit.
pub pay_all_within :
    (ps : List (Ledger × ℤ)) (s : Escrow)
    → IsGuarded s
    → AllBefore (s.breaker_start + s.breaker_window) ps
    → s.breaker_outflow +ℤ (pay_all ps s).0 ≤ℤ s.breaker_limit
pay_all_within [] s h b = omega (int_laws, h.kept)
pay_all_within ((env, payment) ∷ ps) s h b =
    tally_within payment ps s (check_circuit_breaker env payment s) h
      (check_circuit_breaker-IsCounted env payment s h.on b.0)
      λ t g e. pay_all_within ps t g (rw e b.1)

-- The breaker's check leaves transfers, tallies and settings as they are.
pub check_circuit_breaker-SameBooks :
    (env : Ledger) (payment : ℤ) (s : Escrow)
    → Post (check_circuit_breaker env payment s) (SameBooks s)
unfolding check_circuit_breaker
check_circuit_breaker-SameBooks env payment s =
    Post-if _ (eqb_ℤ s.breaker_limit (pos 0)) _ _ (λ _. (refl, refl, refl, refl))
      λ _. Post-checked_u32 _ (s.breaker_start + s.breaker_window) _ λ _.
        Post-checked _
          ((if leb (s.breaker_start + s.breaker_window) env.sequence
              then pos 0
              else s.breaker_outflow)
            +ℤ payment)
          _ λ _. Post-panic_if _ (ltb_ℤ s.breaker_limit _) _ _ λ _. (refl, refl, refl, refl)
