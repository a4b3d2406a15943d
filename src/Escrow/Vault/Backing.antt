-- ===== src/Escrow/Vault/Backing.antt =====
-- The vault's books: the buyers' balances come to the token's total, and tokens stand behind it.
use chainsettle_contract.Base.{
  ℕ, ◌≡◌, refl, inl, inr, false, List, [], ◌∷◌, arith, ◌==◌, if◌then◌else◌, Bool-cases,
}
use chainsettle_contract.Base.Dict.{Dict, get, insert, get-insert, get-insert_self}
use chainsettle_contract.Base.Int.{
  ℤ, pos, ◌+ℤ◌, ◌-ℤ◌, ◌≤ℤ◌, ltb_ℤ, max_ℤ, int_laws, ◌≈◌, ≈_of_eq, not_less,
}
use chainsettle_contract.Base.Result.{Post, Post-panic_if, Post-checked}
use chainsettle_contract.Base.Sum.{total, total-insert}
use chainsettle_contract.Base.Token.{Transfer}
use chainsettle_contract.Escrow.Split.Exact.{sum}
use chainsettle_contract.Escrow.State.{Escrow}
use chainsettle_contract.Escrow.Vault.{
  vault_of, vault_balance, set_vault, add_to_vault, take_from_vault,
}

abbrev NonNegative : Dict ℤ → Type 0
NonNegative [] = Unit
NonNegative ((k, v) ∷ m) = (pos 0 ≤ℤ v) × NonNegative m

abbrev sum_of : Dict ℤ → ℤ
sum_of m = total (λ v. v) m

insert-NonNegative :
    (k : ℕ) (v : ℤ) (m : Dict ℤ) → pos 0 ≤ℤ v → NonNegative m → NonNegative (insert k v m)
insert-NonNegative k v [] h n = (h, tt)
insert-NonNegative k v ((j, w) ∷ m) h n = ground (arith, insert-NonNegative k v m h n.1)

sum_of_nonneg : (m : Dict ℤ) → NonNegative m → pos 0 ≤ℤ sum_of m
sum_of_nonneg [] n = omega arith
sum_of_nonneg ((j, w) ∷ m) n = omega (int_laws, n.0, sum_of_nonneg m n.1)

get_le_sum : (k : ℕ) (m : Dict ℤ) → NonNegative m → get (pos 0) k m ≤ℤ sum_of m
get_le_sum k [] n = omega arith
get_le_sum k ((j, w) ∷ m) n = elim (Bool-cases (k == j)) [
  | inl e ↦ rw e (omega (int_laws, sum_of_nonneg m n.1))
  | inr e ↦ rw e (omega (int_laws, n.0, get_le_sum k m n.1))
]

get_nonneg : (k : ℕ) (m : Dict ℤ) → NonNegative m → pos 0 ≤ℤ get (pos 0) k m
get_nonneg k [] n = omega arith
get_nonneg k ((j, w) ∷ m) n = ground (arith, n.0, get_nonneg k m n.1)

-- In every token, no buyer's balance is below zero, and the balances come to the total.
pub record IsVaulted (s : Escrow) : Type 0 where
  pub solvent : (token : ℕ) → NonNegative (vault_of s token)
  pub booked : (token : ℕ) → sum_of (vault_of s token) ≈ get (pos 0) token s.total_vaulted

-- A buyer's balance and the token's total move by the same amount.
set_vault-IsVaulted :
    (s : Escrow) (buyer token : ℕ) (balance sum : ℤ)
    → IsVaulted s
    → pos 0 ≤ℤ balance
    → balance +ℤ get (pos 0) token s.total_vaulted ≈ vault_balance s buyer token +ℤ sum
    → IsVaulted (set_vault s buyer token balance sum)
set_vault-IsVaulted s buyer token balance sum h b e = record {
  solvent = λ t.
      let kept = insert-NonNegative buyer balance (vault_of s token) b (h.solvent token) in
      elim (Bool-cases (t == token)) [
        | inl same ↦
            rw
              (
                get-insert [] t token (insert buyer balance (vault_of s token)) s.vault_balances,
                same,
              )
              kept
        | inr other ↦
            rw
              (
                get-insert [] t token (insert buyer balance (vault_of s token)) s.vault_balances,
                other,
              )
              (h.solvent t)
      ];
  booked = λ t.
      let new = insert buyer balance (vault_of s token) in
      let moved_both : sum_of new ≈ sum = omega (
        int_laws,
        h.booked token,
        e,
        ≈_of_eq (total-insert (λ v. v) (pos 0) buyer balance (vault_of s token) refl),
      ) in
      elim (Bool-cases (t == token)) [
        | inl same ↦
            rw
              (
                get-insert [] t token new s.vault_balances,
                get-insert (pos 0) t token sum s.total_vaulted,
                same,
              )
              moved_both
        | inr other ↦
            rw
              (
                get-insert [] t token new s.vault_balances,
                get-insert (pos 0) t token sum s.total_vaulted,
                other,
              )
              (h.booked t)
      ];
}

pub IsVaulted-sent :
    (s : Escrow) (x : List Transfer) → IsVaulted s → IsVaulted (record s { sent = x })
IsVaulted-sent s x h = record { solvent = h.solvent; booked = h.booked }

-- Nothing but one token's books and the transfers have changed, and the total has moved by `amount`.
abbrev pub Moves : Escrow → ℕ → ℤ → Escrow → Type 0
Moves s token amount s' =
    (s'.sent ≡ s.sent)
    × ((t : ℕ)
        → get (pos 0) t s'.total_vaulted
          ≈ get (pos 0) t s.total_vaulted +ℤ (if token == t then amount else pos 0))

set_vault-Moves :
    (s : Escrow) (buyer token : ℕ) (balance sum amount : ℤ)
    → sum ≈ get (pos 0) token s.total_vaulted +ℤ amount
    → Moves s token amount (set_vault s buyer token balance sum)
set_vault-Moves s buyer token balance sum amount h = (
  refl,
  λ t. elim (Bool-cases (token == t)) [
    | inl same ↦
        let back : t ≡ token = ground arith in
        rw (same, back, get-insert_self (pos 0) token sum s.total_vaulted) h
    | inr other ↦
        let back : (t == token) ≡ false = ground arith in
        rw (other, get-insert (pos 0) t token sum s.total_vaulted, back) (omega int_laws)
  ],
)

-- What is added to the vault keeps its books.
pub add_to_vault-IsVaulted :
    (buyer token : ℕ) (amount : ℤ) (s : Escrow)
    → IsVaulted s
    → pos 1 ≤ℤ amount
    → Post (add_to_vault buyer token amount s) (λ s'. IsVaulted s' × Moves s token amount s')
unfolding add_to_vault
add_to_vault-IsVaulted buyer token amount s h p =
    let own = vault_balance s buyer token in
    let sum = get (pos 0) token s.total_vaulted in
    let held : pos 0 ≤ℤ own = get_nonneg buyer (vault_of s token) (h.solvent token) in
    Post-checked _ (own +ℤ amount) _ λ _. Post-checked _ (sum +ℤ amount) _ λ _. (
      set_vault-IsVaulted s buyer token (own +ℤ amount) (sum +ℤ amount) h (omega int_laws)
          (omega int_laws),
      set_vault-Moves s buyer token (own +ℤ amount) (sum +ℤ amount) amount (omega int_laws),
    )

-- So does what is taken from it, and the total is never cut off at zero.
pub take_from_vault-IsVaulted :
    (buyer token : ℕ) (amount : ℤ) (s : Escrow)
    → IsVaulted s
    → pos 1 ≤ℤ amount
    → Post
        (take_from_vault buyer token amount s)
        (λ s'. IsVaulted s' × Moves s token (pos 0 -ℤ amount) s')
unfolding take_from_vault
take_from_vault-IsVaulted buyer token amount s h p =
    let own = vault_balance s buyer token in
    let sum = get (pos 0) token s.total_vaulted in
    let within : own ≤ℤ sum =
      omega (arith, get_le_sum buyer (vault_of s token) (h.solvent token), h.booked token) in
    Post-panic_if _ (ltb_ℤ own amount) _ _ λ enough.
      let le : amount ≤ℤ own = not_less own amount enough in
      let exact : max_ℤ (sum -ℤ amount) (pos 0) ≈ sum -ℤ amount =
        above_zero (sum -ℤ amount) (omega int_laws) in
      Post-checked _ (own -ℤ amount) _ λ _. Post-checked _ (sum -ℤ amount) _ λ _. (
        set_vault-IsVaulted s buyer token (own -ℤ amount) (max_ℤ (sum -ℤ amount) (pos 0)) h
            (omega int_laws) (omega (int_laws, exact)),
        set_vault-Moves s buyer token (own -ℤ amount) (max_ℤ (sum -ℤ amount) (pos 0))
            (pos 0 -ℤ amount) (omega (int_laws, exact)),
      )
  where
    above_zero : (a : ℤ) → pos 0 ≤ℤ a → max_ℤ a (pos 0) ≈ a
    above_zero a n = ground arith
