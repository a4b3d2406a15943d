-- ===== src/Loan/Host.antt =====
-- What a call of the contract reads of its environment: the signatures, the ledger's clock, and the
-- contracts that it calls, tokens and oracles, which are not part of the repository.
use chainsettle_contract.Base.{ℕ, ◌≡◌, refl, inl, inr, Bool, not, Option, List, ◌∷◌, Bool-cases}
use chainsettle_contract.Base.Int.{ℤ}
use chainsettle_contract.Base.Result.{Result, ok, ◌>>=◌, ◌>>◌, panic_if, Post, Post-panic_if}
use chainsettle_contract.Base.Token.{Transfer}
use chainsettle_contract.Loan.Store.{Store}

pub record Env : Type 0 where
  -- `current_contract_address`
  pub contract : ℕ
  -- whether an address has signed the call
  pub signed : ℕ → Bool
  -- the ledger's timestamp in seconds
  pub timestamp : ℕ
  -- whether the token contract carries a transfer out, after those made before
  pub accepts : List Transfer → Transfer → Bool
  -- `try_latest_price` of an oracle contract for an asset; `none` is a failed call
  pub latest_price : ℕ → ℕ → Option (ℤ × ℕ)

abbrev pub require_auth : Env → ℕ → Result (Unit {0})
require_auth env a = panic_if (not (env.signed a)) "not authorized"

-- `token::Client::transfer`
unfoldable pub transfer : Env → ℕ → ℕ → ℕ → ℤ → Store → Result Store
transfer env token sender receiver amount s =
    let t : Transfer = record {
      token = token;
      sender = sender;
      receiver = receiver;
      amount = amount;
    } in
    panic_if (not (env.accepts s.transfers t)) "token transfer failed"
    >> ok (record s { transfers = t ∷ s.transfers })

-- A transfer that goes through is recorded, and changes nothing else of the contract's state.
pub Post-transfer {ℓ κ} :
    {B : Type ℓ} (Q : B → Type κ) (env : Env) (token sender receiver : ℕ) (amount : ℤ) (s : Store)
    (f : Store → Result B)
    → Post
        (f (record s {
          transfers =
              record { token = token; sender = sender; receiver = receiver; amount = amount }
              ∷ s.transfers;
        }))
        Q
    → Post (transfer env token sender receiver amount s >>= f) Q
unfolding transfer panic_if
Post-transfer Q env token sender receiver amount s f h =
    let t : Transfer = record {
      token = token;
      sender = sender;
      receiver = receiver;
      amount = amount;
    } in
    elim (Bool-cases (not (env.accepts s.transfers t))) [ inl e ↦ rw e tt | inr e ↦ rw e h ]

pub transfer-transfers :
    (env : Env) (token sender receiver : ℕ) (amount : ℤ) (s : Store)
    → Post
        (transfer env token sender receiver amount s)
        (λ s'. (x : List Transfer) × (s' ≡ record s { transfers = x }))
unfolding transfer
transfer-transfers env token sender receiver amount s = Post-panic_if _ _ _ _ λ _. (_, refl)
