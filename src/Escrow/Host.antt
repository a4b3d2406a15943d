-- ===== src/Escrow/Host.antt =====
-- What the escrow reads of its environment: the signatures, the ledger's sequence number and clock,
-- and the token contracts.
use chainsettle_contract.Base.{
  ℕ, inl, inr, Bool, false, not, Option, none, some, List, ◌∷◌, ◌==◌, Bool-cases,
}
use chainsettle_contract.Base.Int.{ℤ}
use chainsettle_contract.Base.Result.{Result, ok, ◌>>=◌, ◌>>◌, panic_if, Post}
use chainsettle_contract.Base.Token.{Transfer}
use chainsettle_contract.Escrow.State.{Escrow}

pub record Ledger : Type 0 where
  -- `current_contract_address`
  pub this_contract : ℕ
  -- whether an address has signed the call
  pub approved : ℕ → Bool
  pub sequence : ℕ
  pub clock : ℕ
  -- whether the token contract carries a transfer out, after those made before
  pub carries : List Transfer → Transfer → Bool
  -- `balance` of the token contract, after transfers, for a token and a holder
  pub balance_of : List Transfer → ℕ → ℕ → ℤ
  -- `get_price` of a price oracle for a token
  pub oracle_price : ℕ → ℕ → ℤ

abbrev pub require_signature : Ledger → ℕ → Result (Unit {0})
require_signature env a = panic_if (not (env.approved a)) "not authorized"

-- `token::Client::transfer`
unfoldable pub send : Ledger → ℕ → ℕ → ℕ → ℤ → Escrow → Result Escrow
send env token sender receiver amount s =
    let t : Transfer = record {
      token = token;
      sender = sender;
      receiver = receiver;
      amount = amount;
    } in
    panic_if (not (env.carries s.sent t)) "token transfer failed"
    >> ok (record s { sent = t ∷ s.sent })

-- A transfer that goes through is recorded, and changes nothing else of the contract's state.
pub Post-send {ℓ κ} :
    {B : Type ℓ} (Q : B → Type κ) (env : Ledger) (token sender receiver : ℕ) (amount : ℤ)
    (s : Escrow) (f : Escrow → Result B)
    → Post
        (f (record s {
          sent =
              record { token = token; sender = sender; receiver = receiver; amount = amount }
              ∷ s.sent;
        }))
        Q
    → Post (send env token sender receiver amount s >>= f) Q
unfolding send panic_if
Post-send Q env token sender receiver amount s f h =
    let t : Transfer = record {
      token = token;
      sender = sender;
      receiver = receiver;
      amount = amount;
    } in
    elim (Bool-cases (not (env.carries s.sent t))) [ inl e ↦ rw e tt | inr e ↦ rw e h ]

abbrev pub assert_running : Escrow → Result (Unit {0})
assert_running s =
    panic_if s.halted "contract is paused"
    >> panic_if s.emergency_frozen "contract is under emergency freeze"

abbrev is_administrator : Option ℕ → ℕ → Bool
is_administrator none caller = false
is_administrator (some known) caller = caller == known

-- `assert_admin`, at the stored administrator
abbrev pub assert_stored_admin : Option ℕ → ℕ → Result (Unit {0})
assert_stored_admin administrator caller =
    panic_if (not (is_administrator administrator caller)) "unauthorized"
