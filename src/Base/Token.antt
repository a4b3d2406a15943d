-- ===== src/Base/Token.antt =====
-- What both contracts know of a token contract.
use Prim.Native.Nat.{ℕ}
use mathlib.Core.List.{List, [], ◌∷◌}
use chainsettle_contract.Base.{◌==◌, if◌then◌else◌}
use chainsettle_contract.Base.Int.{ℤ, pos, ◌+ℤ◌, ◌-ℤ◌}

-- A call of a token contract's `transfer`.
pub record Transfer : Type 0 where
  pub token : ℕ
  pub sender : ℕ
  pub receiver : ℕ
  pub amount : ℤ

-- What a transfer of token `t` adds to the balance of `holder`.
abbrev pub moved : ℕ → ℕ → Transfer → ℤ
moved holder t x =
    (if x.token == t then (if x.receiver == holder then x.amount else pos 0) else pos 0)
    -ℤ (if x.token == t then (if x.sender == holder then x.amount else pos 0) else pos 0)

-- What the transfers of token `t` have brought to `holder`, less what they have taken.
abbrev pub flow : ℕ → ℕ → List Transfer → ℤ
flow holder t [] = pos 0
flow holder t (x ∷ xs) = moved holder t x +ℤ flow holder t xs

-- What a list of transfers moves, whatever the token.
abbrev pub sent_in_all : List Transfer → ℤ
sent_in_all [] = pos 0
sent_in_all (x ∷ xs) = x.amount +ℤ sent_in_all xs
