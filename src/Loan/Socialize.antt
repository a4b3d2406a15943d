-- ===== src/Loan/Socialize.antt =====
-- `socialize_bad_debt` of contracts/loan_manager/src/lib.rs: bad debt is written off across the
-- depositors, first in proportion to their balances, then from whoever has something left.
pub mod Cuts
pub mod Loops
pub mod WriteOff
use chainsettle_contract.Base.{ℕ, Bool, true, false, ◌||◌, List, [], ◌∷◌, map, if◌then◌else◌}
use chainsettle_contract.Base.Dict.{Dict, get, insert}
use chainsettle_contract.Base.Int.{ℤ, pos, ltb_ℤ, leb_ℤ, eqb_ℤ, min_ℤ, saturating_sub}
use chainsettle_contract.Base.Result.{Result, ok, ◌>>=◌, add_i128, sub_i128, ◌>>◌}
use chainsettle_contract.Loan.Engine.{proportional_shares}
use chainsettle_contract.Loan.Store.{Store, get_depositor_balance}

-- The variables of the two loops, with the balances that they write.
pub record Progress : Type 0 where
  pub balances : Dict ℤ
  pub applied_total : ℤ
  pub residual : ℤ

-- `cut` units are taken from depositor `d`, whose balance was read as `bal`.
pub cut_balance : ℕ → ℤ → ℤ → Progress → Result Progress
cut_balance d bal cut p = do
  left ← sub_i128 bal cut
  applied ← add_i128 p.applied_total cut
  residual ← sub_i128 p.residual cut
  ok (record { balances = insert d left p.balances; applied_total = applied; residual = residual })

-- One round of the first loop.
pub cut_share : ℕ → ℤ → ℤ → Progress → Result Progress
cut_share d bal share p =
    let cut = min_ℤ (min_ℤ share bal) p.residual in
    if ltb_ℤ (pos 0) cut then cut_balance d bal cut p else ok p

abbrev pub head_or_zero : List ℤ → ℤ
head_or_zero [] = pos 0
head_or_zero (x ∷ xs) = x

abbrev pub rest : List ℤ → List ℤ
rest [] = []
rest (x ∷ xs) = xs

-- Pass 1, over the depositors with the balances and shares read before it.
pub pass_one : List ℕ → List ℤ → List ℤ → Progress → Result Progress
pass_one [] bals shares p = ok p
pass_one (d ∷ ds) bals shares p =
    cut_share d (head_or_zero bals) (head_or_zero shares) p
    >>= pass_one ds (rest bals) (rest shares)

-- One round of the second loop, which reads the balance afresh.
pub cut_spare : ℕ → Progress → Result Progress
cut_spare d p =
    let bal = get (pos 0) d p.balances in
    let spare = min_ℤ bal p.residual in
    if ltb_ℤ (pos 0) spare then cut_balance d bal spare p else ok p

-- Pass 2 stops when nothing is left to write off.
pub pass_two : List ℕ → Progress → Result Progress
pass_two [] p = ok p
pass_two (d ∷ ds) p =
    let next = cut_spare d p >>= pass_two ds in if eqb_ℤ p.residual (pos 0) then ok p else next

pub write_off : Store → ℤ → Result (ℤ × Store)
write_off s loss = do
  let balances = map (get_depositor_balance s) s.depositors
  let shares = proportional_shares balances s.total_deposits loss
  p ←
      pass_one s.depositors balances shares
        (record { balances = s.depositor_balances; applied_total = pos 0; residual = loss })
  q ← if ltb_ℤ (pos 0) p.residual then pass_two s.depositors p else ok p
  ok (
    q.applied_total,
    record s {
      depositor_balances = q.balances;
      total_deposits = saturating_sub s.total_deposits q.applied_total;
    },
  )

abbrev pub is_empty : List ℕ → Bool
is_empty [] = true
is_empty (x ∷ xs) = false

pub socialize_bad_debt : Store → ℤ → Result (ℤ × Store)
socialize_bad_debt s loss =
    if leb_ℤ loss (pos 0)
    then ok (pos 0, s)
    else if leb_ℤ s.total_deposits (pos 0) || is_empty s.depositors
    then ok (pos 0, record s { total_deposits = pos 0 })
    else write_off s loss
