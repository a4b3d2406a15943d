-- ===== src/Escrow/Split.antt =====
-- Splitting a milestone (contracts/chainsetttle/src/lib.rs): how the payout weight and the quantity
-- of the milestone are shared out among the parts.
pub mod Exact
use Prim.Native.String.{String}
use chainsettle_contract.Base.{
  ℕ, zero, suc, ◌+◌, ◌-◌, ◌*◌, ◌/◌, ◌%◌, ◌^◌, ◌||◌, List, [], ◌∷◌, ◌++◌, map, ltb, leb, ◌==◌,
  if◌then◌else◌, length,
}
use chainsettle_contract.Base.Int.{u64_max}
use chainsettle_contract.Base.Result.{Result, ok, panic, ◌>>=◌, ◌>>◌, panic_if}

-- `MilestoneSplitPart`; a name counts only as empty or not.
pub record Part : Type 0 where
  pub name : String
  pub payment_percent : ℕ

-- Subtraction on `u32`.
unfoldable pub sub_u32 : ℕ → ℕ → Result ℕ
sub_u32 a b = panic_if (ltb a b) "overflow" >> ok (a - b)

unfoldable pub checked_u64 : ℕ → Result ℕ
checked_u64 n = if leb n u64_max then ok n else panic "overflow"

-- Division of a product on `u64`, cut to `u32`; a zero divisor panics.
pub scaled : ℕ → ℕ → ℕ → Result ℕ
scaled weight part whole = do
  product ← checked_u64 (weight * part)
  panic_if (whole == 0) "attempt to divide by zero"
  ok (product / whole % 2 ^ 32)

-- `next_allocated`: the last part takes everything that is left.
pub next_allocation : ℕ → ℕ → ℕ → List Part → Result ℕ
next_allocation weight percent cumulative [] = ok weight
next_allocation weight percent cumulative (x ∷ xs) = scaled weight cumulative percent

-- The loop of `apportion_split_weight`, at the percent and the weight given out so far.
pub apportion : ℕ → ℕ → ℕ → ℕ → List Part → Result (List ℕ)
apportion weight percent cumulative allocated [] = ok []
apportion weight percent cumulative allocated (p ∷ ps) =
    checked_u64 (cumulative + p.payment_percent) >>= λ cumulative'.
    next_allocation weight percent cumulative' ps >>= λ next.
    sub_u32 next allocated >>= λ allocation.
    panic_if (allocation == 0) "split part is too small for configured payout allocation"
    >> (apportion weight percent cumulative' next ps >>= λ others. ok (allocation ∷ others))

pub apportion_split_weight : ℕ → ℕ → List Part → Result (List ℕ)
apportion_split_weight weight percent parts = apportion weight percent 0 0 parts

-- `Vec::push_back` of some values in place of the one at `index`.
pub replace_at : ℕ → (ℕ → Result (List ℕ)) → List ℕ → Result (List ℕ)
replace_at index f [] = ok []
replace_at zero f (w ∷ ws) = f w >>= λ new. ok (new ++ ws)
replace_at (suc index) f (w ∷ ws) = replace_at index f ws >>= λ others. ok (w ∷ others)

-- `milestone_split_distribution`, on the weights that are stored.
pub split_distribution : ℕ → ℕ → List Part → List ℕ → Result (List ℕ)
split_distribution index percent parts weights = do
  panic_if (length weights == 0 || leb (length weights) index)
      "invalid milestone payout split configuration"
  replace_at index (λ w. apportion_split_weight w percent parts) weights

abbrev no_quantities : List Part → List ℕ
no_quantities parts = map (λ p. 0) parts

-- `milestone_quantity_distribution`, on the quantities that are stored.
quantity_distribution : ℕ → ℕ → List Part → List ℕ → Result (List ℕ)
quantity_distribution index percent parts quantities = do
  panic_if (length quantities == 0 || leb (length quantities) index)
      "invalid milestone quantity configuration"
  replace_at index
      (λ q.
        let shares = apportion_split_weight q percent parts in
        if q == 0 then ok (no_quantities parts) else shares)
      quantities
