-- ===== src/Base/Sum.antt =====
-- Sums over a dictionary: of a measure over all its entries, and of the values at listed addresses.
use chainsettle_contract.Base.Tests.{◌==◌, if◌then◌else◌}
use chainsettle_contract.Base.Lists.{contains, Distinct}
use chainsettle_contract.Base.Int.{ℤ, pos, ◌+ℤ◌, int_laws}
use chainsettle_contract.Base.Dict.{Dict, get, insert, erase, get-insert}
use Prim.Native.Nat.{ℕ}
use mathlib.Core.Path.{◌≡◌, refl}
use mathlib.Core.Bool.{Bool, true, false}
use mathlib.Core.List.{List, [], ◌∷◌, ◌++◌}
use native.Mathlib.Omega.{arith}

module _ {ℓ} {V : Type ℓ} where
  abbrev pub has : ℕ → Dict V → Bool
  has k [] = false
  has k ((j, v) ∷ m) = if k == j then true else has k m

  -- No key stands twice.
  abbrev pub DistinctKeys : Dict V → Type 0
  DistinctKeys [] = Unit
  DistinctKeys ((j, v) ∷ m) = (has j m ≡ false) × DistinctKeys m

  has-insert :
      (j k : ℕ) (v : V) (m : Dict V) → has j (insert k v m) ≡ (if j == k then true else has j m)
  has-insert j k v [] = ground arith
  has-insert j k v ((i, w) ∷ m) = ground (arith, has-insert j k v m)

  has-erase : (j k : ℕ) (m : Dict V) → has j m ≡ false → has j (erase k m) ≡ false
  has-erase j k [] h = refl
  has-erase j k ((i, w) ∷ m) h = ground (arith, has-erase j k m)

  pub insert-DistinctKeys :
      (k : ℕ) (v : V) (m : Dict V) → DistinctKeys m → DistinctKeys (insert k v m)
  insert-DistinctKeys k v [] h = (refl, tt)
  insert-DistinctKeys k v ((i, w) ∷ m) h =
      ground (arith, insert-DistinctKeys k v m h.1, has-insert i k v m)

  pub erase-DistinctKeys : (k : ℕ) (m : Dict V) → DistinctKeys m → DistinctKeys (erase k m)
  erase-DistinctKeys k [] h = tt
  erase-DistinctKeys k ((i, w) ∷ m) h = ground (arith, erase-DistinctKeys k m h.1, has-erase i k m)

  -- The sum of `f` over the entries.
  abbrev pub total : (V → ℤ) → Dict V → ℤ
  total f [] = pos 0
  total f ((j, v) ∷ m) = f v +ℤ total f m

  pub total-insert :
      (f : V → ℤ) (d : V) (k : ℕ) (v : V) (m : Dict V)
      → f d ≡ pos 0
      → total f (insert k v m) +ℤ f (get d k m) ≡ total f m +ℤ f v
  total-insert f d k v [] e = rw e (omega int_laws)
  total-insert f d k v ((j, w) ∷ m) e = grind (int_laws, total-insert f d k v m e)

  total-erase_fresh :
      (f : V → ℤ) (k : ℕ) (m : Dict V) → has k m ≡ false → total f (erase k m) ≡ total f m
  total-erase_fresh f k [] h = refl
  total-erase_fresh f k ((j, w) ∷ m) h = ground (arith, total-erase_fresh f k m)

  pub total-erase :
      (f : V → ℤ) (d : V) (k : ℕ) (m : Dict V)
      → f d ≡ pos 0
      → DistinctKeys m
      → total f (erase k m) +ℤ f (get d k m) ≡ total f m
  total-erase f d k [] e h = rw e (omega int_laws)
  total-erase f d k ((j, w) ∷ m) e h =
      grind (int_laws, total-erase f d k m e h.1, total-erase_fresh f j m h.0)

-- The sum of what the listed addresses hold.
abbrev pub sum_over : List ℕ → Dict ℤ → ℤ
sum_over [] m = pos 0
sum_over (a ∷ xs) m = get (pos 0) a m +ℤ sum_over xs m

sum_over-insert_fresh :
    (xs : List ℕ) (k : ℕ) (v : ℤ) (m : Dict ℤ)
    → contains xs k ≡ false
    → sum_over xs (insert k v m) ≡ sum_over xs m
sum_over-insert_fresh [] k v m h = refl
sum_over-insert_fresh (x ∷ xs) k v m h =
    ground (arith, get-insert (pos 0) x k v m, sum_over-insert_fresh xs k v m)

pub sum_over-insert :
    (xs : List ℕ) (k : ℕ) (v : ℤ) (m : Dict ℤ)
    → Distinct xs
    → contains xs k ≡ true
    → sum_over xs (insert k v m) +ℤ get (pos 0) k m ≡ sum_over xs m +ℤ v
sum_over-insert [] k v m d h = absurd (cc h)
sum_over-insert (x ∷ xs) k v m d h = grind (
  int_laws,
  get-insert (pos 0) x k v m,
  sum_over-insert_fresh xs k v m,
  sum_over-insert xs k v m d.1,
)

pub sum_over-append :
    (xs : List ℕ) (a : ℕ) (m : Dict ℤ)
    → sum_over (xs ++ a ∷ []) m ≡ sum_over xs m +ℤ get (pos 0) a m
sum_over-append [] a m = omega int_laws
sum_over-append (x ∷ xs) a m = rw (sum_over-append xs a m) (omega int_laws)
