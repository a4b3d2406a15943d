-- ===== src/Base/Dict.antt =====
-- Storage entries under one key constructor: an association list by address, read with a default,
-- with the sum of a measure over its entries and over the entries of listed addresses.
use Prim.Native.Nat.{ℕ}
use mathlib.Core.Path.{◌≡◌, refl}
use mathlib.Core.Logic.{inl, inr}
use mathlib.Core.List.{List, [], ◌∷◌}
use native.Mathlib.Omega.{arith}
use chainsettle_contract.Base.{◌==◌, if◌then◌else◌, Bool-cases}

abbrev pub Dict {ℓ} : Type ℓ → Type ℓ
Dict V = List (ℕ × V)

module _ {ℓ} {V : Type ℓ} where
  -- `get(key).unwrap_or(d)`
  abbrev pub get : V → ℕ → Dict V → V
  get d k [] = d
  get d k ((j, v) ∷ m) = if k == j then v else get d k m

  -- `set(key, v)`
  abbrev pub insert : ℕ → V → Dict V → Dict V
  insert k v [] = (k, v) ∷ []
  insert k v ((j, w) ∷ m) = if k == j then (k, v) ∷ m else (j, w) ∷ insert k v m

  -- `remove(key)`
  abbrev pub erase : ℕ → Dict V → Dict V
  erase k [] = []
  erase k ((j, w) ∷ m) = if k == j then erase k m else (j, w) ∷ erase k m

  pub get-insert :
      (d : V) (j k : ℕ) (v : V) (m : Dict V)
      → get d j (insert k v m) ≡ (if j == k then v else get d j m)
  get-insert d j k v [] = ground arith
  get-insert d j k v ((i, w) ∷ m) = ground (arith, get-insert d j k v m)

  pub get-erase :
      (d : V) (j k : ℕ) (m : Dict V) → get d j (erase k m) ≡ (if j == k then d else get d j m)
  get-erase d j k [] = ground arith
  get-erase d j k ((i, w) ∷ m) = ground (arith, get-erase d j k m)

pub get-insert_self {ℓ} :
    {V : Type ℓ} (d : V) (k : ℕ) (v : V) (m : Dict V) → get d k (insert k v m) ≡ v
get-insert_self d k v m = ground (arith, get-insert d k k v m)

-- A dictionary under each key: what is read after a value is put under two keys.
pub get-put_in {ℓ} :
    {V : Type ℓ} (d : V) (k l : ℕ) (v : V) (m : Dict (Dict V)) (i j : ℕ)
    → get d j (get [] i (insert k (insert l v (get [] k m)) m))
      ≡ (if i == k then (if j == l then v else get d j (get [] i m)) else get d j (get [] i m))
get-put_in d k l v m i j =
    rw (get-insert [] i k (insert l v (get [] k m)) m) (elim (Bool-cases (i == k)) [
      | inl e ↦ let same : i ≡ k = ground arith in rw (e, same) (get-insert d j l v (get [] k m))
      | inr e ↦ rw e refl
    ])
