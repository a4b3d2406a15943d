-- ===== src/Loan/Socialize/Cuts.antt =====
-- Balances from which cuts are taken, and the balances read before the cuts.
use chainsettle_contract.Base.{
  ℕ, ◌≡◌, refl, sym, ◌∙◌, inl, inr, true, false, List, [], ◌∷◌, arith, ◌==◌, Bool-cases, All,
  contains,
}
use chainsettle_contract.Base.Dict.{Dict, get, insert, get-insert}
use chainsettle_contract.Base.Int.{ℤ, pos, ◌≤ℤ◌, IsAmount}
use chainsettle_contract.Loan.Socialize.{head_or_zero, rest}

-- Every listed address holds an amount.
abbrev pub Held : List ℕ → Dict ℤ → Type 0
Held xs m = All (λ x. IsAmount (get (pos 0) x m)) xs

abbrev pub Within : List ℕ → List ℕ → Type 0
Within xs ds = All (λ x. contains ds x ≡ true) xs

pub Held-insert :
    (xs : List ℕ) (k : ℕ) (v : ℤ) (m : Dict ℤ) → IsAmount v → Held xs m → Held xs (insert k v m)
Held-insert [] k v m a h = tt
Held-insert (x ∷ xs) k v m a h =
    (ground (arith, get-insert (pos 0) x k v m), Held-insert xs k v m a h.1)

pub Held-get :
    (xs : List ℕ) (k : ℕ) (m : Dict ℤ)
    → contains xs k ≡ true
    → Held xs m
    → IsAmount (get (pos 0) k m)
Held-get [] k m c h = absurd (cc c)
Held-get (x ∷ xs) k m c h = elim (Bool-cases (k == x)) [
  | inl e ↦ let same : k ≡ x = ground arith in rw same h.0
  | inr e ↦ Held-get xs k m (ground arith) h.1
]

-- From `m` to `m'` no balance has grown, and none but those of `xs` has changed.
abbrev pub CutsOnly : List ℕ → Dict ℤ → Dict ℤ → Type 0
CutsOnly xs m m' =
    (k : ℕ)
    → (get (pos 0) k m' ≤ℤ get (pos 0) k m)
      × (contains xs k ≡ false → get (pos 0) k m' ≡ get (pos 0) k m)

pub CutsOnly-refl : (xs : List ℕ) (m : Dict ℤ) → CutsOnly xs m m
CutsOnly-refl xs m k = (omega arith, λ _. refl)

pub CutsOnly-trans :
    (xs : List ℕ) (a b c : Dict ℤ) → CutsOnly xs a b → CutsOnly xs b c → CutsOnly xs a c
CutsOnly-trans xs a b c f g k = (omega (arith, (f k).0, (g k).0), λ h. (g k).1 h ∙ (f k).1 h)

pub CutsOnly-cons :
    (d : ℕ) (xs : List ℕ) (a b c : Dict ℤ)
    → CutsOnly (d ∷ []) a b
    → CutsOnly xs b c
    → CutsOnly (d ∷ xs) a c
CutsOnly-cons d xs a b c f g k =
    (omega (arith, (f k).0, (g k).0), λ h. (g k).1 (ground arith) ∙ (f k).1 (ground arith))

pub CutsOnly-insert :
    (d : ℕ) (v : ℤ) (m : Dict ℤ) → v ≤ℤ get (pos 0) d m → CutsOnly (d ∷ []) m (insert d v m)
CutsOnly-insert d v m h k =
    (ground (arith, get-insert (pos 0) k d v m), λ e. ground (arith, get-insert (pos 0) k d v m))

-- The balances read before the first loop are still those of the depositors that it has to visit.
abbrev pub Snapshot : List ℕ → List ℤ → Dict ℤ → Type 0
Snapshot [] bals m = Unit
Snapshot (x ∷ xs) bals m = (head_or_zero bals ≡ get (pos 0) x m) × Snapshot xs (rest bals) m

pub Snapshot-CutsOnly :
    (d : ℕ) (xs : List ℕ) (bals : List ℤ) (m m' : Dict ℤ)
    → contains xs d ≡ false
    → CutsOnly (d ∷ []) m m'
    → Snapshot xs bals m
    → Snapshot xs bals m'
Snapshot-CutsOnly d [] bals m m' c f s = tt
Snapshot-CutsOnly d (x ∷ xs) bals m m' c f s = (
  s.0 ∙ sym ((f x).1 (ground arith)),
  Snapshot-CutsOnly d xs (rest bals) m m' (ground arith) f s.1,
)
