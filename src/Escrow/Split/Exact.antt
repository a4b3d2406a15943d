-- ===== src/Escrow/Split/Exact.antt =====
-- A split shares out exactly what it splits.
use chainsettle_contract.Base.{
  ℕ, zero, suc, ◌+◌, ◌-◌, ◌≤◌, ◌<◌, ◌≡◌, refl, ap, inl, inr, ◌||◌, List, [], ◌∷◌, ◌++◌, arith, ltb,
  leb, ◌==◌, Bool-cases, length, length-append, All,
}
use chainsettle_contract.Base.Result.{
  Result, ◌>>=◌, panic_if, Post, Post-bind, Post-panic_if, Post-ok, Post-mono,
}
use chainsettle_contract.Escrow.Split.{
  Part, sub_u32, checked_u64, scaled, next_allocation, apportion, apportion_split_weight,
  replace_at, split_distribution,
}

abbrev pub sum : List ℕ → ℕ
sum [] = 0
sum (x ∷ xs) = x + sum xs

abbrev AllPositive : List ℕ → Type 0
AllPositive xs = All (λ x. 1 ≤ x) xs

-- Every part gets something, and the parts' shares come to `left`.
abbrev pub SharesOut : ℕ → List Part → List ℕ → Type 0
SharesOut left parts shares =
    (length shares ≡ length parts) × AllPositive shares × (sum shares ≡ left)

Post-sub_u32 {ℓ κ} :
    {B : Type ℓ} (Q : B → Type κ) (a b : ℕ) (f : ℕ → Result B)
    → (b ≤ a → Post (f (a - b)) Q)
    → Post (sub_u32 a b >>= f) Q
unfolding sub_u32 panic_if
Post-sub_u32 Q a b f h = elim (Bool-cases (ltb a b)) [
  | inl below ↦ rw below tt
  | inr above ↦ rw above (h (ground arith))
]

apportion-SharesOut :
    (weight percent cumulative allocated : ℕ) (p : Part) (ps : List Part)
    → Post
        (apportion weight percent cumulative allocated (p ∷ ps))
        (λ shares. (allocated ≤ weight) × SharesOut (weight - allocated) (p ∷ ps) shares)
unfolding apportion next_allocation
apportion-SharesOut weight percent cumulative allocated p [] =
    Post-bind _ (checked_u64 (cumulative + p.payment_percent)) _ λ cumulative' _.
      Post-sub_u32 _ weight allocated _ λ enough.
        Post-panic_if _ ((weight - allocated) == 0) _ _
          λ some. (enough, (refl, (ground arith, tt), omega arith))
apportion-SharesOut weight percent cumulative allocated p (q ∷ ps) =
    Post-bind _ (checked_u64 (cumulative + p.payment_percent)) _ λ cumulative' _.
      Post-bind _ (scaled weight cumulative' percent) _ λ next _.
        Post-sub_u32 _ next allocated _ λ enough.
          Post-panic_if _ ((next - allocated) == 0) _ _ λ some.
            Post-bind _ (apportion weight percent cumulative' next (q ∷ ps)) _ λ others e.
              let (within, (same, positive, whole)) =
                Post-ok _ e (apportion-SharesOut weight percent cumulative' next q ps) in
              (omega arith, (ap suc same, (ground arith, positive), omega arith))

-- A split that goes through gives every part a share above zero, and the shares come to exactly the
-- weight that is split, whatever the rounding.
pub apportion_split_weight-SharesOut :
    (weight percent : ℕ) (p : Part) (ps : List Part)
    → Post (apportion_split_weight weight percent (p ∷ ps)) (SharesOut weight (p ∷ ps))
unfolding apportion_split_weight
apportion_split_weight-SharesOut weight percent p ps =
    Post-mono _ (apportion weight percent 0 0 (p ∷ ps))
      (λ shares h. (h.1.0, h.1.1, omega (arith, h.1.2)))
      (apportion-SharesOut weight percent 0 0 p ps)

sum-append : (xs ys : List ℕ) → sum (xs ++ ys) ≡ sum xs + sum ys
sum-append [] ys = omega arith
sum-append (x ∷ xs) ys = omega (arith, sum-append xs ys)

-- Replacing one value by values that come to the same keeps the sum.
replace_at-sum :
    (index : ℕ) (f : ℕ → Result (List ℕ)) (n : ℕ) (ws : List ℕ)
    → ((w : ℕ) → Post (f w) (λ new. (length new ≡ n) × (sum new ≡ w)))
    → index < length ws
    → Post (replace_at index f ws) (λ r. (sum r ≡ sum ws) × (length r + 1 ≡ length ws + n))
unfolding replace_at
replace_at-sum index f n [] h b = absurd (omega arith)
replace_at-sum zero f n (w ∷ ws) h b = Post-bind _ (f w) _ λ new e.
    let (many, same) = Post-ok _ e (h w) in
    (omega (arith, sum-append new ws), omega (arith, length-append new ws))
replace_at-sum (suc index) f n (w ∷ ws) h b = Post-bind _ (replace_at index f ws) _ λ others e.
    let (same, many) = Post-ok _ e (replace_at-sum index f n ws h (omega arith)) in
    (omega arith, omega arith)

-- A split of a milestone keeps the sum of all milestones' payout weights, and puts as many weights
-- as there are parts in the place of one.
pub split_distribution-sum :
    (index percent : ℕ) (p : Part) (ps : List Part) (weights : List ℕ)
    → Post
        (split_distribution index percent (p ∷ ps) weights)
        (λ r. (sum r ≡ sum weights) × (length r + 1 ≡ length weights + length (p ∷ ps)))
unfolding split_distribution
split_distribution-sum index percent p ps weights =
    Post-panic_if _ (length weights == 0 || leb (length weights) index) _ _ λ inside.
      replace_at-sum index (λ w. apportion_split_weight w percent (p ∷ ps)) (length (p ∷ ps))
        weights
        (λ w.
          Post-mono _ (apportion_split_weight w percent (p ∷ ps)) (λ r h. (h.0, h.2))
            (apportion_split_weight-SharesOut w percent p ps))
        (ground arith)
