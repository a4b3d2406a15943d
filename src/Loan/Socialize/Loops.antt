-- ===== src/Loan/Socialize/Loops.antt =====
-- The two loops of the write-off: what each cut and each pass does to the depositors' balances.
use chainsettle_contract.Base.{
  ℕ, ◌≡◌, refl, sym, ◌∙◌, ◌⊎◌, inl, inr, true, false, List, [], ◌∷◌, arith, Bool-cases, contains,
  Distinct,
}
use chainsettle_contract.Base.Dict.{get, get-insert}
use chainsettle_contract.Base.Int.{
  ℤ, pos, ◌+ℤ◌, ◌-ℤ◌, ◌≤ℤ◌, ltb_ℤ, eqb_ℤ, min_ℤ, i128_max, int_laws, IsAmount, IsAmount-in_i128,
  ◌≈◌, ≈_of_eq,
}
use chainsettle_contract.Base.Result.{ok, Ensures, Ensures-bind, Ensures-checked}
use chainsettle_contract.Base.Sum.{sum_over, sum_over-insert}
use chainsettle_contract.Loan.Socialize.{
  Progress, cut_balance, cut_share, head_or_zero, rest, pass_one, cut_spare, pass_two,
}
use chainsettle_contract.Loan.Socialize.Cuts.{
  Held, Within, Held-insert, Held-get, CutsOnly, CutsOnly-refl, CutsOnly-cons, CutsOnly-insert,
  Snapshot, Snapshot-CutsOnly,
}

min_bounds : (s b r : ℤ) → (min_ℤ (min_ℤ s b) r ≤ℤ b) × (min_ℤ (min_ℤ s b) r ≤ℤ r)
min_bounds s b r = ground arith

spare_bounds : (b r : ℤ) → (min_ℤ b r ≤ℤ b) × (min_ℤ b r ≤ℤ r)
spare_bounds b r = ground arith

-- The cut of the second loop leaves no loss or no balance.
spare_covers :
    (b r b' r' : ℤ) → b' ≡ b -ℤ min_ℤ b r → r' ≡ r -ℤ min_ℤ b r → (r' ≈ pos 0) ⊎ (b' ≈ pos 0)
spare_covers b r b' r' e f = elim (Bool-cases (ltb_ℤ r b)) [
  | inl t ↦ inl (rw f (rw t (omega int_laws)))
  | inr t ↦ inr (rw e (rw t (omega int_laws)))
]

spare_none :
    (b r : ℤ)
    → pos 0 ≤ℤ b
    → pos 0 ≤ℤ r
    → ltb_ℤ (pos 0) (min_ℤ b r) ≡ false
    → (r ≈ pos 0) ⊎ (b ≈ pos 0)
spare_none b r h k e = ground arith

pass_two_done : (xs : List ℕ) (q : Progress) → q.residual ≈ pos 0 → pass_two xs q ≡ ok q
unfolding pass_two
pass_two_done [] q h = refl
pass_two_done (d ∷ xs) q h = let t : eqb_ℤ q.residual (pos 0) ≡ true = ground arith in rw t

residual_of_ok : (q r : Progress) → ok q ≡ ok r → q.residual ≈ pos 0 → r.residual ≈ pos 0
residual_of_ok q r e h = let same : q ≡ r = cc in rw same at h

-- How far the two loops are, for depositors `ds` who held `total` and are to lose `loss`.
pub record IsProgress (ds : List ℕ) (total loss : ℤ) (p : Progress) : Type 0 where
  pub split_loss : p.residual +ℤ p.applied_total ≈ loss
  pub split_total : sum_over ds p.balances +ℤ p.applied_total ≈ total
  pub residual_nonneg : pos 0 ≤ℤ p.residual
  pub applied_nonneg : pos 0 ≤ℤ p.applied_total
  pub held : Held ds p.balances

module _ (ds : List ℕ) (total loss : ℤ) (distinct : Distinct ds)
    (in_range : loss ≤ℤ pos i128_max) where
  -- One cut keeps the account, and changes one balance.
  cut_balance-Ensures :
      (d : ℕ) (cut : ℤ) (p : Progress)
      → contains ds d ≡ true
      → IsProgress ds total loss p
      → pos 0 ≤ℤ cut
      → cut ≤ℤ get (pos 0) d p.balances
      → cut ≤ℤ p.residual
      → Ensures (cut_balance d (get (pos 0) d p.balances) cut p) (λ q.
        IsProgress ds total loss q
        × CutsOnly (d ∷ []) p.balances q.balances
        × (get (pos 0) d q.balances ≡ get (pos 0) d p.balances -ℤ cut)
        × (q.residual ≡ p.residual -ℤ cut))
  unfolding cut_balance
  cut_balance-Ensures d cut p c h n l r =
      let bal = get (pos 0) d p.balances in
      let own : IsAmount bal = Held-get ds d p.balances c h.held in
      let left : IsAmount (bal -ℤ cut) = (omega (int_laws, own.0), omega (int_laws, own.1)) in
      let applied : IsAmount (p.applied_total +ℤ cut) = (omega int_laws, omega int_laws) in
      let residual : IsAmount (p.residual -ℤ cut) = (omega int_laws, omega int_laws) in
      Ensures-checked _ (bal -ℤ cut) _ (IsAmount-in_i128 _ left) (
        Ensures-checked _ (p.applied_total +ℤ cut) _ (IsAmount-in_i128 _ applied) (
          Ensures-checked _ (p.residual -ℤ cut) _ (IsAmount-in_i128 _ residual) (
            _,
            refl,
            (
              record {
                split_loss = omega int_laws;
                split_total =
                    omega
                      (int_laws, ≈_of_eq (sum_over-insert ds d (bal -ℤ cut) p.balances distinct c));
                residual_nonneg = residual.0;
                applied_nonneg = applied.0;
                held = Held-insert ds d (bal -ℤ cut) p.balances left h.held;
              },
              CutsOnly-insert d (bal -ℤ cut) p.balances (omega int_laws),
              ground (arith, get-insert (pos 0) d d (bal -ℤ cut) p.balances),
              refl,
            ),
          )))

  cut_share-Ensures :
      (d : ℕ) (share : ℤ) (p : Progress)
      → contains ds d ≡ true
      → IsProgress ds total loss p
      → Ensures
          (cut_share d (get (pos 0) d p.balances) share p)
          (λ q. IsProgress ds total loss q × CutsOnly (d ∷ []) p.balances q.balances)
  unfolding cut_share
  cut_share-Ensures d share p c h =
      let bal = get (pos 0) d p.balances in
      let (l, r) = min_bounds share bal p.residual in
      let cut : ℤ = min_ℤ (min_ℤ share bal) p.residual in
      elim (Bool-cases (ltb_ℤ (pos 0) cut)) [
        | inl e ↦ rw e (
            let (q, f, g) = cut_balance-Ensures d cut p c h (ground arith) l r in
            (q, f, (g.0, g.1)))
        | inr e ↦ rw e (p, refl, (h, CutsOnly-refl (d ∷ []) p.balances))
      ]

  pub pass_one-Ensures :
      (xs : List ℕ) (bals shares : List ℤ) (p : Progress)
      → Distinct xs
      → Within xs ds
      → Snapshot xs bals p.balances
      → IsProgress ds total loss p
      → Ensures
          (pass_one xs bals shares p)
          (λ q. IsProgress ds total loss q × CutsOnly xs p.balances q.balances)
  unfolding pass_one
  pass_one-Ensures [] bals shares p u w s h = (p, refl, (h, CutsOnly-refl [] p.balances))
  pass_one-Ensures (d ∷ xs) bals shares p u w s h = rw s.0 (
      Ensures-bind _ (cut_share d (get (pos 0) d p.balances) (head_or_zero shares) p) _
        (cut_share-Ensures d (head_or_zero shares) p w.0 h)
        λ q k.
          let (r, e, m) =
            pass_one-Ensures xs (rest bals) (rest shares) q u.1 w.1
              (Snapshot-CutsOnly d xs (rest bals) p.balances q.balances u.0 k.1 s.1) k.0 in
          (r, e, (m.0, CutsOnly-cons d xs p.balances q.balances r.balances k.1 m.1)))

  -- After a round of the second loop the loss is covered or the depositor has nothing left.
  cut_spare-Ensures :
      (d : ℕ) (p : Progress)
      → contains ds d ≡ true
      → IsProgress ds total loss p
      → Ensures (cut_spare d p) (λ q.
        IsProgress ds total loss q
        × CutsOnly (d ∷ []) p.balances q.balances
        × ((q.residual ≈ pos 0) ⊎ (get (pos 0) d q.balances ≈ pos 0)))
  unfolding cut_spare
  cut_spare-Ensures d p c h =
      let bal = get (pos 0) d p.balances in
      let own : IsAmount bal = Held-get ds d p.balances c h.held in
      let (l, r) = spare_bounds bal p.residual in
      let spare : ℤ = min_ℤ bal p.residual in
      elim (Bool-cases (ltb_ℤ (pos 0) spare)) [
        | inl e ↦ rw e (
            let (q, f, g) = cut_balance-Ensures d spare p c h (ground arith) l r in
            (q, f, (g.0, g.1, spare_covers bal p.residual _ _ g.2 g.3)))
        | inr e ↦ rw e (
          p,
          refl,
          (
            h,
            CutsOnly-refl (d ∷ []) p.balances,
            spare_none bal p.residual own.0 h.residual_nonneg e,
          ),
        )
      ]

  covered :
      (d : ℕ) (xs : List ℕ) (q r : Progress)
      → contains xs d ≡ false
      → pass_two xs q ≡ ok r
      → (q.residual ≈ pos 0) ⊎ (get (pos 0) d q.balances ≈ pos 0)
      → CutsOnly xs q.balances r.balances
      → (r.residual ≈ pos 0) ⊎ (sum_over xs r.balances ≈ pos 0)
      → (r.residual ≈ pos 0) ⊎ (sum_over (d ∷ xs) r.balances ≈ pos 0)
  covered d xs q r u f (inl z) g m = inl (residual_of_ok q r (sym (pass_two_done xs q z) ∙ f) z)
  covered d xs q r u f (inr z) g (inl m) = inl m
  covered d xs q r u f (inr z) g (inr m) = inr (omega (int_laws, ≈_of_eq ((g d).1 u)))

  pub pass_two-Ensures :
      (xs : List ℕ) (p : Progress)
      → Distinct xs
      → Within xs ds
      → IsProgress ds total loss p
      → Ensures (pass_two xs p) (λ q.
        IsProgress ds total loss q
        × CutsOnly xs p.balances q.balances
        × ((q.residual ≈ pos 0) ⊎ (sum_over xs q.balances ≈ pos 0)))
  unfolding pass_two
  pass_two-Ensures [] p u w h = (p, refl, (h, CutsOnly-refl [] p.balances, inr (omega arith)))
  pass_two-Ensures (d ∷ xs) p u w h = elim (Bool-cases (eqb_ℤ p.residual (pos 0))) [
    | inl e ↦ rw e (p, refl, (h, CutsOnly-refl (d ∷ xs) p.balances, inl (ground arith)))
    | inr e ↦ rw e (
        Ensures-bind _ (cut_spare d p) _ (cut_spare-Ensures d p w.0 h) λ q k.
          let (r, f, m) = pass_two-Ensures xs q u.1 w.1 k.0 in
          (
            r,
            f,
            (
              m.0,
              CutsOnly-cons d xs p.balances q.balances r.balances k.1 m.1,
              covered d xs q r u.0 f k.2 m.1 m.2,
            ),
          ))
  ]
