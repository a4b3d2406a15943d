-- ===== src/Escrow/Fees/Tiers.antt =====
-- The rate that a buyer's volume earns.
use chainsettle_contract.Base.{
  ℕ, zero, suc, ◌≤◌, ◌≡◌, refl, sym, ◌⊎◌, inl, inr, true, false, Option, none, some, List, [], ◌∷◌,
  arith, ltb, Bool-cases, get_or, get_elem?, All,
}
use chainsettle_contract.Base.Dict.{get}
use chainsettle_contract.Base.Int.{ℤ, pos, leb_ℤ, not_less}
use chainsettle_contract.Escrow.Fees.{better, best_tier, configured_bps, resolve_fee_bps_for}
use chainsettle_contract.Escrow.State.{FeeTier, Escrow}

-- A tier with this rate is reached by the volume.
abbrev pub IsEarned : ℤ → ℕ → List FeeTier → Type 0
IsEarned volume bps ts =
    (i : ℕ) × (t : FeeTier) × (get_elem? ts i ≡ some t)
    × (leb_ℤ t.min_lifetime_volume volume ≡ true)
    × (t.tier_bps ≡ bps)

-- No tier that the volume reaches has a rate below `bps`.
abbrev pub IsLowest : ℤ → ℕ → List FeeTier → Type 0
IsLowest volume bps ts = All (λ t. leb_ℤ t.min_lifetime_volume volume ≡ true → bps ≤ t.tier_bps) ts

abbrev pub NoneReached : ℤ → List FeeTier → Type 0
NoneReached volume ts = All (λ t. leb_ℤ t.min_lifetime_volume volume ≡ false) ts

later-IsEarned :
    (volume : ℤ) (bps : ℕ) (t : FeeTier) (ts : List FeeTier)
    → IsEarned volume bps ts
    → IsEarned volume bps (t ∷ ts)
later-IsEarned volume bps t ts (i, x, e, r, b) = (suc i, x, e, r, b)

-- What the better of two rates is.
better_of :
    (volume : ℤ) (b bps : ℕ) (t : FeeTier) (ts : List FeeTier)
    → leb_ℤ t.min_lifetime_volume volume ≡ true
    → (bps ≡ better (some b) t.tier_bps) ⊎ IsEarned volume bps ts
    → (bps ≡ b) ⊎ IsEarned volume bps (t ∷ ts)
better_of volume b bps t ts r (inr h) = inr (later-IsEarned volume bps t ts h)
better_of volume b bps t ts r (inl e) = elim (Bool-cases (ltb t.tier_bps b)) [
  | inl less ↦ let own : t.tier_bps ≡ bps = ground arith in inr (zero, t, refl, r, own)
  | inr not_less ↦ inl (ground arith)
]

best_tier_kept :
    (volume : ℤ) (b : ℕ) (ts : List FeeTier)
    → (bps : ℕ) × (best_tier volume ts (some b) ≡ some bps)
      × (bps ≤ b)
      × ((bps ≡ b) ⊎ IsEarned volume bps ts)
      × IsLowest volume bps ts
unfolding best_tier
best_tier_kept volume b [] = (b, refl, omega arith, inl refl, tt)
best_tier_kept volume b (t ∷ ts) = elim (Bool-cases (leb_ℤ t.min_lifetime_volume volume)) [
  | inl reached ↦
      let (bps, e, le, own, low) = best_tier_kept volume (better (some b) t.tier_bps) ts in
      rw reached
        ((bps, e, ground arith, better_of volume b bps t ts reached own, (λ _. ground arith, low)))
  | inr missed ↦
      let (bps, e, le, own, low) = best_tier_kept volume b ts in
      rw missed ((bps, e, le, later own, (λ r. absurd (cc r), low)))
]
  where
    later :
        {bps : ℕ} → (bps ≡ b) ⊎ IsEarned volume bps ts → (bps ≡ b) ⊎ IsEarned volume bps (t ∷ ts)
    later (inl same) = inl same
    later {bps} (inr h) = inr (later-IsEarned volume bps t ts h)

-- What `best_tier` finds from the start.
abbrev IsBest : ℤ → List FeeTier → Option ℕ → Type 0
IsBest volume ts none = NoneReached volume ts
IsBest volume ts (some bps) = IsEarned volume bps ts × IsLowest volume bps ts

best_tier-IsBest : (volume : ℤ) (ts : List FeeTier) → IsBest volume ts (best_tier volume ts none)
unfolding best_tier
best_tier-IsBest volume [] = tt
best_tier-IsBest volume (t ∷ ts) = elim (Bool-cases (leb_ℤ t.min_lifetime_volume volume)) [
  | inl reached ↦
      let (bps, e, le, own, low) = best_tier_kept volume t.tier_bps ts in
      rw (reached, e) ((first own reached, (λ _. le, low)))
  | inr missed ↦ rw missed (also missed (best_tier volume ts none) (best_tier-IsBest volume ts))
]
  where
    first :
        {bps : ℕ}
        → (bps ≡ t.tier_bps) ⊎ IsEarned volume bps ts
        → leb_ℤ t.min_lifetime_volume volume ≡ true
        → IsEarned volume bps (t ∷ ts)
    first (inl same) r = (zero, t, refl, r, sym same)
    first {bps} (inr h) r = later-IsEarned volume bps t ts h

    also :
        leb_ℤ t.min_lifetime_volume volume ≡ false
        → (o : Option ℕ) → IsBest volume ts o
        → IsBest volume (t ∷ ts) o
    also m none h = (m, h)
    also m (some bps) (own, low) =
        (later-IsEarned volume bps t ts own, (λ r. absurd (cc (m, r)), low))

-- The rate that is resolved from a buyer's lifetime volume is the configured one if the volume reaches
-- no tier, and otherwise the lowest rate among the tiers that it reaches, wherever they stand in the
-- list. Rates locked or set for one shipment take no part in it.
pub resolve_fee_bps_for-IsLowest :
    (s : Escrow) (buyer : ℕ)
    → let volume = get (pos 0) buyer s.lifetime_volume in
      let bps = resolve_fee_bps_for s buyer in
      (NoneReached volume s.fee_tiers × (bps ≡ configured_bps s))
      ⊎ (IsEarned volume bps s.fee_tiers × IsLowest volume bps s.fee_tiers)
unfolding resolve_fee_bps_for
resolve_fee_bps_for-IsLowest s buyer =
    let volume = get (pos 0) buyer s.lifetime_volume in
    choose (best_tier volume s.fee_tiers none) (best_tier-IsBest volume s.fee_tiers)
  where
    choose :
        (o : Option ℕ)
        → IsBest (get (pos 0) buyer s.lifetime_volume) s.fee_tiers o
        → (NoneReached (get (pos 0) buyer s.lifetime_volume) s.fee_tiers
            × (get_or o (configured_bps s) ≡ configured_bps s))
          ⊎ (IsEarned
                (get (pos 0) buyer s.lifetime_volume)
                (get_or o (configured_bps s))
                s.fee_tiers
              × IsLowest
                  (get (pos 0) buyer s.lifetime_volume)
                  (get_or o (configured_bps s))
                  s.fee_tiers)
    choose none h = inl (h, refl)
    choose (some bps) h = inr h
