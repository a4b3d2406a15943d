-- ===== src/Escrow/Fees/Flat.antt =====
-- What `deduct_fee` leaves as it is, and what it sends with a single treasury.
use chainsettle_contract.Base.{
  ℕ, ◌≡◌, refl, ◌∙◌, Bool, true, false, Option, none, some, List, [], ◌∷◌, if◌then◌else◌,
}
use chainsettle_contract.Base.Int.{ℤ, pos, ◌-ℤ◌, ltb_ℤ}
use chainsettle_contract.Base.Result.{
  ok, add_i128, sub_i128, Post, Post-bind, Post-panic_if, Post-ok, Post-checked, Post-if, Post-mono,
}
use chainsettle_contract.Escrow.Fees.{
  fee_holiday_active, track_treasury_revenue, bps_of, pay_recipients, distribute_to, distribute_fee,
  charge_flat_fee, deduct_fee,
}
use chainsettle_contract.Escrow.Fees.Net.{track_treasury_revenue-SameBooks}
use chainsettle_contract.Escrow.Host.{Ledger, send}
use chainsettle_contract.Escrow.State.{FeeConfig, FeeRecipient, Escrow}

-- The tallies, the settings and what is stored under shipments' ids are the same.
abbrev SameRest : Escrow → Escrow → Type 0
SameRest s s' = (s'.tallies ≡ s.tallies) × (s'.policy ≡ s.policy) × (s'.deals ≡ s.deals)

send-SameRest :
    (env : Ledger) (token receiver : ℕ) (amount : ℤ) (s : Escrow)
    → Post (send env token env.this_contract receiver amount s) (SameRest s)
unfolding send
send-SameRest env token receiver amount s = Post-panic_if _ _ _ _ λ _. (refl, refl, refl)

pay_recipients-SameRest :
    (env : Ledger) (token : ℕ) (fee : ℤ) (is_first : Bool) (rs : List FeeRecipient) (given : ℤ)
    (s : Escrow)
    → Post (pay_recipients env token fee is_first rs given s) (SameRest s)
unfolding pay_recipients
pay_recipients-SameRest env token fee is_first [] given s = (refl, refl, refl)
pay_recipients-SameRest env token fee is_first (r ∷ rs) given s =
    Post-bind _ (if is_first then sub_i128 fee given else bps_of fee r.share_bps) _ λ share _.
      Post-bind _
        (if ltb_ℤ (pos 0) share then send env token env.this_contract r.recipient share s else ok s)
        _
        λ s₁ e.
          let (t₁, p₁, d₁) = Post-ok _ e (
            Post-if _ (ltb_ℤ (pos 0) share) _ _ (λ _. send-SameRest env token r.recipient share s)
              λ _. (refl, refl, refl)) in
          Post-bind _ (if ltb_ℤ (pos 0) share then add_i128 given share else ok given) _ λ given' _.
            Post-mono _ (pay_recipients env token fee false rs given' s₁)
              (λ s₂ (t₂, p₂, d₂). (t₂ ∙ t₁, p₂ ∙ p₁, d₂ ∙ d₁))
              (pay_recipients-SameRest env token fee false rs given' s₁)

distribute_to-SameRest :
    (env : Ledger) (token : ℕ) (fee : ℤ) (config : FeeConfig) (to : Option (List FeeRecipient))
    (s : Escrow)
    → Post (distribute_to env token fee config to s) (SameRest s)
unfolding distribute_to
distribute_to-SameRest env token fee config none s = send-SameRest env token config.treasury fee s
distribute_to-SameRest env token fee config (some []) s = (refl, refl, refl)
distribute_to-SameRest env token fee config (some (r ∷ [])) s =
    send-SameRest env token r.recipient fee s
distribute_to-SameRest env token fee config (some (r ∷ q ∷ rs)) s =
    pay_recipients-SameRest env token fee true (r ∷ q ∷ rs) (pos 0) s

charge_flat_fee-SameRest :
    (env : Ledger) (gross : ℤ) (token : ℕ) (config : Option FeeConfig) (s : Escrow)
    → Post (charge_flat_fee env gross token config s) (λ (net, s'). SameRest s s')
unfolding charge_flat_fee
charge_flat_fee-SameRest env gross token none s = (refl, refl, refl)
charge_flat_fee-SameRest env gross token (some config) s =
    Post-bind _ (bps_of gross config.fee_bps) _ λ fee _.
      Post-if _ (ltb_ℤ (pos 0) fee) _ _
        (λ _. Post-bind _ (distribute_fee env token fee config s) _ λ s₁ e₁.
          let (t₁, p₁, d₁) =
            Post-ok _ e₁ (distribute_to-SameRest env token fee config s.fee_recipients s) in
          Post-bind _ (track_treasury_revenue token fee s₁) _ λ s₂ e₂.
            let (_, t₂, p₂, d₂) = Post-ok _ e₂ (track_treasury_revenue-SameBooks token fee s₁) in
            Post-checked _ (gross -ℤ fee) _ λ _. (t₂ ∙ t₁, p₂ ∙ p₁, d₂ ∙ d₁))
        λ _. (refl, refl, refl)

pub deduct_fee-SameRest :
    (env : Ledger) (gross : ℤ) (token : ℕ) (s : Escrow)
    → Post (deduct_fee env gross token s) (λ (net, s'). SameRest s s')
unfolding deduct_fee
deduct_fee-SameRest env gross token s =
    Post-if _ (fee_holiday_active env s) _ _ (λ _. (refl, refl, refl))
      λ _. charge_flat_fee-SameRest env gross token s.fee_config s
