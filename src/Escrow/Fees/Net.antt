-- ===== src/Escrow/Fees/Net.antt =====
-- What a payment is reduced by, and where it goes.
use chainsettle_contract.Base.{
  ℕ, ◌*◌, ◌/◌, ◌≡◌, refl, ap, ◌∙◌, inl, inr, Bool, true, false, Option, none, some, List, ◌∷◌,
  arith, Bool-cases,
}
use chainsettle_contract.Base.Dict.{get}
use chainsettle_contract.Base.Int.{
  ℤ, pos, ◌+ℤ◌, ◌-ℤ◌, ◌*ℤ◌, ltb_ℤ, leb_ℤ, int_laws, pos_mul, pos_div, ◌≈◌,
}
use chainsettle_contract.Base.Result.{Post, Post-bind, Post-ok, Post-checked, Post-if}
use chainsettle_contract.Base.Token.{Transfer, sent_in_all}
use chainsettle_contract.Escrow.Fees.{
  fee_holiday_active, resolve_fee_waiver_bps, track_treasury_revenue, track_shipment_fees_paid,
  bps_of, waived, rate_at_completion, take_fee, charge_fee, deduct_fee_at_completion,
}
use chainsettle_contract.Escrow.Host.{Ledger, Post-send}
use chainsettle_contract.Escrow.State.{FeeConfig, Escrow}

-- The newest transfer is the fee to the treasury, and nothing was sent if there is no fee.
abbrev pub IsPaidTo : Ledger → ℕ → ℕ → ℤ → List Transfer → List Transfer → Type 0
IsPaidTo env token treasury fee before after =
    (ltb_ℤ (pos 0) fee ≡ true
      → after
        ≡ record { token = token; sender = env.this_contract; receiver = treasury; amount = fee }
          ∷ before)
    × (ltb_ℤ (pos 0) fee ≡ false → after ≡ before)

-- The transfers, the tallies, the settings and what is stored under shipments' ids are the same.
abbrev pub SameBooks : Escrow → Escrow → Type 0
SameBooks s s' =
    (s'.sent ≡ s.sent) × (s'.tallies ≡ s.tallies) × (s'.policy ≡ s.policy) × (s'.deals ≡ s.deals)

pub track_treasury_revenue-SameBooks :
    (token : ℕ) (amount : ℤ) (s : Escrow)
    → Post (track_treasury_revenue token amount s) (SameBooks s)
unfolding track_treasury_revenue
track_treasury_revenue-SameBooks token amount s =
    Post-checked _ (get (pos 0) token s.treasury_revenue +ℤ amount) _ λ _. (refl, refl, refl, refl)

track_shipment_fees_paid-SameBooks :
    (shipment_id : ℕ) (fee : ℤ) (s : Escrow)
    → Post (track_shipment_fees_paid shipment_id fee s) (SameBooks s)
unfolding track_shipment_fees_paid
track_shipment_fees_paid-SameBooks shipment_id fee s =
    Post-if _ (leb_ℤ fee (pos 0)) _ _ (λ _. (refl, refl, refl, refl))
      λ _.
        Post-checked _ (get (pos 0) shipment_id s.fees_paid +ℤ fee) _ λ _. (refl, refl, refl, refl)

pub bps_of-value :
    (gross bps : ℕ) → Post (bps_of (pos gross) bps) (λ fee. fee ≡ pos (gross * bps / 10000))
unfolding bps_of
bps_of-value gross bps =
    Post-checked _ (pos gross *ℤ pos bps) _
      λ _. rw (pos_mul gross bps, pos_div (gross * bps) 10000) refl

no_fee : (n : ℕ) → ltb_ℤ (pos 0) (pos n) ≡ false → pos 0 ≡ pos n
no_fee n h = ap pos (ground arith)

-- What is deducted splits the payment: the net amount and the fee come to the gross amount, the fee
-- is the payment's share at the rate, rounded towards zero, and it went to the treasury alone.
pub take_fee_splits :
    (env : Ledger) (gross : ℕ) (bps token shipment_id : ℕ) (config : FeeConfig) (s : Escrow)
    → Post (take_fee env (pos gross) bps token shipment_id config s) (λ (net, fee, s').
      (net +ℤ fee ≈ pos gross)
      × (fee ≡ pos (gross * bps / 10000))
      × IsPaidTo env token config.treasury fee s.sent s'.sent)
unfolding take_fee
take_fee_splits env gross bps token shipment_id config s =
    Post-bind _ (bps_of (pos gross) bps) _ λ fee e.
      let value : fee ≡ pos (gross * bps / 10000) = Post-ok _ e (bps_of-value gross bps) in
      elim (Bool-cases (ltb_ℤ (pos 0) fee)) [
        | inr free ↦
            rw free ((omega int_laws, no_fee _ (rw value at free), (λ p. absurd (cc p), λ _. refl)))
        | inl positive ↦ rw positive (
            Post-send _ env token env.this_contract config.treasury fee s _ (
              Post-bind _ (track_treasury_revenue token fee _) _ λ s₂ e₂.
                Post-bind _ (track_shipment_fees_paid shipment_id fee s₂) _ λ s₃ e₃.
                  Post-checked _ (pos gross -ℤ fee) _ λ _. (
                    omega int_laws,
                    value,
                    (
                      λ _.
                          (Post-ok _ e₃ (track_shipment_fees_paid-SameBooks shipment_id fee s₂)).0
                          ∙ (Post-ok _ e₂ (track_treasury_revenue-SameBooks token fee _)).0,
                      λ n. absurd (cc n),
                    ),
                  )))
      ]

-- What is sent with what is left comes to the gross amount; tallies and settings stay.
abbrev Charges : ℤ → ℤ → Escrow → Escrow → Type 0
Charges gross net s s' =
    (net +ℤ sent_in_all s'.sent ≈ gross +ℤ sent_in_all s.sent)
    × (s'.tallies ≡ s.tallies)
    × (s'.policy ≡ s.policy)
    × (s'.deals ≡ s.deals)

take_fee-Charges :
    (env : Ledger) (gross : ℤ) (bps token shipment_id : ℕ) (config : FeeConfig) (s : Escrow)
    → Post
        (take_fee env gross bps token shipment_id config s)
        (λ (net, fee, s'). Charges gross net s s')
unfolding take_fee
take_fee-Charges env gross bps token shipment_id config s =
    Post-bind _ (bps_of gross bps) _ λ fee _.
      Post-if _ (ltb_ℤ (pos 0) fee) _ _
        (λ _. Post-send _ env token env.this_contract config.treasury fee s _ (
          Post-bind _ (track_treasury_revenue token fee _) _ λ s₂ e₂.
            Post-bind _ (track_shipment_fees_paid shipment_id fee s₂) _ λ s₃ e₃.
              Post-checked _ (gross -ℤ fee) _ λ _.
                let (sent₂, tallies₂, policy₂, deals₂) =
                  Post-ok _ e₂ (track_treasury_revenue-SameBooks token fee _) in
                let (sent₃, tallies₃, policy₃, deals₃) =
                  Post-ok _ e₃ (track_shipment_fees_paid-SameBooks shipment_id fee s₂) in
                (
                  rw (sent₃ ∙ sent₂) (omega int_laws),
                  tallies₃ ∙ tallies₂,
                  policy₃ ∙ policy₂,
                  deals₃ ∙ deals₂,
                )))
        λ _. (refl, refl, refl, refl)

charge_fee-Charges :
    (env : Ledger) (gross : ℤ) (token shipment_id buyer : ℕ) (is_final : Bool)
    (config : Option FeeConfig) (s : Escrow)
    → Post
        (charge_fee env gross token shipment_id buyer is_final config s)
        (λ (net, bps, fee, s'). Charges gross net s s')
unfolding charge_fee
charge_fee-Charges env gross token shipment_id buyer is_final none s = (refl, refl, refl, refl)
charge_fee-Charges env gross token shipment_id buyer is_final (some config) s =
    Post-bind _
      (waived (rate_at_completion s config shipment_id buyer is_final)
        (resolve_fee_waiver_bps env s buyer))
      _
      λ bps _.
        Post-bind _ (take_fee env gross bps token shipment_id config s) _ λ (net, fee, s') e.
          Post-ok _ e (take_fee-Charges env gross bps token shipment_id config s)

pub deduct_fee_at_completion-Charges :
    (env : Ledger) (gross : ℤ) (token shipment_id buyer : ℕ) (is_final : Bool) (s : Escrow)
    → Post
        (deduct_fee_at_completion env gross token shipment_id buyer is_final s)
        (λ (net, bps, fee, s'). Charges gross net s s')
unfolding deduct_fee_at_completion
deduct_fee_at_completion-Charges env gross token shipment_id buyer is_final s =
    Post-if _ (fee_holiday_active env s) _ _ (λ _. (refl, refl, refl, refl))
      λ _. charge_fee-Charges env gross token shipment_id buyer is_final s.fee_config s
