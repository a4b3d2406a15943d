-- ===== src/Escrow/Fees.antt =====
-- The platform's fee (contracts/chainsetttle/src/lib.rs): which rate applies, what is taken from a
-- payment, and who receives it.
pub mod Tiers
pub mod Net
pub mod Recipients
pub mod Flat
use chainsettle_contract.Base.{
  ℕ, ◌-◌, ◌*◌, ◌/◌, ◌%◌, ◌^◌, Bool, true, false, not, ◌&&◌, Option, none, some, List, [], ◌∷◌, ltb,
  leb, ◌==◌, if◌then◌else◌, get_or,
}
use chainsettle_contract.Base.Dict.{get, insert}
use chainsettle_contract.Base.Int.{ℤ, pos, ◌/ℤ◌, ltb_ℤ, leb_ℤ}
use chainsettle_contract.Base.Result.{
  Result, ok, ◌>>=◌, ◌>>◌, panic_if, add_i128, sub_i128, mul_i128,
}
use chainsettle_contract.Base.Sum.{total}
use chainsettle_contract.Escrow.Host.{Ledger, send}
use chainsettle_contract.Escrow.State.{FeeConfig, FeeRecipient, FeeTier, Escrow}

unfoldable pub fee_holiday_active : Ledger → Escrow → Bool
fee_holiday_active env s = elim s.fee_holiday [
  | none ↦ false
  | some holiday ↦ leb holiday.start_ledger env.sequence && leb env.sequence holiday.end_ledger
]

abbrev pub better : Option ℕ → ℕ → ℕ
better none bps = bps
better (some b) bps = if ltb bps b then bps else b

-- The loop of `resolve_fee_bps_for`, at the best rate so far.
pub best_tier : ℤ → List FeeTier → Option ℕ → Option ℕ
best_tier volume [] best = best
best_tier volume (t ∷ ts) best =
    best_tier volume ts
      (if leb_ℤ t.min_lifetime_volume volume then some (better best t.tier_bps) else best)

abbrev pub configured_bps : Escrow → ℕ
configured_bps s = elim s.fee_config [ none ↦ 0 | some c ↦ c.fee_bps ]

pub resolve_fee_bps_for : Escrow → ℕ → ℕ
resolve_fee_bps_for s buyer =
    get_or (best_tier (get (pos 0) buyer s.lifetime_volume) s.fee_tiers none) (configured_bps s)

-- `get_fee_waiver` and `resolve_fee_waiver_bps`: a grant is the rate and the time of its expiry.
unfoldable pub resolve_fee_waiver_bps : Ledger → Escrow → ℕ → ℕ
resolve_fee_waiver_bps env s partner = elim (get none partner s.fee_waivers) [
  | none ↦ 0
  | some (bps, expires_at) ↦ if not (expires_at == 0) && leb expires_at env.clock then 0 else bps
]

unfoldable pub track_treasury_revenue : ℕ → ℤ → Escrow → Result Escrow
track_treasury_revenue token amount s = do
  total ← add_i128 (get (pos 0) token s.treasury_revenue) amount
  ok (record s { treasury_revenue = insert token total s.treasury_revenue })

unfoldable pub track_shipment_fees_paid : ℕ → ℤ → Escrow → Result Escrow
track_shipment_fees_paid shipment_id fee s =
    let paid = add_i128 (get (pos 0) shipment_id s.fees_paid) fee >>= λ total.
    ok (record s { fees_paid = insert shipment_id total s.fees_paid }) in
    if leb_ℤ fee (pos 0) then ok s else paid

-- `(gross * bps) / 10_000`
unfoldable pub bps_of : ℤ → ℕ → Result ℤ
bps_of gross bps = mul_i128 gross (pos bps) >>= λ product. ok (product /ℤ pos 10000)

-- The reduction of a rate by a waiver.
unfoldable pub waived : ℕ → ℕ → Result ℕ
waived bps waiver_bps =
    let off = bps * waiver_bps / 10000 % 2 ^ 32 in
    if waiver_bps == 0 then ok bps else panic_if (ltb bps off) "overflow" >> ok (bps - off)

-- The rate of `deduct_fee_for_shipment_at_completion`, before the waiver.
abbrev pub rate_at_completion : Escrow → FeeConfig → ℕ → ℕ → Bool → ℕ
rate_at_completion s config shipment_id buyer is_final =
    elim (get none shipment_id s.fee_override) [
      | some o ↦ o
      | none ↦
          if is_final
          then resolve_fee_bps_for s buyer
          else get_or (get none shipment_id s.locked_fee_bps) config.fee_bps
    ]

-- What is deducted at a rate: the net amount, the fee, and the state after the transfers.
unfoldable pub take_fee : Ledger → ℤ → ℕ → ℕ → ℕ → FeeConfig → Escrow → Result (ℤ × ℤ × Escrow)
take_fee env gross bps token shipment_id config s = do
  fee ← bps_of gross bps
  let taken = (do
    s₁ ← send env token env.this_contract config.treasury fee s
    s₂ ← track_treasury_revenue token fee s₁
    s₃ ← track_shipment_fees_paid shipment_id fee s₂
    net ← sub_i128 gross fee
    ok (net, fee, s₃))
  if ltb_ℤ (pos 0) fee then taken else ok (gross, pos 0, s)

-- The part of `deduct_fee_for_shipment_at_completion` after the holiday, at the stored fee configuration.
unfoldable pub charge_fee :
    Ledger → ℤ → ℕ → ℕ → ℕ → Bool → Option FeeConfig → Escrow → Result (ℤ × ℕ × ℤ × Escrow)
charge_fee env gross token shipment_id buyer is_final none s = ok (
  gross,
  get_or (get none shipment_id s.fee_override) (get_or (get none shipment_id s.locked_fee_bps) 0),
  pos 0,
  s,
)
charge_fee env gross token shipment_id buyer is_final (some config) s =
    waived (rate_at_completion s config shipment_id buyer is_final)
      (resolve_fee_waiver_bps env s buyer)
    >>= λ bps. take_fee env gross bps token shipment_id config s >>= λ (net, fee, s').
        ok (net, bps, fee, s')

-- `deduct_fee_for_shipment_at_completion`: the net amount, the rate, the fee, and the state.
unfoldable pub deduct_fee_at_completion :
    Ledger → ℤ → ℕ → ℕ → ℕ → Bool → Escrow → Result (ℤ × ℕ × ℤ × Escrow)
deduct_fee_at_completion env gross token shipment_id buyer is_final s =
    let charged = charge_fee env gross token shipment_id buyer is_final s.fee_config s in
    if fee_holiday_active env s then ok (gross, 0, pos 0, s) else charged

-- The loop over several recipients: the first takes what is not distributed yet, the whole fee.
pub pay_recipients : Ledger → ℕ → ℤ → Bool → List FeeRecipient → ℤ → Escrow → Result Escrow
pay_recipients env token fee is_first [] distributed s = ok s
pay_recipients env token fee is_first (r ∷ rs) distributed s =
    (if is_first then sub_i128 fee distributed else bps_of fee r.share_bps) >>= λ share.
    (if ltb_ℤ (pos 0) share then send env token env.this_contract r.recipient share s else ok s)
    >>= λ s₁.
        (if ltb_ℤ (pos 0) share then add_i128 distributed share else ok distributed)
        >>= λ distributed'. pay_recipients env token fee false rs distributed' s₁

-- The transfers of `deduct_fee` and `deduct_fee_for_shipment`, to the stored recipients.
pub distribute_to : Ledger → ℕ → ℤ → FeeConfig → Option (List FeeRecipient) → Escrow → Result Escrow
distribute_to env token fee config none s = send env token env.this_contract config.treasury fee s
distribute_to env token fee config (some []) s = ok s
distribute_to env token fee config (some (r ∷ [])) s =
    send env token env.this_contract r.recipient fee s
distribute_to env token fee config (some (r ∷ q ∷ rs)) s =
    pay_recipients env token fee true (r ∷ q ∷ rs) (pos 0) s

abbrev pub distribute_fee : Ledger → ℕ → ℤ → FeeConfig → Escrow → Result Escrow
distribute_fee env token fee config s = distribute_to env token fee config s.fee_recipients s

-- `deduct_fee_for_shipment`: the net amount, the fee, and the state.
deduct_fee_for_shipment : Ledger → ℤ → ℕ → ℕ → Escrow → Result (ℤ × ℤ × Escrow)
deduct_fee_for_shipment env gross token shipment_id s =
    let charged : Result (ℤ × ℤ × Escrow) = elim s.fee_config [
      | none ↦ ok (gross, pos 0, s)
      | some config ↦ do
        let bps =
            get_or (get none shipment_id s.fee_override)
              (get_or (get none shipment_id s.locked_fee_bps) config.fee_bps)
        fee ← bps_of gross bps
        let taken = (do
          s₁ ← distribute_fee env token fee config s
          s₂ ← track_treasury_revenue token fee s₁
          s₃ ← track_shipment_fees_paid shipment_id fee s₂
          net ← sub_i128 gross fee
          ok (net, fee, s₃))
        if ltb_ℤ (pos 0) fee then taken else ok (gross, pos 0, s)
    ] in
    if fee_holiday_active env s then ok (gross, pos 0, s) else charged

-- The part of `deduct_fee` after the holiday, at the stored fee configuration.
pub charge_flat_fee : Ledger → ℤ → ℕ → Option FeeConfig → Escrow → Result (ℤ × Escrow)
charge_flat_fee env gross token none s = ok (gross, s)
charge_flat_fee env gross token (some config) s = bps_of gross config.fee_bps >>= λ fee.
    let taken = (do
      s₁ ← distribute_fee env token fee config s
      s₂ ← track_treasury_revenue token fee s₁
      net ← sub_i128 gross fee
      ok (net, s₂)) in
    if ltb_ℤ (pos 0) fee then taken else ok (gross, s)

-- `deduct_fee`: the net amount and the state.
pub deduct_fee : Ledger → ℤ → ℕ → Escrow → Result (ℤ × Escrow)
deduct_fee env gross token s =
    let charged = charge_flat_fee env gross token s.fee_config s in
    if fee_holiday_active env s then ok (gross, s) else charged
