-- ===== src/Escrow/Complete.antt =====
-- What the completion of a shipment does (contracts/chainsetttle/src/lib.rs): reputation and tier, the
-- index by status, retainage, warranty, and the rebate on fees for a shipment without disputes.
pub mod Exact
use chainsettle_contract.Base.{
  ℕ, ◌+◌, ◌*◌, ◌/◌, min, ◌&&◌, ◌||◌, Option, none, some, List, [], ◌∷◌, ◌++◌, leb, ◌==◌,
  if◌then◌else◌,
}
use chainsettle_contract.Base.Dict.{get, insert}
use chainsettle_contract.Base.Int.{ℤ, pos, ltb_ℤ, leb_ℤ, min_ℤ, max_ℤ, u32_max, u64_max}
use chainsettle_contract.Base.Result.{Result, ok, ◌>>=◌, sub_i128, checked_u32, ◌>>◌}
use chainsettle_contract.Escrow.Fees.{bps_of}
use chainsettle_contract.Escrow.Host.{Ledger, send}
use chainsettle_contract.Escrow.Payout.{
  Desk, set_escrow, set_shipment, pay, pay_some, decrease_total_escrowed,
}
use chainsettle_contract.Escrow.Policy.{
  ReputationScore, no_reputation, SupplierTier, bronze, silver, gold_tier, Policy, Tallies,
}
use chainsettle_contract.Escrow.Settle.{append_audit, set_tallies}
use chainsettle_contract.Escrow.Shipment.{completed, Deal}
use chainsettle_contract.Escrow.Split.{checked_u64}
use chainsettle_contract.Escrow.State.{FeeConfig}
use chainsettle_contract.Escrow.Terms.{first_buyer}

pub clean_rebate : ℤ → ℕ → Result ℤ
clean_rebate fees_paid bps = bps_of fees_paid bps >>= λ rebate. ok (min_ℤ rebate fees_paid)

-- Who pays a rebate: the contract, from what it holds beyond the escrow, or the treasury, or nobody.
pub rebate_payer : Ledger → FeeConfig → ℤ → Desk → Result (Option ℕ)
rebate_payer env config rebate d = do
  let token = d.deal.shipment.token
  free ←
      sub_i128 (env.balance_of d.escrow.sent token env.this_contract)
        (get (pos 0) token d.escrow.total_escrowed)
  let from_treasury =
      if ltb_ℤ (env.balance_of d.escrow.sent token config.treasury) rebate
      then none
      else some config.treasury
  ok (if leb_ℤ rebate (max_ℤ free (pos 0)) then some env.this_contract else from_treasury)

-- The payment of a rebate by the one who is to pay it.
pub pay_rebate_from : Ledger → Option ℕ → ℤ → Desk → Result Desk
pay_rebate_from env none rebate d = ok d
pay_rebate_from env (some source) rebate d = do
  let x = d.deal.shipment
  s ← send env x.token source x.supplier rebate d.escrow
  left ← sub_i128 (get (pos 0) x.token d.escrow.treasury_revenue) rebate
  ok (
      set_shipment
        (set_escrow d (record s { treasury_revenue = insert x.token left s.treasury_revenue }))
        (append_audit env env.this_contract "clean_completion_rebate" "shipment_completed" x))

pub pay_rebate : Ledger → Option FeeConfig → ℤ → Desk → Result Desk
pay_rebate env none rebate d = ok d
pay_rebate env (some config) rebate d =
    rebate_payer env config rebate d >>= λ payer. pay_rebate_from env payer rebate d

-- `maybe_pay_clean_completion_rebate`
pub pay_clean_rebate : Ledger → ℕ → Desk → Result Desk
pay_clean_rebate env shipment_id d =
    let bps = d.escrow.policy.clean_rebate_bps in
    let fees_paid = get (pos 0) shipment_id d.escrow.fees_paid in
    let revenue = get (pos 0) d.deal.shipment.token d.escrow.treasury_revenue in
    let granted = clean_rebate fees_paid bps >>= λ rebate.
    let paid = pay_rebate env d.escrow.fee_config rebate d in
    if leb_ℤ rebate (pos 0) || ltb_ℤ revenue rebate then ok d else paid in
    if bps == 0 || d.deal.had_dispute || leb_ℤ fees_paid (pos 0) then ok d else granted

-- The supplier gets what was retained.
pub release_retainage : Ledger → Desk → Result Desk
release_retainage env d =
    let x = d.deal.shipment in
    let retained = d.deal.retainage_balance in
    let released = pay env x.supplier retained d >>= λ d₁.
    decrease_total_escrowed x.token retained d₁.escrow >>= λ s. ok (record {
      deal = record d₁.deal {
        retainage_balance = pos 0;
        shipment = append_audit env env.this_contract "retainage_released" "shipment_completed" x;
      };
      escrow = s;
    }) in
    if ltb_ℤ (pos 0) retained then released else ok d

abbrev pub warranty_ledgers : Deal → ℕ
warranty_ledgers deal = elim deal.warranty_config [ none ↦ 0 | some (bps, ledgers) ↦ ledgers ]

pub start_warranty : Ledger → Desk → Result Desk
start_warranty env d =
    let x = d.deal.shipment in
    let started = checked_u32 (env.sequence + warranty_ledgers d.deal) >>= λ ends_at. ok (record d {
      deal = record d.deal {
        warranty_ends_at = some ends_at;
        shipment = append_audit env env.this_contract "warranty_started" "shipment_completed" x;
      };
    }) in
    if ltb_ℤ (pos 0) d.deal.warranty_balance then started else ok d

pub settle_on_completion : Ledger → ℕ → Desk → Result Desk
settle_on_completion env shipment_id d = do
  d₁ ←
      release_retainage env (record d { deal = record d.deal { completed_at = some env.sequence } })
  d₂ ← start_warranty env d₁
  pay_clean_rebate env shipment_id d₂

-- `get_supplier_tier_internal`
supplier_tier : Policy → ReputationScore → SupplierTier
supplier_tier policy score = elim policy.tier_config [
  | none ↦ bronze
  | some c ↦
      let ratio = min (score.disputes * 10000) u64_max / score.completions in
      if score.completions == 0
      then bronze
      else if leb c.gold_min_completed score.completions && leb ratio c.gold_max_disputed_ratio_bps
      then gold_tier
      else if leb c.silver_min_completed score.completions
          && leb ratio c.silver_max_disputed_ratio_bps
      then silver
      else bronze
]

-- `increment_reputation_internal` for one completion, with `evaluate_supplier_tier_change`; a tier
-- equal to the last one is stored again.
pub count_completion : Policy → ℕ → Tallies → Tallies
count_completion policy supplier t =
    let score = get no_reputation supplier t.reputation in
    let score' = record score { completions = min (score.completions + 1) u32_max } in
    record t {
      reputation = insert supplier score' t.reputation;
      last_tier = insert supplier (supplier_tier policy score') t.last_tier;
    }

-- `remove_from_status_index`: the first occurrence.
pub remove_first : ℕ → List ℕ → List ℕ
remove_first id [] = []
remove_first id (x ∷ xs) = if x == id then xs else x ∷ remove_first id xs

-- `move_shipment_status_index` from active to completed.
abbrev pub move_to_completed : ℕ → Tallies → Tallies
move_to_completed id t = record t {
  active_index = remove_first id t.active_index;
  completed_index = t.completed_index ++ id ∷ [];
}

-- The unused bonus pool goes back to the first buyer.
pub return_bonus : Ledger → Desk → Result Desk
return_bonus env d =
    let x = d.deal.shipment in
    let returned = first_buyer x >>= λ buyer.
    pay env buyer x.early_bonus_remaining
      (set_shipment d (record x { early_bonus_remaining = pos 0 })) in
    if ltb_ℤ (pos 0) x.early_bonus_remaining then returned else ok d

-- The completion is counted for the contract and the supplier, and the shipment changes its index.
pub count_completed : ℕ → Desk → Result Desk
count_completed shipment_id d = do
  let t = d.escrow.tallies
  done ← checked_u64 (t.completed_shipments + 1)
  let t' =
      count_completion d.escrow.policy d.deal.shipment.supplier
        (record t { completed_shipments = done })
  ok (set_tallies d (move_to_completed shipment_id t'))

-- The block of `confirm_milestone` for a shipment whose milestones are all done.
pub complete : Ledger → ℕ → ℕ → Desk → Result Desk
complete env caller shipment_id d = do
  let x = d.deal.shipment
  d₁ ← return_bonus env (
      set_shipment d (
        append_audit env caller "shipment_completed" "confirm_milestone"
          (record x { status = completed })))
  d₂ ← count_completed shipment_id d₁
  d₃ ← pay_some env x.supplier d₂.deal.supplier_collateral d₂
  settle_on_completion env shipment_id d₃

-- The block of `release_held_payment` for such a shipment.
pub complete_held : Ledger → ℕ → Desk → Result Desk
complete_held env shipment_id d = do
  d₁ ← return_bonus env d
  let d₂ = set_shipment d₁ (record d₁.deal.shipment { status = completed })
  d₃ ← count_completed shipment_id d₂
  settle_on_completion env shipment_id d₃
