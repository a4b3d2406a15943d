-- ===== src/Escrow/Settle.antt =====
-- The steps that the settlement of a milestone is made of (contracts/chainsetttle/src/lib.rs): fees to
-- third parties, the early bonus, counters, and what happens once the last milestone is done.
pub mod Exact
use Prim.Native.String.{String}
use chainsettle_contract.Base.{
  ℕ, ◌+◌, ◌-◌, min, ◌&&◌, Option, none, some, [], ltb, leb, ◌==◌, if◌then◌else◌, length,
}
use chainsettle_contract.Base.Dict.{Dict, get, insert}
use chainsettle_contract.Base.Int.{ℤ, pos, ◌/ℤ◌, ltb_ℤ, leb_ℤ, eqb_ℤ, min_ℤ, u32_max, u64_max}
use chainsettle_contract.Base.Result.{Result, ok, ◌>>=◌, panic_if, add_i128, sub_i128, ◌>>◌}
use chainsettle_contract.Base.Sum.{total}
use chainsettle_contract.Escrow.Fees.{bps_of}
use chainsettle_contract.Escrow.Host.{Ledger}
use chainsettle_contract.Escrow.Limits.{is_over}
use chainsettle_contract.Escrow.Payout.{Desk, set_shipment, pay, percent_of}
use chainsettle_contract.Escrow.Policy.{Policy, no_outflow, no_reliability, Tallies}
use chainsettle_contract.Escrow.Shipment.{
  Milestone, Shipment, Deal, append_entry, all_milestones_done,
}
use chainsettle_contract.Escrow.State.{FeeConfig, Escrow}
use chainsettle_contract.Escrow.Terms.{milestone_at}

-- An entry in the shipment's log, of bounded length.
abbrev pub append_audit : Ledger → ℕ → String → String → Shipment → Shipment
append_audit env caller action detail x = record x {
  audit_log =
      append_entry x.audit_log
        (record { action = action; caller = caller; ledger = env.sequence; detail = detail });
}

-- The shipment's log gets an entry.
abbrev pub noted : Ledger → ℕ → String → String → Deal → Deal
noted env caller action detail deal = record deal {
  shipment = append_audit env caller action detail deal.shipment;
}

-- The logistics provider's share of the payment, if what is transferred covers it; what is left of
-- that comes with the state.
unfoldable pub pay_logistics : Ledger → ℤ → ℤ → Desk → Result (ℤ × Desk)
pay_logistics env payment actual d =
    let charged = (do
      fee ← bps_of payment d.deal.shipment.logistics_fee_bps
      let paid = sub_i128 actual fee >>= λ left.
          pay env d.deal.shipment.logistics fee d >>= λ d₁. ok (left, d₁)
      if ltb_ℤ (pos 0) fee && leb_ℤ fee actual then paid else ok (actual, d)) in
    if ltb 0 d.deal.shipment.logistics_fee_bps then charged else ok (actual, d)

-- The referrer's share of the fee on the whole shipment.
pub referral_due : FeeConfig → Policy → Shipment → ℤ → Result ℤ
referral_due config policy x actual = do
  total_fee ← bps_of x.total_amount config.fee_bps
  referral ← bps_of total_fee policy.referral_fee_bps
  ok (min_ℤ referral actual)

pub pay_referral_to : Ledger → ℕ → FeeConfig → ℤ → Desk → Result (ℤ × Desk)
pay_referral_to env referrer config actual d = do
  referral ← referral_due config d.escrow.policy d.deal.shipment actual
  let paid =
      sub_i128 actual referral >>= λ left. pay env referrer referral d >>= λ d₁. ok (left, d₁)
  if ltb_ℤ (pos 0) referral then paid else ok (actual, d)

-- The referral is paid when the last milestone is done.
pub refer : Ledger → Option ℕ → Option FeeConfig → ℤ → Desk → Result (ℤ × Desk)
refer env none config actual d = ok (actual, d)
refer env (some referrer) none actual d = ok (actual, d)
refer env (some referrer) (some config) actual d =
    let paid = pay_referral_to env referrer config actual d in
    if all_milestones_done d.deal.shipment.milestones then paid else ok (actual, d)

abbrev pub pay_referral : Ledger → ℤ → Desk → Result (ℤ × Desk)
pay_referral env actual d = refer env d.deal.shipment.referrer d.escrow.fee_config actual d

-- What a milestone earns from the bonus pool.
abbrev pub bonus_share : Shipment → ℤ
bonus_share x = x.early_bonus_pool /ℤ pos (length x.milestones)

pub pay_early_bonus : Ledger → ℕ → Desk → Result Desk
pay_early_bonus env deadline d =
    let x = d.deal.shipment in
    let bonus = bonus_share x in
    let paid = sub_i128 x.early_bonus_remaining bonus >>= λ left.
    pay env x.supplier bonus (set_shipment d (record x { early_bonus_remaining = left })) in
    if ltb_ℤ (pos 0) x.early_bonus_pool
      && ltb 0 deadline
      && leb env.sequence deadline
      && ltb_ℤ (pos 0) x.early_bonus_remaining
      && ltb_ℤ (pos 0) bonus
      && leb_ℤ bonus x.early_bonus_remaining
    then paid
    else ok d

-- `release_milestone_collateral_share`
pub release_collateral_share : Ledger → ℕ → Desk → Result Desk
release_collateral_share env index d =
    let released = (do
      m ← milestone_at d.deal.shipment index
      part ← percent_of d.deal.incremental_base m.payment_percent
      let share = min_ℤ part d.deal.supplier_collateral
      let paid = pay env d.deal.shipment.supplier share d >>= λ d₁.
          sub_i128 d.deal.supplier_collateral share >>= λ left.
          ok (record d₁ { deal = record d₁.deal { supplier_collateral = left } })
      if leb_ℤ share (pos 0) then ok d else paid) in
    if d.deal.incremental_collateral then released else ok d

-- `record_milestone_timeliness`
pub record_timeliness : ℕ → Milestone → Tallies → Tallies
record_timeliness supplier m t = elim m.proof_submitted_ledger [
  | none ↦ t
  | some proof ↦
      if m.deadline_ledger == 0
      then t
      else if leb proof m.deadline_ledger
      then record t {
        on_time = insert supplier (min (get 0 supplier t.on_time + 1) u32_max) t.on_time;
      }
      else record t { late = insert supplier (min (get 0 supplier t.late + 1) u32_max) t.late }
]

-- `update_buyer_reliability_on_confirmation`
pub record_reliability : Ledger → ℕ → ℕ → Tallies → Tallies
record_reliability env buyer proof t =
    let r = get no_reliability buyer t.reliability in
    record t {
      reliability =
          insert buyer
            (record {
              total_confirmations = min (r.total_confirmations + 1) u32_max;
              total_confirmation_latency =
                  min (r.total_confirmation_latency + (env.sequence - proof)) u64_max;
            })
            t.reliability;
    }

-- `if amount > 0 { counter[token][address] += amount }`
pub count_some : ℕ → ℕ → ℤ → Dict (Dict ℤ) → Result (Dict (Dict ℤ))
count_some token address amount counters =
    let own = get [] token counters in
    let counted = add_i128 (get (pos 0) address own) amount >>= λ total.
    ok (insert token (insert address total own) counters) in
    if ltb_ℤ (pos 0) amount then counted else ok counters

-- `record_release_counters`
pub record_release_counters : ℕ → ℕ → ℕ → ℤ → ℤ → Tallies → Result Tallies
record_release_counters supplier buyer token buyer_spend supplier_net t = do
  spent ← count_some token buyer buyer_spend t.buyer_spent
  earned ← count_some token supplier supplier_net t.supplier_earned
  ok (record t { buyer_spent = spent; supplier_earned = earned })

abbrev pub add_lifetime_volume : ℕ → ℤ → Escrow → Result Escrow
add_lifetime_volume buyer payment s =
    add_i128 (get (pos 0) buyer s.lifetime_volume) payment >>= λ total.
    ok (record s { lifetime_volume = insert buyer total s.lifetime_volume })

abbrev pub set_tallies : Desk → Tallies → Desk
set_tallies d t = record d { escrow = record d.escrow { tallies = t } }

-- `check_address_outflow`
unfoldable pub check_address_outflow : Ledger → ℕ → ℤ → Tallies → Result Tallies
check_address_outflow env address payment t =
    let o = get no_outflow address t.outflows in
    let checked = (do
      over ← is_over o.outflow_start o.outflow_window env.sequence
      used ← add_i128 (if over then pos 0 else o.outflow_used) payment
      panic_if (ltb_ℤ o.outflow_limit used) "address outflow limit exceeded"
      let moved_on = record o {
        outflow_start = if over then env.sequence else o.outflow_start;
        outflow_used = used;
      }
      ok (record t { outflows = insert address moved_on t.outflows })) in
    if eqb_ℤ o.outflow_limit (pos 0) then ok t else checked
