-- ===== src/Escrow/Payout.antt =====
-- How a milestone's payment reaches its payees (contracts/chainsetttle/src/lib.rs): holdbacks, the
-- assigned receivable, batched payouts and the split among payees.
pub mod Disbursed
pub mod Exact
pub mod Accounted
pub mod Steps
use chainsettle_contract.Base.{
  ℕ, false, ◌&&◌, Option, none, some, List, [], ◌∷◌, ◌==◌, if◌then◌else◌, get_or,
}
use chainsettle_contract.Base.Dict.{get, insert}
use chainsettle_contract.Base.Int.{ℤ, pos, ◌/ℤ◌, ltb_ℤ, leb_ℤ, max_ℤ}
use chainsettle_contract.Base.Result.{Result, ok, ◌>>=◌, add_i128, sub_i128, mul_i128, ◌>>◌}
use chainsettle_contract.Base.Sum.{total}
use chainsettle_contract.Escrow.Fees.{bps_of}
use chainsettle_contract.Escrow.Host.{Ledger, send}
use chainsettle_contract.Escrow.Shipment.{Shipment, MilestonePayee, Deal}
use chainsettle_contract.Escrow.State.{Escrow}

-- A shipment at work: what is stored under its id, and the contract's other state.
pub record Desk : Type 0 where
  pub deal : Deal
  pub escrow : Escrow

abbrev pub set_escrow : Desk → Escrow → Desk
set_escrow d s = record d { escrow = s }

abbrev pub set_shipment : Desk → Shipment → Desk
set_shipment d x = record d { deal = record d.deal { shipment = x } }

-- A transfer of the shipment's token out of the contract.
abbrev pub pay : Ledger → ℕ → ℤ → Desk → Result Desk
pay env receiver amount d =
    send env d.deal.shipment.token env.this_contract receiver amount d.escrow >>= λ s.
    ok (set_escrow d s)

abbrev pub pay_some : Ledger → ℕ → ℤ → Desk → Result Desk
pay_some env receiver amount d = if ltb_ℤ (pos 0) amount then pay env receiver amount d else ok d

pub increase_total_escrowed : ℕ → ℤ → Escrow → Result Escrow
increase_total_escrowed token amount s = do
  total ← add_i128 (get (pos 0) token s.total_escrowed) amount
  ok (record s { total_escrowed = insert token total s.total_escrowed })

unfoldable pub decrease_total_escrowed : ℕ → ℤ → Escrow → Result Escrow
decrease_total_escrowed token amount s = do
  total ← sub_i128 (get (pos 0) token s.total_escrowed) amount
  ok (record s { total_escrowed = insert token (max_ℤ total (pos 0)) s.total_escrowed })

abbrev pub warranty_bps : Deal → ℕ
warranty_bps deal = elim deal.warranty_config [ none ↦ 0 | some (bps, ledgers) ↦ bps ]

-- `if amount > 0 { balance + amount }`
abbrev pub add_some : ℤ → ℤ → Result ℤ
add_some balance amount = if ltb_ℤ (pos 0) amount then add_i128 balance amount else ok balance

-- The part of `withhold_settlement_holdbacks` after its early return.
pub withhold : ℤ → Desk → Result (ℤ × Desk)
withhold net d = do
  retained ← bps_of net d.deal.retainage_bps
  warranty ← bps_of net (warranty_bps d.deal)
  retainage_balance ← add_some d.deal.retainage_balance retained
  warranty_balance ← add_some d.deal.warranty_balance warranty
  held ← add_i128 retained warranty
  s ←
      if ltb_ℤ (pos 0) held
      then increase_total_escrowed d.deal.shipment.token held d.escrow
      else ok d.escrow
  rest ← sub_i128 net retained
  left ← sub_i128 rest warranty
  ok (
    left,
    record {
      deal = record d.deal {
        retainage_balance = retainage_balance;
        warranty_balance = warranty_balance;
      };
      escrow = s;
    },
  )

pub withhold_settlement_holdbacks : ℤ → Desk → Result (ℤ × Desk)
withhold_settlement_holdbacks net d =
    let withheld = withhold net d in
    if d.deal.retainage_bps == 0 && warranty_bps d.deal == 0 then ok (net, d) else withheld

-- `(net_amount * percent) / 100`
unfoldable pub percent_of : ℤ → ℕ → Result ℤ
percent_of net percent = mul_i128 net (pos percent) >>= λ product. ok (product /ℤ pos 100)

-- The loop over the payees; the last one takes what is left.
pub pay_payees : Ledger → ℤ → List MilestonePayee → ℤ → Desk → Result Desk
pay_payees env net [] distributed d = ok d
pay_payees env net (p ∷ []) distributed d =
    sub_i128 net distributed >>= λ amount. pay_some env p.payee amount d
pay_payees env net (p ∷ q ∷ ps) distributed d = percent_of net p.percent >>= λ amount.
    pay_some env p.payee amount d >>= λ d₁.
    add_some distributed amount >>= λ distributed'. pay_payees env net (q ∷ ps) distributed' d₁

pub pay_supplier : Ledger → ℕ → ℤ → Desk → Result Desk
pay_supplier env supplier net d =
    let batched = (do
      total ← add_i128 (get (pos 0) supplier d.escrow.tallies.pending_payout) net
      ok (
          set_escrow d (record d.escrow {
            tallies = record d.escrow.tallies {
              pending_payout = insert supplier total d.escrow.tallies.pending_payout;
            };
          }))) in
    if get false supplier d.escrow.policy.batched_payouts then batched else pay env supplier net d

-- The part of `pay_milestone_to_payees` after the holdbacks.
pub pay_net_to : Ledger → Option ℕ → List MilestonePayee → ℕ → ℤ → Desk → Result Desk
pay_net_to env (some financier) ps supplier net d = pay env financier net d
pay_net_to env none [] supplier net d = pay_supplier env supplier net d
pay_net_to env none (p ∷ ps) supplier net d = pay_payees env net (p ∷ ps) (pos 0) d

abbrev pub pay_net : Ledger → ℕ → ℕ → ℤ → Desk → Result Desk
pay_net env supplier index net d =
    pay_net_to env d.deal.payout_assignee (get [] index d.deal.milestone_payees) supplier net d

pub pay_milestone_to_payees : Ledger → ℕ → ℤ → Desk → Result Desk
pay_milestone_to_payees env index net d =
    let supplier = get_or (get none index d.deal.milestone_supplier) d.deal.shipment.supplier in
    let paid = withhold_settlement_holdbacks net d >>= λ (left, d₁).
    if leb_ℤ left (pos 0) then ok d₁ else pay_net env supplier index left d₁ in
    if leb_ℤ net (pos 0) then ok d else paid
