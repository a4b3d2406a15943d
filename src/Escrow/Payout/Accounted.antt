-- ===== src/Escrow/Payout/Accounted.antt =====
-- Steps of a settlement that account for what they move, one after the other.
use chainsettle_contract.Base.{ℕ, ◌≡◌, refl, ◌∙◌, List}
use chainsettle_contract.Base.Int.{ℤ, pos, ◌+ℤ◌, int_laws, ◌≈◌}
use chainsettle_contract.Base.Result.{Post}
use chainsettle_contract.Escrow.Host.{Ledger, Post-send}
use chainsettle_contract.Escrow.Payout.{Desk, pay}
use chainsettle_contract.Escrow.Payout.Disbursed.{disbursed}
use chainsettle_contract.Escrow.Payout.Exact.{IsShared}
use chainsettle_contract.Escrow.Shipment.{Milestone}

-- What has left the contract or waits in it under the parties' names.
abbrev pub accounted : Desk → ℤ
accounted d = disbursed d +ℤ (d.deal.shipment.early_bonus_remaining +ℤ d.deal.supplier_collateral)

-- A step that moves `amount`, leaves the milestones `ms`, and keeps what a payout is governed by.
pub record Step (amount : ℤ) (ms : List Milestone) (d d' : Desk) : Type 0 where
  pub exact : accounted d' ≈ accounted d +ℤ amount
  pub milestones_after : d'.deal.shipment.milestones ≡ ms
  pub payees_kept : d'.deal.milestone_payees ≡ d.deal.milestone_payees
  pub retainage_kept : d'.deal.retainage_bps ≡ d.deal.retainage_bps
  pub warranty_kept : d'.deal.warranty_config ≡ d.deal.warranty_config
  pub deals_kept : d'.escrow.deals ≡ d.escrow.deals

-- A step that leaves the milestones as they are.
abbrev pub Steady : ℤ → Desk → Desk → Type 0
Steady amount d d' = Step amount d.deal.shipment.milestones d d'

pub stay : (d : Desk) → Steady (pos 0) d d
stay d = record {
  exact = omega int_laws;
  milestones_after = refl;
  payees_kept = refl;
  retainage_kept = refl;
  warranty_kept = refl;
  deals_kept = refl;
}

pub reweigh :
    (a b : ℤ) (ms : List Milestone) (d d' : Desk) → a ≈ b → Step a ms d d' → Step b ms d d'
reweigh a b ms d d' h r = record {
  exact = omega (int_laws, h, r.exact);
  milestones_after = r.milestones_after;
  payees_kept = r.payees_kept;
  retainage_kept = r.retainage_kept;
  warranty_kept = r.warranty_kept;
  deals_kept = r.deals_kept;
}

-- Two steps, one after the other.
pub chain :
    {a b : ℤ} {ls ms : List Milestone} {d d₁ d₂ : Desk} (c : ℤ)
    → Step a ls d d₁
    → Step b ms d₁ d₂
    → a +ℤ b ≈ c
    → Step c ms d d₂
chain c p q h = record {
  exact = omega (int_laws, h, p.exact, q.exact);
  milestones_after = q.milestones_after;
  payees_kept = q.payees_kept ∙ p.payees_kept;
  retainage_kept = q.retainage_kept ∙ p.retainage_kept;
  warranty_kept = q.warranty_kept ∙ p.warranty_kept;
  deals_kept = q.deals_kept ∙ p.deals_kept;
}

-- The milestones that a step leaves, written in another way.
pub relist :
    {a : ℤ} {ls ms : List Milestone} {d d' : Desk} → ls ≡ ms → Step a ls d d' → Step a ms d d'
relist h r = record {
  exact = r.exact;
  milestones_after = r.milestones_after ∙ h;
  payees_kept = r.payees_kept;
  retainage_kept = r.retainage_kept;
  warranty_kept = r.warranty_kept;
  deals_kept = r.deals_kept;
}

-- A step and then a steady one.
pub join :
    {a b : ℤ} {ms : List Milestone} {d d₁ d₂ : Desk} (c : ℤ)
    → Step a ms d d₁
    → Steady b d₁ d₂
    → a +ℤ b ≈ c
    → Step c ms d d₂
join c p q h = relist p.milestones_after (chain c p q h)

pub Step-IsShared :
    {a : ℤ} {ms : List Milestone} {d d' : Desk} (index : ℕ)
    → Step a ms d d'
    → IsShared index d.deal
    → IsShared index d'.deal
Step-IsShared index r h = record {
  shared = rw r.payees_kept h.shared;
  withheld = rw (r.retainage_kept, r.warranty_kept) h.withheld;
}

pub pay-Steady :
    (env : Ledger) (receiver : ℕ) (amount : ℤ) (d : Desk)
    → Post (pay env receiver amount d) (Steady amount d)
pay-Steady env receiver amount d =
    Post-send _ env d.deal.shipment.token env.this_contract receiver amount d.escrow _ (record {
      exact = omega int_laws;
      milestones_after = refl;
      payees_kept = refl;
      retainage_kept = refl;
      warranty_kept = refl;
      deals_kept = refl;
    })
