-- ===== src/Escrow/Warranty/Once.antt =====
-- The warranty holdback is paid out at most once, and whole.
use chainsettle_contract.Base.{ℕ, ◌≡◌, refl, ◌∙◌, ◌⊎◌, inl, inr, none, some, List}
use chainsettle_contract.Base.Dict.{get}
use chainsettle_contract.Base.Int.{int_laws, ≈_of_eq}
use chainsettle_contract.Base.Result.{ok, Post-ok}
use chainsettle_contract.Base.Token.{Transfer}
use chainsettle_contract.Escrow.Host.{Ledger}
use chainsettle_contract.Escrow.Shipment.{Deal}
use chainsettle_contract.Escrow.Warranty.{WarrantyDesk}
use chainsettle_contract.Escrow.Warranty.Pay.{
  WarrantyCall, warranty_call, Unpaid, Paid, IsPaidOnce, call-IsPaidOnce,
}

-- Successful calls at one contract about one shipment's warranty, one after the other.
pub data WarrantyCalls (here id : ℕ) (w : WarrantyDesk) : WarrantyDesk → Type 0 where
  no_warranty_calls : WarrantyCalls here id w w
  then_call :
      {v v' : WarrantyDesk} (env : Ledger) (c : WarrantyCall)
      → WarrantyCalls here id w v
      → env.this_contract ≡ here
      → warranty_call env c id v ≡ ok v'
      → WarrantyCalls here id w v'

-- What was paid stays paid, and is not paid again.
outcomes :
    (here : ℕ) (a b c : Deal) (ts us vs : List Transfer)
    → b.shipment.token ≡ a.shipment.token
    → Unpaid a b ts us ⊎ Paid here a b ts us
    → Unpaid b c us vs ⊎ Paid here b c us vs
    → Unpaid a c ts vs ⊎ Paid here a c ts vs
outcomes here a b c ts us vs token (inl (same, none_sent)) (inl (same', none_sent')) =
    inl (same' ∙ same, none_sent' ∙ none_sent)
outcomes here a b c ts us vs token (inl (same, none_sent)) (inr paid) = inr (record {
  receiver_of = paid.receiver_of;
  something = rw⁻¹ same paid.something;
  nothing_left = paid.nothing_left;
  one_transfer = rw⁻¹ (token, same, none_sent) paid.one_transfer;
})
outcomes here a b c ts us vs token (inr paid) (inl (same, none_sent)) = inr (record {
  receiver_of = paid.receiver_of;
  something = paid.something;
  nothing_left = same ∙ paid.nothing_left;
  one_transfer = none_sent ∙ paid.one_transfer;
})
outcomes here a b c ts us vs token (inr paid) (inr again) =
    absurd (omega (int_laws, ≈_of_eq paid.nothing_left, again.something))

-- After any successful claims, resolutions and releases for a shipment's warranty, in any order and
-- at any ledgers, either the holdback is as it was and nothing was transferred, or there was exactly
-- one transfer by the contract, of the whole holdback, in the shipment's token, and nothing of the
-- holdback is left.
pub WarrantyCalls-IsPaidOnce :
    (here id : ℕ) (deal : Deal) (w w' : WarrantyDesk)
    → get none id w.accounts.deals ≡ some deal
    → WarrantyCalls here id w w'
    → IsPaidOnce here id deal w w'
WarrantyCalls-IsPaidOnce here id deal w _ found no_warranty_calls = record {
  deal_after = deal;
  found_after = found;
  token_kept = refl;
  outcome = inl (refl, refl);
}
WarrantyCalls-IsPaidOnce here id deal w _ found (then_call {v} {v'} env c before at_here e) =
    let first = WarrantyCalls-IsPaidOnce here id deal w v found before in
    let next : IsPaidOnce here id first.deal_after v v' =
      rw⁻¹ at_here (Post-ok _ e (call-IsPaidOnce env id first.deal_after v first.found_after c)) in
    record {
      deal_after = next.deal_after;
      found_after = next.found_after;
      token_kept = next.token_kept ∙ first.token_kept;
      outcome =
          outcomes here deal first.deal_after next.deal_after w.accounts.sent v.accounts.sent
            v'.accounts.sent first.token_kept first.outcome next.outcome;
    }
