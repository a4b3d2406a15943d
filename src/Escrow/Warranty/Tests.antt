-- ===== src/Escrow/Warranty/Tests.antt =====
-- A warranty of 80 units until ledger 500, released then.
use chainsettle_contract.Base.{◌≡◌, refl, some, [], ◌∷◌}
use chainsettle_contract.Base.Dict.{get, insert}
use chainsettle_contract.Base.Int.{pos, ◌-ℤ◌, max_ℤ}
use chainsettle_contract.Base.Result.{ok, panic_if, or_panic, checked_i128}
use chainsettle_contract.Escrow.Confirm.{save}
use chainsettle_contract.Escrow.Confirm.Tests.{shipment_x, deal_x, escrow_x}
use chainsettle_contract.Escrow.Host.{send}
use chainsettle_contract.Escrow.Payout.{decrease_total_escrowed}
use chainsettle_contract.Escrow.Settle.{noted}
use chainsettle_contract.Escrow.Shipment.{completed, Deal}
use chainsettle_contract.Escrow.Tests.{here_address, at_ledger}
use chainsettle_contract.Escrow.Warranty.{WarrantyDesk, pay_warranty, release_warranty}
use chainsettle_contract.Escrow.Warranty.Once.{
  no_warranty_calls, then_call, WarrantyCalls-IsPaidOnce,
}
use chainsettle_contract.Escrow.Warranty.Pay.{release_holdback, IsPaidOnce}

abbrev under_warranty : Deal
under_warranty = record deal_x {
  warranty_balance = pos 80;
  warranty_ends_at = some 500;
  shipment = record shipment_x { status = completed };
}

abbrev warranty_desk : WarrantyDesk
warranty_desk = record {
  accounts = record escrow_x { deals = (77, some under_warranty) ∷ [] };
  claims = [];
}

abbrev after_release : WarrantyDesk
after_release = record {
  accounts = save 77 (record {
    deal =
        noted (at_ledger 500) here_address "warranty_released" "release_warranty"
          (record under_warranty { warranty_balance = pos 0 });
    escrow = record warranty_desk.accounts {
      sent =
          record { token = 5; sender = here_address; receiver = 2; amount = pos 80 }
          ∷ warranty_desk.accounts.sent;
      total_escrowed =
          insert 5 (max_ℤ (get (pos 0) 5 warranty_desk.accounts.total_escrowed -ℤ pos 80) (pos 0))
            warranty_desk.accounts.total_escrowed;
    };
  });
  claims = [];
}

release_goes_through : release_warranty (at_ledger 500) 77 warranty_desk ≡ ok after_release
unfolding release_warranty pay_warranty or_panic panic_if send checked_i128 decrease_total_escrowed
    ◌-ℤ◌
release_goes_through = refl

WarrantyCalls-IsPaidOnce_example :
    IsPaidOnce here_address 77 under_warranty warranty_desk after_release
WarrantyCalls-IsPaidOnce_example =
    WarrantyCalls-IsPaidOnce here_address 77 under_warranty warranty_desk after_release refl
      (then_call (at_ledger 500) release_holdback no_warranty_calls refl release_goes_through)
