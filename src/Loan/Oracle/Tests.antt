-- ===== src/Loan/Oracle/Tests.antt =====
-- A lookup of a price while both oracles are silent, after two snapshots.
use chainsettle_contract.Base.{◌≡◌, refl, none, [], ◌∷◌}
use chainsettle_contract.Base.Int.{pos, ◌+ℤ◌, ◌*ℤ◌, ◌-ℤ◌, ◌/ℤ◌, saturating_add, saturating_mul}
use chainsettle_contract.Base.Result.{ok, panic_if, checked_i128, checked_u32, Post}
use chainsettle_contract.Loan.Host.{Env}
use chainsettle_contract.Loan.Oracle.{
  newest, first_inside, window_start, cumulative_at, window_price, twap_over, twap_price, try_fetch,
  fetch_from, fall_back, resolve_price,
}
use chainsettle_contract.Loan.Oracle.Sources.{IsSourced, resolve_price-IsSourced}
use chainsettle_contract.Loan.Store.{Source, Store, bump_twap_fallback_count}
use chainsettle_contract.Loan.Tests.{gold, calm, funded}

abbrev silent : Env
silent = record calm { latest_price = λ _ _. none }

abbrev observed : Store
observed = record funded {
  twaps =
      (
        gold,
        record {
          last_ts = 1000;
          last_price = pos 100;
          cumulative = pos 50000;
          last_snapshot_ts = 900;
          snapshots = record { ts = 500; cum = pos 0 } ∷ record { ts = 900; cum = pos 40000 } ∷ [];
        },
      )
      ∷ [];
}

averaged_price :
    resolve_price silent observed gold
    ≡ ok (
      record { price = pos 100; source = Source.twap },
      record observed { twap_fallback_count = 1 },
    )
unfolding fetch_from try_fetch fall_back bump_twap_fallback_count checked_u32 twap_price twap_over
    window_price window_start newest first_inside cumulative_at saturating_add saturating_mul
    checked_i128 panic_if resolve_price ◌+ℤ◌ ◌*ℤ◌ ◌-ℤ◌ ◌/ℤ◌
averaged_price = refl

resolve_price-IsSourced_example :
    Post (resolve_price silent observed gold) (λ r. IsSourced silent observed gold r.0)
resolve_price-IsSourced_example = resolve_price-IsSourced silent observed gold
