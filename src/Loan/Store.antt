-- ===== src/Loan/Store.antt =====
-- contracts/loan_manager/src/storage.rs and constants.rs: the stored types and the state. A key
-- that is absent is held as the default that every reader of it takes.
use chainsettle_contract.Base.{
  ℕ, ◌+◌, Bool, false, Option, none, List, [], ◌∷◌, ◌++◌, if◌then◌else◌, contains,
}
use chainsettle_contract.Base.Dict.{Dict, get, insert}
use chainsettle_contract.Base.Int.{ℤ, pos}
use chainsettle_contract.Base.Result.{Result, ok, ◌>>=◌, or_panic, checked_u32}
use chainsettle_contract.Base.Token.{Transfer}

abbrev pub price_scale : ℤ
price_scale = pos 100000000

abbrev pub bps_denominator : ℤ
bps_denominator = pos 10000

abbrev pub max_price_staleness_secs : ℕ
max_price_staleness_secs = 300

abbrev pub max_future_skew_secs : ℕ
max_future_skew_secs = 60

abbrev pub twap_window_secs : ℕ
twap_window_secs = 1800

abbrev pub twap_min_span_secs : ℕ
twap_min_span_secs = 300

abbrev pub twap_snapshot_interval_secs : ℕ
twap_snapshot_interval_secs = 60

abbrev pub twap_max_snapshots : ℕ
twap_max_snapshots = 34

abbrev pub target_hf_num : ℤ
target_hf_num = pos 11

abbrev pub target_hf_den : ℤ
target_hf_den = pos 10

abbrev pub max_liq_threshold_bps : ℕ
max_liq_threshold_bps = 9500

abbrev pub max_configurable_bonus_bps : ℕ
max_configurable_bonus_bps = 2500

pub record Market : Type 0 where
  pub collateral_token : ℕ
  pub debt_token : ℕ
  pub liq_threshold_bps : ℕ

pub record Position : Type 0 where
  pub collateral : ℤ
  pub debt : ℤ

abbrev pub no_position : Position
no_position = record { collateral = pos 0; debt = pos 0 }

pub record PriceObservation : Type 0 where
  pub ts : ℕ
  pub cum : ℤ

pub record TwapState : Type 0 where
  pub last_ts : ℕ
  pub last_price : ℤ
  pub cumulative : ℤ
  pub last_snapshot_ts : ℕ
  pub snapshots : List PriceObservation

-- `TwapState::empty`
abbrev empty_twap : TwapState
empty_twap = record {
  last_ts = 0;
  last_price = pos 0;
  cumulative = pos 0;
  last_snapshot_ts = 0;
  snapshots = [];
}

pub record LiqParams : Type 0 where
  pub base_bonus_bps : ℕ
  pub max_bonus_bps : ℕ
  pub penalty_cap_bps : ℕ

-- `LiqParams::default`
abbrev pub default_params : LiqParams
default_params = record { base_bonus_bps = 500; max_bonus_bps = 1500; penalty_cap_bps = 2000 }

pub data Source : Type 0 where
  primary secondary twap : Source

pub record PriceResolution : Type 0 where
  pub price : ℤ
  pub source : Source

-- One field for each constructor of `DataKey`, and the transfers made so far, newest first.
pub record Store : Type 0 where
  pub admin : Option ℕ
  pub paused : Bool
  pub market : Option Market
  pub primary_oracle : Option ℕ
  pub secondary_oracle : Option ℕ
  pub positions : Dict Position
  pub depositor_balances : Dict ℤ
  pub depositors : List ℕ
  pub total_deposits : ℤ
  pub total_borrowed : ℤ
  pub twaps : Dict TwapState
  pub liq_params : LiqParams
  pub twap_fallback_count : ℕ
  pub transfers : List Transfer

abbrev pub empty_store : Store
empty_store = record {
  admin = none;
  paused = false;
  market = none;
  primary_oracle = none;
  secondary_oracle = none;
  positions = [];
  depositor_balances = [];
  depositors = [];
  total_deposits = pos 0;
  total_borrowed = pos 0;
  twaps = [];
  liq_params = default_params;
  twap_fallback_count = 0;
  transfers = [];
}

abbrev pub require_admin : Store → Result ℕ
require_admin s = or_panic s.admin "admin not set"

abbrev pub require_market : Store → Result Market
require_market s = or_panic s.market "market not initialized"

abbrev pub get_position : Store → ℕ → Position
get_position s user = get no_position user s.positions

abbrev pub save_position : Store → ℕ → Position → Store
save_position s user p = record s { positions = insert user p s.positions }

abbrev pub get_depositor_balance : Store → ℕ → ℤ
get_depositor_balance s depositor = get (pos 0) depositor s.depositor_balances

abbrev pub set_depositor_balance : Store → ℕ → ℤ → Store
set_depositor_balance s depositor v = record s {
  depositor_balances = insert depositor v s.depositor_balances;
}

abbrev pub register_depositor : Store → ℕ → Store
register_depositor s depositor = record s {
  depositors =
      if contains s.depositors depositor then s.depositors else s.depositors ++ depositor ∷ [];
}

abbrev pub get_twap_state : Store → ℕ → TwapState
get_twap_state s asset = get empty_twap asset s.twaps

abbrev pub set_twap_state : Store → ℕ → TwapState → Store
set_twap_state s asset t = record s { twaps = insert asset t s.twaps }

unfoldable pub bump_twap_fallback_count : Store → Result Store
bump_twap_fallback_count s =
    checked_u32 (s.twap_fallback_count + 1) >>= λ n. ok (record s { twap_fallback_count = n })
