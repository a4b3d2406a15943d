-- ===== src/Escrow/Policy.antt =====
-- The contract's settings that the confirmation of a milestone reads, and the counters that it moves
-- (contracts/chainsetttle/src/lib.rs).
use chainsettle_contract.Base.{ℕ, Bool, Option, none, List, []}
use chainsettle_contract.Base.Dict.{Dict}
use chainsettle_contract.Base.Int.{ℤ, pos}

pub record ReputationScore : Type 0 where
  pub completions : ℕ
  pub disputes : ℕ
  pub cancellations : ℕ

abbrev pub no_reputation : ReputationScore
no_reputation = record { completions = 0; disputes = 0; cancellations = 0 }

pub record ReputationFastTrack : Type 0 where
  pub min_completed : ℕ
  pub max_disputed_ratio_bps : ℕ

pub data SupplierTier : Type 0 where
  bronze silver gold_tier : SupplierTier

pub record SupplierTierConfig : Type 0 where
  pub silver_min_completed : ℕ
  pub silver_max_disputed_ratio_bps : ℕ
  pub gold_min_completed : ℕ
  pub gold_max_disputed_ratio_bps : ℕ

pub record DepegGuardConfig : Type 0 where
  pub oracle : ℕ
  pub min_price : ℤ
  pub max_price : ℤ

-- The settings; of the modelled operations only `set_payout_mode` writes one, `batched_payouts`.
-- `paused_operations` goes by the operation's code, of which `confirm_operation` is one.
pub record Policy : Type 0 where
  pub paused_operations : Dict Bool
  pub joint_threshold : ℤ
  pub global_cooldown : ℕ
  pub auto_confirm_threshold : ℕ
  pub fast_track : Option ReputationFastTrack
  pub oracle_groups : Dict (Option ℕ)
  pub depeg_guards : Dict (Option DepegGuardConfig)
  pub long_hold_terms : ℕ × ℕ
  pub referral_fee_bps : ℕ
  pub clean_rebate_bps : ℕ
  pub tier_config : Option SupplierTierConfig
  pub batched_payouts : Dict Bool

abbrev pub confirm_operation : ℕ
confirm_operation = 2

-- The window of an address that its payments are counted in.
pub record Outflow : Type 0 where
  pub outflow_limit : ℤ
  pub outflow_window : ℕ
  pub outflow_start : ℕ
  pub outflow_used : ℤ

abbrev pub no_outflow : Outflow
no_outflow = record {
  outflow_limit = pos 0;
  outflow_window = 0;
  outflow_start = 0;
  outflow_used = pos 0;
}

pub record Reliability : Type 0 where
  pub total_confirmations : ℕ
  pub total_confirmation_latency : ℕ

abbrev pub no_reliability : Reliability
no_reliability = record { total_confirmations = 0; total_confirmation_latency = 0 }

-- `buyer_spent` and `supplier_earned` go by token and then by address, `on_time` and `late` by the
-- supplier; the last two are the index of shipments by status.
pub record Tallies : Type 0 where
  pub reputation : Dict ReputationScore
  pub last_tier : Dict SupplierTier
  pub reliability : Dict Reliability
  pub on_time : Dict ℕ
  pub late : Dict ℕ
  pub outflows : Dict Outflow
  pub pending_payout : Dict ℤ
  pub buyer_spent : Dict (Dict ℤ)
  pub supplier_earned : Dict (Dict ℤ)
  pub completed_shipments : ℕ
  pub active_index : List ℕ
  pub completed_index : List ℕ

abbrev pub no_policy : Policy
no_policy = record {
  paused_operations = [];
  joint_threshold = pos 0;
  global_cooldown = 0;
  auto_confirm_threshold = 0;
  fast_track = none;
  oracle_groups = [];
  depeg_guards = [];
  long_hold_terms = (0, 0);
  referral_fee_bps = 500;
  clean_rebate_bps = 0;
  tier_config = none;
  batched_payouts = [];
}

abbrev pub no_tallies : Tallies
no_tallies = record {
  reputation = [];
  last_tier = [];
  reliability = [];
  on_time = [];
  late = [];
  outflows = [];
  pending_payout = [];
  buyer_spent = [];
  supplier_earned = [];
  completed_shipments = 0;
  active_index = [];
  completed_index = [];
}
