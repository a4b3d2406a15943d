-- ===== src/Escrow/Limits.antt =====
-- The rolling windows of contracts/chainsetttle/src/lib.rs: the circuit breaker on payments, the
-- buyers' spending limits, the limit on new shipments and the cooldown on cancellations. Ledger
-- numbers are u32, and adding past their range panics.
pub mod Windows
use chainsettle_contract.Base.{
  ℕ, ◌+◌, min, Bool, true, false, ◌||◌, none, some, ltb, leb, ◌==◌, if◌then◌else◌,
}
use chainsettle_contract.Base.Dict.{get, insert}
use chainsettle_contract.Base.Int.{ℤ, pos, ltb_ℤ, eqb_ℤ, u32_max}
use chainsettle_contract.Base.Result.{Result, ok, ◌>>=◌, panic_if, add_i128, checked_u32, ◌>>◌}
use chainsettle_contract.Escrow.Host.{Ledger}
use chainsettle_contract.Escrow.State.{Escrow}

-- `check_circuit_breaker`
unfoldable pub check_circuit_breaker : Ledger → ℤ → Escrow → Result Escrow
check_circuit_breaker env payment s =
    let guarded = (do
      edge ← checked_u32 (s.breaker_start + s.breaker_window)
      let expired = leb edge env.sequence
      outflow ← add_i128 (if expired then pos 0 else s.breaker_outflow) payment
      panic_if (ltb_ℤ s.breaker_limit outflow) "circuit breaker triggered: outflow limit exceeded"
      ok (record s {
        breaker_start = if expired then env.sequence else s.breaker_start;
        breaker_outflow = outflow;
      })) in
    if eqb_ℤ s.breaker_limit (pos 0) then ok s else guarded

-- Whether the window that started at `start` is over: at once where its length is zero.
abbrev pub is_over : ℕ → ℕ → ℕ → Result Bool
is_over start window now =
    let later = checked_u32 (start + window) >>= λ edge. ok (leb edge now) in
    if window == 0 then ok true else later

spend_within : Ledger → ℕ → ℤ → ℤ → ℕ → Escrow → Result Escrow
spend_within env buyer amount limit window s = do
  let usage = get (0, pos 0) buyer s.spending_usage
  over ← is_over usage.0 window env.sequence
  used ← add_i128 (if over then pos 0 else usage.1) amount
  panic_if (ltb_ℤ limit used) "buyer spending limit exceeded"
  ok (record s {
    spending_usage = insert buyer (if over then env.sequence else usage.0, used) s.spending_usage;
  })

-- `check_and_record_buyer_spending`
record_spending : Ledger → ℕ → ℤ → Escrow → Result Escrow
record_spending env buyer amount s = elim (get none buyer s.spending_limits) [
  | none ↦ ok s
  | some (limit, window) ↦
      let checked = spend_within env buyer amount limit window s in
      if eqb_ℤ limit (pos 0) then ok s else checked
]

create_within : Ledger → ℕ → ℕ → ℕ → Escrow → Result Escrow
create_within env supplier max_shipments window s = do
  let usage = get (0, 0) supplier s.creation_usage
  let over = usage.1 == 0 || leb (min (usage.0 + window) u32_max) env.sequence
  let count = if over then 0 else usage.1
  panic_if (leb max_shipments count) "shipment creation rate limit exceeded"
  next ← checked_u32 (count + 1)
  ok (record s {
    creation_usage =
        insert supplier (if over then env.sequence else usage.0, next) s.creation_usage;
  })

-- `check_and_record_shipment_creation`
record_creation : Ledger → ℕ → Escrow → Result Escrow
record_creation env supplier s = elim s.rate_limit [
  | none ↦ ok s
  | some (max_shipments, window) ↦
      let checked = create_within env supplier max_shipments window s in
      if get false supplier s.rate_exempt then ok s else checked
]

-- The cooldown that is stored before the panic is lost with it, since the host reverts the call.
cancel_within : Ledger → ℕ → ℕ → ℕ → ℕ → Escrow → Result Escrow
cancel_within env supplier max_cancellations window cooldown s = do
  let usage = get (0, 0) supplier s.cancel_usage
  over ← is_over usage.0 window env.sequence
  count ← checked_u32 ((if over then 0 else usage.1) + 1)
  panic_if (ltb max_cancellations count) "supplier cancellation cooldown active"
  ok (record s {
    cancel_usage = insert supplier (if over then env.sequence else usage.0, count) s.cancel_usage;
  })

-- `check_and_record_supplier_cancellation`
record_cancellation : Ledger → ℕ → Escrow → Result Escrow
record_cancellation env supplier s = do
  panic_if (ltb env.sequence (get 0 supplier s.cancel_cooldown_until))
      "supplier cancellation cooldown active"
  elim (get none supplier s.cancel_config) [
    | none ↦ ok s
    | some (max_cancellations, window, cooldown) ↦
        let checked = cancel_within env supplier max_cancellations window cooldown s in
        if max_cancellations == 0 then ok s else checked
  ]
