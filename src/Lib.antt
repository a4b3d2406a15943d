-- ===== src/Lib.antt =====
-- The contracts of this repository, modelled and verified.
--
-- The program is a pair of Soroban contracts. contracts/loan_manager is a lending pool: depositors
-- supply the debt token, borrowers post collateral and draw loans, prices come from two oracle
-- contracts with a time-weighted average as the last resort, and a liquidation engine repays
-- unhealthy positions, with bad debt written off across the depositors. contracts/chainsetttle is
-- the shipment escrow.
--
-- Which file models what (paths from the repository's root):
-- - Base: integers of 128 bits, computations that may panic, dictionaries and sums over them.
-- - Loan/Store: contracts/loan_manager/src/storage.rs and constants.rs. `Store` has one field for each
--   constructor of `DataKey`; a key that is absent is held as the default that its readers take.
-- - Loan/Host: what a call reads of its environment. A token transfer is recorded in the state, newest
--   first; whether the token contract carries it out, and what an oracle contract answers, are
--   fields of `Env`.
-- - Loan/Engine: liquidation.rs, function by function. `compute_plan` is cut at its local variables
--   into `target_value`, `capped_repay`, `seizure` and `planned`.
-- - Loan/Oracle: oracle.rs. `observe` is `record_observation` on one asset's accumulator.
-- - Loan/Socialize: `socialize_bad_debt` of lib.rs, its two loops by recursion on the depositors.
-- - Loan/Handlers/Admin, Liquidity, Borrower, Liquidation: the entry points of lib.rs.
-- - Loan/Contract: the calls as data, `call` and `run`, in which a call that panics changes nothing.
-- - Escrow/State, Escrow/Host: the keys of contracts/chainsetttle/src/lib.rs that the modelled parts
--   use, and what they read of their environment.
-- - Escrow/Fees: the tiers, waivers and holidays, and the fee that a payment is reduced by.
-- - Escrow/Limits: the circuit breaker, spending limits, rate limit and cancellation cooldown.
-- - Escrow/Split: how a milestone's payout weight and quantity are shared among its parts.
-- - Escrow/Shipment, Escrow/Policy: shipments with what is stored under their ids, the settings and the
--   counters. `Desk` of Escrow/Payout is one shipment's entry with the rest of the state.
-- - Escrow/Payout: `pay_milestone_to_payees` with its holdbacks.
-- - Escrow/Terms: gross payment, late penalty, advance, rebate, cooldown and review window.
-- - Escrow/Settle, Escrow/Complete: the steps of a settlement, and what the last milestone sets off.
-- - Escrow/Settlement: the two ends of `confirm_milestone`, cut at its local variables into `hold`,
--   `charge`, `enter_confirmation`, `distribute` and `leave_escrow`.
-- - Escrow/Confirm: the guards of `confirm_milestone` and the handler.
-- - Escrow/Held: `release_held_payment`.
-- - Migration: contracts/chainsetttle/src/paged_migration.rs. The callback is a parameter.
-- - Escrow/Vault: the balances that buyers hold in the contract.
-- - Escrow/Warranty: claims on the warranty holdback, their resolution and its release.
-- - Escrow/Claim: `claim_payout`, with the preferred tokens and conversion rates that it reads.
-- - Escrow/Evidence, Escrow/Proof: what is stored for proofs; their submission, one by one and in batches,
--   attestation and correction. What the host takes as a string's bytes is a parameter.
-- - Escrow/Freeze: the votes on the emergency freeze; `true` stands for freezing and `false` for lifting.
-- - Escrow/Preview: `preview_milestone_payout`, cut at its early return into `preview_settled`.
-- - Escrow/Custody: contracts/chainsetttle/src/custody_log.rs. `copy_entries` is the loop of a page.
-- - Escrow/Refund: contracts/chainsetttle/src/supplier_voluntary_refund.rs. Warranty, Claim, Refund,
--   Proof and Freeze add the keys that only they use to the state of the escrow.
--
-- Conventions. A computation that may panic is a `Result`; the plain operators on i128 panic outside
-- the type's range (the release profile turns overflow checks on), the saturating ones are held at its ends. The ledger's
-- time is a u64.
--
-- Loops are by recursion on the list or the count that they run over. Only the repeated calls of a
-- migration, which the administrator makes, run on fuel, and a theorem says how much is enough.
--
-- Not modelled: the creation of a shipment, disputes and their arbiters, cancellation and expiry, advances
-- before they are used, the release of retainage but at completion, roles and the other proposals of
-- several administrators, setters of configuration, the estimate of a whole shipment's costs, events,
-- the extension of storage lifetimes, and getters that only read a field. The host's storage is taken
-- to keep what is written to it.
pub mod Base
pub mod Escrow
pub mod Loan
pub mod Migration
