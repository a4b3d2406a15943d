-- ===== src/Escrow.antt =====
-- The shipment escrow (contracts/chainsetttle/src/lib.rs), part by part.
pub mod Shipment
pub mod Policy
pub mod Payout
pub mod Terms
pub mod Settle
pub mod Complete
pub mod Settlement
pub mod Confirm
pub mod Held
pub mod State
pub mod Host
pub mod Fees
pub mod Limits
pub mod Split
pub mod Vault
pub mod Custody
pub mod Refund
pub mod Warranty
pub mod Claim
pub mod Preview
pub mod Freeze
pub mod Evidence
pub mod Proof
mod Tests
