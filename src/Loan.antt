-- ===== src/Loan.antt =====
-- The lending pool with its liquidation engine (contracts/loan_manager/src).
pub mod Store
pub mod Engine
pub mod Oracle
pub mod Host
pub mod Guards
pub mod Socialize
pub mod Sound
pub mod Handlers
pub mod Contract
mod Tests
