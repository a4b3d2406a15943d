-- ===== src/Loan/Handlers.antt =====
-- The entry points of contracts/loan_manager/src/lib.rs. A call takes the environment, its
-- arguments and the state, and returns the new state or panics; a panic reverts the call.
pub mod Admin
pub mod Liquidity
pub mod Borrower
pub mod Liquidation
