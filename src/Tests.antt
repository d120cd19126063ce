-- ===== src/Tests.antt =====
-- Runs of the model on a small database: Bob (2) has issued a token, Alice (1) pays it.
pub mod Data
pub mod Witnesses
pub mod Claims
pub mod Settled
pub mod Bought
pub mod Repaid
pub mod Sweeps
pub mod Amounts
pub mod Access
pub mod Pages
pub mod Hooks
pub mod Signup
pub mod Identity
pub mod Viewed
pub mod Throttle
pub mod Merchants
pub mod Cards
