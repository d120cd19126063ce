-- ===== src/Store.antt =====
-- internal/store: the rows of the tables and the queries on them. The SQL text of each query is in
-- the Go files that sqlc generated; constraints come from migrations.
pub mod Races
pub mod Models
pub mod Query
pub mod Otp
pub mod Devices
pub mod PushTokens
pub mod Payments
pub mod Tokens
pub mod Users
pub mod Accounts
pub mod Mandates
pub mod Records
pub mod Limits
pub mod Terms
pub mod Trusted
