-- ===== src/Payments.antt =====
-- internal/payments: the settlement of a payment.
pub mod Activity
pub mod Handler
pub mod Types
pub mod Checks
pub mod Legs
pub mod Orchestrate
pub mod Hold
pub mod Create
pub mod Undo
pub mod Webhook
