-- ===== src/Risk.antt =====
-- internal/risk: the caps and the limits on what a user sends.
pub mod Trusted
pub mod Limits
pub mod Handler
