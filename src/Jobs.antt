-- ===== src/Jobs.antt =====
-- internal/jobs: the periodic work.
pub mod Reconciler
