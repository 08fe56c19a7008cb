-- ===== src/Analysis.antt =====
-- AI runs and the guards on them: internal/analysis/run.go, internal/analysis/guard.go and
-- internal/analysis/readiness.go.
pub mod Run
pub mod Storage
pub mod History
pub mod Evidence
pub mod Persistence
pub mod Lifecycle
pub mod Selections
pub mod Guard
mod Examples
