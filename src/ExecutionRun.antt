-- ===== src/ExecutionRun.antt =====
-- internal/executionrun: running an authorized plan.
pub mod Types
pub mod Artifacts
pub mod Foreground
pub mod Bound
pub mod Background
