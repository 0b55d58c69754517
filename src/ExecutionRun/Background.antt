-- ===== src/ExecutionRun/Background.antt =====
-- internal/executionrun/background.go: processes that outlive the request that started them.
pub mod Entry
pub mod Table
pub mod Steps
pub mod Sound
pub mod Lookup
pub mod Kept
pub mod Ends
pub mod Operations
pub mod Closed
pub mod Respond
pub mod Reported
