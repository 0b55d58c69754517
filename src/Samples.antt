-- ===== src/Samples.antt =====
-- Tests, and each theorem with hypotheses at an input where they hold.
mod Patterns
mod Streams
mod Paths
mod Records
mod Policy
mod Runs
mod Background
mod Wire
mod Session
