-- ===== src/Scheduler.antt =====
-- src/pump_research/scheduling/scheduler.py: the adaptive scheduler over its database rows.
pub mod Rows
pub mod Refresh
pub mod Decisions
pub mod Advance
pub mod Selection
pub mod Claim
pub mod Batches
pub mod Complete
pub mod Apply
pub mod Rebase
pub mod Steps
pub mod Planning
pub mod Applications
pub mod Rebasings
pub mod Plannings
pub mod Samples
pub mod Scenarios
pub mod Completions
