-- ===== src/Lifecycle.antt =====
-- src/pump_research/lifecycle: the lifecycle rules and the choice of evidence.
pub mod Policy
pub mod Classifier
pub mod Evidence
