-- ===== src/Tests.antt =====
-- Runs of the models on small states, and the theorems at concrete inputs.
pub mod Fibers
pub mod Histories
pub mod Messages
pub mod Scopes
pub mod Spans
