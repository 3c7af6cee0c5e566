-- ===== src/State/Runs.antt =====
-- The two run lists of a flow: what holds of them whatever updates are applied.
pub mod Distinct
pub mod Invariant
pub mod Lifecycle
pub mod History
