-- ===== src/State/PerFlow.antt =====
-- src/state/apply.rs, seen from one flow: the state as a family of independent machines, one for
-- each flow name. `step_flow` is the specification, over an entry that may be missing.
pub mod Refinement
