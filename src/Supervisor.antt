-- ===== src/Supervisor.antt =====
-- src/flow/supervisor: the flows' tasks, how a flow that panicked is started again, and what a
-- reload of the configuration does to the running flows.
pub mod Credentials
pub mod Types
pub mod Flows
pub mod Respawn
pub mod Reload
pub mod Samples
