-- ===== src/State.antt =====
-- src/state/apply.rs: the daemon's state in memory and the rules by which a `StateUpdate` changes
-- it. A time is a number of nanoseconds from the earliest instant that `DateTime<Utc>` holds. The
-- type of git object ids and its printer `to_hex` belong to another crate: they are parameters.
pub mod Types
pub mod Apply
pub mod Machine
pub mod PerFlow
pub mod Latest
pub mod Runs
pub mod Writer
mod Samples
