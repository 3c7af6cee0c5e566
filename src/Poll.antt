-- ===== src/Poll.antt =====
-- src/git/strategy.rs and src/flow/poll: how a flow's task polls its remote and decides when to
-- dispatch.
pub mod Strategy
pub mod Executor
pub mod Send
pub mod Loop
mod Samples
