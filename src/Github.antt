-- ===== src/Github.antt =====
-- src/github: what a failed request means, and when requests are put off.
pub mod RateLimit
pub mod Errors
pub mod Requests
pub mod Values
pub mod Pages
pub mod Correlator
pub mod Jobs
pub mod Monitor
pub mod Dispatcher
pub mod Deferral
pub mod Samples
