-- ===== src/Lib.antt =====
-- A model of gcit, a daemon that polls git remotes, dispatches GitHub Actions workflows when a ref
-- moves, and notifies.
--
-- Base           the names that the other modules share; `Base.Dict` stands for `BTreeMap<String, V>`.
-- State          src/state/apply.rs: `State`, `FlowState`, `StateUpdate` and `State::apply`; and in
--                State.Writer src/state/writer.rs, the thread that applies updates and persists.
--                State.Machine is the specification: one machine for each flow, with no map.
-- Util           src/util.rs: `atomic_write`, over a file system that may refuse any call.
-- LastError      the map of last errors of src/flow/supervisor/types.rs.
-- Poll           src/git/strategy.rs and src/flow/poll: the strategies, one poll of the remote
--                (`poll_one`) and the loop of a flow's poll task (`run_with_executor`).
-- Supervisor     src/flow/supervisor: the tasks of the flows (flows/mod.rs), how a flow that panicked
--                comes back (respawn), what a reload does to the running flows (reload), and
--                the pool of the credentials (credentials.rs).
-- RateBucket     src/git/rate_bucket.rs: the critical sections of `acquire` and `try_acquire`.
-- Mail           src/mail/mbox.rs: how a message is made for an mbox spool, as bytes.
-- Github         src/github/rate_limit.rs (RateLimit) and src/github/error (Errors): when a request is
--                put off, and what a failed one means; src/github/mod.rs (Values); src/github/
--                correlator.rs (Correlator: how a dispatched run is found; Jobs); src/github/
--                dispatcher.rs (Dispatcher: a dispatch and its retries); src/github/monitor.rs
--                (Monitor: how a run is followed).
-- Flow           src/flow/monitor.rs (Monitor: who is told of a run) and src/flow/dispatcher
--                (Dispatcher: from a trigger to its monitor, and the loop over triggers).
-- Discord        src/discord/template.rs, embed.rs and conclusion.rs: the embed of a finished run.
-- Config         src/config/credential.rs: which texts are ids of credentials; src/config/validate/
--                cadence.rs (Cadence): the intervals that a configuration may set.
--
-- How the parts interact: a poll task sends a trigger to its dispatcher and a `StateUpdate` to the
-- writer; the writer applies the updates in order and persists the state after each batch; a task is
-- started from what the state holds for its flow. The dispatcher renders the inputs, dispatches the
-- workflow, correlates the run, reports its start and spawns a monitor, which calls the notifiers and
-- reports the run's end to the writer. The supervisor spawns a poll task and a dispatcher
-- task for each flow and sees them exit.
--
-- Shared conventions. A `DateTime` and a `Duration` are numbers of nanoseconds; a `DateTime` counts
-- from the earliest instant, so that every time is a number that is not negative. What the program
-- awaits (channels, requests, the clock, the file system) is an argument: a list of rounds or batches,
-- each with what happens in it. Such lists are finite, and the theorems range over all of them, so
-- there is no fuel. Code of other crates (object ids and their hexadecimal form, URL parsing, JSON) is
-- a parameter. Log lines are left out.
--
-- The updates of one trigger and its monitor are taken in the order in which they are sent, and the
-- rate limit, which several tasks change, is given with each attempt. The cap of five pages and of ten
-- is a count of the pages that may follow; the retries count the delays that are left.
--
-- Not modelled: the command line, systemd, the HTTP and git clients, templates, the texts of errors,
-- floats (the jitter of the poll interval and the backoff), the supervisor's event loop, the control
-- socket, the notifiers' requests, and the rules of the configuration for flows and destinations.
pub mod Base
pub mod Util
pub mod State
pub mod LastError
pub mod Poll
pub mod Supervisor
pub mod Mail
pub mod RateBucket
pub mod Github
pub mod Flow
pub mod Discord
pub mod Config
