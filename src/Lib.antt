-- ===== src/Lib.antt =====
-- Prospero keeps a fleet of coding agents: a daemon polls and drives the agents of each workspace,
-- numbers what happens to them in a durable event log, and serves the log over HTTP to a command
-- line and a dashboard. Several replicas of the daemon may share one database.
--
-- The parts and how they meet:
-- Model: crates/types/src/model.rs (agents and their status) and, in Model/Event, event.rs (events
--   and the streams that they belong to). A JSON value is of any type `V`.
-- Error: crates/core/src/error.rs.
-- Json: the values of serde_json, and the readers that the source calls on them.
-- Bus: crates/core/src/bus.rs, `subscribe` and `subscribe_all` over what a broadcast receiver yields.
--   Bus/Doorbell: crates/core/src/distributed_bus.rs, the bus of several replicas, over what a listener receives.
-- Store/Query: the queries of `JsonlStore`, crates/core/src/store.rs, over the list of stored events,
--   with proofs in Store/Order and Store/Cursor. Store/Sqlite: the table of crates/core/src/sqlite_store.rs, whose
--   rows carry their cursors, with proofs in Store/Sqlite/Cursor.
-- Usage: `aggregate_usage` of crates/core/src/store.rs, the totals of each workspace and day, with proofs in
--   Rows and Figures.
-- Fleet/Emitter: `Emitter` of crates/core/src/fleet.rs, which numbers, stores and publishes each event.
--   The store is an interface (`StoreApi`) with a state of its own, which Outcome leaves open and which
--   Recovery fills with the sqlite table. Race has the critical sections of `next_seq` as a step relation.
-- Fleet/Attach: `attach_loop` and `attach_once` of crates/core/src/fleet.rs, the task that follows one agent's
--   stream over broken connections and emits an event for each line; Replay and Ends are about it.
-- Caliband/Frames: crates/core/src/caliband/stream.rs, from a line's JSON to an event, which Attach calls.
--   Caliband/Wire: the statuses of caliband/wire.rs.
-- Fleet/Manager: the state of `FleetManager` of crates/core/src/fleet.rs. Its event log is the sequence of what
--   it emits, the emitter being a module of its own. Reconcile and Poll are the poll of a workspace, Control
--   spawns, stops and removes agents, Workspaces keeps the list of workspaces, Changes is what its followers
--   are told, in the terms of Model/Change, crates/core/src/model.rs, that both fleets share.
-- Provider: crates/core/src/provider_env.rs, the environment of a workspace's agents.
-- Sse: crates/api/src/sse.rs and sse/tail.rs. Tail is one agent's stream (stored history, then the bus,
--   with the self-heal after a lag), Fleet is the fleet-wide one. A client of the first is Dashboard/Session,
--   crates/dashboard/src/stream.rs, which reconnects from `resume_from`; its Connection joins the two.
-- Ownership: crates/core/src/ownership.rs and leased_ownership.rs, the lease table that replicas share. Steps
--   has what the replicas may do to it in any interleaving.
-- Registry: crates/core/src/registry.rs, the workspaces. Roots are compared by their components.
-- Auth: crates/core/src/auth.rs (tokens), Auth/Session: crates/api/src/auth/session.rs (cookies), Auth/Access:
--   crates/api/src/auth/mod.rs (the scope table and the middleware).
-- Automation: crates/types/src/automation.rs, and in Automation/Store the statements of
--   crates/core/src/config_store.rs on automations and their runs. Template, Engine and Firing are
--   crates/core/src/automation.rs: the placeholders of a task, schedules and signatures, and what a tick, a
--   request or a webhook fires, over a fleet of any kind.
-- Deadline: crates/core/src/deadline.rs.
-- K8s: the other fleet, of crates/core/src/k8s: the resources of crd.rs. Task has the projections of a task
--   and the condition of status.rs, Overlay what the pods say, Diff what changed. Watch is a pass of the watch
--   loop of fleet.rs, which also records each outcome; Plane are the tasks that follow the pods' streams,
--   Stream is what a subscriber is told, and Control has the provider's operations.
-- Dashboard/Timeline: crates/dashboard/src/timeline.rs, the entries of a session (Dashboard/Session) as rows.
--   Dashboard/View: crates/dashboard/src/view_model.rs, the numbers and labels of the overview.
-- Prelude: what the other modules share: tests on numbers, lists, association lists. Tests: the results
--   at concrete inputs.
--
-- State is passed explicitly; an SQL statement is one atomic action on its table. What concurrent tasks
-- and replicas do is a list of actions or a step relation, over all interleavings. Numbers are natural
-- numbers; an event's number and a cursor are u64 in the source and are taken not to overflow, and the
-- casts and saturations that matter are written out (`disconnected`, `backoff_for`, `deadline_at`, `parse_i64`).
-- Fuel: `drain` of Sse/Fleet takes one unit per read, and a log of n events left needs n + 1 of them;
-- `append_with_seq_retry` counts the source's eight retries down; `digits` writes the 19 digits of an i64;
-- `interpolate` takes one unit per byte of the template and one more, each turn passing at least four bytes.
-- Parameters stand for code of other crates and other programs: SHA-256, HMAC, base64, hex, the parser and
-- the printer of serde_json, the cron schedule, the reading and writing of time stamps, the wording of
-- errors, the length of a call, the hash of an agent, and what caliband, the lease table, the process
-- environment, the API server and the pods answer.
--
-- Not modelled: sockets, processes and files, the HTTP framework, serialisation, the Postgres back end, the
-- client of the Kubernetes API and the editing of its workspaces, the restarting and the discovery of
-- caliband, the command line and the rendering of the views.
pub mod Prelude
pub mod Model
pub mod Error
pub mod Json
pub mod Bus
pub mod Store
pub mod Usage
pub mod Caliband
pub mod Provider
pub mod Fleet
pub mod K8s
pub mod Sse
pub mod Dashboard
pub mod Ownership
pub mod Registry
pub mod Auth
pub mod Automation
pub mod Deadline
pub mod Tests
