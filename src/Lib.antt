-- ===== src/Lib.antt =====
-- The tables, sessions and assist requests of a restaurant, as the Go backend in internal/ keeps them,
-- the hub that passes their events on to connections, the members of an organisation, and some
-- arithmetic of the analytics.
--
-- Waiters, guests and displays send commands to internal/domain/operations. A command runs in one
-- transaction of the database: it locks a row, checks its version, changes rows through the
-- statements of internal/store/db/operations.sql.go, appends an event to `operational_events` with
-- one row of the outbox for each destination, and records its reply under its idempotency key.
--
-- Files and code:
-- - Base: natural numbers, Booleans, lists and rows found by a test or by a key.
-- - Store: the rows of internal/store/db/models.go (Store/Schema, Store/Events) and a transaction
--   (Store/Transaction). A transaction is a function from the environment and the state of the
--   transaction to an outcome. Each statement first counts itself and asks the environment whether
--   the connection fails at it; `check` is a constraint of the migrations in infra; `one` is
--   pgx.ErrNoRows. An error before COMMIT is a rollback; a COMMIT whose round trip fails returns an
--   error, and the environment says whether the server had applied it.
-- - Operations/Errors: the error values of internal/domain/operations/errors.go and the contexts that
--   service.go wraps around them.
-- - Operations/Queries, Operations/Assists: the statements, one function for each, with their WHERE
--   clauses as tests and their SET clauses as functions on rows.
-- - Operations/Events: writeOperationalEvent. Operations/Commands: runTenantCommand with
--   getIdempotencyReplay and insertIdempotencyRecord. Operations/Tables: occupyTableInTx and
--   clearTableInTx. Operations/Assists: changeAssistInTx and RequestAssist.
-- - Operations/Service: the exported commands, and `run`, which makes a sequence of calls.
-- - Outbox/Claim: the statement that `claim` of internal/outbox/outbox.go sends, on the rows of the
--   outbox alone; rows that other transactions lock come as a test.
-- - Outbox/Worker: processRecord, handleConsumer, retryOrFail and the statements that they send, over
--   Outbox/Steps, where every round trip may fail and a transaction takes effect when it commits.
--   Calls of consumers are kept in a list. Outbox/Backoff: backoff, in nanoseconds, with the rounding of
--   its base to a float64. Outbox/Pool: the goroutines of ProcessBatch, of one worker and of others, each
--   at a stage of processRecord; a turn lets one of them run its next transaction or call, or starts one
--   on another record, so that `run` is any interleaving. Outbox/Pool/Alone relates a goroutine that
--   nothing interrupts to processRecord. The cancelling of a context is a connection that fails from then on.
-- - Identity: internal/domain/identity/memberships.go. Identity/Queries and Identity/Updates are the
--   statements, Identity/Memberships the steps that the operations share, Identity/Management the
--   operations of an owner, Identity/Ownership those of a platform administrator. Both tables of
--   memberships have one type of row. A query that finds no row returns `none`, where the code
--   returns ErrNotFound and its caller asks for it.
-- - Identity/Devices and Identity/Sessions: devices and web sessions in internal/domain/identity/service.go,
--   with Identity/Secrets for tokens.go in the same directory, and Identity/DeviceQueries,
--   Identity/CredentialQueries and Identity/Sessions/Queries for their statements. An operation of
--   several transactions has a connection for each. Identity/Access makes sequences of calls on them.
-- - Configuration: the floors in internal/domain/configuration/service.go. Configuration/Transaction has
--   the rows, errors and transactions, Configuration/Queries the statements of
--   internal/store/db/layout.sql.go, Configuration/Floors the operations, Configuration/Register what
--   they promise.
-- - Realtime/Hub: internal/realtime/hub.go, with the map from scopes to clients in Hub/Scopes. A
--   client is an object on a heap, named by its number; each call of the hub is one step, and
--   `receive` is the WriteLoop of internal/realtime/websocket.go taking a message off a channel.
-- - Realtime/Sync: the pages of events that internal/realtime/sync.go loads after a cursor, on the rows
--   of `operational_events` alone.
-- - Analytics/Overlap, Analytics/Clock: OverlapSeconds of internal/domain/analytics/formulas.go as a
--   Duration, before its float64 seconds, and timeParts and the sum of ParseClock in
--   service_period.go.
-- Modules below these hold what a return of each operation implies, the invariants and the results.
--
-- An event of the outbox reaches its consumers, the hub among them, through the worker of
-- internal/outbox: a consumer is a function from the number of its call and the event to a result.
--
-- Numbers: UUIDs and instants are natural numbers; an instant of the store counts
-- microseconds, one of Analytics nanoseconds. `version` and
-- `party_size` are int32, and the statement that would increment a version beyond 2^31 - 1 fails, as
-- PostgreSQL does. There is no fuel: every operation is a finite chain of
-- statements or a loop over a list.
--
-- Parameters: the clock, the identifiers that are drawn, the faults of the connection, the encoders of
-- JSON and the trace context come from the environment `Env`, and results hold for each of them;
-- what other code makes of texts, the hash of a secret among them, comes as `Texts`.
-- Drawn identifiers may clash; a clash is an error of the statement.
--
-- Transactions on the same rows run one after the other in `run`: the code guards its UPDATEs, or
-- locks the rows with SELECT … FOR UPDATE (the count of owners in Identity takes no lock), and
-- interleavings of statements of two transactions are not modelled; those of whole transactions of
-- goroutines of the outbox are, in Outbox/Pool. Metrics, logs, texts of errors,
-- and the parts of internal/ that the list of files above does not name are not
-- modelled.
mod Base
pub mod Store
pub mod Operations
pub mod Realtime
pub mod Analytics
pub mod Identity
pub mod Configuration
pub mod Outbox
