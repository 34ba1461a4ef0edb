-- ===== src/Lib.antt =====
-- Icinga DB: synchronisation of Icinga 2's objects and events from Redis to an SQL database.
--
-- The program's parts. Icinga 2 writes its configuration, states and events to Redis. Each process
-- of Icinga DB (`cmd/icingadb`) listens to the heartbeats of its Icinga 2 and competes with the other
-- processes of the environment through the table `icingadb_instance` (`pkg/icingadb/ha.go`). The one
-- that is responsible compares the entities of Redis with those of the database by type
-- (`pkg/icingadb/delta.go`) and applies the differences; it passes streams of events on, to the
-- history tables and, merged in the order of their stream IDs (`pkg/notifications/sorter.go`), to
-- Icinga Notifications.
--
-- The files. Delta.antt is `pkg/icingadb/delta.go` (`Delta.run`, `entitiesEqual`): the goroutine's
-- variables are the record `Run`, one clause of `step` is one case of its `select`, and a schedule is
-- the list of what the `select` receives, so that a theorem about all schedules is one about all
-- interleavings. Ha.antt has the data and the transaction of `pkg/icingadb/ha.go` (`realize`,
-- `signalHandover`, `signalTakeover`, `realizeLostHeartbeat`, `removeInstance`,
-- `removeOldInstances`), Ha/Controller.antt its loop (`controller`, `verifyNotificationsState`);
-- Ha/Rows.antt to Ha/Rounds.antt say what the statements, the transaction and a round do,
-- Ha/Signals.antt and Ha/Reachable.antt what a node stores and signals, Ha/Published.antt what `State` tells
-- after a committed transaction, and Ha/Cluster.antt puts several
-- nodes and the table together. Notifications/Sorter/Submission.antt and
-- Notifications/Sorter/Worker.antt are `streamSorterSubmissions.Less` and the loop of `worker` in
-- `pkg/notifications/sorter.go`, with the protocol by which `PipelineFunc` uses the worker's channels
-- in Worker/Outputs.antt; StreamId.antt and Callback.antt beside them are `parseRedisStreamId`,
-- `submit` and `startCallback` there. Prelude.antt has what the parts share.
-- DumpSignals.antt is `pkg/icingadb/dump_signals.go` (`Listen`, `Done`); DumpSignals/Heard.antt says by
-- the events alone what its channels tell.
-- Cleanup.antt is the loop of `CleanupOlderThan` in `pkg/icingadb/cleanup.go`.
-- Retention.antt is `Validate` and the loop of `Start` in `pkg/icingadb/history/retention.go`.
-- Notifications/Relations.antt and its Cases.antt and Provider.antt are `pkg/notifications/fetch.go`;
-- Relations/Claims.antt says what `complete_relations` claims, and the other files there prove it.
-- Notifications/Events.antt is the building of events and `Submit` in
-- `pkg/notifications/notifications.go`, Notifications/Incidents.antt its `ApplyDelta`, and
-- Notifications/CheckOutputs.antt its `SyncCheckOutputs`.
-- History/Stage.antt is `writeMultiEntityStage` in `pkg/icingadb/history/sync.go`.
-- RuntimeUpdates.antt is `xRead`, `structifyStream` and the writers in
-- `pkg/icingadb/runtime_updates.go`.
-- Migration.antt is what the conversions of `cmd/icingadb-migrate` share (`misc.go`);
-- Migration/States.antt, Migration/Comments.antt, Migration/Flapping.antt and
-- Migration/Notifications.antt are `convertStateRows`, `convertCommentRows`, `convertFlappingRows` and
-- `convertNotificationRows` in its `convert.go`; Migration/Slices.antt is `sliceIdoHistory` in its `misc.go`,
-- Migration/HardStates.antt and Migration/StartTimes.antt are `buildPreviousHardStateCache` and
-- `buildEventTimeCache` in its `cache.go`, and Migration/CacheTables.antt the statements that these share.
-- Heartbeat.antt is the state loop of `controller` and `sendEvent` in `pkg/icingaredis/heartbeat.go`.
-- Overdue.antt is `initSync`, `sync`, `updateOverdue` and `updateDb` in
-- `pkg/icingadb/overdue/sync.go`, with its script `get_overdues.lua`.
-- ConfigSync.antt is `Sync` and `ApplyDelta` in `pkg/icingadb/sync.go`, on top of Delta.antt, with
-- `CreateEntities` and `SetChecksums` in `pkg/icingaredis/utils.go` and `EntitiesById` in
-- `pkg/icingadb/entitiesbyid.go`.
--
-- Parameters. `container/heap` is the interface `HeapLib` (Notifications/Sorter/Heap.antt), whose
-- laws are its documentation: an implementation of the operations is an instance in the tests. `Codec`
-- (ConfigSync.antt) is an entity's own operations and the decoding of JSON, with the laws `IsCodec`
-- (ConfigSync/Prepared.antt). The
-- database, the clock, the scheduler and the receivers of channels are arguments of the operations: an
-- event says what a `select` receives, and `Outside` how a transaction, an update or a send ended. What
-- Redis and the database hold for an event is the record `Sources`, the operations of the library for
-- Icinga Notifications are the records `Library` and `Packing`, and the hash of an ID, the structifiers
-- and the queries of the migration are functions that the operations take.
--
-- Bounds. The loops over channels run over the finite list of what they receive, so no fuel is needed;
-- those of Cleanup.antt and Migration/Slices.antt have fuel, and one round more than there are rows is shown
-- to be enough. Times are natural numbers, in seconds, milliseconds, microseconds or nanoseconds; the
-- parts of a stream ID are integers, and an ID out of the range of 64 bits is not parsed.
--
-- The sets of Redis and the tables that the SQL statements work on are the lists or the maps of what they
-- hold; a statement on many rows has its effect a row at a time.
--
-- Not modelled: logging, metrics, the telemetry in Redis, the SQL driver and its retries, the transport of
-- Redis and of HTTP, the declarations of columns, the database's schema and the check of its version, the
-- configuration and the command line, which are the libraries' or only pass values on; the main programs
-- (`cmd/icingadb/main.go`, `cmd/icingadb-migrate/main.go`), which start the parts and draw their progress; and, of
-- the parts above, `SyncCustomvars`, the custom variables of the runtime updates, the entities of the history stages and
-- their chain, the loop of `Submit` that sends a request, and the conversion of downtimes.
pub mod Prelude
pub mod Cleanup
pub mod ConfigSync
pub mod Delta
pub mod DumpSignals
pub mod Ha
pub mod Heartbeat
pub mod History
pub mod Migration
pub mod Notifications
pub mod Overdue
pub mod Retention
pub mod RuntimeUpdates
