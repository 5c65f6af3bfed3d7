-- ===== src/Lib.antt =====
-- Swarmbus, a message bus between agents over MQTT: a model of its core and proofs about it.
--
-- A message is an envelope (`AgentMessage`). A sender publishes it to the topic that `TopicMap` gives
-- for its receiver. The receiver's store (`SQLiteMessageStore`) admits it, holds it, or refuses it, by
-- the hops it made and the rate of its sender, and keeps what it admits in an inbox that is read and
-- acknowledged. Agents announce themselves by retained registry and presence records, on which
-- maintenance decides what is garbage.
--
-- The files, with the code they are about (src/swarmbus/):
-- - Base: texts as lists of code points, Boolean tests on the native numbers, integers, results with
--   Python's exceptions as errors, and SQL tables as lists of rows in rowid order.
-- - Message, for message.py: Unicode (the categories that the code tests, as code point ranges),
--   Sanitize (`sanitize_field`), Frame (`frame_body`), AgentId (`_validate_agent_id`,
--   `_validate_registered_agent_id`), Json (JSON values; json, datetime and pydantic as a parameter),
--   Envelope (`AgentMessage` with `create`, `to_json` and `from_json`).
-- - Topics, for topics.py: `TopicMap`, its builders, predicates and parsers.
-- - Archive, for archive.py: Rows (the tables of the hold store), Statements (the SQL statements), Caps
--   (`_prune_admitted`, `_cap_conflicts`, `_cap_held`), Bucket (the token bucket), Stub (the envelope kept
--   for a flood), Admit (`_admit_in`), Store (`admit`, `pop_trips`, `reset_trips`, `__init__`), Inbox
--   (`store`, `record_conflict`), Inbox/Read (`read`), Inbox/Ack (`ack`), Reports (`list_conflicts`,
--   `list_holds`, `channel_metrics`, `lookup`), Compat (`SQLiteArchive`).
-- - Registry, for registry.py: Records (`_normalize_string_list`, `RegistryRecord`), Presence
--   (`PresenceRecord`, `stamp_presence_payload`), Decide (`orphan_presence_action`, `presence_evidence`,
--   `transient_gc_decision`), Cache (`RegistryCache`).
-- - Maintenance, for maintenance.py: Snapshot (`_RegistrySnapshot`), Report (`RegistryGCReport`), Gc (the pass of
--   `gc_transient` over the selected records), Orphans (`_stamp_or_collect_orphans`,
--   `_write_orphan_presence`), Collect (`gc_transient`), Forget (`forget`), Listing (`list_registry`).
-- - Bus, for bus.py: Listen (the messages of one connection of `_listen`, `_archive_unchecked`), Reconnect (its
--   connections and delays), Inbox (`read_inbox`, `_watch_inbox`), Outbox (`send`,
--   `_append_outbox_entry`), Agents (`list_agents`).
-- - Runtime, for runtime.py: State (`ManagedMCPRuntime`, `_observe_sender_state`), Commit
--   (`_commit_inbox_message`, `_store_inbox_message`), Handle (`_handle_message`, `_ManualAckAdapter.ack`),
--   Send (`send_message`, `_transport_unavailable`).
-- - TripAlert, for trip_alert.py: `_clean`, `trip_env`, `TripAlerter.submit`.
-- - Config, for config.py: `_convert`, `load_config`.
-- - Tests: the theorems applied to concrete inputs.
--
-- A call takes the state and returns the next one with its result; one that raises returns an error by
-- its class, and a transaction that fails leaves the tables as they were. Clock readings are arguments,
-- in whole microseconds, as are thresholds. ISO texts of UTC times order as the microseconds they stand
-- for, so the tables of the hold store keep those. Tokens are counted in units of 1/60000000 of a token,
-- which a whole microsecond refills by whole units, where the source keeps floats and forgives 1e-9 of a
-- token. A cool-down that ends past the year 9999 raises ValueError, as datetime.fromtimestamp does; for times that
-- the platform does not hold (an infinite one too) the source raises OverflowError or OSError, which the model does not
-- tell apart. The loop of `read` runs on fuel, two more than the rows of the inbox: each turn passes at least one
-- row.
--
-- What happens outside is an input of a run: the messages that the broker delivers, whether a connection, a publish, an
-- audit, a commit or an acknowledgement fails, and the readings of the clock. The loops of maintenance, the
-- bus and the runtime go through the lists of these inputs, so they need no fuel. The search for a free name of a rotated
-- outbox runs on fuel, one more than the latest name that is taken.
--
-- Parameters of the model: a `Codec` for json, datetime.isoformat, pydantic's coercions and
-- str.isprintable, and `sha256`; the ISO text of a time in the environment of an alert; `strftime` and
-- `encode` for the outbox; and a `Reader` for int,
-- float, os.path.expanduser and str.lower in a config file. Hypotheses on them are only that what was written is read back.
-- Validation reports the first failing field where pydantic lists all of them. Logging, file modes, the
-- opening and migration of the database, MQTT transport, the identity
-- lease, the lock on the outbox, the runtime's connection loop, the subprocess of an alert, the command
-- line, the MCP server and the handlers are not modelled.
pub mod Base
pub mod Message
pub mod Topics
pub mod Archive
pub mod Registry
pub mod Bus
pub mod Maintenance
pub mod TripAlert
pub mod Config
pub mod Runtime
mod Tests
