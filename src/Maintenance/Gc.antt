-- ===== src/Maintenance/Gc.antt =====
-- The pass of `gc_transient` over the selected records (src/swarmbus/maintenance.py). What the broker and the
-- audit sink do in the turn of a record is an input; a call that fails raises MqttError, or inside the deletion
-- any exception. Publishes are logged in the order of the calls, those that fail included.
pub mod Turns
pub mod Loop
use swarmbus.Base.{
  ℕ, ◌+◌, ◌-◌, Bool, true, false, not, ◌&&◌, List, [], ◌∷◌, ◌++◌, length, Text, Option, none, some,
  if◌then◌else◌, ◌==◌,
}
use swarmbus.Base.Int.{ℤ}
use swarmbus.Base.Result.{Result, ok, ◌>>=◌}
use swarmbus.Message.Json.{DateTime, Codec}
use swarmbus.Topics.{TopicMap, registry, presence}
use swarmbus.Registry.Records.{RegistryRecord, Durability, durable, ephemeral, unknown}
use swarmbus.Registry.Presence.{PresenceRecord}
use swarmbus.Registry.Decide.{
  Evidence, seen_online, seen_offline, unconfirmed, presence_evidence, transient_gc_decision,
}
use swarmbus.Registry.Cache.{lookup}
use swarmbus.Maintenance.Snapshot.{Delivery, Snapshot, snapshot}
use swarmbus.Maintenance.Report.{GcReport, resolved}

pub record Settings : Type 0 where
  pub stale_after : ℤ
  pub retention : ℤ
  pub dry_run : Bool

-- The turn of one record: whether the reader connects and its snapshot is taken, what that delivers, whether the
-- audit sink takes the event, whether the agent's own session connects, each publish succeeds, that session and
-- the reader close.
pub record Turn : Type 0 where
  pub connects : Bool
  pub deliveries : List Delivery
  pub audits : Bool
  pub agent_connects : Bool
  pub presence_published : Bool
  pub registry_published : Bool
  pub agent_closes : Bool
  pub closes : Bool

-- An empty retained publish; `session` if it goes out under the agent's own client id.
pub record Tombstone : Type 0 where
  pub topic : Text
  pub session : Bool

-- None if all of it succeeded; else whether the presence was deleted by then.
unfoldable pub publish_tombstones : TopicMap → Text → Bool → Turn → List Tombstone × Option Bool
publish_tombstones t id session turn =
    let first : Tombstone = record { topic = presence t id; session = session } in
    let second : Tombstone = record { topic = registry t id; session = session } in
    if session && not turn.agent_connects
    then ([], some false)
    else if not turn.presence_published
    then (first ∷ [], some false)
    else if not turn.registry_published
    then (first ∷ second ∷ [], some true)
    else if session && not turn.agent_closes
    then (first ∷ second ∷ [], some true)
    else (first ∷ second ∷ [], none)

abbrev pub is_durable : Durability → Bool
is_durable durable = true
is_durable ephemeral = false
is_durable unknown = false

abbrev pub is_offline : Evidence → Bool
is_offline seen_offline = true
is_offline seen_online = false
is_offline unconfirmed = false

abbrev pub fail : Text → GcReport → GcReport
fail id r = record r {
  failed = r.failed + 1;
  skipped = r.skipped + 1;
  failed_agent_ids = r.failed_agent_ids ++ id ∷ [];
}

abbrev pub settle : Text → Bool → Option Bool → GcReport → GcReport
settle id session none r = record r {
  deleted = r.deleted + 1;
  deleted_agent_ids = r.deleted_agent_ids ++ id ∷ [];
  sessions_destroyed = r.sessions_destroyed + (if session then 1 else 0);
}
settle id session (some presence_deleted) r = record (fail id r) {
  partial = r.partial + (if presence_deleted then 1 else 0);
}

abbrev pub preserve : Bool → GcReport → GcReport
preserve kept r = record r { sessions_preserved = r.sessions_preserved + (if kept then 1 else 0) }

pub record Pass : Type 0 where
  pub report : GcReport
  pub sent : List Tombstone
  pub broker_lost : Bool

-- The outer handler of MqttError: the rest of the batch cannot be attempted.
abbrev pub lose : Text → ℕ → ℕ → GcReport → GcReport
lose id total before report =
    let counted =
      if resolved report == before
      then record report {
        failed = report.failed + 1;
        failed_agent_ids = report.failed_agent_ids ++ id ∷ [];
      }
      else report in
    record counted { skipped = counted.skipped + (total - resolved counted) }

abbrev pub end_turn : Text → ℕ → ℕ → Turn → GcReport × List Tombstone → Pass
end_turn id total before turn (report, sent) =
    if turn.closes
    then record { report = report; sent = sent; broker_lost = false }
    else record { report = lose id total before report; sent = sent; broker_lost = true }

module _ (c : Codec) (t : TopicMap) (now : DateTime) (s : Settings) where
  abbrev pub delete_with : Text → Bool → Turn → GcReport → GcReport × List Tombstone
  delete_with id session turn r =
      let (sent, outcome) = publish_tombstones t id session turn in
      (settle id session outcome r, sent)

  -- The audit, and the deletion of an authorized record.
  unfoldable pub delete_record :
      Text
      → RegistryRecord
      → Option PresenceRecord
      → Turn
      → GcReport
      → Result (GcReport × List Tombstone)
  delete_record id r p turn report = do
    evidence ← presence_evidence (some r) p now s.stale_after
    ok (
        if not turn.audits
        then (fail id report, [])
        else delete_with id (is_durable r.durability && is_offline evidence) turn
            (preserve (is_durable r.durability && not (is_offline evidence)) report))

  -- The decision on the fresh read.
  unfoldable pub decide_fresh :
      Text
      → Option RegistryRecord
      → Option PresenceRecord
      → Turn
      → GcReport
      → Result (GcReport × List Tombstone)
  decide_fresh id none p turn report =
      ok (record report { disappeared = report.disappeared + 1; skipped = report.skipped + 1 }, [])
  decide_fresh id (some r) p turn report = do
    decision ← transient_gc_decision r p now s.stale_after s.retention
    if not decision.eligible
        then ok (record report { raced = report.raced + 1; skipped = report.skipped + 1 }, [])
        else if s.dry_run
        then ok (
          record report {
            would_delete = report.would_delete + 1;
            would_delete_agent_ids = report.would_delete_agent_ids ++ id ∷ [];
          },
          [],
        )
        else delete_record id r p turn report

  unfoldable pub attend : Text → Turn → GcReport → Result (GcReport × List Tombstone)
  attend id turn report =
      let fresh = snapshot c t turn.deliveries in
      decide_fresh id (lookup id fresh.records) (lookup id fresh.presence) turn
        (record report { malformed = report.malformed + fresh.invalid_messages })

  unfoldable pub gc_turn : ℕ → Text → Turn → GcReport → Result Pass
  gc_turn total id turn report =
      if not turn.connects
      then ok (record {
        report = lose id total (resolved report) report;
        sent = [];
        broker_lost = true;
      })
      else (do
        attended ← attend id turn report
        ok (end_turn id total (resolved report) turn attended))

  -- The loop over the selected records; `turns` gives what happens in the turn of each agent.
  unfoldable pub gc_loop : ℕ → (Text → Turn) → List RegistryRecord → GcReport → Result Pass
  gc_loop total turns [] report = ok (record { report = report; sent = []; broker_lost = false })
  gc_loop total turns (r ∷ rest) report = do
    pass ← gc_turn total r.agent_id (turns r.agent_id) report
    if pass.broker_lost then ok pass else (do
      others ← gc_loop total turns rest pass.report
      ok (record others { sent = pass.sent ++ others.sent }))
