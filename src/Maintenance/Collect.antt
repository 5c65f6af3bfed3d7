-- ===== src/Maintenance/Collect.antt =====
-- `gc_transient` of src/swarmbus/maintenance.py: the checks, the selection, and both passes.
pub mod Report
pub mod Runs
use swarmbus.Base.{
  ℕ, ◌+◌, Bool, true, false, not, ◌||◌, ◌&&◌, List, [], ◌∷◌, ◌++◌, length, take, map, Text, text_le,
  Option, none, some, if◌then◌else◌, ltb, ◌==◌,
}
use swarmbus.Base.Int.{ℤ, pos, leb_ℤ, pos_part}
use swarmbus.Base.Result.{Result, ok, value_error, ◌>>=◌, ◌>>◌, raise_if}
use swarmbus.Base.Sort.{order_by}
use swarmbus.Base.Table.{select_rows, count_rows}
use swarmbus.Message.Json.{DateTime, Codec}
use swarmbus.Topics.{TopicMap}
use swarmbus.Registry.Records.{RegistryRecord, is_aware}
use swarmbus.Registry.Presence.{PresenceRecord}
use swarmbus.Registry.Decide.{
  GcReason, eligible_reason, named_reason, unknown_durability, online_reason, unconfirmed_reason,
  within_retention, clock_skew, transient_gc_decision,
}
use swarmbus.Registry.Cache.{lookup, keys, has_entry, sorted_set}
use swarmbus.Maintenance.Snapshot.{Delivery, Snapshot, snapshot, or_lost}
use swarmbus.Maintenance.Report.{GcReport}
use swarmbus.Maintenance.Gc.{Settings, Turn, Tombstone, Pass, gc_loop}
use swarmbus.Maintenance.Orphans.{OrphanTurn, OrphanWrite, OrphanPass, stamp_or_collect_orphans}

abbrev pub same_gc_reason : GcReason → GcReason → Bool
same_gc_reason eligible_reason eligible_reason = true
same_gc_reason named_reason named_reason = true
same_gc_reason unknown_durability unknown_durability = true
same_gc_reason online_reason online_reason = true
same_gc_reason unconfirmed_reason unconfirmed_reason = true
same_gc_reason within_retention within_retention = true
same_gc_reason clock_skew clock_skew = true
same_gc_reason _ _ = false

-- `candidates.sort(key=lambda record: (record.last_seen, record.agent_id))`
abbrev older : RegistryRecord → RegistryRecord → Bool
older r q =
    ltb r.last_seen.instant q.last_seen.instant
    || (r.last_seen.instant == q.last_seen.instant && text_le r.agent_id q.agent_id)

abbrev pub orphans_of : Snapshot → List Text
orphans_of s = sorted_set (select_rows (λ id. not (has_entry id s.records)) (keys s.presence))

pub record Collected : Type 0 where
  pub report : GcReport
  pub sent : List Tombstone
  pub written : List OrphanWrite

abbrev first_report :
    Settings → Snapshot → List RegistryRecord → List RegistryRecord → List GcReason → GcReport
first_report s initial candidates selected preserved = record {
  dry_run = s.dry_run;
  scanned = length initial.records;
  orphan_presence = length (orphans_of initial);
  orphan_online = 0;
  orphan_stamped = 0;
  orphan_waiting = 0;
  orphan_collected = 0;
  orphan_would_stamp = 0;
  orphan_would_collect = 0;
  orphan_skipped = 0;
  orphan_failed = 0;
  orphan_deferred = 0;
  eligible = length candidates;
  selected = length selected;
  online = count_rows (same_gc_reason online_reason) preserved;
  retained = length preserved;
  skipped = 0;
  raced = 0;
  malformed = initial.invalid_messages;
  deleted = 0;
  sessions_destroyed = 0;
  sessions_preserved = 0;
  would_delete = 0;
  disappeared = 0;
  failed = 0;
  partial = 0;
  preserved_by_reason = λ r. count_rows (same_gc_reason r) preserved;
  deleted_agent_ids = [];
  would_delete_agent_ids = [];
  failed_agent_ids = [];
  orphan_stamped_agent_ids = [];
  orphan_collected_agent_ids = [];
}

module _ (c : Codec) (t : TopicMap) (now : DateTime) (s : Settings) where
  -- The candidates, and the reasons to preserve the others.
  unfoldable pub sift :
      List (Text × PresenceRecord)
      → List (Text × RegistryRecord)
      → Result (List RegistryRecord × List GcReason)
  sift d [] = ok ([], [])
  sift d ((id, r) ∷ records) = do
    decision ← transient_gc_decision r (lookup id d) now s.stale_after s.retention
    (candidates, preserved) ← sift d records
    ok (
        if decision.eligible
        then (r ∷ candidates, preserved)
        else (candidates, decision.reason ∷ preserved))

  unfoldable pub select_batch : ℕ → List RegistryRecord → List RegistryRecord
  select_batch batch candidates = take batch (order_by older candidates)

  unfoldable pub collect_snapshot :
      ℕ → Snapshot → (Text → Turn) → (Text → OrphanTurn) → Result Collected
  collect_snapshot batch initial turns orphan_turns = do
    (candidates, preserved) ← sift initial.presence initial.records
    let selected = select_batch batch candidates
    pass ←
        gc_loop c t now s (length selected) turns selected
          (first_report s initial candidates selected preserved)
    orphans ←
        stamp_or_collect_orphans c t now s batch pass.broker_lost orphan_turns initial.presence
          (orphans_of initial) pass.report
    ok (record { report = orphans.report; sent = pass.sent; written = orphans.written })

  unfoldable pub gc_transient :
      ℤ → Option (List Delivery) → (Text → Turn) → (Text → OrphanTurn) → Result Collected
  gc_transient batch_size first turns orphan_turns = do
    raise_if (leb_ℤ s.stale_after (pos 0)) value_error
    raise_if (leb_ℤ s.retention s.stale_after) value_error
    raise_if (leb_ℤ batch_size (pos 0)) value_error
    raise_if (not (is_aware now)) value_error
    deliveries ← or_lost first
    collect_snapshot (pos_part batch_size) (snapshot c t deliveries) turns orphan_turns
