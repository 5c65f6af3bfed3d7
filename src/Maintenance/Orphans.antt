-- ===== src/Maintenance/Orphans.antt =====
-- `_stamp_or_collect_orphans` and `_write_orphan_presence` of src/swarmbus/maintenance.py.
pub mod Turns
pub mod Loop
use swarmbus.Base.{
  ℕ, suc, ◌+◌, ◌-◌, Bool, true, false, not, List, [], ◌∷◌, ◌++◌, length, Text, Option, none, some,
  if◌then◌else◌, ◌==◌, ltb,
}
use swarmbus.Base.Int.{ℤ}
use swarmbus.Base.Result.{Result, ok, err, key_error, ◌>>=◌}
use swarmbus.Message.Json.{DateTime, Codec}
use swarmbus.Topics.{TopicMap, presence}
use swarmbus.Registry.Presence.{PresenceRecord, stamp_presence_payload}
use swarmbus.Registry.Decide.{
  OrphanAction, orphan_online, stamp, wait, collect, orphan_presence_action,
}
use swarmbus.Registry.Cache.{lookup, has_entry}
use swarmbus.Maintenance.Snapshot.{Delivery, Snapshot, snapshot}
use swarmbus.Maintenance.Report.{GcReport, orphan_resolved}
use swarmbus.Maintenance.Gc.{Settings}

-- What happens in the turn of one orphan.
pub record OrphanTurn : Type 0 where
  pub connects : Bool
  pub deliveries : List Delivery
  pub audits : Bool
  pub published : Bool
  pub closes : Bool

-- A retained publish on an orphan's presence topic.
pub record OrphanWrite : Type 0 where
  pub topic : Text
  pub body : Text

abbrev pub skip_orphan : GcReport → GcReport
skip_orphan r = record r { orphan_skipped = r.orphan_skipped + 1 }

abbrev pub fail_orphan : GcReport → GcReport
fail_orphan r = record r {
  orphan_failed = r.orphan_failed + 1;
  orphan_skipped = r.orphan_skipped + 1;
}

-- The selection: at most `batch` orphans to stamp or collect.
abbrev choose : ℕ → Text → List Text → GcReport → OrphanAction → List Text × GcReport
choose batch id selected r orphan_online =
    (selected, record r { orphan_online = r.orphan_online + 1 })
choose batch id selected r wait = (selected, record r { orphan_waiting = r.orphan_waiting + 1 })
choose batch id selected r stamp =
    if ltb (length selected) batch
    then (selected ++ id ∷ [], r)
    else (selected, record r { orphan_deferred = r.orphan_deferred + 1 })
choose batch id selected r collect =
    if ltb (length selected) batch
    then (selected ++ id ∷ [], r)
    else (selected, record r { orphan_deferred = r.orphan_deferred + 1 })

-- `presence[agent_id]`
abbrev pub found : Option PresenceRecord → Result PresenceRecord
found none = err key_error
found (some p) = ok p

abbrev count_stamp : Text → GcReport → GcReport
count_stamp id r = record r {
  orphan_stamped = r.orphan_stamped + 1;
  orphan_stamped_agent_ids = r.orphan_stamped_agent_ids ++ id ∷ [];
}

abbrev count_collect : Text → GcReport → GcReport
count_collect id r = record r {
  orphan_collected = r.orphan_collected + 1;
  orphan_collected_agent_ids = r.orphan_collected_agent_ids ++ id ∷ [];
}

pub record OrphanPass : Type 0 where
  pub report : GcReport
  pub written : List OrphanWrite

-- The handler of MqttError: the `rest` of the selected orphans waits for the next run.
abbrev lose_orphan : ℕ → ℕ → GcReport → GcReport
lose_orphan before rest report =
    let counted = if orphan_resolved report == before then fail_orphan report else report in
    record counted { orphan_deferred = counted.orphan_deferred + rest }

module _ (c : Codec) (t : TopicMap) (now : DateTime) (s : Settings) where
  -- The audit and the publish; `count` is what a success adds to the report.
  abbrev write_audited :
      Text
      → Result Text
      → (GcReport → GcReport)
      → OrphanTurn
      → GcReport
      → Result (GcReport × List OrphanWrite)
  write_audited id body count turn report =
      if not turn.audits then ok (fail_orphan report, []) else (do
        text ← body
        ok (
          if turn.published then count report else fail_orphan report,
          record { topic = presence t id; body = text } ∷ [],
        ))

  unfoldable pub perform :
      Text → Text → OrphanTurn → GcReport → OrphanAction → Result (GcReport × List OrphanWrite)
  perform id payload turn report orphan_online =
      ok (record report { orphan_online = report.orphan_online + 1 }, [])
  perform id payload turn report wait =
      ok (record report { orphan_waiting = report.orphan_waiting + 1 }, [])
  perform id payload turn report stamp =
      if s.dry_run
      then ok (record report { orphan_would_stamp = report.orphan_would_stamp + 1 }, [])
      else write_audited id (stamp_presence_payload c now payload) (count_stamp id) turn report
  perform id payload turn report collect =
      if s.dry_run
      then ok (record report { orphan_would_collect = report.orphan_would_collect + 1 }, [])
      else write_audited id (ok []) (count_collect id) turn report

  unfoldable pub decide_orphan :
      Text
      → Option PresenceRecord
      → Option Text
      → Bool
      → OrphanTurn
      → GcReport
      → Result (GcReport × List OrphanWrite)
  decide_orphan id none payload registered turn report = ok (skip_orphan report, [])
  decide_orphan id (some p) none registered turn report = ok (skip_orphan report, [])
  decide_orphan id (some p) (some payload) registered turn report =
      if registered then ok (skip_orphan report, []) else (do
        action ← orphan_presence_action p now s.retention
        perform id payload turn report action)

  unfoldable pub write_orphan_presence :
      Text → OrphanTurn → GcReport → Result (GcReport × List OrphanWrite)
  write_orphan_presence id turn report =
      let fresh = snapshot c t turn.deliveries in
      decide_orphan id (lookup id fresh.presence) (lookup id fresh.presence_payloads)
        (has_entry id fresh.records) turn
        (record report { malformed = report.malformed + fresh.invalid_messages })

  unfoldable pub choose_orphans :
      ℕ
      → List (Text × PresenceRecord)
      → List Text
      → List Text
      → GcReport
      → Result (List Text × GcReport)
  choose_orphans batch d [] selected report = ok (selected, report)
  choose_orphans batch d (id ∷ ids) selected report = do
    p ← found (lookup id d)
    action ← orphan_presence_action p now s.retention
    let (more, counted) = choose batch id selected report action
    choose_orphans batch d ids more counted

  unfoldable pub orphan_loop : (Text → OrphanTurn) → List Text → GcReport → Result OrphanPass
  orphan_loop turns [] report = ok (record { report = report; written = [] })
  orphan_loop turns (id ∷ rest) report =
      if not (turns id).connects
      then ok (record {
        report = lose_orphan (orphan_resolved report) (length rest) report;
        written = [];
      })
      else (do
        (after, written) ← write_orphan_presence id (turns id) report
        if not (turns id).closes
            then ok (record {
              report = lose_orphan (orphan_resolved report) (length rest) after;
              written = written;
            })
            else (do
              others ← orphan_loop turns rest after
              ok (record others { written = written ++ others.written })))

  abbrev act_on : Bool → (Text → OrphanTurn) → List Text × GcReport → Result OrphanPass
  act_on broker_lost turns (selected, report) =
      if broker_lost
      then ok (record {
        report = record report { orphan_deferred = report.orphan_deferred + length selected };
        written = [];
      })
      else orphan_loop turns selected report

  unfoldable pub stamp_or_collect_orphans :
      ℕ
      → Bool
      → (Text → OrphanTurn)
      → List (Text × PresenceRecord)
      → List Text
      → GcReport
      → Result OrphanPass
  stamp_or_collect_orphans batch broker_lost turns d ids report = do
    chosen ← choose_orphans batch d ids [] report
    act_on broker_lost turns chosen
