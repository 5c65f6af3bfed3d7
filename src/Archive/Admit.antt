-- ===== src/Archive/Admit.antt =====
-- `_admit_in`, `_hold_sender_message`, `admit`, `pop_trips` and `reset_trips` of
-- src/swarmbus/archive.py. `sha256` is hashlib's digest of a text's UTF-8 bytes, in hex.
pub mod Total
pub mod Gate
pub mod Trips
pub mod Redelivery
pub mod HopLimit
use swarmbus.Base.{
  ℕ, ◌+◌, ◌-◌, ◌*◌, Bool, true, false, not, ◌&&◌, ◌||◌, [], ◌∷◌, ◌++◌, List, Text, text_eq, ltb,
  leb, min, ◌==◌, Option, none, some, if◌then◌else◌, length, drop,
}
use swarmbus.Base.Result.{Result, ok, err, value_error, ◌>>=◌}
use swarmbus.Message.Json.{Codec}
use swarmbus.Message.Envelope.{AgentMessage, to_json}
use swarmbus.Topics.{broadcast_topic}
use swarmbus.Archive.Rows.{
  Database, Limits, Reason, hop_limit_reason, sender_tripped, rate_limit_reason, TripEvent,
  hop_limit_trip, rate_limit_trip, AdmittedRow, HoldRow, sqlite_max_integer, prune_every_admissions,
  held_full_envelopes_per_sender,
}
use swarmbus.Archive.Caps.{prune_admitted, cap_held}
use swarmbus.Archive.Statements.{
  is_held, is_tripped, find_admitted, insert_held, insert_trip, insert_admitted, count_full,
  find_hold, shorten_hold, end_hold, replace_hold, find_bucket, upsert_bucket, record_conflict_in,
}
use swarmbus.Archive.Bucket.{Bucket, bucket_or_full, draw}
use swarmbus.Archive.Stub.{stub_envelope}

-- What `_admit_in` leaves: the tables, the new trips, and the answer.
pub record Decision : Type 0 where
  pub db : Database
  pub trips : List TripEvent
  pub admitted : Bool

-- A message with what `_admit_in` works out at its start.
pub record Arrival : Type 0 where
  pub msg : AgentMessage
  pub source_topic : Text
  pub now : ℕ

abbrev pub is_broadcast : Arrival → Bool
is_broadcast a = text_eq a.source_topic broadcast_topic

abbrev pub stored_hops : AgentMessage → ℕ
stored_hops m = min m.hops sqlite_max_integer

-- The last microsecond of the year 9999.
abbrev pub max_timestamp : ℕ
max_timestamp = 253402300799999999

-- `datetime.fromtimestamp(…, timezone.utc)`: a time past the year 9999 raises. It is ValueError here; for times that the
-- platform does not hold (an infinite one too) the source raises OverflowError or OSError.
abbrev pub from_timestamp : ℕ → Result ℕ
from_timestamp t = if ltb max_timestamp t then err value_error else ok t

abbrev pub refused : Database → Decision
refused db = record { db = db; trips = []; admitted = false }

-- `count` is `_admissions_since_prune` before the call.
abbrev pub prunes : ℕ → Bool
prunes count = leb prune_every_admissions (count + 1)

-- Every 1000 admissions the old rows of `admitted_messages` go.
abbrev pub pruned : ℕ → Arrival → Database → Database
pruned count a db = if prunes count then prune_admitted a.now db else db

module _ (c : Codec) (sha256 : Text → Text) where
  -- The envelope column and the stub column.
  unfoldable pub kept_envelope : Database → AgentMessage → Reason → Result (Text × Bool)
  kept_envelope db m reason =
      if ltb (count_full db m.from_agent reason) held_full_envelopes_per_sender
      then ok (to_json c m, false)
      else (do envelope ← stub_envelope c m; ok (envelope, true))

  unfoldable pub hold_sender_message : Arrival → Reason → Database → Result Database
  hold_sender_message a reason db = do
    (envelope, stub) ← kept_envelope db a.msg reason
    insert_held
        (record {
          id = a.msg.id;
          from_agent = a.msg.from_agent;
          hops = stored_hops a.msg;
          reason = reason;
          source_topic = a.source_topic;
          held_at = a.now;
          envelope = envelope;
          stub = stub;
        })
        db

  -- Hold, cap, and answer no.
  unfoldable pub hold_and_refuse : Arrival → Reason → Database → Result Decision
  hold_and_refuse a reason db = do
    held ← hold_sender_message a reason db
    ok (refused (cap_held held))

  -- The id is known: the same envelope again, or another one under its id.
  unfoldable pub is_redelivery : Arrival → AdmittedRow → Bool
  is_redelivery a row = elim row.envelope_sha256 [
    | none ↦ text_eq row.from_agent a.msg.from_agent && row.hops == stored_hops a.msg
    | some stored ↦ text_eq stored (sha256 (to_json c a.msg))
  ]

  unfoldable pub decide_known : Arrival → AdmittedRow → Database → Decision
  decide_known a row db =
      if is_redelivery a row
      then record { db = db; trips = []; admitted = true }
      else refused
          (record_conflict_in
            (record {
              message_id = a.msg.id;
              from_agent = a.msg.from_agent;
              source_topic = a.source_topic;
              recorded_at = a.now;
              envelope = to_json c a.msg;
            })
            db).0

  -- Past the hop limit, on a directed topic: the sender trips.
  unfoldable pub trip_sender : Arrival → Database → Result Decision
  trip_sender a db = do
    held ←
        insert_held
          (record {
            id = a.msg.id;
            from_agent = a.msg.from_agent;
            hops = stored_hops a.msg;
            reason = hop_limit_reason;
            source_topic = a.source_topic;
            held_at = a.now;
            envelope = to_json c a.msg;
            stub = false;
          })
          db
    tripped ←
        insert_trip
          (record { sender = a.msg.from_agent; tripped_at = a.now; message_id = a.msg.id }) held
    ok (record {
      db = cap_held tripped;
      trips =
          record {
            sender = a.msg.from_agent;
            kind = hop_limit_trip;
            message_id = a.msg.id;
            hops = a.msg.hops;
            origin = a.msg.origin;
            source_topic = a.source_topic;
            tripped_at = a.now;
            until = none;
          }
          ∷ [];
      admitted = false;
    })

  unfoldable pub admit_new : Arrival → Database → Result Decision
  admit_new a db = do
    recorded ←
        insert_admitted
          (record {
            id = a.msg.id;
            from_agent = a.msg.from_agent;
            hops = stored_hops a.msg;
            origin = a.msg.origin;
            seen_at = a.now;
            envelope_sha256 = some (sha256 (to_json c a.msg));
          })
          db
    ok (record { db = recorded; trips = []; admitted = true })

  -- The sender is held for a cool-down.
  unfoldable pub cool_down : Limits → Arrival → Database → Result Decision
  cool_down limits a db = do
    until ← from_timestamp (a.now + limits.rate_cooldown)
    ok (record {
      db =
          replace_hold
            (record {
              sender = a.msg.from_agent;
              held_until = a.now + limits.rate_cooldown;
              held_at = a.now;
              message_id = a.msg.id;
            })
            db;
      trips =
          record {
            sender = a.msg.from_agent;
            kind = rate_limit_trip;
            message_id = a.msg.id;
            hops = a.msg.hops;
            origin = a.msg.origin;
            source_topic = a.source_topic;
            tripped_at = a.now;
            until = some until;
          }
          ∷ [];
      admitted = false;
    })

  -- No token is left: hold the message, and cool the sender down unless it is a broadcast.
  unfoldable pub over_rate : Limits → Arrival → Database → Result Decision
  over_rate limits a db = do
    held ← hold_sender_message a rate_limit_reason db
    if is_broadcast a || leb limits.rate_cooldown 0
        then ok (refused (cap_held held))
        else cool_down limits a (cap_held held)

  unfoldable pub draw_token : Limits → Arrival → Database → Result Decision
  draw_token limits a db =
      let (b, admit) =
        draw limits.rate_limit a.now (
          bucket_or_full limits.rate_limit a.now
            (find_bucket db a.msg.from_agent a.source_topic)) in
      let drawn = upsert_bucket a.msg.from_agent a.source_topic b db in
      if admit then admit_new a drawn else over_rate limits a drawn

  -- The clock jumped back: never hold past one cool-down.
  unfoldable pub clamp_hold : Limits → Arrival → HoldRow → Database → Database
  clamp_hold limits a hold db =
      if ltb limits.rate_cooldown (hold.held_until - a.now)
      then shorten_hold a.msg.from_agent (a.now + limits.rate_cooldown) db
      else db

  unfoldable pub check_rate : Limits → Arrival → Option HoldRow → Database → Result Decision
  check_rate limits a none db = draw_token limits a db
  check_rate limits a (some hold) db =
      if ltb a.now hold.held_until
      then hold_and_refuse a rate_limit_reason (clamp_hold limits a hold db)
      else draw_token limits a (end_hold a.msg.from_agent db)

  -- An id that the store has not seen, from a sender that is not tripped.
  unfoldable pub decide_new : Limits → Arrival → Database → Result Decision
  decide_new limits a db =
      if ltb limits.hop_limit a.msg.hops
      then if is_broadcast a then hold_and_refuse a hop_limit_reason db else trip_sender a db
      else if ltb 0 limits.rate_limit
      then check_rate limits a (find_hold db a.msg.from_agent) db
      else admit_new a db

  unfoldable pub decide_seen : Limits → Arrival → Option AdmittedRow → Database → Result Decision
  decide_seen limits a (some row) db = ok (decide_known a row db)
  decide_seen limits a none db = decide_new limits a db

  unfoldable pub admit_in : Limits → ℕ → Arrival → Database → Result Decision
  admit_in limits count a before =
      let db = pruned count a before in
      if is_held db a.msg.id
      then ok (refused db)
      else if is_tripped db a.msg.from_agent
      then hold_and_refuse a sender_tripped db
      else decide_seen limits a (find_admitted db a.msg.id) db
