-- ===== src/Archive/Rows.antt =====
-- The tables of the hold store (src/swarmbus/archive.py), a row type each. A timestamp column holds
-- microseconds since the epoch: the ISO texts of UTC times order as these do.
use swarmbus.Base.{ℕ, ◌*◌, Bool, List, [], Text, Option}

-- `held_messages.reason`
pub data Reason : Type 0 where
  hop_limit_reason sender_tripped rate_limit_reason : Reason

abbrev pub same_reason : Reason → Reason → Bool
same_reason hop_limit_reason hop_limit_reason = Bool.true
same_reason sender_tripped sender_tripped = Bool.true
same_reason rate_limit_reason rate_limit_reason = Bool.true
same_reason _ _ = Bool.false

pub record HeldRow : Type 0 where
  pub id : Text
  pub from_agent : Text
  pub hops : ℕ
  pub reason : Reason
  pub source_topic : Text
  pub held_at : ℕ
  pub envelope : Text
  pub stub : Bool

pub record TripRow : Type 0 where
  pub sender : Text
  pub tripped_at : ℕ
  pub message_id : Text

-- `envelope_sha256` is missing on rows migrated from version 1 only.
pub record AdmittedRow : Type 0 where
  pub id : Text
  pub from_agent : Text
  pub hops : ℕ
  pub origin : Option Text
  pub seen_at : ℕ
  pub envelope_sha256 : Option Text

-- A bucket of `rate_buckets`, its tokens in units of 1/60000000 of a token.
pub record BucketRow : Type 0 where
  pub sender : Text
  pub source_topic : Text
  pub tokens : ℕ
  pub updated_at : ℕ

pub record HoldRow : Type 0 where
  pub sender : Text
  pub held_until : ℕ
  pub held_at : ℕ
  pub message_id : Text

pub record ConflictRow : Type 0 where
  pub message_id : Text
  pub from_agent : Text
  pub source_topic : Text
  pub recorded_at : ℕ
  pub envelope : Text

pub record Database : Type 0 where
  pub held_messages : List HeldRow
  pub hop_trips : List TripRow
  pub admitted_messages : List AdmittedRow
  pub rate_buckets : List BucketRow
  pub rate_holds : List HoldRow
  pub conflicts : List ConflictRow

pub data TripKind : Type 0 where
  hop_limit_trip rate_limit_trip : TripKind

pub record TripEvent : Type 0 where
  pub sender : Text
  pub kind : TripKind
  pub message_id : Text
  pub hops : ℕ
  pub origin : Option Text
  pub source_topic : Text
  pub tripped_at : ℕ
  pub until : Option ℕ

-- The settings of a store: durations in microseconds.
pub record Limits : Type 0 where
  pub hop_limit : ℕ
  pub rate_limit : ℕ
  pub rate_cooldown : ℕ

abbrev pub second : ℕ
second = 1000000

-- `RATE_WINDOW`
abbrev pub rate_window : ℕ
rate_window = 60 * second

abbrev pub sqlite_max_integer : ℕ
sqlite_max_integer = 9223372036854775807

abbrev pub admitted_retention : ℕ
admitted_retention = 30 * (24 * (3600 * second))

abbrev pub prune_every_admissions : ℕ
prune_every_admissions = 1000

abbrev pub held_full_envelopes_per_sender : ℕ
held_full_envelopes_per_sender = 50

abbrev pub held_max_rows : ℕ
held_max_rows = 10000

abbrev pub conflicts_max_rows : ℕ
conflicts_max_rows = 200

abbrev pub stub_subject_chars : ℕ
stub_subject_chars = 200

abbrev pub empty_database : Database
empty_database = record {
  held_messages = [];
  hop_trips = [];
  admitted_messages = [];
  rate_buckets = [];
  rate_holds = [];
  conflicts = [];
}
