-- ===== src/Archive/Statements.antt =====
-- The SQL statements that `_admit_in` sends (src/swarmbus/archive.py). An INSERT whose primary key is
-- taken raises IntegrityError.
use swarmbus.Base.{
  Bool, ◌&&◌, [], ◌∷◌, ◌++◌, Text, text_eq, Option, none, some, any, if◌then◌else◌, true, false, ℕ,
  not,
}
use swarmbus.Base.Result.{Result, ok, err, integrity_error}
use swarmbus.Base.Table.{find_row, count_rows, delete_rows, update_rows}
use swarmbus.Archive.Rows.{
  Database, HeldRow, TripRow, AdmittedRow, BucketRow, HoldRow, ConflictRow, Reason, same_reason,
}
use swarmbus.Archive.Caps.{cap_conflicts}
use swarmbus.Archive.Bucket.{Bucket}

abbrev pub is_held : Database → Text → Bool
is_held db id = any (λ r. text_eq r.id id) db.held_messages

abbrev pub is_tripped : Database → Text → Bool
is_tripped db sender = any (λ t. text_eq t.sender sender) db.hop_trips

abbrev pub has_admitted : Database → Text → Bool
has_admitted db id = any (λ r. text_eq r.id id) db.admitted_messages

abbrev pub find_admitted : Database → Text → Option AdmittedRow
find_admitted db id = find_row (λ r. text_eq r.id id) db.admitted_messages

unfoldable pub insert_held : HeldRow → Database → Result Database
insert_held row db =
    if is_held db row.id
    then err integrity_error
    else ok (record db { held_messages = db.held_messages ++ row ∷ [] })

unfoldable pub insert_trip : TripRow → Database → Result Database
insert_trip row db =
    if is_tripped db row.sender
    then err integrity_error
    else ok (record db { hop_trips = db.hop_trips ++ row ∷ [] })

unfoldable pub insert_admitted : AdmittedRow → Database → Result Database
insert_admitted row db =
    if has_admitted db row.id
    then err integrity_error
    else ok (record db { admitted_messages = db.admitted_messages ++ row ∷ [] })

-- `SELECT COUNT(*) … WHERE from_agent = ? AND reason = ? AND stub = 0`
abbrev pub count_full : Database → Text → Reason → ℕ
count_full db sender reason =
    count_rows (λ r. text_eq r.from_agent sender && (same_reason r.reason reason && not r.stub))
      db.held_messages

abbrev pub find_hold : Database → Text → Option HoldRow
find_hold db sender = find_row (λ r. text_eq r.sender sender) db.rate_holds

-- `UPDATE rate_holds SET held_until = ? WHERE sender = ?`
unfoldable pub shorten_hold : Text → ℕ → Database → Database
shorten_hold sender held_until db = record db {
  rate_holds =
      update_rows (λ r. text_eq r.sender sender) (λ r. record r { held_until = held_until })
        db.rate_holds;
}

-- The two DELETEs for a sender whose cool-down is over.
unfoldable pub end_hold : Text → Database → Database
end_hold sender db = record db {
  rate_holds = delete_rows (λ r. text_eq r.sender sender) db.rate_holds;
  rate_buckets = delete_rows (λ r. text_eq r.sender sender) db.rate_buckets;
}

-- `INSERT OR REPLACE INTO rate_holds`
unfoldable pub replace_hold : HoldRow → Database → Database
replace_hold row db = record db {
  rate_holds = delete_rows (λ r. text_eq r.sender row.sender) db.rate_holds ++ row ∷ [];
}

abbrev pub is_bucket : Text → Text → BucketRow → Bool
is_bucket sender source_topic r = text_eq r.sender sender && text_eq r.source_topic source_topic

abbrev to_bucket : Option BucketRow → Option Bucket
to_bucket none = none
to_bucket (some r) = some (record { tokens = r.tokens; updated_at = r.updated_at })

unfoldable pub find_bucket : Database → Text → Text → Option Bucket
find_bucket db sender source_topic =
    to_bucket (find_row (is_bucket sender source_topic) db.rate_buckets)

-- `INSERT INTO rate_buckets … ON CONFLICT DO UPDATE`
unfoldable pub upsert_bucket : Text → Text → Bucket → Database → Database
upsert_bucket sender source_topic b db = record db {
  rate_buckets =
      if any (is_bucket sender source_topic) db.rate_buckets
      then update_rows (is_bucket sender source_topic)
          (λ r. record r { tokens = b.tokens; updated_at = b.updated_at }) db.rate_buckets
      else db.rate_buckets
        ++ record {
          sender = sender;
          source_topic = source_topic;
          tokens = b.tokens;
          updated_at = b.updated_at;
        }
          ∷ [];
}

abbrev pub same_conflict : ConflictRow → ConflictRow → Bool
same_conflict row r = text_eq r.message_id row.message_id && text_eq r.envelope row.envelope

-- `_record_conflict_in`: INSERT OR IGNORE on the key (message_id, envelope).
unfoldable pub record_conflict_in : ConflictRow → Database → Database × Bool
record_conflict_in row db =
    if any (same_conflict row) db.conflicts
    then (db, false)
    else (cap_conflicts (record db { conflicts = db.conflicts ++ row ∷ [] }), true)
