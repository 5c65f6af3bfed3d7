-- ===== src/Archive/Inbox.antt =====
-- The inbox of `SQLiteMessageStore` (src/swarmbus/archive.py): `store`, `record_conflict`,
-- `read` and `ack`, on the tables inbox_messages and inbox_message_quarantine. The dict
-- of sender provenance that `store` takes stands as its validated record.
pub mod Keep
pub mod Read
pub mod Loop
pub mod Ack
use swarmbus.Base.{
  ℕ, suc, ◌+◌, ◌-◌, Bool, true, false, not, ◌&&◌, ◌||◌, List, [], ◌∷◌, ◌++◌, map, Text, codes,
  text_eq, ltb, leb, Option, none, some, if◌then◌else◌, length, take, any,
}
use swarmbus.Base.Result.{
  Result, ok, err, Error, value_error, message_conflict, ◌>>=◌, ◌>>◌, raise_if,
}
use swarmbus.Base.Table.{find_row, count_rows, select_rows, update_rows}
use swarmbus.Message.Json.{
  Json, null, bool, str, arr, obj, Items, nil, cons, Fields, end, field, DateTime, Codec, get,
}
use swarmbus.Message.Envelope.{
  AgentMessage, optional, validate_fields, want_text, or_raise, to_json,
}
use swarmbus.Registry.Presence.{want_datetime, or_null}
use swarmbus.Archive.Rows.{ConflictRow}
use swarmbus.Archive.Statements.{record_conflict_in}
use swarmbus.Archive.Admit.{Arrival, Decision}
use swarmbus.Archive.Store.{Store, admit}

-- `SenderStateObserved`
pub record Observed : Type 0 where
  pub lifecycle : Text
  pub online : Option Bool
  pub observed_at : Option DateTime
  pub started_at : Option DateTime
  pub capabilities : List Text

-- The columns that identify a stored message.
pub record Columns : Type 0 where
  pub id : Text
  pub from_agent : Text
  pub to_agent : Text
  pub ts : Text
  pub subject : Text
  pub body : Text
  pub content_type : Text
  pub priority : Text
  pub reply_to : Option Text

pub record InboxRow : Type 0 where
  pub rowid : ℕ
  pub columns : Columns
  pub received_at : Text
  pub source_topic : Text
  pub acknowledged_at : Option Text
  pub lifecycle : Text
  pub online : Option Bool
  pub observed_at : Option Text
  pub started_at : Option Text
  pub capabilities : Text

pub record QuarantineRow : Type 0 where
  pub message_id : Text
  pub quarantined_at : Text
  pub error : Error

pub record Mailbox : Type 0 where
  pub store_ : Store
  pub inbox : List InboxRow
  pub quarantine : List QuarantineRow

abbrev pub columns_of : Codec → AgentMessage → Columns
columns_of c m = record {
  id = m.id;
  from_agent = m.from_agent;
  to_agent = m.to;
  ts = c.isoformat m.ts;
  subject = m.subject;
  body = m.body;
  content_type = m.content_type;
  priority = m.priority;
  reply_to = m.reply_to;
}

abbrev pub same_optional : Option Text → Option Text → Bool
same_optional none none = true
same_optional (some s) (some t) = text_eq s t
same_optional _ _ = false

unfoldable pub same_columns : Columns → Columns → Bool
same_columns a b =
    text_eq a.id b.id
    && (text_eq a.from_agent b.from_agent
        && (text_eq a.to_agent b.to_agent
            && (text_eq a.ts b.ts
                && (text_eq a.subject b.subject
                    && (text_eq a.body b.body
                        && (text_eq a.content_type b.content_type
                            && (text_eq a.priority b.priority
                                && same_optional a.reply_to b.reply_to)))))))

abbrev pub find_message : Mailbox → Text → Option InboxRow
find_message mb id = find_row (λ r. text_eq r.columns.id id) mb.inbox

abbrev pub iso : Codec → Option DateTime → Option Text
iso c none = none
iso c (some d) = some (c.isoformat d)

-- A list of texts as JSON.
abbrev pub texts : List Text → Items
texts [] = nil
texts (s ∷ ss) = cons (str s) (texts ss)

-- The rowid of a new row: one past the greatest.
abbrev pub next_rowid : List InboxRow → ℕ
next_rowid [] = 1
next_rowid (r ∷ rs) = let rest = next_rowid rs in if leb rest r.rowid then suc r.rowid else rest

module _ (c : Codec) (sha256 : Text → Text) where
  abbrev pub new_message : Arrival → DateTime → Observed → ℕ → InboxRow
  new_message a received o n = record {
    rowid = n;
    columns = columns_of c a.msg;
    received_at = c.isoformat received;
    source_topic = a.source_topic;
    acknowledged_at = none;
    lifecycle = o.lifecycle;
    online = o.online;
    observed_at = iso c o.observed_at;
    started_at = iso c o.started_at;
    capabilities = c.dumps (arr (texts o.capabilities));
  }

  -- The INSERT into inbox_messages, in the transaction of `_admit_in`.
  abbrev pub insert_admission :
      Mailbox → Arrival → DateTime → Observed → Store × Result Bool → Mailbox × Result Bool
  insert_admission mb a received o (s, ok true) = (
    record mb {
      store_ = s;
      inbox = mb.inbox ++ new_message a received o (next_rowid mb.inbox) ∷ [];
    },
    ok true,
  )
  insert_admission mb a received o (s, ok false) = (record mb { store_ = s }, ok false)
  insert_admission mb a received o (s, err e) = (record mb { store_ = s }, err e)

  abbrev pub store_seen :
      Mailbox → Arrival → DateTime → Observed → Option InboxRow → Mailbox × Result Bool
  store_seen mb a received o none = insert_admission mb a received o (admit c sha256 mb.store_ a)
  store_seen mb a received o (some row) =
      if same_columns row.columns (columns_of c a.msg)
      then (mb, ok false)
      else (mb, err message_conflict)

  unfoldable pub store : Mailbox → Arrival → DateTime → Observed → Mailbox × Result Bool
  store mb a received o = store_seen mb a received o (find_message mb a.msg.id)

-- `record_conflict`
unfoldable pub record_conflict : Codec → Mailbox → Arrival → Mailbox × Bool
record_conflict c mb a =
    let (db, inserted) =
      record_conflict_in
        (record {
          message_id = a.msg.id;
          from_agent = a.msg.from_agent;
          source_topic = a.source_topic;
          recorded_at = a.now;
          envelope = to_json c a.msg;
        })
        mb.store_.db in
    (record mb { store_ = record mb.store_ { db = db } }, inserted)

abbrev pub is_quarantined : List QuarantineRow → Text → Bool
is_quarantined q id = any (λ r. text_eq r.message_id id) q

abbrev pub is_acknowledged : InboxRow → Bool
is_acknowledged r = elim r.acknowledged_at [ none ↦ false | some t ↦ true ]
