-- ===== src/Archive/Inbox/Read.antt =====
-- `read`, `_deserialize_row` and the quarantine of src/swarmbus/archive.py. The error that a quarantine
-- row keeps is the class of the exception.
use swarmbus.Base.{
  ℕ, zero, suc, ◌+◌, ◌-◌, Bool, true, false, not, ◌&&◌, List, [], ◌∷◌, ◌++◌, Text, codes, text_eq,
  ltb, leb, Option, none, some, if◌then◌else◌, length, take, any,
}
use swarmbus.Base.Result.{Result, ok, err, value_error, ◌>>=◌, ◌>>◌, raise_if}
use swarmbus.Base.Table.{select_rows}
use swarmbus.Message.Json.{
  Json, null, bool, str, arr, obj, Items, nil, cons, Fields, end, field, DateTime, Codec,
}
use swarmbus.Message.Envelope.{AgentMessage, optional, validate_fields}
use swarmbus.Registry.Presence.{want_datetime}
use swarmbus.Archive.Inbox.{
  Observed, Columns, InboxRow, QuarantineRow, Mailbox, iso, texts, is_quarantined, is_acknowledged,
}

-- The fields of the stored envelope, as `_deserialize_row` passes them on.
abbrev row_fields : Columns → Fields
row_fields k = field (codes "id") (str k.id) (
    field (codes "from") (str k.from_agent) (
      field (codes "to") (str k.to_agent) (
        field (codes "ts") (str k.ts) (
          field (codes "subject") (str k.subject) (
            field (codes "body") (str k.body) (
              field (codes "content_type") (str k.content_type) (
                field (codes "priority") (str k.priority)
                  (field (codes "reply_to") (optional k.reply_to) end))))))))

unfoldable pub want_texts : Items → Result (List Text)
want_texts nil = ok []
want_texts (cons (str s) xs) = do rest ← want_texts xs; ok (s ∷ rest)
want_texts (cons _ xs) = err value_error

abbrev want_capabilities : Option Json → Result (List Text)
want_capabilities (some (arr xs)) = want_texts xs
want_capabilities _ = err value_error

abbrev text_json : Option Text → Option Json
text_json none = none
text_json (some s) = some (str s)

-- `row["sender_capabilities_observed"] or "[]"`
abbrev or_empty_list : Text → Text
or_empty_list [] = codes "[]"
or_empty_list (d ∷ s) = d ∷ s

unfoldable pub observed_in : Codec → InboxRow → Result Observed
observed_in c r = do
  raise_if
      (not (any (text_eq r.lifecycle) (codes "named" ∷ codes "transient" ∷ codes "unknown" ∷ [])))
      value_error
  observed_at ← want_datetime c (text_json r.observed_at)
  started_at ← want_datetime c (text_json r.started_at)
  capabilities ← want_capabilities (c.loads (or_empty_list r.capabilities))
  ok (record {
    lifecycle = r.lifecycle;
    online = r.online;
    observed_at = observed_at;
    started_at = started_at;
    capabilities = capabilities;
  })

abbrev bool_json : Option Bool → Json
bool_json none = null
bool_json (some b) = bool b

-- What `_deserialize_row` returns.
abbrev payload : Codec → AgentMessage → Observed → Fields
payload c m o = field (codes "id") (str m.id) (
    field (codes "from") (str m.from_agent) (
      field (codes "to") (str m.to) (
        field (codes "ts") (str (c.write_datetime m.ts)) (
          field (codes "subject") (str m.subject) (
            field (codes "body") (str m.body) (
              field (codes "content_type") (str m.content_type) (
                field (codes "priority") (str m.priority) (
                  field (codes "reply_to") (optional m.reply_to) (
                    field (codes "untrusted") (bool true) (
                      field (codes "sender_state_observed")
                        (obj (
                          field (codes "lifecycle") (str o.lifecycle) (
                            field (codes "online") (bool_json o.online) (
                              field (codes "observed_at") (optional (iso c o.observed_at)) (
                                field (codes "started_at") (optional (iso c o.started_at)) (
                                  field (codes "capabilities") (arr (texts o.capabilities))
                                    end))))))
                        end))))))))))

-- `fresh` and `now` are what the factories of AgentMessage would give; the row has both fields.
unfoldable pub deserialize_row : Codec → Text → DateTime → InboxRow → Result Fields
deserialize_row c fresh now r = do
  m ← validate_fields c fresh now (row_fields r.columns)
  o ← observed_in c r
  ok (payload c m o)

-- `INSERT … ON CONFLICT(message_id) DO NOTHING`
abbrev insert_quarantine : QuarantineRow → List QuarantineRow → List QuarantineRow
insert_quarantine row q = if is_quarantined q row.message_id then q else q ++ row ∷ []

-- What a batch leaves: the delivered messages, in order, and the quarantine.
pub record Progress : Type 0 where
  pub messages : List Fields
  pub quarantined : List QuarantineRow

-- The rows that a SELECT of the loop finds, before its LIMIT.
abbrev pub is_waiting : ℕ → List QuarantineRow → InboxRow → Bool
is_waiting last q r =
    ltb last r.rowid && (not (is_acknowledged r) && not (is_quarantined q r.columns.id))

unfoldable pub fetch : ℕ → ℕ → List QuarantineRow → List InboxRow → List InboxRow
fetch last remaining q inbox = take remaining (select_rows (is_waiting last q) inbox)

abbrev pub last_rowid : ℕ → List InboxRow → ℕ
last_rowid d [] = d
last_rowid d (r ∷ rows) = last_rowid r.rowid rows

abbrev pub is_empty : List InboxRow → Bool
is_empty [] = true
is_empty (r ∷ rows) = false

module _ (c : Codec) (fresh : Text) (now : DateTime) where
  abbrev pub sort_row : InboxRow → Progress → Result Fields → Progress
  sort_row r p (ok m) = record p { messages = p.messages ++ m ∷ [] }
  sort_row r p (err e) = record p {
    quarantined =
        insert_quarantine
          (record { message_id = r.columns.id; quarantined_at = c.isoformat now; error = e })
          p.quarantined;
  }

  -- The rows of a batch, each delivered or quarantined.
  unfoldable pub read_batch : List InboxRow → Progress → Progress
  read_batch [] p = p
  read_batch (r ∷ rows) p = read_batch rows (sort_row r p (deserialize_row c fresh now r))

  -- The loop of `read`; None where the fuel runs out.
  unfoldable pub read_loop : ℕ → ℕ → List InboxRow → ℕ → Progress → Option Progress
  read_loop zero most inbox last p = none
  read_loop (suc fuel) most inbox last p =
      let rows = fetch last (most - length p.messages) p.quarantined inbox in
      let rest = read_loop fuel most inbox (last_rowid last rows) (read_batch rows p) in
      if leb most (length p.messages) then some p else if is_empty rows then some p else rest

  abbrev pub finish_read : Mailbox → Option Progress → Option (Mailbox × Result (List Fields))
  finish_read mb none = none
  finish_read mb (some p) = some (record mb { quarantine = p.quarantined }, ok p.messages)

  unfoldable pub read : ℕ → Mailbox → Option (Mailbox × Result (List Fields))
  read most mb =
      if ltb most 1
      then some (mb, err value_error)
      else finish_read mb (
          read_loop (length mb.inbox + 2) most mb.inbox 0
            (record { messages = []; quarantined = mb.quarantine }))
