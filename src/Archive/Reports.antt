-- ===== src/Archive/Reports.antt =====
-- `list_conflicts`, `list_holds`, `channel_metrics` and `lookup` of src/swarmbus/archive.py, which change nothing.
-- Times are in microseconds, and rows that an ORDER BY leaves equal keep the order of the table. The rate
-- per minute is left as the count and the window that it is computed from.
pub mod Counts
use swarmbus.Base.{
  ℕ, suc, ◌+◌, ◌-◌, Bool, true, false, not, ◌&&◌, ◌||◌, List, [], ◌∷◌, map, Text, codes, text_eq,
  text_le, ltb, leb, ◌==◌, max, Option, none, some, if◌then◌else◌, length, take,
}
use swarmbus.Base.Sort.{order_by}
use swarmbus.Base.Int.{ℤ, pos, negsuc, leb_ℤ, ltb_ℤ, pos_part}
use swarmbus.Base.Result.{Result, ok, err, value_error, attribute_error, ◌>>=◌, ◌>>◌, raise_if}
use swarmbus.Base.Table.{find_row, count_rows, select_rows}
use swarmbus.Message.Json.{Json, null, str, obj, Fields, Codec, get}
use swarmbus.Message.Envelope.{optional}
use swarmbus.Registry.Presence.{or_null}
use swarmbus.Archive.Rows.{
  Database, HeldRow, TripRow, AdmittedRow, HoldRow, ConflictRow, Reason, hop_limit_reason,
  rate_limit_reason, sender_tripped, same_reason,
}

module _ {ℓ} {A : Type ℓ} where
  -- LIMIT: none, if it is negative.
  abbrev pub limited : ℤ → List A → List A
  limited (pos n) xs = take n xs
  limited (negsuc n) xs = xs

-- `json.loads(envelope).get(key)`
abbrev pub get_loaded : Text → Option Json → Result Json
get_loaded key none = err value_error
get_loaded key (some (obj fs)) = ok (or_null (get key fs))
get_loaded key (some _) = err attribute_error

pub record ConflictSummary : Type 0 where
  pub id : Text
  pub from_agent : Text
  pub source_topic : Text
  pub recorded_at : ℕ
  pub subject : Json

unfoldable pub conflict_summaries : Codec → List ConflictRow → Result (List ConflictSummary)
conflict_summaries c [] = ok []
conflict_summaries c (r ∷ rows) = do
  subject ← get_loaded (codes "subject") (c.loads r.envelope)
  rest ← conflict_summaries c rows
  ok (
      record {
        id = r.message_id;
        from_agent = r.from_agent;
        source_topic = r.source_topic;
        recorded_at = r.recorded_at;
        subject = subject;
      }
      ∷ rest)

-- The newest first, by time and then by rowid.
unfoldable pub list_conflicts : Codec → ℤ → Database → Result (List ConflictSummary)
list_conflicts c limit db =
    conflict_summaries c
      (limited limit (order_by (λ r s. ltb s.recorded_at r.recorded_at) db.conflicts))

pub record HeldSummary : Type 0 where
  pub id : Text
  pub from_agent : Text
  pub hops : ℕ
  pub reason : Reason
  pub held_at : ℕ
  pub subject : Json

unfoldable pub held_summaries : Codec → List HeldRow → Result (List HeldSummary)
held_summaries c [] = ok []
held_summaries c (r ∷ rows) = do
  subject ← get_loaded (codes "subject") (c.loads r.envelope)
  rest ← held_summaries c rows
  ok (
      record {
        id = r.id;
        from_agent = r.from_agent;
        hops = r.hops;
        reason = r.reason;
        held_at = r.held_at;
        subject = subject;
      }
      ∷ rest)

-- One more row of a sender.
unfoldable pub count_sender : Text → List (Text × ℕ) → List (Text × ℕ)
count_sender s [] = (s, 1) ∷ []
count_sender s ((t, n) ∷ groups) =
    let rest = count_sender s groups in if text_eq s t then (t, suc n) ∷ groups else (t, n) ∷ rest

-- GROUP BY from_agent, with COUNT(*).
unfoldable pub group_senders : List Text → List (Text × ℕ)
group_senders [] = []
group_senders (s ∷ ss) = count_sender s (group_senders ss)

-- ORDER BY COUNT(*) DESC, from_agent ASC.
abbrev pub busier : Text × ℕ → Text × ℕ → Bool
busier g h = ltb h.1 g.1 || (g.1 == h.1 && text_le g.0 h.0)

unfoldable pub by_sender : List Text → List (Text × ℕ)
by_sender senders = order_by busier (group_senders senders)

abbrev pub held_senders : Database → List Text
held_senders db = map (λ (r : HeldRow). r.from_agent) db.held_messages

pub record HoldsReport : Type 0 where
  pub tripped : List TripRow
  pub cooling : List HoldRow
  pub held_count : ℕ
  pub held : List HeldSummary
  pub held_by_sender : List (Text × ℕ)
  pub admitted_count : ℕ
  pub conflict_count : ℕ

unfoldable pub list_holds : Codec → ℕ → ℤ → Database → Result HoldsReport
list_holds c now limit db = do
  held ←
      held_summaries c (limited limit (order_by (λ r s. ltb s.held_at r.held_at) db.held_messages))
  ok (record {
    tripped = order_by (λ r s. leb r.tripped_at s.tripped_at) db.hop_trips;
    cooling =
        order_by (λ r s. leb r.held_until s.held_until)
          (select_rows (λ r. ltb now r.held_until) db.rate_holds);
    held_count = length db.held_messages;
    held = held;
    held_by_sender = by_sender (held_senders db);
    admitted_count = length db.admitted_messages;
    conflict_count = length db.conflicts;
  })

-- MAX(hops), NULL of no rows.
unfoldable pub max_of : List ℕ → Option ℕ
max_of [] = none
max_of (n ∷ ns) = let rest = max_of ns in some (elim rest [ none ↦ n | some m ↦ max n m ])

-- What `channel_metrics` says of a sender, and of a reason.
pub record SenderMetrics : Type 0 where
  pub sender : Text
  pub admitted : ℕ
  pub max_hops : Option ℕ

pub record ReasonMetrics : Type 0 where
  pub reason : Reason
  pub count : ℕ

pub record ChannelMetrics : Type 0 where
  pub since : ℕ
  pub admitted : ℕ
  pub sender_count : ℕ
  pub max_hops : Option ℕ
  pub senders : List SenderMetrics
  pub held : List ReasonMetrics
  pub held_max_hops : Option ℕ
  pub future_rows : ℕ

abbrev hops_of : List AdmittedRow → Option ℕ
hops_of rows = max_of (map (λ (r : AdmittedRow). r.hops) rows)

abbrev pub in_window : ℕ → ℕ → ℕ → Bool
in_window cutoff now at = leb cutoff at && leb at now

abbrev sender_metrics : List AdmittedRow → Text × ℕ → SenderMetrics
sender_metrics rows g = record {
  sender = g.0;
  admitted = g.1;
  max_hops = hops_of (select_rows (λ r. text_eq r.from_agent g.0) rows);
}

-- The reasons in the order of their names, those with a row.
abbrev reason_metrics : List HeldRow → List Reason → List ReasonMetrics
reason_metrics rows [] = []
reason_metrics rows (r ∷ rs) =
    let n = count_rows (λ h. same_reason h.reason r) rows in
    let rest = reason_metrics rows rs in
    if n == 0 then rest else record { reason = r; count = n } ∷ rest

abbrev metrics : ℕ → ℕ → ℤ → Database → ChannelMetrics
metrics now cutoff limit db =
    let rows = select_rows (λ r. in_window cutoff now r.seen_at) db.admitted_messages in
    let held_rows = select_rows (λ r. in_window cutoff now r.held_at) db.held_messages in
    let groups = by_sender (map (λ (r : AdmittedRow). r.from_agent) rows) in
    record {
      since = cutoff;
      admitted = length rows;
      sender_count = length groups;
      max_hops = hops_of rows;
      senders = map (sender_metrics rows) (limited limit groups);
      held = reason_metrics held_rows (hop_limit_reason ∷ rate_limit_reason ∷ sender_tripped ∷ []);
      held_max_hops = max_of (map (λ (r : HeldRow). r.hops) held_rows);
      future_rows = count_rows (λ r. ltb now r.seen_at) db.admitted_messages;
    }

unfoldable pub channel_metrics : ℕ → ℤ → ℤ → Database → Result ChannelMetrics
channel_metrics now window limit db = do
  raise_if (leb_ℤ window (pos 0)) value_error
  raise_if (ltb_ℤ limit (pos 0)) value_error
  ok (metrics now (now - pos_part window) limit db)

-- The sender, hops and origin.
pub record Found : Type 0 where
  pub from_agent : Text
  pub hops : ℕ
  pub origin : Json

abbrev lookup_held : Codec → Option HeldRow → Result (Option Found)
lookup_held c none = ok none
lookup_held c (some r) = do
  origin ← get_loaded (codes "origin") (c.loads r.envelope)
  ok (some (record { from_agent = r.from_agent; hops = r.hops; origin = origin }))

abbrev lookup_admitted : Codec → Option HeldRow → Option AdmittedRow → Result (Option Found)
lookup_admitted c held none = lookup_held c held
lookup_admitted c held (some r) =
    ok (some (record { from_agent = r.from_agent; hops = r.hops; origin = optional r.origin }))

unfoldable pub lookup_message : Codec → Text → Database → Result (Option Found)
lookup_message c id db =
    lookup_admitted c (find_row (λ r. text_eq r.id id) db.held_messages)
      (find_row (λ r. text_eq r.id id) db.admitted_messages)
