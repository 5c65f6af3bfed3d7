-- ===== src/Archive/Inbox/Keep.antt =====
-- A stored message is stored once.
use swarmbus.Base.{
  ℕ, ◌≡◌, refl, arith, Bool-cases, Option-cases, inl, inr, text_eq_refl, Bool, true, false, Text,
  text_eq, Option, none, some,
}
use swarmbus.Base.Result.{Result, ok, err}
use swarmbus.Base.Table.{find_append}
use swarmbus.Message.Json.{DateTime, Codec}
use swarmbus.Archive.Admit.{Arrival}
use swarmbus.Archive.Store.{Store, admit}
use swarmbus.Archive.Inbox.{
  Observed, Columns, InboxRow, Mailbox, store, columns_of, same_columns, find_message, new_message,
  next_rowid, same_optional, insert_admission, store_seen,
}
use swarmbus.Base.{◌≢◌}

pub same_columns_refl : (k : Columns) → same_columns k k ≡ true
unfolding same_columns
same_columns_refl k =
    rw
      (
        text_eq_refl k.id,
        text_eq_refl k.from_agent,
        text_eq_refl k.to_agent,
        text_eq_refl k.ts,
        text_eq_refl k.subject,
        text_eq_refl k.body,
        text_eq_refl k.content_type,
        text_eq_refl k.priority,
      )
      (same k.reply_to)
  where
    same : (o : Option Text) → same_optional o o ≡ true
    same none = refl
    same (some t) = text_eq_refl t

-- Once the row is inserted it is found, with the same columns.
kept :
    (c : Codec) (sha256 : Text → Text) (mb : Mailbox) (a : Arrival) (received received' : DateTime)
    (o o' : Observed) (topic : Text) (later : ℕ) (x : Store × Result Bool)
    → find_message mb a.msg.id ≡ none
    → (insert_admission c sha256 mb a received o x).1 ≡ ok true
    → let mb' = (insert_admission c sha256 mb a received o x).0 in
      store_seen c sha256 mb'
        (record { msg = a.msg; source_topic = topic; now = later })
        received'
        o'
        (find_message mb' a.msg.id)
      ≡ (mb', ok false)
kept c sha256 mb a received received' o o' topic later (s, ok false) n h = cc
kept c sha256 mb a received received' o o' topic later (s, err e) n h = cc
kept c sha256 mb a received received' o o' topic later (s, ok true) n h =
    rw
      (
        find_append (λ (r : InboxRow). text_eq r.columns.id a.msg.id) mb.inbox
            (new_message c sha256 a received o (next_rowid mb.inbox)) n (text_eq_refl a.msg.id),
        same_columns_refl (columns_of c a.msg),
      )
      refl

known_not_new :
    (c : Codec) (sha256 : Text → Text) (mb : Mailbox) (a : Arrival) (received : DateTime)
    (o : Observed) (row : InboxRow)
    → (store_seen c sha256 mb a received o (some row)).1 ≢ ok true
known_not_new c sha256 mb a received o row h =
    elim (Bool-cases (same_columns row.columns (columns_of c a.msg))) [
      | inl e ↦ absurd (ground arith)
      | inr e ↦ absurd (ground arith)
    ]

-- If `store` answers that a message is new, then storing it again, at any time, on any topic and with
-- any provenance, answers that it is not and changes nothing.
pub store_twice :
    (c : Codec) (sha256 : Text → Text) (mb : Mailbox) (a : Arrival) (received received' : DateTime)
    (o o' : Observed) (topic : Text) (later : ℕ)
    → (store c sha256 mb a received o).1 ≡ ok true
    → let mb' = (store c sha256 mb a received o).0 in
      store c sha256 mb' (record { msg = a.msg; source_topic = topic; now = later }) received' o'
      ≡ (mb', ok false)
unfolding store
store_twice c sha256 mb a received received' o o' topic later h =
    elim (Option-cases (find_message mb a.msg.id)) [
      | inr (row, e) ↦ absurd (known_not_new c sha256 mb a received o row (rw e at h))
      | inl e ↦ rw e (
          kept c sha256 mb a received received' o o' topic later (admit c sha256 mb.store_ a) e
            (rw e at h))
    ]
