-- ===== src/Tests/Inboxes.antt =====
-- The inbox, on one message.
use swarmbus.Base.{
  ◌≡◌, refl, ◌≤◌, ◌*◌, codes, List, [], ◌∷◌, none, some, false, text_eq, length, arith,
}
use swarmbus.Base.Result.{ok}
use swarmbus.Base.Table.{count_rows, find_row, update_rows}
use swarmbus.Message.Json.{Fields}
use swarmbus.Archive.Rows.{empty_database, second}
use swarmbus.Archive.Statements.{find_bucket, upsert_bucket, insert_admitted}
use swarmbus.Archive.Bucket.{refill, draw}
use swarmbus.Archive.Admit.{admit_in, admit_new, decide_new, decide_seen, check_rate, draw_token}
use swarmbus.Archive.Store.{admit}
use swarmbus.Archive.Inbox.{Observed, Mailbox, store, columns_of}
use swarmbus.Archive.Compat.{ArchiveRow, archive_row}
use swarmbus.Archive.Inbox.Keep.{store_twice}
use swarmbus.Archive.Inbox.Read.{read}
use swarmbus.Archive.Inbox.Loop.{read_total}
use swarmbus.Archive.Inbox.Ack.{ack, ack_ids, unique_ids, ack_twice}
use swarmbus.Tests.{codec, digest, limits, arrival, noon, noon_text, sample}

abbrev pub nobody : Observed
nobody = record {
  lifecycle = codes "unknown";
  online = none;
  observed_at = some noon;
  started_at = none;
  capabilities = [];
}

abbrev pub empty_mailbox : Mailbox
empty_mailbox = record {
  store_ = record {
    limits = limits;
    db = empty_database;
    admissions_since_prune = 0;
    new_trips = [];
  };
  inbox = [];
  quarantine = [];
}

abbrev one_message : Mailbox
one_message = record empty_mailbox {
  inbox =
      record {
        rowid = 1;
        columns = columns_of codec sample;
        received_at = noon_text;
        source_topic = codes "agents/bob/inbox";
        acknowledged_at = none;
        lifecycle = codes "unknown";
        online = none;
        observed_at = none;
        started_at = none;
        capabilities = codes "[]";
      }
      ∷ [];
}

store_twice_example :
    let mb = (store codec digest empty_mailbox arrival noon nobody).0 in
    store codec digest mb
      (record { msg = sample; source_topic = codes "agents/broadcast"; now = 2001 * second })
      noon
      nobody
    ≡ (mb, ok false)
unfolding store admit admit_in decide_seen decide_new check_rate draw_token draw refill find_bucket
    upsert_bucket admit_new insert_admitted find_row
store_twice_example =
    store_twice codec digest empty_mailbox arrival noon noon nobody nobody
      (codes "agents/broadcast") (2001 * second) refl

read_total_example :
    (mb : Mailbox) × (ms : List Fields) × (read codec (codes "f") noon 10 one_message
      ≡ some (mb, ok ms))
    × (length ms ≤ 10)
    × (mb.inbox ≡ one_message.inbox)
    × (mb.store_ ≡ one_message.store_)
read_total_example = read_total codec (codes "f") noon 10 one_message (omega arith)

ack_twice_example :
    ack (codes "t2") (codes "m1" ∷ []) (ack (codes "t1") (codes "m1" ∷ []) one_message).0
    ≡ ((ack (codes "t1") (codes "m1" ∷ []) one_message).0, ok 0)
unfolding ack ack_ids unique_ids count_rows update_rows text_eq
ack_twice_example = ack_twice (codes "t1") (codes "t2") (codes "m1" ∷ []) one_message refl

abbrev archived : List ArchiveRow
archived = archive_row codec sample (codes "sent") none ∷ []
