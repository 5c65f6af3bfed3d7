-- ===== src/Tests/Admission.antt =====
-- Admission, on a message that passes, one that loops, and a few tables.
use swarmbus.Base.{length, min}
use swarmbus.Message.Json.{Codec, str, obj, field, end, get}
use swarmbus.Archive.Reports.{list_holds, held_summaries, by_sender, group_senders, count_sender}
use swarmbus.Base.Sort.{insert_by, order_by}
use swarmbus.Archive.Reports.Counts.{total, list_holds_lem}
use swarmbus.Base.{
  arith, ◌≡◌, ◌≢◌, refl, ◌≤◌, ◌*◌, ◌+◌, ◌<◌, ◌⊎◌, codes, [], ◌∷◌, some, true, false, text_eq,
}
use swarmbus.Base.Result.{ok, err, value_error}
use swarmbus.Base.Table.{count_rows, select_rows, find_row}
use swarmbus.Message.Envelope.{dump, to_json}
use swarmbus.Archive.Rows.{
  Database, Limits, empty_database, hop_limit_reason, held_max_rows, second,
}
use swarmbus.Archive.Statements.{
  is_held, is_tripped, find_bucket, upsert_bucket, insert_admitted, insert_held,
}
use swarmbus.Archive.Caps.{is_protected, unprotected, cap_held, cap_held_lem}
use swarmbus.Archive.Bucket.{Bucket, refill, draw, draw_all, token}
use swarmbus.Archive.Admit.{
  Decision, over_rate, hold_sender_message, kept_envelope, cool_down, max_timestamp, admit_in,
  admit_new, pruned, decide_new, decide_seen, check_rate, draw_token,
}
use swarmbus.Archive.Admit.Total.{admit_in_total}
use swarmbus.Archive.Admit.HopLimit.{Trips, admit_in-Trips}
use swarmbus.Archive.Admit.Gate.{admit_in_gate, Passes}
use swarmbus.Archive.Admit.Redelivery.{admit_in_twice}
use swarmbus.Archive.Store.{Store, admit, reset_trips}
use swarmbus.Archive.Store.Trips.{run, tripped_stays_refused}
use swarmbus.Archive.Store.Reset.{is_cooling, has_bucket, reset_trips_lem}
use swarmbus.Tests.{codec, digest, limits, arrival, looping, sample}

admit_in_total_example :
    ((d : Decision) × (admit_in codec digest limits 0 arrival empty_database ≡ ok d))
    ⊎ ((max_timestamp < arrival.now + limits.rate_cooldown)
        × (admit_in codec digest limits 0 arrival empty_database ≡ err value_error))
unfolding to_json dump
admit_in_total_example = admit_in_total codec digest limits 0 arrival empty_database refl

admit_in_gate_example :
    (is_held (pruned 0 arrival empty_database) (codes "m1") ≡ false)
    × (is_tripped (pruned 0 arrival empty_database) (codes "alice") ≡ false)
    × Passes codec digest arrival limits (pruned 0 arrival empty_database)
unfolding admit_in decide_seen decide_new check_rate draw_token draw refill find_bucket
    upsert_bucket admit_new insert_admitted find_row
admit_in_gate_example = admit_in_gate codec digest limits 0 arrival empty_database refl refl

-- The store after the sample.
abbrev after_sample : Database
after_sample = record empty_database {
  rate_buckets =
      record {
        sender = codes "alice";
        source_topic = codes "agents/bob/inbox";
        tokens = 9 * token;
        updated_at = 2000 * second;
      }
      ∷ [];
  admitted_messages =
      record {
        id = codes "m1";
        from_agent = codes "alice";
        hops = 3;
        origin = some (codes "alice");
        seen_at = 2000 * second;
        envelope_sha256 = some (codes "5d41402a");
      }
      ∷ [];
}

admit_in_twice_example :
    admit_in codec digest limits 5
      (record { msg = sample; source_topic = codes "agents/broadcast"; now = 2001 * second })
      after_sample
    ≡ ok (record { db = after_sample; trips = []; admitted = true })
unfolding admit_in decide_seen decide_new check_rate draw_token draw refill find_bucket
    upsert_bucket admit_new insert_admitted find_row
admit_in_twice_example =
    admit_in_twice codec digest limits limits 0 5 arrival empty_database
      {d = record { db = after_sample; trips = []; admitted = true }} (codes "agents/broadcast")
      (2001 * second) refl refl refl

-- alice has tripped.
abbrev tripped : Database
tripped = record empty_database {
  hop_trips = record { sender = codes "alice"; tripped_at = 1; message_id = codes "m0" } ∷ [];
  held_messages =
      record {
        id = codes "m0";
        from_agent = codes "alice";
        hops = 9;
        reason = hop_limit_reason;
        source_topic = codes "agents/bob/inbox";
        held_at = 1;
        envelope = codes "{}";
        stub = false;
      }
      ∷ [];
  conflicts =
      record {
        message_id = codes "m0";
        from_agent = codes "carol";
        source_topic = codes "agents/bob/inbox";
        recorded_at = 2;
        envelope = codes "{}";
      }
      ∷ [];
}

abbrev tripped_store : Store
tripped_store = record { limits = limits; db = tripped; admissions_since_prune = 0; new_trips = [] }

tripped_stays_refused_example :
    (is_tripped (run codec digest tripped_store (looping ∷ [])).db (codes "alice") ≡ true)
    × ((admit codec digest (run codec digest tripped_store (looping ∷ [])) arrival).1 ≢ ok true)
unfolding text_eq
tripped_stays_refused_example =
    tripped_stays_refused codec digest tripped_store (looping ∷ []) arrival refl

cap_held_lem_example :
    (count_rows (unprotected tripped) (cap_held tripped).held_messages ≤ held_max_rows)
    × (select_rows (λ r. is_protected tripped.hop_trips r.id) (cap_held tripped).held_messages
        ≡ select_rows (λ r. is_protected tripped.hop_trips r.id) tripped.held_messages)
    × (count_rows (unprotected tripped) tripped.held_messages ≤ held_max_rows
        → (cap_held tripped).held_messages ≡ tripped.held_messages)
cap_held_lem_example = cap_held_lem tripped

abbrev full_bucket : Bucket
full_bucket = record { tokens = 7 * token; updated_at = 0 }

-- Three messages pass within 60 seconds at a limit of two.
draw_all_test :
    (draw_all 2 (0 ∷ 1 ∷ 30000000 ∷ []) (record { tokens = 2 * token; updated_at = 0 })).1 ≡ 3
unfolding draw_all draw refill
draw_all_test = refl

-- The cool-down would end past the year 9999: the admission raises.
abbrev late_limits : Limits
late_limits = record { hop_limit = 8; rate_limit = 1; rate_cooldown = 253402300800 * second }

late_test :
    admit_in codec digest late_limits 0 arrival (record empty_database {
      rate_buckets =
          record {
            sender = codes "alice";
            source_topic = codes "agents/bob/inbox";
            tokens = 0;
            updated_at = 2000 * second;
          }
          ∷ [];
    })
    ≡ err value_error
unfolding admit_in decide_seen find_row decide_new check_rate draw_token draw refill find_bucket
    text_eq over_rate hold_sender_message kept_envelope count_rows upsert_bucket insert_held
    cool_down
late_test = refl

reset_trips_lem_example :
    let t = (reset_trips (some (codes "alice")) tripped_store).0 in
    (is_tripped t.db (codes "alice") ≡ false)
    × (is_cooling t.db (codes "alice") ≡ false)
    × (has_bucket t.db (codes "alice") ≡ false)
    × (is_tripped t.db (codes "bob") ≡ is_tripped tripped (codes "bob"))
    × (is_cooling t.db (codes "bob") ≡ is_cooling tripped (codes "bob"))
    × (has_bucket t.db (codes "bob") ≡ has_bucket tripped (codes "bob"))
    × (t.db.held_messages ≡ tripped.held_messages)
    × (t.db.admitted_messages ≡ tripped.admitted_messages)
    × (t.db.conflicts ≡ tripped.conflicts)
reset_trips_lem_example = reset_trips_lem tripped_store (codes "alice") (codes "bob") (λ p. cc)

admit_in-Trips_example :
    (d : Decision) × (admit_in codec digest limits 0 looping empty_database ≡ ok d)
    × Trips looping d
unfolding find_row text_eq
admit_in-Trips_example =
    admit_in-Trips codec digest limits 0 looping empty_database refl refl refl (omega arith) refl

-- A codec whose texts are all an object with a subject.
abbrev subject_codec : Codec
subject_codec = record codec {
  loads = λ t. some (obj (field (codes "subject") (str (codes "hi")) end));
}

list_holds_lem_example :
    (1 ≡ length tripped.held_messages) × (total ((codes "alice", 1) ∷ []) ≡ 1) × (1 ≡ min 20 1)
unfolding list_holds held_summaries order_by insert_by by_sender group_senders count_sender
    select_rows get text_eq
list_holds_lem_example =
    list_holds_lem subject_codec 5 20 tripped
      {r = record {
        tripped = tripped.hop_trips;
        cooling = [];
        held_count = 1;
        held =
            record {
              id = codes "m0";
              from_agent = codes "alice";
              hops = 9;
              reason = hop_limit_reason;
              held_at = 1;
              subject = str (codes "hi");
            }
            ∷ [];
        held_by_sender = (codes "alice", 1) ∷ [];
        admitted_count = 0;
        conflict_count = 1;
      }}
      refl
