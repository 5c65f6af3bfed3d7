-- ===== src/Tests/Buses.antt =====
-- The bus, with a store in which the sender of the sample is tripped.
use swarmbus.Base.{
  ℕ, Text, starts_with, none, ◌≡◌, refl, codes, List, [], ◌∷◌, some, true, false, All, any, text_eq,
}
use swarmbus.Message.Json.{str, field, end}
use swarmbus.Archive.Rows.{empty_database, TripEvent, rate_limit_trip}
use swarmbus.TripAlert.{trip_prefix, trip_env, decimal}
use swarmbus.TripAlert.Clean.{IsClean, trip_env-IsClean}
use swarmbus.Archive.Store.{Store}
use swarmbus.Base.Table.{select_rows}
use swarmbus.Base.Sort.{order_by, insert_by}
use swarmbus.Bus.Outbox.{
  Outbox, Disk, opened, append_outbox_entry, prune_rotated_outboxes, free_stamp, has_stamp,
  latest_stamp,
}
use swarmbus.Bus.Outbox.Lossless.{IsLossless, append_outbox_entry-IsLossless}
use swarmbus.Bus.Listen.{Handler, Incoming, Listener, Listening, receive_all}
use swarmbus.Bus.Listen.Acks.{Acks, receive_all-Acks}
use swarmbus.Bus.Listen.Silence.{IsQuiet}
use swarmbus.Bus.Reconnect.{listen, begin, listen-IsQuiet}
use swarmbus.Bus.Agents.{list_agents, latest, says_yes, list_agents_lem}
use swarmbus.Topics.{default_topics}
use swarmbus.Tests.{codec, codec_of, digest, limits, noon}

abbrev tripped_store : Store
tripped_store = record {
  limits = limits;
  db = record empty_database {
    hop_trips = record { sender = codes "alice"; tripped_at = 1; message_id = codes "m0" } ∷ [];
  };
  admissions_since_prune = 0;
  new_trips = [];
}

abbrev bridge : Handler
bridge = record { name = codes "bridge"; file_bridge = true }

abbrev waker : Handler
waker = record { name = codes "waker"; file_bridge = false }

abbrev from_alice : Incoming
from_alice = record {
  topic = codes "agents/bob/inbox";
  payload = codes "{}";
  qos = 1;
  fresh = codes "f";
  now = noon;
  seen_at = 1000000000;
  store_fails = false;
  acknowledges = true;
}

abbrev listener : Listener
listener = record {
  handlers = waker ∷ bridge ∷ [];
  manual_ack = false;
  has_alerter = false;
  reconnect_initial = 1000000;
  reconnect_max = 60000000;
}

listen-IsQuiet_example :
    All
      (IsQuiet (codes "alice"))
      (listen codec digest listener (begin codec digest listener (some tripped_store)) (
        record {
          connects = true;
          arrivals = from_alice ∷ record from_alice { store_fails = true } ∷ [];
          drops = false;
          closes = true;
        }
        ∷ [])).listening.runs
unfolding text_eq
listen-IsQuiet_example = listen-IsQuiet codec digest listener (codes "alice") tripped_store _ refl

abbrev by_hand : Listener
by_hand = record listener { manual_ack = true }

abbrev start : Listening
start = record {
  hold_store = some tripped_store;
  alerts = [];
  runs = [];
  acked = [];
  hold_backoff = 1000000;
}

-- The check fails on the second of two messages.
abbrev two_messages : List Incoming
two_messages =
    from_alice ∷ record from_alice { qos = 0 } ∷ record from_alice { store_fails = true } ∷ []

receive_all-Acks_example :
    Acks start two_messages (receive_all codec digest by_hand start two_messages)
receive_all-Acks_example = receive_all-Acks codec digest by_hand refl start two_messages

list_agents_lem_example :
    any
      (λ n. text_eq n (codes "bob"))
      (list_agents
        (λ z. false)
        (codec_of (field (codes "state") (str (codes "online")) end))
        default_topics
        (record { topic = codes "agents/bob/presence"; payload = codes "{}" } ∷ []))
    ≡ says_yes
        (λ z. false)
        (codec_of (field (codes "state") (str (codes "online")) end))
        default_topics
        (latest
          (λ z. false)
          (codec_of (field (codes "state") (str (codes "online")) end))
          default_topics
          (codes "bob")
          (record { topic = codes "agents/bob/presence"; payload = codes "{}" } ∷ []))
list_agents_lem_example =
    list_agents_lem (λ z. false) (codec_of (field (codes "state") (str (codes "online")) end))
      default_topics (codes "bob")
      (record { topic = codes "agents/bob/presence"; payload = codes "{}" } ∷ [])

abbrev a_trip : TripEvent
a_trip = record {
  sender = codes "al\nice";
  kind = rate_limit_trip;
  message_id = codes "m1";
  hops = 12;
  origin = none;
  source_topic = codes "agents/bob/inbox";
  tripped_at = 5;
  until = some 9;
}

abbrev iso_text : ℕ → Text
iso_text n = codes "t"

-- The environment still holds a variable of an earlier trip.
trip_env-IsClean_example :
    All
      (λ (e : Text × Text). starts_with e.0 trip_prefix ≡ true → IsClean e.1)
      (trip_env iso_text
        ((codes "SWARMBUS_TRIP_KIND", codes "a\nb") ∷ (codes "HOME", codes "h\n") ∷ [])
        a_trip
        (codes "bob")
        (codes "daemon"))
trip_env-IsClean_example =
    trip_env-IsClean iso_text
      ((codes "SWARMBUS_TRIP_KIND", codes "a\nb") ∷ (codes "HOME", codes "h\n") ∷ []) a_trip
      (codes "bob") (codes "daemon")

decimal_test : decimal 120 ≡ codes "120"
unfolding decimal
decimal_test = refl

-- An outbox whose next name is taken.
abbrev an_outbox : Outbox
an_outbox = record { current = some (1 ∷ 2 ∷ 3 ∷ []); rotated = (7, 4 ∷ []) ∷ [] }

abbrev a_disk : Disk
a_disk = record {
  mkdir_fails = false;
  first_open = opened;
  rename_fails = false;
  list_fails = false;
  unlink_fails = λ n. false;
  second_open = opened;
  cut = none;
}

append_outbox_entry_test :
    append_outbox_entry a_disk 4 0 7 (5 ∷ 6 ∷ []) an_outbox
    ≡ record { current = some (5 ∷ 6 ∷ []); rotated = (8, 1 ∷ 2 ∷ 3 ∷ []) ∷ (7, 4 ∷ []) ∷ [] }
unfolding append_outbox_entry free_stamp has_stamp latest_stamp select_rows
append_outbox_entry_test = refl

prune_test :
    prune_rotated_outboxes a_disk 1
      (record { current = none; rotated = (8, 1 ∷ []) ∷ (7, 4 ∷ []) ∷ (9, []) ∷ [] })
    ≡ record { current = none; rotated = (9, []) ∷ [] }
unfolding prune_rotated_outboxes select_rows order_by insert_by
prune_test = refl

append_outbox_entry-IsLossless_example :
    IsLossless a_disk
      (5 ∷ 6 ∷ [])
      an_outbox
      (append_outbox_entry a_disk 4 0 7 (5 ∷ 6 ∷ []) an_outbox)
append_outbox_entry-IsLossless_example =
    append_outbox_entry-IsLossless a_disk 4 7 (5 ∷ 6 ∷ []) an_outbox
