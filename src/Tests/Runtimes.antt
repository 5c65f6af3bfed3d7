-- ===== src/Tests/Runtimes.antt =====
-- The runtime, on the sample.
use swarmbus.Base.{Text, ◌+◌, arith, some}
use swarmbus.Message.Json.{str, get}
use swarmbus.Message.AgentId.{matches_agent_id}
use swarmbus.Message.Envelope.{
  AgentMessage, create, validate_fields, want_text, want_optional, want_agent, want_hops, or_raise,
  is_valid, valid_id, valid_subject, valid_metadata, valid_optional, valid_body, utf8_size,
}
use swarmbus.Topics.{route}
use swarmbus.Archive.Rows.{empty_database}
use swarmbus.Archive.Reports.{lookup_message}
use swarmbus.Archive.Admit.{Decision}
use swarmbus.Archive.Admit.HopLimit.{Trips}
use swarmbus.Runtime.Send.{SendArgs, send_message, reply_origin}
use swarmbus.Runtime.Send.Chain.{send_message-Trips}
use swarmbus.Tests.{limits}
use swarmbus.Base.{◌≡◌, refl, codes, [], ◌∷◌, none, true, false, text_eq, Bool}
use swarmbus.Base.Result.{ok}
use swarmbus.Message.AgentId.{validate_agent_id}
use swarmbus.Message.Unicode.{is_space, is_unsafe}
use swarmbus.Message.Envelope.{to_json, dump, from_json}
use swarmbus.Topics.{inbox, is_message_topic, agents_prefix, rooted}
use swarmbus.Registry.Cache.{get_state}
use swarmbus.Archive.Admit.{admit_in, admit_new, decide_new, decide_seen, check_rate, draw_token}
use swarmbus.Archive.Bucket.{draw, refill}
use swarmbus.Archive.Statements.{find_bucket, upsert_bucket, insert_admitted}
use swarmbus.Archive.Store.{admit}
use swarmbus.Archive.Inbox.{store}
use swarmbus.Base.Table.{find_row}
use mathlib.Core.List.{Memᴰ}
use swarmbus.Runtime.State.{Runtime, connecting, observe_sender_state}
use swarmbus.Runtime.Commit.{Attempt, arrives, commit, commit_loop, store_inbox_message}
use swarmbus.Runtime.Commit.Kept.{IsKept, IsStored, store_inbox_message-IsStored}
use swarmbus.Runtime.Handle.{Delivered, handle_message}
use swarmbus.Runtime.Handle.Durable.{handle_message-IsKept}
use swarmbus.Tests.{codec, digest, noon, sample}
use swarmbus.Tests.Inboxes.{nobody, empty_mailbox}
use swarmbus.Tests.Presence.{fresh_cache}

abbrev runtime : Runtime
runtime = record {
  agent_id = codes "bob";
  persistent = false;
  presence = true;
  has_alerter = false;
  state = connecting;
  has_client = true;
  last_fatal_error = none;
  last_store_error = none;
  mailbox = empty_mailbox;
  registry = fresh_cache;
  alerts = [];
  sleeps = [];
}

abbrev works : Attempt
works = record {
  store_fails = false;
  conflict_fails = false;
  seen_at = 2000000000;
  received = noon;
}

abbrev fails : Attempt
fails = record works { store_fails = true }

store_inbox_message-IsStored_example :
    (out : Runtime) × (b : Bool) × (store_inbox_message codec digest sample
        (codes "agents/bob/inbox")
        nobody
        (fails ∷ fails ∷ works ∷ [])
        runtime
      ≡ (out, ok b))
    × IsStored codec digest runtime 2 sample (codes "agents/bob/inbox") works out
unfolding to_json dump
store_inbox_message-IsStored_example =
    store_inbox_message-IsStored codec digest sample (codes "agents/bob/inbox") nobody
      (fails ∷ fails ∷ []) works [] runtime refl (refl, (refl, tt)) refl refl (omega arith) refl

abbrev delivered : Delivered
delivered = record {
  topic = codes "agents/bob/inbox";
  payload = codes "{}";
  qos = 1;
  fresh = codes "f";
  now = noon;
  attempts = works ∷ [];
  acknowledges = true;
}

handle_message-IsKept_example :
    (a : Attempt) × Memᴰ a delivered.attempts
    × IsKept codec digest runtime.mailbox
        (arrives codec digest sample (codes "agents/bob/inbox") a)
        (handle_message codec digest runtime delivered).runtime.mailbox
unfolding to_json dump from_json is_message_topic inbox agents_prefix rooted text_eq
    validate_agent_id is_space is_unsafe handle_message observe_sender_state get_state
    store_inbox_message commit_loop commit store find_row admit admit_in decide_seen decide_new
    check_rate draw_token draw refill find_bucket upsert_bucket admit_new insert_admitted
handle_message-IsKept_example =
    handle_message-IsKept codec digest runtime delivered {m = sample} refl refl refl refl

-- bob has admitted a message from alice with as many hops as the limit.
abbrev at_limit : Runtime
at_limit = record runtime {
  mailbox = record empty_mailbox {
    store_ = record empty_mailbox.store_ {
      db = record empty_database {
        admitted_messages =
            record {
              id = codes "m0";
              from_agent = codes "alice";
              hops = 8;
              origin = some (codes "alice");
              seen_at = 1;
              envelope_sha256 = none;
            }
            ∷ [];
      };
    };
  };
}

abbrev answer : SendArgs
answer = record {
  to = codes "alice";
  subject = codes "re";
  body = codes "hello";
  content_type = codes "text/plain";
  in_reply_to = some (codes "m0");
}

-- What bob sends back.
abbrev sent : AgentMessage
sent = record sample {
  id = codes "f";
  from_agent = codes "bob";
  to = codes "alice";
  subject = codes "re";
  hops = 9;
  in_reply_to = some (codes "m0");
}

send_message-Trips_example :
    (9 ≡ 8 + 1)
    × (some (codes "m0") ≡ some (codes "m0"))
    × ((o : Text) × (reply_origin
            (λ z. false)
            codec
            (record { from_agent = codes "alice"; hops = 8; origin = str (codes "alice") })
          ≡ ok o)
        × (some (codes "alice") ≡ some o))
    × (d : Decision) × (admit_in codec digest limits 0
          (record { msg = sent; source_topic = codes "agents/alice/inbox"; now = 1000000000 })
          empty_database
        ≡ ok d)
    × Trips (record { msg = sent; source_topic = codes "agents/alice/inbox"; now = 1000000000 }) d
unfolding send_message lookup_message find_row create validate_fields want_text want_optional
    want_agent want_hops or_raise is_valid valid_id valid_subject valid_metadata valid_optional
    valid_body utf8_size get text_eq validate_agent_id is_space is_unsafe matches_agent_id route
    inbox agents_prefix rooted
send_message-Trips_example =
    send_message-Trips (λ z. false) codec (codes "f") noon at_limit answer b'm' (codes "0")
      (record { from_agent = codes "alice"; hops = 8; origin = str (codes "alice") })
      {out = record { topic = codes "agents/alice/inbox"; msg = sent }} digest limits 0
      (codes "agents/alice/inbox") 1000000000 empty_database refl refl refl refl refl refl
      (omega arith)
