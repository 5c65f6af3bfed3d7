-- ===== src/Tests/Upkeep.antt =====
-- Maintenance, on an agent that is gone.
use swarmbus.Base.{
  ◌⊎◌, ◌≡◌, refl, ◌*◌, Text, codes, List, [], ◌∷◌, none, some, true, false, text_eq, if◌then◌else◌,
  leb, All, length, map, starts_with, ends_with,
}
use swarmbus.Base.Int.{pos}
use swarmbus.Base.Result.{ok, err, value_error, mqtt_error}
use swarmbus.Base.Table.{select_rows, count_rows}
use swarmbus.Base.Sort.{order_by, insert_by}
use swarmbus.Message.Json.{str, obj, Fields, end, field, Codec, get}
use swarmbus.Message.AgentId.{validate_agent_id, validate_registered_agent_id}
use swarmbus.Message.Envelope.{want_text, or_raise}
use swarmbus.Topics.{
  default_topics, presence_agent, registry_agent, one_agent_segment, agents_prefix, registry_prefix,
  rooted, is_registry_topic, is_presence_topic, presence, registry,
}
use swarmbus.Registry.Records.{
  RegistryRecord, registry_from_mqtt, validate_registry, want_status, want_lifecycle,
  want_durability, want_aware, want_agent_id, is_aware,
}
use swarmbus.Registry.Presence.{
  presence_from_mqtt, translate, carried_over, has_key, validate_presence, want_state, want_reason,
  want_datetime,
}
use swarmbus.Registry.Decide.{presence_evidence, transient_gc_decision, elapsed}
use swarmbus.Registry.Cache.{lookup, set_entry, sorted_set, insert_text}
use swarmbus.Maintenance.Snapshot.{Delivery, snapshot, ingest_all, ingest}
use swarmbus.Maintenance.Gc.{
  Settings, Turn, Tombstone, publish_tombstones, attend, decide_fresh, delete_record, gc_turn,
  gc_loop,
}
use swarmbus.Maintenance.Gc.Turns.{IsJustified}
use swarmbus.Maintenance.Orphans.{OrphanTurn, stamp_or_collect_orphans, choose_orphans, orphan_loop}
use swarmbus.Maintenance.Collect.{Collected, gc_transient, collect_snapshot, sift, select_batch}
use swarmbus.Maintenance.Collect.Report.{IsAccounted}
use swarmbus.Maintenance.Collect.Runs.{is_refused, gc_transient-justified, gc_transient-IsAccounted}
use swarmbus.Maintenance.Orphans.{OrphanWrite, write_orphan_presence, decide_orphan, perform}
use swarmbus.Maintenance.Orphans.Turns.{IsDue}
use swarmbus.Registry.Presence.{set_field, stamp_presence_payload}
use swarmbus.Registry.Decide.{orphan_presence_action}
use swarmbus.Base.{some}
use swarmbus.Message.AgentId.{is_reserved, matches_agent_id}
use swarmbus.Maintenance.Collect.{orphans_of}
use swarmbus.Maintenance.Forget.{Forgetting, ForgetReport, forget, recheck, act, retire}
use swarmbus.Maintenance.Forget.Warrant.{IsWarranted, forget-IsWarranted}
use swarmbus.Maintenance.Forget.Outcome.{Told, forget-Told}
use swarmbus.Maintenance.Listing.{
  ListReport, OrphanEntry, IsJoined, record_of, by_id, list_registry, list_registry-IsJoined,
}
use swarmbus.Tests.{noon, noon_text}
use swarmbus.Tests.Presence.{later, worker_fields, old_fields}

-- The presence payload of an agent with no record.
abbrev orphan_fields : Fields
orphan_fields =
    field (codes "agent_id") (str (codes "carl"))
      (field (codes "state") (str (codes "offline")) end)

-- A codec for the registry record "r" and the presence record "p" of bob, and the presence record "q" of carl.
abbrev upkeep_codec : Codec
upkeep_codec = record {
  dumps = λ j. codes "stamped";
  loads = λ t. some (
      obj (
        if text_eq t (codes "r")
        then worker_fields
        else if text_eq t (codes "q")
        then orphan_fields
        else old_fields));
  isoformat = λ d. noon_text;
  parse_datetime = λ j. some noon;
  coerce_int = λ j. none;
  is_literal_one = λ j. true;
  parse_json = λ t. some (obj worker_fields);
  write_datetime = λ d. noon_text;
  is_printable = λ ch. leb 32 ch;
}

abbrev retained : List Delivery
retained =
    record { topic = codes "swarmbus/registry/bob"; payload = codes "r" }
    ∷ record { topic = codes "agents/bob/presence"; payload = codes "p" }
    ∷ record { topic = codes "agents/carl/presence"; payload = codes "q" }
    ∷ []

abbrev settings : Settings
settings = record {
  stale_after = pos (60 * 1000000);
  retention = pos (3600 * 1000000);
  dry_run = false;
}

abbrev turns : Text → Turn
turns id = record {
  connects = true;
  deliveries = retained;
  audits = true;
  agent_connects = true;
  presence_published = true;
  registry_published = true;
  agent_closes = true;
  closes = true;
}

abbrev orphan_turns : Text → OrphanTurn
orphan_turns id = record {
  connects = true;
  deliveries = retained;
  audits = true;
  published = true;
  closes = true;
}

gc_transient-IsAccounted_example :
    ((is_refused (pos 10) later settings ≡ true)
      × (gc_transient upkeep_codec default_topics later settings
            (pos 10)
            (some retained)
            turns
            orphan_turns
          ≡ err value_error))
    ⊎ ((is_refused (pos 10) later settings ≡ false)
        × (some retained ≡ none)
        × (gc_transient upkeep_codec default_topics later settings
              (pos 10)
              (some retained)
              turns
              orphan_turns
            ≡ err mqtt_error))
    ⊎ ((is_refused (pos 10) later settings ≡ false)
        × (initial : List Delivery) × (some retained ≡ some initial)
        × (out : Collected) × (gc_transient upkeep_codec default_topics later settings
              (pos 10)
              (some retained)
              turns
              orphan_turns
            ≡ ok out)
        × IsAccounted (snapshot upkeep_codec default_topics initial) out.report)
gc_transient-IsAccounted_example =
    gc_transient-IsAccounted upkeep_codec default_topics later settings (pos 10) (some retained)
      turns orphan_turns

-- What the run publishes for bob.
abbrev published : List Tombstone
published =
    record { topic = codes "agents/bob/presence"; session = true }
    ∷ record { topic = codes "swarmbus/registry/bob"; session = true }
    ∷ []

-- And for carl.
abbrev stamped : List OrphanWrite
stamped = record { topic = codes "agents/carl/presence"; body = codes "stamped" } ∷ []

gc_transient-justified_example :
    All (IsJustified upkeep_codec default_topics later settings turns) published
    × All (IsDue upkeep_codec default_topics later settings orphan_turns) stamped
unfolding gc_transient collect_snapshot sift select_batch snapshot ingest_all ingest
    registry_from_mqtt validate_registry want_status want_lifecycle want_durability want_aware
    want_agent_id is_aware presence_from_mqtt translate carried_over has_key validate_presence
    want_state want_reason want_datetime presence_agent registry_agent one_agent_segment
    agents_prefix registry_prefix rooted is_registry_topic is_presence_topic presence registry
    presence_evidence transient_gc_decision elapsed lookup set_entry sorted_set insert_text
    publish_tombstones attend decide_fresh delete_record gc_turn gc_loop stamp_or_collect_orphans
    choose_orphans orphan_loop write_orphan_presence decide_orphan perform orphan_presence_action
    set_field stamp_presence_payload validate_agent_id want_text or_raise get text_eq starts_with
    ends_with select_rows count_rows order_by insert_by
gc_transient-justified_example =
    gc_transient-justified upkeep_codec default_topics later settings (pos 10) (some retained) turns
      orphan_turns refl

abbrev forgetting : Forgetting
forgetting = record {
  agent_id = codes "bob";
  dry_run = false;
  force_online = false;
  stale_after = pos (60 * 1000000);
}

forget-IsWarranted_example :
    All (IsWarranted upkeep_codec default_topics later forgetting retained (turns [])) published
unfolding forget recheck act retire snapshot ingest_all ingest registry_from_mqtt validate_registry
    want_status want_lifecycle want_durability want_aware want_agent_id is_aware presence_from_mqtt
    translate carried_over has_key validate_presence want_state want_reason want_datetime
    presence_agent registry_agent one_agent_segment agents_prefix registry_prefix rooted
    is_registry_topic is_presence_topic presence registry presence_evidence elapsed lookup set_entry
    publish_tombstones validate_agent_id validate_registered_agent_id want_text or_raise get text_eq
    starts_with ends_with is_reserved matches_agent_id
forget-IsWarranted_example =
    forget-IsWarranted upkeep_codec default_topics later forgetting retained (turns []) refl

forget-Told_example :
    (out : ForgetReport × List Tombstone) × (forget upkeep_codec default_topics later forgetting
        (some retained)
        (turns [])
      ≡ ok out)
    × Told default_topics (codes "bob") out
unfolding validate_registered_agent_id is_aware text_eq
forget-Told_example =
    forget-Told upkeep_codec default_topics later forgetting retained (turns []) refl refl refl refl
      refl

list_registry-IsJoined_example :
    ((some retained ≡ none)
      × (list_registry upkeep_codec default_topics later (pos (60 * 1000000)) (some retained)
          ≡ err mqtt_error))
    ⊎ ((deliveries : List Delivery) × (some retained ≡ some deliveries)
        × (out : ListReport) × (list_registry upkeep_codec default_topics later
              (pos (60 * 1000000))
              (some retained)
            ≡ ok out)
        × (out.scanned ≡ length (snapshot upkeep_codec default_topics deliveries).records)
        × (map record_of out.identities
            ≡ order_by by_id (
                map
                  (λ (r : Text × RegistryRecord). r.1)
                  (snapshot upkeep_codec default_topics deliveries).records))
        × All (IsJoined (snapshot upkeep_codec default_topics deliveries).presence) out.identities
        × (map (λ (o : OrphanEntry). o.agent_id) out.orphans
            ≡ orphans_of (snapshot upkeep_codec default_topics deliveries)))
unfolding is_aware
list_registry-IsJoined_example =
    list_registry-IsJoined upkeep_codec default_topics later (pos (60 * 1000000)) (some retained)
      refl refl
