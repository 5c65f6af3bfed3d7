-- ===== src/Tests/Presence.antt =====
-- The registry, on the records of one agent.
use swarmbus.Base.{false, map, starts_with, ends_with, text_eq, codes, Text, List, none}
use swarmbus.Message.Json.{Codec}
use swarmbus.Topics.{registry_agent, registry_prefix, one_agent_segment, rooted}
use swarmbus.Message.Envelope.{want_text, or_raise}
use swarmbus.Registry.Records.{
  registry_from_mqtt, validate_registry, want_status, want_lifecycle, want_durability, want_aware,
  want_agent_id,
}
use swarmbus.Registry.Cache.{
  RegistryCache, AgentState, make_cache, update_registry, set_entry, list_states, online_agent_ids,
  agent_ids,
}
use swarmbus.Registry.Reachable.{Reachable, IsSound, Reachable-IsSound}
use swarmbus.Registry.Listing.{list_states_lem}
use swarmbus.Base.{
  ◌≡◌, refl, ◌*◌, Text, codes, [], ◌∷◌, none, some, true, text_eq, if◌then◌else◌, leb, starts_with,
  ends_with,
}
use swarmbus.Base.Int.{pos, sub_ℕ}
use swarmbus.Base.Result.{ok}
use swarmbus.Message.AgentId.{validate_agent_id}
use swarmbus.Message.Envelope.{want_text, or_raise}
use swarmbus.Message.Json.{Json, str, obj, Fields, end, field, DateTime, Codec, get}
use swarmbus.Topics.{default_topics, presence_agent, one_agent_segment, agents_prefix, rooted}
use swarmbus.Registry.Records.{RegistryRecord, transient, durable, is_aware, want_agent_id}
use swarmbus.Registry.Presence.{
  PresenceRecord, offline, presence_from_mqtt, translate, carried_over, has_key, validate_presence,
  want_state, want_reason, want_datetime, set_field, stamp_presence_payload,
}
use swarmbus.Registry.Decide.{transient_gc_decision}
use swarmbus.Registry.Collect.{Decides, transient_gc_decision_lem}
use swarmbus.Registry.Stamp.{stamp_presence_payload_lem}
use swarmbus.Tests.{noon, noon_text}

abbrev pub later : DateTime
later = record { instant = 9000 * 1000000; utcoffset = some (pos 0) }

abbrev gone : PresenceRecord
gone = record {
  agent_id = codes "bob";
  state = offline;
  connected_at = none;
  reason = none;
  first_seen_offline = none;
}

abbrev worker : RegistryRecord
worker = record {
  agent_id = codes "bob";
  status = [];
  working_set = [];
  capabilities = [];
  lifecycle = transient;
  durability = durable;
  started_at = noon;
  last_seen = noon;
}

transient_gc_decision_lem_example :
    Decides worker
      (some gone)
      (sub_ℕ later.instant noon.instant)
      (pos (3600 * 1000000))
      (transient_gc_decision worker (some gone) later (pos (60 * 1000000)) (pos (3600 * 1000000)))
unfolding is_aware text_eq
transient_gc_decision_lem_example =
    transient_gc_decision_lem worker (some gone) later (pos (60 * 1000000)) (pos (3600 * 1000000))
      refl refl refl refl refl

-- An older payload.
abbrev pub old_fields : Fields
old_fields =
    field (codes "agent") (str (codes "bob")) (field (codes "status") (str (codes "offline")) end)

abbrev stamped_fields : Fields
stamped_fields = field (codes "agent") (str (codes "bob")) (
    field (codes "status") (str (codes "offline"))
      (field (codes "first_seen_offline") (str noon_text) end))

abbrev write : Json → Text
write (obj fs) = if has_key (codes "first_seen_offline") fs then codes "stamped" else codes "old"
write _ = []

-- A codec for the two payloads.
abbrev presence_codec : Codec
presence_codec = record {
  dumps = write;
  loads = λ t. some (obj (if text_eq t (codes "stamped") then stamped_fields else old_fields));
  isoformat = λ d. noon_text;
  parse_datetime = λ j. some noon;
  coerce_int = λ j. none;
  is_literal_one = λ j. true;
  parse_json = λ t. none;
  write_datetime = λ d. noon_text;
  is_printable = λ ch. leb 32 ch;
}

stamp_presence_payload_lem_example :
    presence_from_mqtt presence_codec default_topics (codes "agents/bob/presence") (codes "stamped")
    ≡ ok (record gone { first_seen_offline = some noon })
unfolding presence_from_mqtt translate carried_over has_key validate_presence want_agent_id
    want_state want_reason want_datetime set_field stamp_presence_payload is_aware presence_agent
    one_agent_segment agents_prefix rooted validate_agent_id want_text or_raise get text_eq
    starts_with ends_with
stamp_presence_payload_lem_example =
    stamp_presence_payload_lem presence_codec default_topics (codes "agents/bob/presence")
      (codes "old") (codes "stamped") old_fields noon gone refl refl refl refl refl

abbrev cache : RegistryCache
cache = record {
  stale_after = pos (60 * 1000000);
  topics = default_topics;
  registry = (codes "bob", worker) ∷ [];
  presence = [];
}

-- The payload of bob's registry record.
abbrev pub worker_fields : Fields
worker_fields = field (codes "agent_id") (str (codes "bob")) (
    field (codes "lifecycle") (str (codes "transient")) (
      field (codes "durability") (str (codes "durable")) (
        field (codes "started_at") (str noon_text)
          (field (codes "last_seen") (str noon_text) end))))

abbrev registry_codec : Codec
registry_codec = record presence_codec { parse_json = λ t. some (obj worker_fields) }

abbrev pub fresh_cache : RegistryCache
fresh_cache = record {
  stale_after = pos (60 * 1000000);
  topics = default_topics;
  registry = [];
  presence = [];
}

cache-Reachable : Reachable registry_codec cache
unfolding make_cache update_registry registry_from_mqtt registry_agent one_agent_segment
    registry_prefix rooted validate_agent_id validate_registry want_agent_id want_status
    want_lifecycle want_durability want_aware want_text or_raise is_aware get text_eq starts_with
    set_entry
cache-Reachable =
    Reachable.registry_updated (codes "swarmbus/registry/bob") (codes "{}") fresh_cache cache
      (Reachable.made (pos (60 * 1000000)) default_topics fresh_cache refl) refl

Reachable-IsSound_example : IsSound cache
Reachable-IsSound_example = Reachable-IsSound registry_codec cache cache-Reachable

list_states_lem_example :
    (all shown : List AgentState) × (list_states true none noon cache ≡ ok all)
    × (map (λ (st : AgentState). st.agent_id) all ≡ agent_ids cache)
    × (list_states false none noon cache ≡ ok shown)
    × (online_agent_ids noon cache ≡ ok (map (λ (st : AgentState). st.agent_id) shown))
unfolding is_aware
list_states_lem_example =
    list_states_lem noon cache (Reachable-IsSound registry_codec cache cache-Reachable) refl
