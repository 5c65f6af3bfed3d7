-- ===== src/Maintenance/Snapshot.antt =====
-- `_RegistrySnapshot` of src/swarmbus/maintenance.py: the retained messages that came in while the window was
-- open. Both readers of a record raise ValueError or TypeError only, which `ingest` catches.
use swarmbus.Base.{
  ℕ, suc, ◌≡◌, refl, ap, ◌∙◌, subst, true, not, List, [], ◌∷◌, Text, text_eq, Option, none, some,
  All, arith, if◌then◌else◌, Bool-cases, inl, inr,
}
use swarmbus.Base.Result.{
  Result, ok, err, value_error, mqtt_error, raise_if-eq-ok, bind_cases, ok-injective,
}
use swarmbus.Message.Json.{Json, null, bool, int, real, str, arr, obj, Fields, Codec, get}
use swarmbus.Message.Envelope.{or_raise}
use swarmbus.Base.{codes}
use swarmbus.Topics.{TopicMap, is_registry_topic, is_presence_topic, registry_agent, presence_agent}
use swarmbus.Registry.Records.{RegistryRecord, registry_from_mqtt, want_schema, want_agent_id}
use swarmbus.Registry.Presence.{
  PresenceRecord, presence_from_mqtt, aware_if_set, translate, validate_presence, want_state,
  want_datetime, want_reason,
}
use swarmbus.Registry.Cache.{set_entry, remove_entry}
use swarmbus.Registry.Reachable.{
  IsRegistryEntry, All-set_entry, All-remove_entry, registry_from_mqtt-is_aware,
}

-- A message as the broker delivers it.
pub record Delivery : Type 0 where
  pub topic : Text
  pub payload : Text

-- The messages of a window; none if the client fails, and MqttError is let through.
abbrev pub or_lost : Option (List Delivery) → Result (List Delivery)
or_lost none = err mqtt_error
or_lost (some deliveries) = ok deliveries

pub record Snapshot : Type 0 where
  pub records : List (Text × RegistryRecord)
  pub presence : List (Text × PresenceRecord)
  pub presence_payloads : List (Text × Text)
  pub invalid_messages : ℕ

abbrev pub empty_snapshot : Snapshot
empty_snapshot = record {
  records = [];
  presence = [];
  presence_payloads = [];
  invalid_messages = 0;
}

abbrev invalid : Snapshot → Snapshot
invalid s = record s { invalid_messages = suc s.invalid_messages }

abbrev pop_record : Snapshot → Result Text → Snapshot
pop_record s (ok agent_id) = record s { records = remove_entry agent_id s.records }
pop_record s (err e) = invalid s

abbrev keep_record : Snapshot → Result RegistryRecord → Snapshot
keep_record s (ok r) = record s { records = set_entry r.agent_id r s.records }
keep_record s (err e) = invalid s

abbrev pop_presence : Snapshot → Result Text → Snapshot
pop_presence s (ok agent_id) = record s {
  presence = remove_entry agent_id s.presence;
  presence_payloads = remove_entry agent_id s.presence_payloads;
}
pop_presence s (err e) = invalid s

abbrev keep_presence : Snapshot → Text → Result PresenceRecord → Snapshot
keep_presence s payload (ok p) = record s {
  presence = set_entry p.agent_id p s.presence;
  presence_payloads = set_entry p.agent_id payload s.presence_payloads;
}
keep_presence s payload (err e) = invalid s

unfoldable pub ingest : Codec → TopicMap → Delivery → Snapshot → Snapshot
ingest c t d s =
    if is_registry_topic t d.topic
    then if text_eq d.payload []
      then pop_record s (registry_agent t d.topic)
      else keep_record s (registry_from_mqtt c t d.topic d.payload)
    else if is_presence_topic t d.topic
    then if text_eq d.payload []
      then pop_presence s (presence_agent t d.topic)
      else keep_presence s d.payload (presence_from_mqtt c t d.topic d.payload)
    else invalid s

-- `_snapshot_with_client`, on what the subscriptions deliver before the timeout.
unfoldable pub ingest_all : Codec → TopicMap → List Delivery → Snapshot → Snapshot
ingest_all c t [] s = s
ingest_all c t (d ∷ ds) s = ingest_all c t ds (ingest c t d s)

unfoldable pub snapshot : Codec → TopicMap → List Delivery → Snapshot
snapshot c t ds = ingest_all c t ds empty_snapshot

-- A presence entry: its key is its record's id, and its stamp, if any, can be aged.
abbrev pub IsPresenceSeen : Text × PresenceRecord → Type 0
IsPresenceSeen e = (e.1.agent_id ≡ e.0) × (aware_if_set e.1.first_seen_offline ≡ true)

-- A payload that can be stamped.
abbrev pub IsObject : Codec → Text × Text → Type 0
IsObject c e = (fs : Fields) × (c.loads e.1 ≡ some (obj fs))

pub record IsSnapshot (c : Codec) (s : Snapshot) : Type 0 where
  pub registry_keys : All IsRegistryEntry s.records
  pub presence_keys : All IsPresenceSeen s.presence
  pub payload_objects : All (IsObject c) s.presence_payloads

presence_aware :
    (c : Codec) (fs : Fields) {p : PresenceRecord}
    → validate_presence c (obj fs) ≡ ok p
    → aware_if_set p.first_seen_offline ≡ true
unfolding validate_presence
presence_aware c fs h = bind_cases (want_schema c (get (codes "schema_version") fs)) _ h λ _ _ h.
    bind_cases (want_agent_id (get (codes "agent_id") fs)) _ h λ _ _ h.
      bind_cases (want_state (get (codes "state") fs)) _ h λ _ _ h.
        bind_cases (want_datetime c (get (codes "connected_at") fs)) _ h λ _ _ h.
          bind_cases (want_reason (get (codes "reason") fs)) _ h λ _ _ h.
            bind_cases (want_datetime c (get (codes "first_seen_offline") fs)) _ h λ seen _ h.
              let (a, same) = raise_if-eq-ok (not (aware_if_set seen)) value_error _ h in
              subst (λ (p : PresenceRecord). aware_if_set p.first_seen_offline ≡ true)
                (ok-injective same) (ground arith)

object_validated :
    (c : Codec) (j : Json) {p : PresenceRecord}
    → validate_presence c j ≡ ok p
    → (fs : Fields) × (j ≡ obj fs)
unfolding validate_presence
object_validated c (obj fs) h = (fs, refl)
object_validated c null h = cc
object_validated c (bool b) h = cc
object_validated c (int z) h = cc
object_validated c (real r) h = cc
object_validated c (str s) h = cc
object_validated c (arr xs) h = cc

object_translated :
    (j : Json) (gs : Fields) → translate j ≡ ok (obj gs) → (fs : Fields) × (j ≡ obj fs)
unfolding translate
object_translated (obj fs) gs h = (fs, refl)
object_translated null gs h = cc
object_translated (bool b) gs h = cc
object_translated (int z) gs h = cc
object_translated (real r) gs h = cc
object_translated (str s) gs h = absurd (ground arith)
object_translated (arr xs) gs h = absurd (ground arith)

loaded_some : (o : Option Json) {j : Json} → or_raise o ≡ ok j → o ≡ some j
unfolding or_raise
loaded_some none h = cc
loaded_some (some k) h = ap some (ok-injective h)

presence_from_mqtt_seen :
    (c : Codec) (t : TopicMap) (topic payload : Text) {p : PresenceRecord}
    → presence_from_mqtt c t topic payload ≡ ok p
    → (aware_if_set p.first_seen_offline ≡ true) × (fs : Fields) × (c.loads payload ≡ some (obj fs))
unfolding presence_from_mqtt or_raise
presence_from_mqtt_seen c t topic payload h = bind_cases (presence_agent t topic) _ h λ owner _ h.
    bind_cases (or_raise (c.loads payload)) _ h λ loaded e1 h.
      bind_cases (translate loaded) _ h λ translated e2 h.
        bind_cases (validate_presence c translated) _ h λ q e3 h.
          let (_, same) = raise_if-eq-ok (not (text_eq q.agent_id owner)) value_error _ h in
          let (gs, o) = object_validated c translated e3 in
          let (fs, k) = object_translated loaded gs (rw o at e2) in
          (
            subst (λ (p : PresenceRecord). aware_if_set p.first_seen_offline ≡ true)
                (ok-injective same) (presence_aware c gs (rw o at e3)),
            fs,
            loaded_some (c.loads payload) e1 ∙ ap some k,
          )

empty-IsSnapshot : (c : Codec) → IsSnapshot c empty_snapshot
empty-IsSnapshot c = record { registry_keys = tt; presence_keys = tt; payload_objects = tt }

pop_record-IsSnapshot :
    (c : Codec) (s : Snapshot) (r : Result Text) → IsSnapshot c s → IsSnapshot c (pop_record s r)
pop_record-IsSnapshot c s (err e) i = record {
  registry_keys = i.registry_keys;
  presence_keys = i.presence_keys;
  payload_objects = i.payload_objects;
}
pop_record-IsSnapshot c s (ok a) i = record {
  registry_keys = All-remove_entry IsRegistryEntry a s.records i.registry_keys;
  presence_keys = i.presence_keys;
  payload_objects = i.payload_objects;
}

pop_presence-IsSnapshot :
    (c : Codec) (s : Snapshot) (r : Result Text) → IsSnapshot c s → IsSnapshot c (pop_presence s r)
pop_presence-IsSnapshot c s (err e) i = record {
  registry_keys = i.registry_keys;
  presence_keys = i.presence_keys;
  payload_objects = i.payload_objects;
}
pop_presence-IsSnapshot c s (ok a) i = record {
  registry_keys = i.registry_keys;
  presence_keys = All-remove_entry IsPresenceSeen a s.presence i.presence_keys;
  payload_objects = All-remove_entry (IsObject c) a s.presence_payloads i.payload_objects;
}

keep_record-IsSnapshot :
    (c : Codec) (t : TopicMap) (d : Delivery) (s : Snapshot) (r : Result RegistryRecord)
    → registry_from_mqtt c t d.topic d.payload ≡ r
    → IsSnapshot c s
    → IsSnapshot c (keep_record s r)
keep_record-IsSnapshot c t d s (err e) h i = record {
  registry_keys = i.registry_keys;
  presence_keys = i.presence_keys;
  payload_objects = i.payload_objects;
}
keep_record-IsSnapshot c t d s (ok r) h i = record {
  registry_keys =
      All-set_entry IsRegistryEntry r.agent_id r s.records
        (refl, registry_from_mqtt-is_aware c t d.topic d.payload h) i.registry_keys;
  presence_keys = i.presence_keys;
  payload_objects = i.payload_objects;
}

keep_presence-IsSnapshot :
    (c : Codec) (t : TopicMap) (d : Delivery) (s : Snapshot) (r : Result PresenceRecord)
    → presence_from_mqtt c t d.topic d.payload ≡ r
    → IsSnapshot c s
    → IsSnapshot c (keep_presence s d.payload r)
keep_presence-IsSnapshot c t d s (err e) h i = record {
  registry_keys = i.registry_keys;
  presence_keys = i.presence_keys;
  payload_objects = i.payload_objects;
}
keep_presence-IsSnapshot c t d s (ok p) h i =
    let (aware, fs, object) = presence_from_mqtt_seen c t d.topic d.payload h in
    record {
      registry_keys = i.registry_keys;
      presence_keys =
          All-set_entry IsPresenceSeen p.agent_id p s.presence (refl, aware) i.presence_keys;
      payload_objects =
          All-set_entry (IsObject c) p.agent_id d.payload s.presence_payloads (fs, object)
            i.payload_objects;
    }

ingest-IsSnapshot :
    (c : Codec) (t : TopicMap) (d : Delivery) (s : Snapshot)
    → IsSnapshot c s
    → IsSnapshot c (ingest c t d s)
unfolding ingest
ingest-IsSnapshot c t d s i = elim (Bool-cases (is_registry_topic t d.topic)) [
  | inl e ↦ elim (Bool-cases (text_eq d.payload [])) [
    | inl n ↦ rw (e, n) (pop_record-IsSnapshot c s (registry_agent t d.topic) i)
    | inr n ↦
        rw (e, n) (keep_record-IsSnapshot c t d s (registry_from_mqtt c t d.topic d.payload) refl i)
  ]
  | inr e ↦ elim (Bool-cases (is_presence_topic t d.topic)) [
    | inr p ↦ rw (e, p) (pop_record-IsSnapshot c s (err value_error) i)
    | inl p ↦ elim (Bool-cases (text_eq d.payload [])) [
      | inl n ↦ rw (e, p, n) (pop_presence-IsSnapshot c s (presence_agent t d.topic) i)
      | inr n ↦
          rw (e, p, n)
            (keep_presence-IsSnapshot c t d s (presence_from_mqtt c t d.topic d.payload) refl i)
    ]
  ]
]

ingest_all-IsSnapshot :
    (c : Codec) (t : TopicMap) (ds : List Delivery) (s : Snapshot)
    → IsSnapshot c s
    → IsSnapshot c (ingest_all c t ds s)
unfolding ingest_all
ingest_all-IsSnapshot c t [] s i = i
ingest_all-IsSnapshot c t (d ∷ ds) s i =
    ingest_all-IsSnapshot c t ds (ingest c t d s) (ingest-IsSnapshot c t d s i)

-- Whatever messages a snapshot is taken from, its registry records stand under their own agent ids and can be
-- aged, its presence records stand under theirs with a stamp, if any, that can be aged, and each payload
-- that it keeps is a JSON object.
pub snapshot-IsSnapshot :
    (c : Codec) (t : TopicMap) (ds : List Delivery) → IsSnapshot c (snapshot c t ds)
unfolding snapshot
snapshot-IsSnapshot c t ds = ingest_all-IsSnapshot c t ds empty_snapshot (empty-IsSnapshot c)
