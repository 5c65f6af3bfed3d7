-- ===== src/Registry/Cache.antt =====
-- `RegistryCache` of src/swarmbus/registry.py. A dict is a list of entries in the order of insertion, a
-- key once. Where no `now` is given the clock's reading is an argument; a listing, which reads the clock for
-- each agent, takes one reading for all.
use swarmbus.Base.{
  text_le, Bool, true, false, not, ◌&&◌, ◌||◌, List, [], ◌∷◌, ◌++◌, Text, text_eq, Option, none,
  some, if◌then◌else◌, any, map,
}
use swarmbus.Base.Int.{ℤ, pos, leb_ℤ}
use swarmbus.Base.Result.{Result, ok, value_error, key_error, ◌>>=◌, ◌>>◌, raise_if}
use swarmbus.Message.Json.{DateTime, Codec}
use swarmbus.Topics.{TopicMap, registry_agent, presence_agent}
use swarmbus.Registry.Records.{
  RegistryRecord, registry_from_mqtt, Lifecycle, named, transient, Durability,
}
use swarmbus.Registry.Presence.{PresenceRecord, online, offline, presence_from_mqtt}
use swarmbus.Registry.Decide.{Evidence, seen_online, seen_offline, unconfirmed, presence_evidence}

module _ {ℓ} {A : Type ℓ} where
  -- `d.get(key)`
  unfoldable pub lookup : Text → List (Text × A) → Option A
  lookup k [] = none
  lookup k ((j, a) ∷ d) = if text_eq j k then some a else lookup k d

  -- `d[key] = a`
  unfoldable pub set_entry : Text → A → List (Text × A) → List (Text × A)
  set_entry k a [] = (k, a) ∷ []
  set_entry k a ((j, b) ∷ d) =
      let rest = set_entry k a d in if text_eq j k then (j, a) ∷ d else (j, b) ∷ rest

  -- `d.pop(key, None)`
  unfoldable pub remove_entry : Text → List (Text × A) → List (Text × A)
  remove_entry k [] = []
  remove_entry k ((j, b) ∷ d) =
      let rest = remove_entry k d in if text_eq j k then d else (j, b) ∷ rest

  abbrev pub keys : List (Text × A) → List Text
  keys = map (λ (e : Text × A). e.0)

pub record RegistryCache : Type 0 where
  pub stale_after : ℤ
  pub topics : TopicMap
  pub registry : List (Text × RegistryRecord)
  pub presence : List (Text × PresenceRecord)

unfoldable pub make_cache : ℤ → TopicMap → Result RegistryCache
make_cache stale_after topics = do
  raise_if (leb_ℤ stale_after (pos 0)) value_error
  ok (record { stale_after = stale_after; topics = topics; registry = []; presence = [] })

unfoldable pub clear : RegistryCache → RegistryCache
clear s = record s { registry = []; presence = [] }

unfoldable pub update_registry : Codec → Text → Text → RegistryCache → Result RegistryCache
update_registry c topic payload s = do
  r ← registry_from_mqtt c s.topics topic payload
  ok (record s { registry = set_entry r.agent_id r s.registry })

unfoldable pub update_presence : Codec → Text → Text → RegistryCache → Result RegistryCache
update_presence c topic payload s = do
  p ← presence_from_mqtt c s.topics topic payload
  ok (record s { presence = set_entry p.agent_id p s.presence })

unfoldable pub remove_registry : Text → RegistryCache → Result RegistryCache
remove_registry topic s = do
  agent ← registry_agent s.topics topic
  ok (record s { registry = remove_entry agent s.registry })

unfoldable pub remove_presence : Text → RegistryCache → Result RegistryCache
remove_presence topic s = do
  agent ← presence_agent s.topics topic
  ok (record s { presence = remove_entry agent s.presence })

unfoldable pub cache_evidence : Text → DateTime → RegistryCache → Result Evidence
cache_evidence agent_id now s =
    presence_evidence (lookup agent_id s.registry) (lookup agent_id s.presence) now s.stale_after

abbrev pub is_seen_online : Evidence → Bool
is_seen_online seen_online = true
is_seen_online seen_offline = false
is_seen_online unconfirmed = false

unfoldable pub is_online : Text → DateTime → RegistryCache → Result Bool
is_online agent_id now s = do evidence ← cache_evidence agent_id now s; ok (is_seen_online evidence)

-- `sorted(set(…))`
unfoldable pub insert_text : Text → List Text → List Text
insert_text s [] = s ∷ []
insert_text s (t ∷ ts) =
    let rest = insert_text s ts in
    if text_eq s t then t ∷ ts else if text_le s t then s ∷ t ∷ ts else t ∷ rest

unfoldable pub sorted_set : List Text → List Text
sorted_set [] = []
sorted_set (s ∷ ts) = insert_text s (sorted_set ts)

unfoldable pub agent_ids : RegistryCache → List Text
agent_ids s = sorted_set (keys s.presence ++ keys s.registry)

unfoldable pub filter_online : DateTime → RegistryCache → List Text → Result (List Text)
filter_online now s [] = ok []
filter_online now s (a ∷ rest) = do
  yes_ ← is_online a now s
  others ← filter_online now s rest
  ok (if yes_ then a ∷ others else others)

unfoldable pub online_agent_ids : DateTime → RegistryCache → Result (List Text)
online_agent_ids now s = filter_online now s (agent_ids s)

-- The dict that `get_state` returns; None stands for the value "unknown" of an agent with no record.
pub record AgentState : Type 0 where
  pub agent_id : Text
  pub online_now : Bool
  pub evidence : Evidence
  pub untrusted : Bool
  pub status : Text
  pub working_set : List Text
  pub capabilities : List Text
  pub lifecycle : Option Lifecycle
  pub durability : Option Durability
  pub started_at : Option DateTime
  pub last_seen : Option DateTime
  pub offline_reason : Option Text

abbrev pub has_entry {ℓ} : {A : Type ℓ} → Text → List (Text × A) → Bool
has_entry k d = any (λ j. text_eq j k) (keys d)

abbrev nonempty : Option Text → Option Text
nonempty none = none
nonempty (some []) = none
nonempty (some (c ∷ s)) = some (c ∷ s)

-- `if presence and presence.state == "offline" and presence.reason`
abbrev reason_of : Option PresenceRecord → Option Text
reason_of none = none
reason_of (some p) = elim p.state [ online ↦ none | offline ↦ nonempty p.reason ]

abbrev pub state_of : Text → Evidence → Option RegistryRecord → Option PresenceRecord → AgentState
state_of agent_id evidence none p = record {
  agent_id = agent_id;
  online_now = is_seen_online evidence;
  evidence = evidence;
  untrusted = true;
  status = [];
  working_set = [];
  capabilities = [];
  lifecycle = none;
  durability = none;
  started_at = none;
  last_seen = none;
  offline_reason = reason_of p;
}
state_of agent_id evidence (some r) p = record {
  agent_id = agent_id;
  online_now = is_seen_online evidence;
  evidence = evidence;
  untrusted = true;
  status = r.status;
  working_set = r.working_set;
  capabilities = r.capabilities;
  lifecycle = some r.lifecycle;
  durability = some r.durability;
  started_at = some r.started_at;
  last_seen = some r.last_seen;
  offline_reason = reason_of p;
}

unfoldable pub get_state : Text → DateTime → RegistryCache → Result AgentState
get_state agent_id now s = do
  raise_if (not (has_entry agent_id s.registry) && not (has_entry agent_id s.presence)) key_error
  evidence ← cache_evidence agent_id now s
  ok (state_of agent_id evidence (lookup agent_id s.registry) (lookup agent_id s.presence))

unfoldable pub get_states : DateTime → RegistryCache → List Text → Result (List AgentState)
get_states now s [] = ok []
get_states now s (a ∷ rest) = do
  state ← get_state a now s
  others ← get_states now s rest
  ok (state ∷ others)

abbrev pub has_lifecycle : Option Lifecycle → Option Lifecycle → Bool
has_lifecycle none l = true
has_lifecycle (some named) (some named) = true
has_lifecycle (some transient) (some transient) = true
has_lifecycle _ _ = false

unfoldable pub filter_states : (AgentState → Bool) → List AgentState → List AgentState
filter_states p [] = []
filter_states p (x ∷ xs) = let rest = filter_states p xs in if p x then x ∷ rest else rest

unfoldable pub list_states :
    Bool → Option Lifecycle → DateTime → RegistryCache → Result (List AgentState)
list_states include_offline lifecycle now s = do
  states ← get_states now s (agent_ids s)
  ok (
      filter_states (λ st. include_offline || st.online_now)
        (filter_states (λ st. has_lifecycle lifecycle st.lifecycle) states))
