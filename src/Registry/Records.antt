-- ===== src/Registry/Records.antt =====
-- `_normalize_string_list` and `RegistryRecord` of src/swarmbus/registry.py. The reading of
-- `schema_version` keeps no field, as its value is 1.
use swarmbus.Base.{
  ℕ, Bool, true, false, not, List, [], ◌∷◌, ◌++◌, Text, codes, text_eq, Option, none, some,
  if◌then◌else◌, length, ltb, any, strip,
}
use swarmbus.Base.Result.{Result, ok, err, value_error, ◌>>=◌, ◌>>◌, raise_if}
use swarmbus.Message.Unicode.{is_space}
use swarmbus.Message.Sanitize.{sanitize_field}
use swarmbus.Message.AgentId.{validate_agent_id}
use swarmbus.Message.Json.{
  Json, null, bool, int, real, str, arr, obj, Items, nil, cons, DateTime, Codec, get,
}
use swarmbus.Message.Envelope.{want_text, or_raise}
use swarmbus.Topics.{TopicMap, registry_agent}

abbrev pub max_status_length : ℕ
max_status_length = 280

abbrev pub max_capability_length : ℕ
max_capability_length = 128

pub data Lifecycle : Type 0 where
  named transient : Lifecycle

pub data Durability : Type 0 where
  durable ephemeral unknown : Durability

pub record RegistryRecord : Type 0 where
  pub agent_id : Text
  pub status : Text
  pub working_set : List Text
  pub capabilities : List Text
  pub lifecycle : Lifecycle
  pub durability : Durability
  pub started_at : DateTime
  pub last_seen : DateTime

-- `len(item) > max_item_length`, with no limit for None.
abbrev pub too_long : Option ℕ → Text → Bool
too_long none item = false
too_long (some n) item = ltb n (length item)

abbrev pub push_new : Text → List Text → List Text
push_new item seen = if any (text_eq item) seen then seen else seen ++ item ∷ []

abbrev pub clean_item : Text → Text
clean_item s = strip is_space (sanitize_field (some s))

-- The loop: `seen` and `normalized` hold the same texts.
unfoldable pub normalize_items : Option ℕ → Items → List Text → Result (List Text)
normalize_items limit nil normalized = ok normalized
normalize_items limit (cons (str s) xs) normalized = do
  raise_if (text_eq (clean_item s) []) value_error
  raise_if (too_long limit (clean_item s)) value_error
  normalize_items limit xs (push_new (clean_item s) normalized)
normalize_items limit (cons null xs) normalized = err value_error
normalize_items limit (cons (bool b) xs) normalized = err value_error
normalize_items limit (cons (int z) xs) normalized = err value_error
normalize_items limit (cons (real r) xs) normalized = err value_error
normalize_items limit (cons (arr ys) xs) normalized = err value_error
normalize_items limit (cons (obj fs) xs) normalized = err value_error

unfoldable pub normalize_string_list : Option ℕ → Json → Result (List Text)
normalize_string_list limit (arr xs) = normalize_items limit xs []
normalize_string_list limit _ = err value_error

-- The tests of `tzinfo` and `utcoffset()`.
unfoldable pub is_aware : DateTime → Bool
is_aware d = elim d.utcoffset [ none ↦ false | some z ↦ true ]

abbrev pub want_schema : Codec → Option Json → Result (Unit {0})
want_schema c none = ok tt
want_schema c (some j) = raise_if (not (c.is_literal_one j)) value_error

unfoldable pub want_agent_id : Option Json → Result Text
want_agent_id j = do s ← want_text j none; validate_agent_id s

unfoldable pub want_status : Option Json → Result Text
want_status none = ok []
want_status (some (str s)) = do
  raise_if (ltb max_status_length (length (sanitize_field (some s)))) value_error
  ok (sanitize_field (some s))
want_status (some _) = err value_error

abbrev pub want_list : Option ℕ → Option Json → Result (List Text)
want_list limit none = ok []
want_list limit (some j) = normalize_string_list limit j

unfoldable pub want_lifecycle : Option Json → Result Lifecycle
want_lifecycle none = ok named
want_lifecycle (some (str s)) =
    if text_eq s (codes "named")
    then ok named
    else if text_eq s (codes "transient")
    then ok transient
    else err value_error
want_lifecycle (some _) = err value_error

unfoldable pub want_durability : Option Json → Result Durability
want_durability none = ok unknown
want_durability (some (str s)) =
    if text_eq s (codes "durable")
    then ok durable
    else if text_eq s (codes "ephemeral")
    then ok ephemeral
    else if text_eq s (codes "unknown")
    then ok unknown
    else err value_error
want_durability (some _) = err value_error

unfoldable pub want_aware : Codec → Option Json → Result DateTime
want_aware c none = err value_error
want_aware c (some j) = do
  d ← or_raise (c.parse_datetime j)
  raise_if (not (is_aware d)) value_error
  ok d

unfoldable pub validate_registry : Codec → Option Json → Result RegistryRecord
validate_registry c (some (obj fs)) = do
  want_schema c (get (codes "schema_version") fs)
  agent_id ← want_agent_id (get (codes "agent_id") fs)
  status ← want_status (get (codes "status") fs)
  working_set ← want_list none (get (codes "working_set") fs)
  capabilities ← want_list (some max_capability_length) (get (codes "capabilities") fs)
  lifecycle ← want_lifecycle (get (codes "lifecycle") fs)
  durability ← want_durability (get (codes "durability") fs)
  started_at ← want_aware c (get (codes "started_at") fs)
  last_seen ← want_aware c (get (codes "last_seen") fs)
  ok (record {
    agent_id = agent_id;
    status = status;
    working_set = working_set;
    capabilities = capabilities;
    lifecycle = lifecycle;
    durability = durability;
    started_at = started_at;
    last_seen = last_seen;
  })
validate_registry c _ = err value_error

-- `RegistryRecord.from_mqtt`
unfoldable pub registry_from_mqtt : Codec → TopicMap → Text → Text → Result RegistryRecord
registry_from_mqtt c topics topic payload = do
  topic_agent ← registry_agent topics topic
  r ← validate_registry c (c.parse_json payload)
  raise_if (not (text_eq r.agent_id topic_agent)) value_error
  ok r
