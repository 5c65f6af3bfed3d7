-- ===== src/Registry/Presence.antt =====
-- `PresenceRecord` and `stamp_presence_payload` of src/swarmbus/registry.py.
use swarmbus.Base.{
  Bool, true, false, not, ◌&&◌, ◌||◌, Text, codes, text_eq, Option, none, some, if◌then◌else◌,
  has_text,
}
use swarmbus.Base.Int.{pos}
use swarmbus.Base.Result.{Result, ok, err, value_error, type_error, ◌>>=◌, ◌>>◌, raise_if}
use swarmbus.Message.Sanitize.{sanitize_field}
use swarmbus.Message.Json.{
  Json, null, bool, int, real, str, arr, obj, Items, nil, cons, Fields, end, field, DateTime, Codec,
  get,
}
use swarmbus.Message.Envelope.{or_raise}
use swarmbus.Topics.{TopicMap, presence_agent}
use swarmbus.Registry.Records.{want_schema, want_agent_id, is_aware}

pub data State : Type 0 where
  online offline : State

pub record PresenceRecord : Type 0 where
  pub agent_id : Text
  pub state : State
  pub connected_at : Option DateTime
  pub reason : Option Text
  pub first_seen_offline : Option DateTime

unfoldable pub want_state : Option Json → Result State
want_state (some (str s)) =
    if text_eq s (codes "online")
    then ok online
    else if text_eq s (codes "offline")
    then ok offline
    else err value_error
want_state _ = err value_error

unfoldable pub want_reason : Option Json → Result (Option Text)
want_reason none = ok none
want_reason (some null) = ok none
want_reason (some (str s)) = ok (some (sanitize_field (some s)))
want_reason (some _) = err value_error

unfoldable pub want_datetime : Codec → Option Json → Result (Option DateTime)
want_datetime c none = ok none
want_datetime c (some null) = ok none
want_datetime c (some j) = do d ← or_raise (c.parse_datetime j); ok (some d)

abbrev pub aware_if_set : Option DateTime → Bool
aware_if_set none = true
aware_if_set (some d) = is_aware d

unfoldable pub validate_presence : Codec → Json → Result PresenceRecord
validate_presence c (obj fs) = do
  want_schema c (get (codes "schema_version") fs)
  agent_id ← want_agent_id (get (codes "agent_id") fs)
  state ← want_state (get (codes "state") fs)
  connected_at ← want_datetime c (get (codes "connected_at") fs)
  reason ← want_reason (get (codes "reason") fs)
  first_seen_offline ← want_datetime c (get (codes "first_seen_offline") fs)
  raise_if (not (aware_if_set first_seen_offline)) value_error
  ok (record {
    agent_id = agent_id;
    state = state;
    connected_at = connected_at;
    reason = reason;
    first_seen_offline = first_seen_offline;
  })
validate_presence c _ = err value_error

-- `data.get(key)`, None where the key is missing.
abbrev pub or_null : Option Json → Json
or_null none = null
or_null (some j) = j

unfoldable pub has_key : Text → Fields → Bool
has_key k end = false
has_key k (field j v fs) = text_eq j k || has_key k fs

unfoldable pub has_item : Text → Items → Bool
has_item k nil = false
has_item k (cons (str s) xs) = text_eq s k || has_item k xs
has_item k (cons _ xs) = has_item k xs

-- The keys of an older payload under their present names.
unfoldable pub carried_over : Fields → Fields
carried_over fs = field (codes "schema_version") (int (pos 1)) (
    field (codes "agent_id") (or_null (get (codes "agent") fs)) (
      field (codes "state") (or_null (get (codes "status") fs)) (
        field (codes "connected_at") (or_null (get (codes "connected_at") fs)) (
          field (codes "reason") (or_null (get (codes "reason") fs)) (
            field (codes "first_seen_offline") (or_null (get (codes "first_seen_offline") fs))
              end)))))

-- `"agent_id" not in data and "agent" in data`, which a list or a text answers too.
unfoldable pub translate : Json → Result Json
translate (obj fs) = ok (
    obj (
      if not (has_key (codes "agent_id") fs) && has_key (codes "agent") fs
      then carried_over fs
      else fs))
translate (arr xs) =
    if not (has_item (codes "agent_id") xs) && has_item (codes "agent") xs
    then err type_error
    else ok (arr xs)
translate (str s) =
    if not (has_text (codes "agent_id") s) && has_text (codes "agent") s
    then err type_error
    else ok (str s)
translate null = err type_error
translate (bool b) = err type_error
translate (int z) = err type_error
translate (real r) = err type_error

-- `PresenceRecord.from_mqtt`
unfoldable pub presence_from_mqtt : Codec → TopicMap → Text → Text → Result PresenceRecord
presence_from_mqtt c topics topic payload = do
  topic_agent ← presence_agent topics topic
  loaded ← or_raise (c.loads payload)
  translated ← translate loaded
  r ← validate_presence c translated
  raise_if (not (text_eq r.agent_id topic_agent)) value_error
  ok r

-- `{**data, key: value}`: a key that is there keeps its place.
unfoldable pub set_field : Text → Json → Fields → Fields
set_field k v end = field k v end
set_field k v (field j w fs) =
    let rest = set_field k v fs in if text_eq j k then field j v fs else field j w rest

abbrev stamp_loaded : Codec → DateTime → Option Json → Result Text
stamp_loaded c at (some (obj fs)) =
    ok (c.dumps (obj (set_field (codes "first_seen_offline") (str (c.isoformat at)) fs)))
stamp_loaded c at _ = err value_error

unfoldable pub stamp_presence_payload : Codec → DateTime → Text → Result Text
stamp_presence_payload c at payload = do
  raise_if (not (is_aware at)) value_error
  stamp_loaded c at (c.loads payload)
