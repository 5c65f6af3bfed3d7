-- ===== src/Message/Envelope/RoundTrip.antt =====
-- An envelope survives `to_json` and `from_json`.
use swarmbus.Base.{◌≡◌, refl, true, Text, Option, none, some}
use swarmbus.Base.Result.{ok}
use swarmbus.Message.AgentId.{validate_agent_id_ok, matches_agent_id}
use swarmbus.Message.Json.{obj, str, int, DateTime, Codec, get}
use swarmbus.Message.Envelope.{
  AgentMessage, validate_loaded, dump, to_json, validate_fields, from_json, want_agent,
  want_optional, optional, want_text, want_hops, or_raise,
}
use swarmbus.Message.Envelope.Valid.{IsChecked}

want_optional-optional : (o : Option Text) → want_optional (some (optional o)) ≡ ok o
unfolding want_optional
want_optional-optional none = refl
want_optional-optional (some s) = refl

want_agent-str : (s : Text) → matches_agent_id s ≡ true → want_agent (some (str s)) ≡ ok s
unfolding want_agent
want_agent-str s h = validate_agent_id_ok s h

validate_fields-dump :
    (c : Codec) (fresh : Text) (now : DateTime) (m : AgentMessage)
    → c.parse_datetime (str (c.isoformat m.ts)) ≡ some m.ts
    → c.coerce_int (int m.envelope_version) ≡ some m.envelope_version
    → IsChecked c m
    → validate_fields c fresh now (dump c m) ≡ ok m
unfolding validate_fields dump get want_text want_hops or_raise
validate_fields-dump c fresh now m ts version k = rw (
  want_agent-str m.from_agent k.sender,
  want_agent-str m.to k.receiver,
  ts,
  version,
  want_optional-optional m.reply_to,
  want_optional-optional m.in_reply_to,
  want_optional-optional m.origin,
  k.fields,
)

-- An envelope that passed the checks of `from_json` is read back whole from its own JSON text, if
-- json reads that text back, pydantic the timestamp from its ISO text, and the version as it is.
pub from_json-to_json :
    (c : Codec) (fresh : Text) (now : DateTime) (m : AgentMessage)
    → c.loads (to_json c m) ≡ some (obj (dump c m))
    → c.parse_datetime (str (c.isoformat m.ts)) ≡ some m.ts
    → c.coerce_int (int m.envelope_version) ≡ some m.envelope_version
    → IsChecked c m
    → from_json c fresh now (to_json c m) ≡ ok m
from_json-to_json c fresh now m text ts version k =
    unfold from_json validate_loaded in rw text (validate_fields-dump c fresh now m ts version k)
