-- ===== src/Message/Envelope.antt =====
-- `AgentMessage` of src/swarmbus/message.py: the record, `to_json` and `from_json`.
pub mod Valid
pub mod RoundTrip
use swarmbus.Base.{
  ℕ, zero, suc, ◌+◌, ◌-◌, ◌*◌, ◌≤◌, ◌≡◌, refl, Bool, true, false, ◌&&◌, ◌||◌, not, Option, none,
  some, List, [], ◌∷◌, Text, codes, text_eq, ltb, leb, if◌then◌else◌, length, every, any, arith,
  tests, ◌==◌,
}
use swarmbus.Base.Int.{ℤ, pos, negsuc}
use swarmbus.Base.Result.{
  Result, ok, err, Error, value_error, type_error, ◌>>=◌, ◌>>◌, raise_if, raise_if-eq-ok,
}
use swarmbus.Message.Unicode.{category, Category, surrogate, is_unsafe, is_space}
use swarmbus.Message.AgentId.{validate_agent_id}
use swarmbus.Message.Json.{
  Json, null, bool, int, real, str, arr, obj, Fields, end, field, DateTime, Codec, get,
}

abbrev pub max_body_bytes : ℕ
max_body_bytes = 64 * 1024

abbrev pub current_version : ℕ
current_version = 2

pub record AgentMessage : Type 0 where
  pub id : Text
  pub from_agent : Text
  pub to : Text
  pub ts : DateTime
  pub subject : Text
  pub body : Text
  pub content_type : Text
  pub priority : Text
  pub reply_to : Option Text
  pub in_reply_to : Option Text
  pub hops : ℕ
  pub origin : Option Text
  pub envelope_version : ℤ

abbrev pub optional : Option Text → Json
optional none = null
optional (some s) = str s

-- `model_dump(by_alias=True)` with `ts` replaced by its ISO text.
unfoldable pub dump : Codec → AgentMessage → Fields
dump c m = field (codes "id") (str m.id) (
    field (codes "from") (str m.from_agent) (
      field (codes "to") (str m.to) (
        field (codes "ts") (str (c.isoformat m.ts)) (
          field (codes "subject") (str m.subject) (
            field (codes "body") (str m.body) (
              field (codes "content_type") (str m.content_type) (
                field (codes "priority") (str m.priority) (
                  field (codes "reply_to") (optional m.reply_to) (
                    field (codes "in_reply_to") (optional m.in_reply_to) (
                      field (codes "hops") (int (pos m.hops)) (
                        field (codes "origin") (optional m.origin)
                          (field (codes "envelope_version") (int m.envelope_version) end))))))))))))

unfoldable pub to_json : Codec → AgentMessage → Text
unfolding dump
to_json c m = c.dumps (obj (dump c m))

-- `len(v.encode("utf-8"))`; a surrogate cannot be encoded.
abbrev code_size : ℕ → ℕ
code_size c = if ltb c 0x80 then 1 else if ltb c 0x800 then 2 else if ltb c 0x10000 then 3 else 4

abbrev is_surrogate : ℕ → Bool
is_surrogate c = leb 0xd800 c && leb c 0xdfff

unfoldable pub utf8_size : Text → Option ℕ
utf8_size [] = some 0
utf8_size (c ∷ s) =
    let rest = utf8_size s in
    if is_surrogate c then none else (elim rest [ none ↦ none | some n ↦ some (code_size c + n) ])

-- A field of type `str`, required or with a default, and its length limit.
unfoldable pub want_text : Option Json → Option Text → Result Text
want_text none none = err value_error
want_text none (some d) = ok d
want_text (some (str s)) d = ok s
want_text (some null) d = err value_error
want_text (some (bool b)) d = err value_error
want_text (some (int z)) d = err value_error
want_text (some (real r)) d = err value_error
want_text (some (arr xs)) d = err value_error
want_text (some (obj fs)) d = err value_error

unfoldable pub want_optional : Option Json → Result (Option Text)
want_optional none = ok none
want_optional (some null) = ok none
want_optional (some (str s)) = ok (some s)
want_optional (some (bool b)) = err value_error
want_optional (some (int z)) = err value_error
want_optional (some (real r)) = err value_error
want_optional (some (arr xs)) = err value_error
want_optional (some (obj fs)) = err value_error

-- `validate_from` and `validate_to` run on the raw value: the pattern refuses what is no text by a
-- TypeError.
unfoldable pub want_agent : Option Json → Result Text
want_agent none = err value_error
want_agent (some (str s)) = validate_agent_id s
want_agent (some null) = err type_error
want_agent (some (bool b)) = err type_error
want_agent (some (int z)) = err type_error
want_agent (some (real r)) = err type_error
want_agent (some (arr xs)) = err type_error
want_agent (some (obj fs)) = err type_error

-- `hops` is strict and not negative.
unfoldable pub want_hops : Option Json → Result ℕ
want_hops none = ok 0
want_hops (some (int (pos n))) = ok n
want_hops (some (int (negsuc n))) = err value_error
want_hops (some null) = err value_error
want_hops (some (bool b)) = err value_error
want_hops (some (real r)) = err value_error
want_hops (some (str s)) = err value_error
want_hops (some (arr xs)) = err value_error
want_hops (some (obj fs)) = err value_error

unfoldable pub or_raise {ℓ} : {A : Type ℓ} → Option A → Result A
or_raise none = err value_error
or_raise (some a) = ok a

-- The tests of `validate_id`, `validate_subject`, `validate_metadata_text` and `validate_body_size`,
-- with the length limits of the fields.
unfoldable pub valid_id : Codec → Text → Bool
valid_id c v =
    leb (length v) 128
    && (leb 1 (length v) && every (λ ch. not (is_space ch) && c.is_printable ch) v)

unfoldable pub valid_subject : Text → Bool
valid_subject v = leb (length v) 1024 && every (λ ch. not (ch == 0 || is_surrogate ch)) v

unfoldable pub valid_metadata : ℕ → Text → Bool
valid_metadata limit v = leb (length v) limit && every (λ ch. not (is_unsafe ch)) v

unfoldable pub valid_optional : Option Text → Bool
valid_optional none = true
valid_optional (some v) = valid_metadata 128 v

unfoldable pub valid_body : Text → Bool
valid_body v = elim (utf8_size v) [ none ↦ false | some n ↦ leb n max_body_bytes ]

-- The checks that pydantic runs once the fields have their types.
unfoldable pub is_valid : Codec → AgentMessage → Bool
is_valid c m =
    valid_id c m.id
    && (valid_subject m.subject
        && (valid_body m.body
            && (valid_metadata 64 m.content_type
                && (valid_metadata 64 m.priority
                    && (valid_optional m.reply_to
                        && (valid_optional m.in_reply_to && valid_optional m.origin))))))

abbrev pub want_id : Option Json → Text → Result Text
want_id j fresh = want_text j (some fresh)

abbrev pub want_ts : Codec → Option Json → DateTime → Result DateTime
want_ts c none now = ok now
want_ts c (some j) now = or_raise (c.parse_datetime j)

abbrev pub want_version : Codec → Option Json → Result ℤ
want_version c none = ok (pos 1)
want_version c (some j) = or_raise (c.coerce_int j)

abbrev pub either : Option Json → Option Json → Option Json
either none b = b
either (some a) b = some a

-- `model_validate` of a dict: the first failure in the order of the fields is the one reported, where
-- pydantic lists all. `fresh` and `now` are what the default factories of `id` and `ts`
-- would give. `from_agent` is read under its alias first.
unfoldable pub validate_fields : Codec → Text → DateTime → Fields → Result AgentMessage
validate_fields c fresh now fs = do
  id ← want_id (get (codes "id") fs) fresh
  from_agent ← want_agent (either (get (codes "from") fs) (get (codes "from_agent") fs))
  to ← want_agent (get (codes "to") fs)
  ts ← want_ts c (get (codes "ts") fs) now
  subject ← want_text (get (codes "subject") fs) none
  body ← want_text (get (codes "body") fs) none
  content_type ← want_text (get (codes "content_type") fs) (some (codes "text/plain"))
  priority ← want_text (get (codes "priority") fs) (some (codes "normal"))
  reply_to ← want_optional (get (codes "reply_to") fs)
  in_reply_to ← want_optional (get (codes "in_reply_to") fs)
  hops ← want_hops (get (codes "hops") fs)
  origin ← want_optional (get (codes "origin") fs)
  envelope_version ← want_version c (get (codes "envelope_version") fs)
  let m : AgentMessage = record {
    id = id;
    from_agent = from_agent;
    to = to;
    ts = ts;
    subject = subject;
    body = body;
    content_type = content_type;
    priority = priority;
    reply_to = reply_to;
    in_reply_to = in_reply_to;
    hops = hops;
    origin = origin;
    envelope_version = envelope_version;
  }
  raise_if (not (is_valid c m)) value_error
  ok m

-- `model_validate` of what `json.loads` gave: only an object is taken.
unfoldable pub validate_loaded : Codec → Text → DateTime → Option Json → Result AgentMessage
validate_loaded c fresh now (some (obj fs)) = validate_fields c fresh now fs
validate_loaded c fresh now _ = err value_error

-- `AgentMessage.from_json`
unfoldable pub from_json : Codec → Text → DateTime → Text → Result AgentMessage
unfolding validate_loaded validate_fields want_text want_optional want_agent want_hops or_raise
    valid_id valid_subject valid_metadata valid_optional valid_body is_valid get utf8_size
from_json c fresh now raw = validate_loaded c fresh now (c.loads raw)

-- `AgentMessage.create`: the sender is the origin unless one is given.
unfoldable pub create :
    Codec
    → Text
    → DateTime
    → (from_agent to subject body content_type priority : Text) (reply_to in_reply_to : Option Text)
      (hops : ℤ) (origin : Option Text)
    → Result AgentMessage
unfolding validate_fields want_text want_optional want_agent want_hops or_raise valid_id
    valid_subject valid_metadata valid_optional valid_body is_valid get utf8_size
create c fresh now from_agent to subject body content_type priority reply_to in_reply_to hops
      origin =
    validate_fields c fresh now (
      field (codes "from") (str from_agent) (
        field (codes "to") (str to) (
          field (codes "subject") (str subject) (
            field (codes "body") (str body) (
              field (codes "content_type") (str content_type) (
                field (codes "priority") (str priority) (
                  field (codes "reply_to") (optional reply_to) (
                    field (codes "in_reply_to") (optional in_reply_to) (
                      field (codes "hops") (int hops) (
                        field (codes "origin")
                          (elim origin [ none ↦ str from_agent | some o ↦ str o ])
                          (field (codes "envelope_version") (int (pos current_version))
                            end)))))))))))
