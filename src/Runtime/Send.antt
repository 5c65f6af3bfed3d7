-- ===== src/Runtime/Send.antt =====
-- `send_message` of src/swarmbus/runtime.py, up to its publish, and `_transport_unavailable`. A parent's origin is what
-- json reads in its envelope; `zero` says which float literals are falsy.
pub mod Chain
use swarmbus.Base.{
  ℕ, suc, ◌+◌, ◌≤◌, ◌<◌, ◌≡◌, refl, sym, subst, ap, ◌∙◌, Bool, true, false, not, List, [], ◌∷◌,
  Text, text_eq, codes, Option, none, some, if◌then◌else◌, arith,
}
use swarmbus.Base.Int.{ℤ, pos}
use swarmbus.Base.Result.{
  Result, ok, err, Error, runtime_error, value_error, ◌>>=◌, ◌>>◌, raise_if, raise_if-eq-ok,
  bind_cases, ok-injective,
}
use swarmbus.Message.Json.{
  Json, null, bool, int, real, str, arr, obj, DateTime, Codec, get, field, end,
}
use swarmbus.Message.Envelope.{
  AgentMessage, create, validate_fields, want_id, want_agent, want_ts, want_hops, want_version,
  want_text, want_optional, either, optional, is_valid, or_raise, current_version,
}
use swarmbus.Topics.{default_topics, route}
use swarmbus.Archive.Reports.{Found, lookup_message}
use swarmbus.Bus.Agents.{truthy}
use swarmbus.Runtime.State.{
  Runtime, RuntimeState, store_degraded, stopped, connecting, connected, fatal,
}

pub record SendArgs : Type 0 where
  pub to : Text
  pub subject : Text
  pub body : Text
  pub content_type : Text
  pub in_reply_to : Option Text

-- A publish with quality of service 1, not retained.
pub record Publish : Type 0 where
  pub topic : Text
  pub msg : AgentMessage

-- The classes of what `_transport_unavailable` makes.
pub data Unavailable : Type 0 where
  runtime_fatal store_unavailable transport_unavailable : Unavailable

abbrev is_degraded : RuntimeState → Bool
is_degraded store_degraded = true
is_degraded stopped = false
is_degraded connecting = false
is_degraded connected = false
is_degraded fatal = false

abbrev store_trouble : Bool → Option Error → Unavailable
store_trouble true (some e) = store_unavailable
store_trouble true none = transport_unavailable
store_trouble false o = transport_unavailable

abbrev unavailability : Option Error → RuntimeState → Option Error → Unavailable
unavailability (some e) s o = runtime_fatal
unavailability none s o = store_trouble (is_degraded s) o

unfoldable pub unavailable : Runtime → Unavailable
unavailable r = unavailability r.last_fatal_error r.state r.last_store_error

-- `in_reply_to or None`
abbrev pub replied : Option Text → Option Text
replied none = none
replied (some []) = none
replied (some (c ∷ s)) = some (c ∷ s)

module _ (zero : Text → Bool) (c : Codec) where
  -- `parent["origin"] or parent["from"]`, which must be a text.
  abbrev pub reply_origin : Found → Result Text
  reply_origin p = if truthy zero p.origin then want_origin p.origin else ok p.from_agent
    where
      want_origin : Json → Result Text
      want_origin (str s) = ok s
      want_origin j = err value_error

  -- The hops and the origin of an answer.
  abbrev pub chain_after : Option Found → Result (ℕ × Option Text)
  chain_after none = ok (1, none)
  chain_after (some p) = do origin ← reply_origin p; ok (p.hops + 1, some origin)

  abbrev pub chain_of : Runtime → Option Text → Result (ℕ × Option Text)
  chain_of r none = ok (0, none)
  chain_of r (some id) = do parent ← lookup_message c id r.mailbox.store_.db; chain_after parent

  unfoldable pub send_message : Text → DateTime → Runtime → SendArgs → Result Publish
  send_message fresh now r a = do
    raise_if (not r.has_client) runtime_error
    (hops, origin) ← chain_of r (replied a.in_reply_to)
    m ←
        create c fresh now r.agent_id a.to a.subject a.body a.content_type (codes "normal") none
          (replied a.in_reply_to) (pos hops) origin
    ok (record { topic = route default_topics a.to; msg = m })

read_optional : (o x : Option Text) → want_optional (some (optional o)) ≡ ok x → o ≡ x
unfolding want_optional
read_optional none x h = ok-injective h
read_optional (some t) x h = ok-injective h

-- What `create` writes as the origin.
abbrev origin_json : Text → Option Text → Json
origin_json from_agent none = str from_agent
origin_json from_agent (some o) = str o

abbrev pub origin_text : Text → Option Text → Text
origin_text from_agent none = from_agent
origin_text from_agent (some o) = o

read_origin :
    (from_agent : Text) (o x : Option Text)
    → want_optional (some (origin_json from_agent o)) ≡ ok x
    → some (origin_text from_agent o) ≡ x
unfolding want_optional
read_origin from_agent none x h = ok-injective h
read_origin from_agent (some t) x h = ok-injective h

-- What `create` keeps of the chain.
pub create_chain :
    (c : Codec) (fresh : Text) (now : DateTime)
    (from_agent to subject body content_type priority : Text) (reply_to in_reply_to : Option Text)
    (hops : ℕ) (origin : Option Text) {m : AgentMessage}
    → create c fresh now from_agent to subject body content_type priority reply_to in_reply_to
        (pos hops)
        origin
      ≡ ok m
    → (m.hops ≡ hops)
      × (m.in_reply_to ≡ in_reply_to)
      × (m.origin ≡ some (origin_text from_agent origin))
unfolding create validate_fields want_text want_optional want_hops or_raise get text_eq
create_chain c fresh now from_agent to subject body content_type priority reply_to in_reply_to hops
      origin {m} h =
    bind_cases (want_agent (some (str from_agent))) _ h λ sender _ h.
      bind_cases (want_agent (some (str to))) _ h λ receiver _ h.
        bind_cases (want_optional (some (optional reply_to))) _ h λ answered _ h.
          bind_cases (want_optional (some (optional in_reply_to))) _ h λ replied e1 h.
            bind_cases (want_optional (some (origin_json from_agent origin))) _ h λ written e2 h.
              bind_cases (want_version c (some (int (pos current_version)))) _ h λ version _ h.
                let (_, same) =
                  raise_if-eq-ok
                    (not (is_valid c (written_as sender receiver answered replied written version)))
                    value_error _ h in
                (
                  ap (λ (x : AgentMessage). x.hops) (sym (ok-injective same)),
                  ap (λ (x : AgentMessage). x.in_reply_to) (sym (ok-injective same))
                      ∙ sym (read_optional in_reply_to replied e1),
                  ap (λ (x : AgentMessage). x.origin) (sym (ok-injective same))
                      ∙ sym (read_origin from_agent origin written e2),
                )
  where
    written_as : Text → Text → Option Text → Option Text → Option Text → ℤ → AgentMessage
    written_as sender receiver answered replied written version = record {
      id = fresh;
      from_agent = sender;
      to = receiver;
      ts = now;
      subject = subject;
      body = body;
      content_type = content_type;
      priority = priority;
      reply_to = answered;
      in_reply_to = replied;
      hops = hops;
      origin = written;
      envelope_version = version;
    }
