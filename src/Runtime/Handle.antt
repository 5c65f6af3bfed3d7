-- ===== src/Runtime/Handle.antt =====
-- `_handle_message` of src/swarmbus/runtime.py and the acknowledgement by `_ManualAckAdapter`.
pub mod Durable
use swarmbus.Base.{
  ℕ, Bool, true, false, not, List, [], ◌∷◌, Text, text_eq, Option, none, some, if◌then◌else◌, ◌==◌,
}
use swarmbus.Base.Result.{Result, ok, err, Error, ack_error, value_error, type_error}
use swarmbus.Message.Json.{DateTime, Codec}
use swarmbus.Message.Envelope.{AgentMessage, from_json}
use swarmbus.Topics.{default_topics, is_message_topic, is_registry_topic, is_presence_topic}
use swarmbus.Registry.Cache.{
  RegistryCache, update_registry, remove_registry, update_presence, remove_presence,
}
use swarmbus.Archive.Inbox.{Observed}
use swarmbus.Runtime.State.{Runtime, is_invalid, observe_sender_state}
use swarmbus.Runtime.Commit.{Attempt, store_inbox_message}

-- A message as MQTT delivers it: with its quality of service, the attempts to commit it, and whether Paho takes its
-- acknowledgement.
pub record Delivered : Type 0 where
  pub topic : Text
  pub payload : Text
  pub qos : ℕ
  pub fresh : Text
  pub now : DateTime
  pub attempts : List Attempt
  pub acknowledges : Bool

-- The runtime after a message; whether it was acknowledged; and what was raised.
pub record Handled : Type 0 where
  pub runtime : Runtime
  pub acked : Bool
  pub outcome : Result (Unit {0})

-- `_ManualAckAdapter.ack`
abbrev pub adapter_ack : Runtime → Delivered → Handled
adapter_ack r d =
    if d.qos == 0
    then record { runtime = r; acked = false; outcome = ok tt }
    else if d.acknowledges
    then record { runtime = r; acked = true; outcome = ok tt }
    else record { runtime = r; acked = false; outcome = err ack_error }

abbrev raised : Runtime → Error → Handled
raised r e = record { runtime = r; acked = false; outcome = err e }

-- `except (TypeError, ValueError, UnicodeDecodeError)`
abbrev is_bad_envelope : Error → Bool
is_bad_envelope value_error = true
is_bad_envelope type_error = true
is_bad_envelope _ = false

-- The directory after a record, or unchanged by one that is not valid.
abbrev on_directory : Runtime → Delivered → Result RegistryCache → Handled
on_directory r d (ok registry) = adapter_ack (record r { registry = registry }) d
on_directory r d (err e) = if is_invalid e then adapter_ack r d else raised r e

module _ (c : Codec) (sha256 : Text → Text) where
  abbrev pub on_stored : Delivered → Runtime × Result Bool → Handled
  on_stored d (r, ok inserted) = adapter_ack r d
  on_stored d (r, err e) = raised r e

  abbrev pub on_observed : Runtime → Delivered → AgentMessage → Result Observed → Handled
  on_observed r d m (err e) = raised r e
  on_observed r d m (ok o) = on_stored d (store_inbox_message c sha256 m d.topic o d.attempts r)

  abbrev pub on_parsed : Runtime → Delivered → Result AgentMessage → Handled
  on_parsed r d (err e) = if is_bad_envelope e then adapter_ack r d else raised r e
  on_parsed r d (ok m) = on_observed r d m (observe_sender_state m.from_agent d.now r.registry)

  unfoldable pub handle_message : Runtime → Delivered → Handled
  handle_message r d =
      if is_message_topic default_topics d.topic r.agent_id
      then on_parsed r d (from_json c d.fresh d.now d.payload)
      else if is_registry_topic default_topics d.topic
      then on_directory r d (
          if text_eq d.payload []
          then remove_registry d.topic r.registry
          else update_registry c d.topic d.payload r.registry)
      else if is_presence_topic default_topics d.topic
      then on_directory r d (
          if text_eq d.payload []
          then remove_presence d.topic r.registry
          else update_presence c d.topic d.payload r.registry)
      else adapter_ack r d
