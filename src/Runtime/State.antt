-- ===== src/Runtime/State.antt =====
-- The state of `ManagedMCPRuntime` (src/swarmbus/runtime.py).
use swarmbus.Base.{ℕ, ◌*◌, min, Bool, true, false, List, [], Text, codes, Option, none, some}
use swarmbus.Base.Result.{
  Result, ok, err, Error, key_error, value_error, attribute_error, type_error, store_error,
  integrity_error,
}
use swarmbus.Message.Json.{DateTime}
use swarmbus.Registry.Records.{Lifecycle, named, transient}
use swarmbus.Registry.Cache.{RegistryCache, AgentState, get_state}
use swarmbus.Archive.Rows.{TripEvent}
use swarmbus.Archive.Inbox.{Mailbox, Observed}

-- `RuntimeState`
pub data RuntimeState : Type 0 where
  stopped connecting connected store_degraded fatal : RuntimeState

pub record Runtime : Type 0 where
  pub agent_id : Text
  pub persistent : Bool
  pub presence : Bool
  pub has_alerter : Bool
  pub state : RuntimeState
  pub has_client : Bool
  pub last_fatal_error : Option Error
  pub last_store_error : Option Error
  pub mailbox : Mailbox
  pub registry : RegistryCache
  pub alerts : List TripEvent
  pub sleeps : List ℕ

-- One second in microseconds, and `_STORE_RETRY_BACKOFF_MAX`.
abbrev pub one_second : ℕ
one_second = 1000000

abbrev pub max_backoff : ℕ
max_backoff = 60000000

-- `min(backoff * 2, _STORE_RETRY_BACKOFF_MAX)`
abbrev pub next_delay : ℕ → ℕ
next_delay delay = min (delay * 2) max_backoff

-- `except (OSError, sqlite3.Error)`
abbrev pub is_store_error : Error → Bool
is_store_error store_error = true
is_store_error integrity_error = true
is_store_error _ = false

-- What a reader of a received record raises and the runtime catches.
abbrev pub is_invalid : Error → Bool
is_invalid value_error = true
is_invalid type_error = true
is_invalid attribute_error = true
is_invalid _ = false

abbrev lifecycle_text : Option Lifecycle → Text
lifecycle_text none = codes "unknown"
lifecycle_text (some named) = codes "named"
lifecycle_text (some transient) = codes "transient"

abbrev pub observed_of : DateTime → Result AgentState → Result Observed
observed_of now (ok st) = ok (record {
  lifecycle = lifecycle_text st.lifecycle;
  online = some st.online_now;
  observed_at = some now;
  started_at = st.started_at;
  capabilities = st.capabilities;
})
observed_of now (err key_error) = ok (record {
  lifecycle = codes "unknown";
  online = none;
  observed_at = some now;
  started_at = none;
  capabilities = [];
})
observed_of now (err e) = err e

-- `_observe_sender_state`
unfoldable pub observe_sender_state : Text → DateTime → RegistryCache → Result Observed
observe_sender_state agent_id now registry = observed_of now (get_state agent_id now registry)
