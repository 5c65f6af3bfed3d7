-- ===== src/Maintenance/Forget.antt =====
-- `forget` of src/swarmbus/maintenance.py. A client that fails while a snapshot is taken raises MqttError.
pub mod Warrant
pub mod Outcome
use swarmbus.Base.{
  ℕ, Bool, true, false, not, ◌&&◌, List, [], ◌∷◌, Text, Option, none, some, if◌then◌else◌, ◌==◌,
}
use swarmbus.Base.Int.{ℤ, pos, leb_ℤ}
use swarmbus.Base.Result.{Result, ok, err, value_error, mqtt_error, ◌>>=◌, ◌>>◌, raise_if}
use swarmbus.Message.Json.{DateTime, Codec}
use swarmbus.Message.AgentId.{validate_registered_agent_id}
use swarmbus.Topics.{TopicMap}
use swarmbus.Registry.Records.{RegistryRecord, Lifecycle, is_aware}
use swarmbus.Registry.Presence.{PresenceRecord}
use swarmbus.Registry.Decide.{Evidence, seen_online, seen_offline, unconfirmed, presence_evidence}
use swarmbus.Registry.Cache.{lookup}
use swarmbus.Maintenance.Snapshot.{Delivery, Snapshot, snapshot, or_lost}
use swarmbus.Maintenance.Gc.{Turn, Tombstone, publish_tombstones, is_offline}

pub data Refusal : Type 0 where
  refused_online unconfirmed_offline : Refusal

-- No lifecycle stands for "unknown".
pub record ForgetReport : Type 0 where
  pub agent_id : Text
  pub dry_run : Bool
  pub lifecycle : Option Lifecycle
  pub online : Option Bool
  pub evidence : Evidence
  pub rechecked : Bool
  pub refused : Option Refusal
  pub already_absent : Bool
  pub deleted : Bool
  pub session_destroyed : Bool
  pub failed : Bool
  pub partial : Bool

-- `_observed_online`
abbrev pub observed_online : Evidence → Option Bool
observed_online seen_online = some true
observed_online seen_offline = some false
observed_online unconfirmed = none

abbrev pub refusal : Evidence → Refusal
refusal seen_online = refused_online
refusal seen_offline = unconfirmed_offline
refusal unconfirmed = unconfirmed_offline

abbrev lifecycle_of : Option RegistryRecord → Option Lifecycle
lifecycle_of none = none
lifecycle_of (some r) = some r.lifecycle

abbrev is_missing {ℓ} : {A : Type ℓ} → Option A → Bool
is_missing none = true
is_missing (some a) = false

abbrev pub is_absent : Text → Snapshot → Bool
is_absent id s =
    is_missing (lookup id s.records) && is_missing (lookup id s.presence) && s.invalid_messages == 0

-- The settings of a call.
pub record Forgetting : Type 0 where
  pub agent_id : Text
  pub dry_run : Bool
  pub force_online : Bool
  pub stale_after : ℤ

abbrev pub report_of : Forgetting → Option RegistryRecord → Evidence → Bool → Bool → ForgetReport
report_of f r e rechecked absent = record {
  agent_id = f.agent_id;
  dry_run = f.dry_run;
  lifecycle = lifecycle_of r;
  online = observed_online e;
  evidence = e;
  rechecked = rechecked;
  refused = none;
  already_absent = absent;
  deleted = false;
  session_destroyed = false;
  failed = false;
  partial = false;
}

abbrev pub refuse : ForgetReport → Refusal → ForgetReport
refuse report r = record report { refused = some r }

module _ (c : Codec) (t : TopicMap) (now : DateTime) where
  abbrev pub record_outcome : ForgetReport → Option Bool → ForgetReport
  record_outcome report none = record report { session_destroyed = true; deleted = true }
  record_outcome report (some presence_deleted) = record report {
    failed = true;
    partial = presence_deleted;
  }

  -- The audit and the deletion, on the agent's own session.
  unfoldable pub retire : Text → Turn → ForgetReport → ForgetReport × List Tombstone
  retire id turn report =
      if not turn.audits
      then (record report { failed = true }, [])
      else (let (sent, outcome) = publish_tombstones t id true turn in
          (record_outcome report outcome, sent))

  -- What follows the second read.
  unfoldable pub act :
      Forgetting → Bool → Bool → Evidence → Turn → ForgetReport → ForgetReport × List Tombstone
  act f initial_absent confirmed_absent e turn report =
      if confirmed_absent
      then (report, [])
      else if not f.force_online && initial_absent
      then (refuse report (refusal e), [])
      else if not f.force_online && not (is_offline e)
      then (refuse report (refusal e), [])
      else if f.dry_run
      then (report, [])
      else retire f.agent_id turn report

  unfoldable pub recheck : Forgetting → Bool → Turn → Result (ForgetReport × List Tombstone)
  recheck f initial_absent turn = do
    raise_if (not (turn.connects && turn.closes)) mqtt_error
    let fresh = snapshot c t turn.deliveries
    let r = lookup f.agent_id fresh.records
    e ← presence_evidence r (lookup f.agent_id fresh.presence) now f.stale_after
    let absent = initial_absent && is_absent f.agent_id fresh
    ok (act f initial_absent absent e turn (report_of f r e true absent))

  unfoldable pub forget :
      Forgetting → Option (List Delivery) → Turn → Result (ForgetReport × List Tombstone)
  forget f first turn = do
    _ ← validate_registered_agent_id f.agent_id
    raise_if (leb_ℤ f.stale_after (pos 0)) value_error
    raise_if (not (is_aware now)) value_error
    deliveries ← or_lost first
    let initial = snapshot c t deliveries
    let r = lookup f.agent_id initial.records
    e ← presence_evidence r (lookup f.agent_id initial.presence) now f.stale_after
    let initial_absent = is_absent f.agent_id initial
    if not f.force_online && not initial_absent && not (is_offline e)
        then ok (refuse (report_of f r e false false) (refusal e), [])
        else recheck f initial_absent turn
