-- ===== src/Registry/Decide.antt =====
-- `orphan_presence_action`, `presence_evidence` and `transient_gc_decision` of
-- src/swarmbus/registry.py. Ages and thresholds are whole microseconds.
use swarmbus.Base.{
  Bool, true, false, not, ◌&&◌, ◌||◌, Text, text_eq, Option, none, some, if◌then◌else◌,
}
use swarmbus.Base.Int.{ℤ, pos, sub_ℕ, ltb_ℤ, leb_ℤ}
use swarmbus.Base.Result.{Result, ok, value_error, type_error, ◌>>=◌, ◌>>◌, raise_if}
use swarmbus.Message.Json.{DateTime}
use swarmbus.Registry.Records.{
  RegistryRecord, is_aware, Lifecycle, named, transient, Durability, unknown, durable, ephemeral,
}
use swarmbus.Registry.Presence.{PresenceRecord, online, offline}

-- `(now - then).total_seconds()`: a naive and an aware reading have no difference.
unfoldable pub elapsed : DateTime → DateTime → Result ℤ
elapsed now then_ = do
  raise_if (not (is_aware now) && is_aware then_ || is_aware now && not (is_aware then_)) type_error
  ok (sub_ℕ now.instant then_.instant)

pub data OrphanAction : Type 0 where
  orphan_online stamp wait collect : OrphanAction

abbrev age_orphan : DateTime → ℤ → Option DateTime → Result OrphanAction
age_orphan now retention none = ok stamp
age_orphan now retention (some first_seen) = do
  age ← elapsed now first_seen
  ok (if ltb_ℤ retention age then collect else wait)

unfoldable pub orphan_presence_action : PresenceRecord → DateTime → ℤ → Result OrphanAction
orphan_presence_action presence now retention = do
  raise_if (leb_ℤ retention (pos 0)) value_error
  raise_if (not (is_aware now)) value_error
  elim presence.state [
    | online ↦ ok orphan_online
    | offline ↦ age_orphan now retention presence.first_seen_offline
  ]

pub data Evidence : Type 0 where
  seen_online seen_offline unconfirmed : Evidence

abbrev pub weigh_online : Option RegistryRecord → DateTime → ℤ → Result Evidence
weigh_online none now stale_after = ok seen_online
weigh_online (some r) now stale_after = do
  age ← elapsed now r.last_seen
  ok (if ltb_ℤ age (pos 0) || leb_ℤ age stale_after then seen_online else unconfirmed)

abbrev pub weigh : Option RegistryRecord → Option PresenceRecord → DateTime → ℤ → Result Evidence
weigh r none now stale_after = ok unconfirmed
weigh r (some p) now stale_after = elim p.state [
  | offline ↦ ok seen_offline
  | online ↦ weigh_online r now stale_after
]

unfoldable pub presence_evidence :
    Option RegistryRecord → Option PresenceRecord → DateTime → ℤ → Result Evidence
presence_evidence r presence now stale_after = do
  raise_if (leb_ℤ stale_after (pos 0)) value_error
  raise_if (not (is_aware now)) value_error
  weigh r presence now stale_after

pub data GcReason : Type 0 where
  eligible_reason named_reason unknown_durability online_reason unconfirmed_reason within_retention
        clock_skew :
      GcReason

pub record GcDecision : Type 0 where
  pub agent_id : Text
  pub eligible : Bool
  pub reason : GcReason
  pub age : ℤ

abbrev pub is_unknown : Durability → Bool
is_unknown unknown = true
is_unknown durable = false
is_unknown ephemeral = false

abbrev pub is_named : Lifecycle → Bool
is_named named = true
is_named transient = false

abbrev pub is_foreign : RegistryRecord → Option PresenceRecord → Bool
is_foreign r none = false
is_foreign r (some p) = not (text_eq p.agent_id r.agent_id)

abbrev pub decision : RegistryRecord → ℤ → Bool → GcReason → GcDecision
decision r age eligible reason = record {
  agent_id = r.agent_id;
  eligible = eligible;
  reason = reason;
  age = age;
}

abbrev pub by_evidence : RegistryRecord → ℤ → ℤ → Evidence → GcDecision
by_evidence r age retention seen_online = decision r age false online_reason
by_evidence r age retention unconfirmed = decision r age false unconfirmed_reason
by_evidence r age retention seen_offline =
    if leb_ℤ age retention
    then decision r age false within_retention
    else decision r age true eligible_reason

unfoldable pub transient_gc_decision :
    RegistryRecord → Option PresenceRecord → DateTime → ℤ → ℤ → Result GcDecision
transient_gc_decision r presence now stale_after retention = do
  raise_if (leb_ℤ stale_after (pos 0)) value_error
  raise_if (leb_ℤ retention stale_after) value_error
  raise_if (is_foreign r presence) value_error
  raise_if (not (is_aware now)) value_error
  raise_if (not (is_aware r.last_seen)) value_error
  age ← elapsed now r.last_seen
  if is_unknown r.durability
      then ok (decision r age false unknown_durability)
      else if is_named r.lifecycle
      then ok (decision r age false named_reason)
      else if ltb_ℤ age (pos 0)
      then ok (decision r age false clock_skew)
      else (do
        evidence ← presence_evidence (some r) presence now stale_after
        ok (by_evidence r age retention evidence))
