-- ===== src/Registry/Reachable.antt =====
-- The states that a `RegistryCache` of src/swarmbus/registry.py can reach.
use swarmbus.Base.{
  codes, ◌≡◌, refl, sym, subst, true, false, not, List, [], ◌∷◌, Text, text_eq, text_eq→≡, Option,
  none, some, All, arith, Bool-cases, inl, inr,
}
use swarmbus.Base.Int.{ℤ, pos, leb_ℤ}
use swarmbus.Base.Result.{ok, value_error, raise_if-eq-ok, bind_cases}
use swarmbus.Message.Json.{Json, null, bool, int, real, str, arr, obj, Codec, DateTime, get}
use swarmbus.Message.Envelope.{or_raise}
use swarmbus.Topics.{TopicMap, registry_agent, presence_agent}
use swarmbus.Registry.Records.{
  RegistryRecord, is_aware, want_aware, want_schema, want_agent_id, want_status, want_list,
  want_lifecycle, want_durability, validate_registry, registry_from_mqtt, max_capability_length,
}
use swarmbus.Registry.Presence.{PresenceRecord, presence_from_mqtt}
use swarmbus.Registry.Cache.{
  RegistryCache, make_cache, clear, update_registry, update_presence, remove_registry,
  remove_presence, set_entry, remove_entry,
}

-- A cache after any calls: each one that raises leaves it as it was.
pub data Reachable (c : Codec) : RegistryCache → Type 0 where
  made :
      (stale_after : ℤ) (topics : TopicMap) (s : RegistryCache)
      → make_cache stale_after topics ≡ ok s
      → Reachable c s
  cleared : (s : RegistryCache) → Reachable c s → Reachable c (clear s)
  registry_updated :
      (topic payload : Text) (s t : RegistryCache)
      → Reachable c s
      → update_registry c topic payload s ≡ ok t
      → Reachable c t
  presence_updated :
      (topic payload : Text) (s t : RegistryCache)
      → Reachable c s
      → update_presence c topic payload s ≡ ok t
      → Reachable c t
  registry_removed :
      (topic : Text) (s t : RegistryCache)
      → Reachable c s
      → remove_registry topic s ≡ ok t
      → Reachable c t
  presence_removed :
      (topic : Text) (s t : RegistryCache)
      → Reachable c s
      → remove_presence topic s ≡ ok t
      → Reachable c t

-- A registry entry: its key is its record's id, and the record can be aged.
abbrev pub IsRegistryEntry : Text × RegistryRecord → Type 0
IsRegistryEntry e = (e.1.agent_id ≡ e.0) × (is_aware e.1.last_seen ≡ true)

abbrev pub IsPresenceEntry : Text × PresenceRecord → Type 0
IsPresenceEntry e = e.1.agent_id ≡ e.0

pub record IsSound (s : RegistryCache) : Type 0 where
  pub stale_positive : leb_ℤ s.stale_after (pos 0) ≡ false
  pub registry_keys : All IsRegistryEntry s.registry
  pub presence_keys : All IsPresenceEntry s.presence

module _ {ℓ κ} {A : Type ℓ} (P : Text × A → Type κ) where
  pub All-set_entry :
      (k : Text) (a : A) (d : List (Text × A)) → P (k, a) → All P d → All P (set_entry k a d)
  unfolding set_entry
  All-set_entry k a [] p h = (p, tt)
  All-set_entry k a ((j, b) ∷ d) p (q, h) = elim (Bool-cases (text_eq j k)) [
    | inl e ↦ rw e (subst (λ i. P (i, a)) (sym (text_eq→≡ j k e)) p, h)
    | inr e ↦ rw e (q, All-set_entry k a d p h)
  ]

  pub All-remove_entry : (k : Text) (d : List (Text × A)) → All P d → All P (remove_entry k d)
  unfolding remove_entry
  All-remove_entry k [] h = tt
  All-remove_entry k ((j, b) ∷ d) (q, h) = elim (Bool-cases (text_eq j k)) [
    | inl e ↦ rw e h
    | inr e ↦ rw e (q, All-remove_entry k d h)
  ]

want_aware-is_aware :
    (c : Codec) (j : Option Json) {d : DateTime} → want_aware c j ≡ ok d → is_aware d ≡ true
unfolding want_aware
want_aware-is_aware c none h = cc
want_aware-is_aware c (some j) h =
    bind_cases (or_raise (c.parse_datetime j)) _ h
      λ e _ k. let (a, same) = raise_if-eq-ok (not (is_aware e)) value_error _ k in ground arith

validate_registry-is_aware :
    (c : Codec) (j : Option Json) {r : RegistryRecord}
    → validate_registry c j ≡ ok r
    → is_aware r.last_seen ≡ true
unfolding validate_registry
validate_registry-is_aware c (some (obj fs)) h =
    bind_cases (want_schema c (get (codes "schema_version") fs)) _ h λ _ _ h.
      bind_cases (want_agent_id (get (codes "agent_id") fs)) _ h λ _ _ h.
        bind_cases (want_status (get (codes "status") fs)) _ h λ _ _ h.
          bind_cases (want_list none (get (codes "working_set") fs)) _ h λ _ _ h.
            bind_cases (want_list (some max_capability_length) (get (codes "capabilities") fs)) _ h
              λ _ _ h. bind_cases (want_lifecycle (get (codes "lifecycle") fs)) _ h λ _ _ h.
                bind_cases (want_durability (get (codes "durability") fs)) _ h λ _ _ h.
                  bind_cases (want_aware c (get (codes "started_at") fs)) _ h λ _ _ h.
                    bind_cases (want_aware c (get (codes "last_seen") fs)) _ h
                      λ last_seen e h. let aware = want_aware-is_aware c _ e in cc
validate_registry-is_aware c none h = cc
validate_registry-is_aware c (some null) h = cc
validate_registry-is_aware c (some (bool b)) h = cc
validate_registry-is_aware c (some (int z)) h = cc
validate_registry-is_aware c (some (real x)) h = cc
validate_registry-is_aware c (some (str x)) h = cc
validate_registry-is_aware c (some (arr x)) h = cc

pub registry_from_mqtt-is_aware :
    (c : Codec) (t : TopicMap) (topic payload : Text) {r : RegistryRecord}
    → registry_from_mqtt c t topic payload ≡ ok r
    → is_aware r.last_seen ≡ true
unfolding registry_from_mqtt
registry_from_mqtt-is_aware c t topic payload h =
    bind_cases (registry_agent t topic) _ h λ owner _ h.
      bind_cases (validate_registry c (c.parse_json payload)) _ h λ q e h.
        let (_, same) = raise_if-eq-ok (not (text_eq q.agent_id owner)) value_error _ h in
        let aware = validate_registry-is_aware c (c.parse_json payload) e in cc

along : {s t : RegistryCache} → ok s ≡ ok t → IsSound s → IsSound t
along h i = subst IsSound (cache_eq h) i
  where
    cache_eq : {s t : RegistryCache} → ok s ≡ ok t → s ≡ t
    cache_eq e = cc

-- Whatever is published, every registry entry of a cache stands under its record's agent id with an aware
-- `last_seen`, every presence entry stands under its record's agent id, and the staleness limit is
-- positive.
pub Reachable-IsSound : (c : Codec) (s : RegistryCache) → Reachable c s → IsSound s
unfolding make_cache clear update_registry update_presence remove_registry remove_presence
Reachable-IsSound c _ (made stale_after topics s h) =
    let (p, same) = raise_if-eq-ok (leb_ℤ stale_after (pos 0)) value_error _ h in
    along same (record { stale_positive = p; registry_keys = tt; presence_keys = tt })
Reachable-IsSound c _ (cleared s r) =
    let i = Reachable-IsSound c s r in
    record { stale_positive = i.stale_positive; registry_keys = tt; presence_keys = tt }
Reachable-IsSound c _ (registry_updated topic payload s t r h) =
    let i = Reachable-IsSound c s r in
    bind_cases (registry_from_mqtt c s.topics topic payload) _ h λ q e same. along same (record {
      stale_positive = i.stale_positive;
      registry_keys =
          All-set_entry IsRegistryEntry q.agent_id q s.registry
            (refl, registry_from_mqtt-is_aware c s.topics topic payload e) i.registry_keys;
      presence_keys = i.presence_keys;
    })
Reachable-IsSound c _ (presence_updated topic payload s t r h) =
    let i = Reachable-IsSound c s r in
    bind_cases (presence_from_mqtt c s.topics topic payload) _ h λ q e same. along same (record {
      stale_positive = i.stale_positive;
      registry_keys = i.registry_keys;
      presence_keys = All-set_entry IsPresenceEntry q.agent_id q s.presence refl i.presence_keys;
    })
Reachable-IsSound c _ (registry_removed topic s t r h) =
    let i = Reachable-IsSound c s r in
    bind_cases (registry_agent s.topics topic) _ h λ agent e same. along same (record {
      stale_positive = i.stale_positive;
      registry_keys = All-remove_entry IsRegistryEntry agent s.registry i.registry_keys;
      presence_keys = i.presence_keys;
    })
Reachable-IsSound c _ (presence_removed topic s t r h) =
    let i = Reachable-IsSound c s r in
    bind_cases (presence_agent s.topics topic) _ h λ agent e same. along same (record {
      stale_positive = i.stale_positive;
      registry_keys = i.registry_keys;
      presence_keys = All-remove_entry IsPresenceEntry agent s.presence i.presence_keys;
    })
