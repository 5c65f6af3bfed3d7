-- ===== src/Maintenance/Forget/Warrant.antt =====
-- What `forget` may delete, and what its report says of it.
use swarmbus.Base.{
  ◌≡◌, refl, subst, ◌⊎◌, inl, inr, Bool, true, false, not, ◌&&◌, List, Text, Option, none, some,
  All, if◌then◌else◌, arith, Bool-cases,
}
use swarmbus.Base.Int.{ℤ, pos, leb_ℤ}
use swarmbus.Base.Result.{
  Result, ok, err, value_error, mqtt_error, ◌>>=◌, ◌>>◌, raise_if, raise_if-eq-ok, bind_cases,
  ok-injective,
}
use swarmbus.Message.Json.{DateTime, Codec}
use swarmbus.Message.AgentId.{validate_registered_agent_id}
use swarmbus.Topics.{TopicMap, registry, presence}
use swarmbus.Registry.Records.{RegistryRecord, is_aware}
use swarmbus.Registry.Presence.{PresenceRecord}
use swarmbus.Registry.Decide.{
  Evidence, seen_online, unconfirmed, presence_evidence, weigh, weigh_online, elapsed,
}
use swarmbus.Registry.Collect.{State-cases, says_offline}
use swarmbus.Registry.Cache.{lookup}
use swarmbus.Maintenance.Snapshot.{Delivery, Snapshot, snapshot}
use swarmbus.Maintenance.Gc.{Turn, Tombstone, is_offline}
use swarmbus.Maintenance.Gc.Turns.{tombstones}
use swarmbus.Maintenance.Forget.{ForgetReport, Forgetting, is_absent, retire, act, recheck, forget}

-- Evidence that the agent is offline is a presence record that says so.
abbrev Says : Option PresenceRecord → Result Evidence → Type 0
Says p (ok e) = is_offline e ≡ true → says_offline p ≡ true
Says p (err x) = Unit

guarded :
    (p : Option PresenceRecord) (b : Bool) (m : Result Evidence)
    → Says p m
    → Says p (raise_if b value_error >> m)
guarded p true m h = tt
guarded p false m h = h

evidence-Says :
    (r : Option RegistryRecord) (p : Option PresenceRecord) (now : DateTime) (stale_after : ℤ)
    → Says p (presence_evidence r p now stale_after)
unfolding presence_evidence
evidence-Says r none now stale_after =
    guarded none (leb_ℤ stale_after (pos 0)) _
      (guarded none (not (is_aware now)) (ok unconfirmed) (λ h. cc))
evidence-Says r (some p) now stale_after =
    guarded (some p) (leb_ℤ stale_after (pos 0)) _
      (guarded (some p) (not (is_aware now)) (weigh r (some p) now stale_after) weighed)
  where
    aged :
        (m : Result ℤ) (q : ℤ → Bool)
        → Says (some p) (m >>= λ age. ok (if q age then seen_online else unconfirmed))
    aged (err e) q = tt
    aged (ok a) q = either (q a)
      where
        either :
            (b : Bool)
            → is_offline (if b then seen_online else unconfirmed) ≡ true
            → says_offline (some p) ≡ true
        either true h = cc
        either false h = cc

    awake : (r : Option RegistryRecord) → Says (some p) (weigh_online r now stale_after)
    awake none = λ h. cc
    awake (some r) = aged (elapsed now r.last_seen) _

    weighed : Says (some p) (weigh r (some p) now stale_after)
    weighed = elim (State-cases p.state) [ inl e ↦ simp e (awake r) | inr e ↦ simp e (λ h. refl) ]

says :
    (r : Option RegistryRecord) (p : Option PresenceRecord) (now : DateTime) (stale_after : ℤ)
    {e : Evidence}
    → presence_evidence r p now stale_after ≡ ok e
    → is_offline e ≡ true
    → says_offline p ≡ true
says r p now stale_after h = subst (Says p) h (evidence-Says r p now stale_after)

all_if :
    {A : Type 0} (J : Tombstone → Type 0) (b : Bool) (x y : A × List Tombstone)
    → (b ≡ true → All J x.1)
    → (b ≡ false → All J y.1)
    → All J (if b then x else y).1
all_if J true x y h k = h refl
all_if J false x y h k = k refl

module _ (c : Codec) (t : TopicMap) (now : DateTime) where
  -- What allows `forget` to publish a deletion.
  pub record IsWarranted (f : Forgetting) (first : List Delivery) (turn : Turn) (x : Tombstone)
      : Type 0 where
    pub on_topic : (x.topic ≡ presence t f.agent_id) ⊎ (x.topic ≡ registry t f.agent_id)
    pub acting : f.dry_run ≡ false
    pub confirmed :
        (f.force_online ≡ true)
        ⊎ ((says_offline (lookup f.agent_id (snapshot c t first).presence) ≡ true)
            × (says_offline (lookup f.agent_id (snapshot c t turn.deliveries).presence) ≡ true))

  retire_all :
      (J : Tombstone → Type 0) (id : Text) (turn : Turn) (report : ForgetReport)
      → J (record { topic = presence t id; session = true })
      → J (record { topic = registry t id; session = true })
      → All J (retire c t now id turn report).1
  unfolding retire
  retire_all J id turn report p q =
      all_if J (not turn.audits) _ _ (λ e. tt) (λ e. tombstones t J id true turn p q)

  act_all :
      (J : Tombstone → Type 0) (f : Forgetting) (absent gone : Bool) (e : Evidence) (turn : Turn)
      (report : ForgetReport)
      → ((topic : Text)
          → (topic ≡ presence t f.agent_id) ⊎ (topic ≡ registry t f.agent_id)
          → f.dry_run ≡ false
          → (f.force_online ≡ true) ⊎ ((absent ≡ false) × (is_offline e ≡ true))
          → J (record { topic = topic; session = true }))
      → All J (act c t now f absent gone e turn report).1
  unfolding act
  act_all J f absent gone e turn report j =
      all_if J gone _ _ (λ _. tt)
        (λ _.
          all_if J (not f.force_online && absent) _ _ (λ _. tt)
            (λ a.
              all_if J (not f.force_online && not (is_offline e)) _ _ (λ _. tt)
                (λ b.
                  all_if J f.dry_run _ _ (λ _. tt)
                    (λ d.
                      retire_all J f.agent_id turn report
                        (j (presence t f.agent_id) (inl refl) d
                          (cause f.force_online absent (is_offline e) a b))
                        (j (registry t f.agent_id) (inr refl) d
                          (cause f.force_online absent (is_offline e) a b))))))
    where
      cause :
          (force absent off : Bool)
          → (not force && absent) ≡ false
          → (not force && not off) ≡ false
          → (force ≡ true) ⊎ ((absent ≡ false) × (off ≡ true))
      cause true absent off a b = inl refl
      cause false absent off a b = inr (ground arith, ground arith)

  -- When `forget` returns, each message that it published goes to the agent's presence or registry topic,
  -- not in a dry run, and either the call was forced or the presence records of both snapshots, the first
  -- and the one read again, say that the agent is offline.
  pub forget-IsWarranted :
      (f : Forgetting) (first : List Delivery) (turn : Turn) {out : ForgetReport × List Tombstone}
      → forget c t now f (some first) turn ≡ ok out
      → All (IsWarranted f first turn) out.1
  unfolding forget recheck
  forget-IsWarranted f first turn {out} h =
      bind_cases (validate_registered_agent_id f.agent_id) _ h λ _ _ h.
        let (_, h1) = raise_if-eq-ok (leb_ℤ f.stale_after (pos 0)) value_error _ h in
        let (_, h2) = raise_if-eq-ok (not (is_aware now)) value_error _ h1 in
        bind_cases
          (presence_evidence (lookup f.agent_id initial.records)
            (lookup f.agent_id initial.presence) now f.stale_after)
          _ h2
          λ e weighed h.
            elim (either (not f.force_online && not absent && not (is_offline e)) _
              (recheck c t now f absent turn) h) [
                | inl same ↦
                    subst
                      (λ (x : ForgetReport × List Tombstone). All (IsWarranted f first turn) x.1)
                      same tt
                | inr (b, h) ↦
                    let (_, h3) =
                      raise_if-eq-ok (not (turn.connects && turn.closes)) mqtt_error _ h in
                    bind_cases
                      (presence_evidence (lookup f.agent_id fresh.records)
                        (lookup f.agent_id fresh.presence) now f.stale_after)
                      _ h3
                      λ e2 again h.
                        subst
                          (λ (x : ForgetReport × List Tombstone).
                            All (IsWarranted f first turn) x.1)
                          (ok-injective h)
                          (act_all (IsWarranted f first turn) f absent
                            (absent && is_absent f.agent_id fresh) e2 turn _
                            (λ topic on d why. record {
                              on_topic = on;
                              acting = d;
                              confirmed = elim (Bool-cases f.force_online) [
                                | inl forced ↦ inl forced
                                | inr free ↦ elim why [
                                  | inl forced ↦ inl forced
                                  | inr (here, off) ↦ inr (
                                    says (lookup f.agent_id initial.records)
                                        (lookup f.agent_id initial.presence) now f.stale_after
                                        weighed
                                        (still f.force_online absent (is_offline e) free here b),
                                    says (lookup f.agent_id fresh.records)
                                        (lookup f.agent_id fresh.presence) now f.stale_after again
                                        off,
                                  )
                                ]
                              ];
                            }))
              ]
    where
      initial : Snapshot
      initial = snapshot c t first

      fresh : Snapshot
      fresh = snapshot c t turn.deliveries

      absent : Bool
      absent = is_absent f.agent_id initial

      still :
          (force gone off : Bool)
          → force ≡ false
          → gone ≡ false
          → (not force && not gone && not off) ≡ false
          → off ≡ true
      still force gone off a b d = ground arith

      either :
          {A : Type 0} (b : Bool) (x : A) (m : Result A) {y : A}
          → (if b then ok x else m) ≡ ok y
          → (x ≡ y) ⊎ ((b ≡ false) × (m ≡ ok y))
      either true x m h = inl (ok-injective h)
      either false x m h = inr (refl, h)
