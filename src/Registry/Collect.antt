-- ===== src/Registry/Collect.antt =====
-- Which registry records the garbage collection takes.
use swarmbus.Base.{
  ◌≡◌, refl, Bool, true, false, not, ◌&&◌, ◌||◌, ◌⊎◌, inl, inr, Option, none, some, if◌then◌else◌,
  arith, Bool-cases,
}
use swarmbus.Base.Int.{ℤ, pos, negsuc, sub_ℕ, ltb_ℤ, leb_ℤ}
use swarmbus.Base.Result.{Result, ok, err, ◌>>=◌}
use swarmbus.Message.Json.{DateTime}
use swarmbus.Registry.Records.{RegistryRecord, is_aware}
use swarmbus.Registry.Presence.{PresenceRecord, State, online, offline}
use swarmbus.Registry.Decide.{
  elapsed, Evidence, seen_online, seen_offline, unconfirmed, presence_evidence, GcDecision,
  transient_gc_decision, is_unknown, is_named, is_foreign, by_evidence, decision, named_reason,
  clock_skew,
}

pub State-cases : (s : State) → (s ≡ online) ⊎ (s ≡ offline)
State-cases online = inl refl
State-cases offline = inr refl

-- The presence record says offline.
abbrev pub says_offline : Option PresenceRecord → Bool
says_offline none = false
says_offline (some p) = elim p.state [ online ↦ false | offline ↦ true ]

-- What makes a record garbage, by its age.
abbrev pub is_garbage : RegistryRecord → Option PresenceRecord → ℤ → ℤ → Bool
is_garbage r presence age retention =
    not (is_unknown r.durability)
    && (not (is_named r.lifecycle) && (says_offline presence && ltb_ℤ retention age))

pub elapsed_aware :
    (now then_ : DateTime)
    → is_aware now ≡ true
    → is_aware then_ ≡ true
    → elapsed now then_ ≡ ok (sub_ℕ now.instant then_.instant)
unfolding elapsed
elapsed_aware now then_ h k = rw (h, k) refl

abbrev pub Weighed : Result Evidence → Option PresenceRecord → Type 0
Weighed (ok seen_offline) p = says_offline p ≡ true
Weighed (ok seen_online) p = says_offline p ≡ false
Weighed (ok unconfirmed) p = says_offline p ≡ false
Weighed (err e) p = ⊥

-- Once the durability is known, presence is Weighed without an error.
pub evidence-Weighed :
    (r : RegistryRecord) (presence : Option PresenceRecord) (now : DateTime) (stale_after : ℤ)
    → leb_ℤ stale_after (pos 0) ≡ false
    → is_aware now ≡ true
    → is_aware r.last_seen ≡ true
    → Weighed (presence_evidence (some r) presence now stale_after) presence
unfolding presence_evidence
evidence-Weighed r none now stale_after h k l = rw (h, k) refl
evidence-Weighed r (some p) now stale_after h k l = elim (State-cases p.state) [
  | inr e ↦ rw (h, k, e) refl
  | inl e ↦
      elim (Bool-cases (
        ltb_ℤ (sub_ℕ now.instant r.last_seen.instant) (pos 0)
        || leb_ℤ (sub_ℕ now.instant r.last_seen.instant) stale_after)) [
          | inl b ↦ rw (h, k, e, elapsed_aware now r.last_seen k l, b) refl
          | inr b ↦ rw (h, k, e, elapsed_aware now r.last_seen k l, b) refl
        ]
]

-- A decision that says what it must.
abbrev pub Decides : RegistryRecord → Option PresenceRecord → ℤ → ℤ → Result GcDecision → Type 0
Decides r p age retention (ok d) =
    (d.agent_id ≡ r.agent_id) × (d.age ≡ age) × (d.eligible ≡ is_garbage r p age retention)
Decides r p age retention (err e) = ⊥

not_old :
    (age retention stale_after : ℤ)
    → ltb_ℤ age (pos 0) ≡ true
    → leb_ℤ stale_after (pos 0) ≡ false
    → leb_ℤ retention stale_after ≡ false
    → ltb_ℤ retention age ≡ false
not_old (pos a) retention stale_after h k l = ground arith
not_old (negsuc a) (pos b) stale_after h k l = ground arith
not_old (negsuc a) (negsuc b) (pos d) h k l = ground arith
not_old (negsuc a) (negsuc b) (negsuc d) h k l = ground arith

old_enough : (a b : ℤ) → leb_ℤ a b ≡ not (ltb_ℤ b a)
old_enough a b = ground arith

by_weight :
    (r : RegistryRecord) (presence : Option PresenceRecord) (age retention : ℤ)
    (m : Result Evidence)
    → is_unknown r.durability ≡ false
    → is_named r.lifecycle ≡ false
    → Weighed m presence
    → Decides r presence age retention (m >>= λ evidence. ok (by_evidence r age retention evidence))
by_weight r presence age retention (err e) u n w = w
by_weight r presence age retention (ok seen_online) u n w = (refl, refl, rw (u, n, w) refl)
by_weight r presence age retention (ok unconfirmed) u n w = (refl, refl, rw (u, n, w) refl)
by_weight r presence age retention (ok seen_offline) u n w =
    elim (Bool-cases (leb_ℤ age retention)) [
      | inl e ↦ rw e (refl, refl, rw (u, n, w) (ground arith))
      | inr e ↦ rw e (refl, refl, rw (u, n, w) (ground arith))
    ]

-- For a retention longer than a positive staleness limit, aware clock readings and a presence record,
-- if any, of the same agent, `transient_gc_decision` returns a decision for that agent with its age, and
-- the record is eligible exactly when its durability is known, its lifecycle is transient, its presence
-- says offline and its age is over the retention.
pub transient_gc_decision_lem :
    (r : RegistryRecord) (presence : Option PresenceRecord) (now : DateTime)
    (stale_after retention : ℤ)
    → leb_ℤ stale_after (pos 0) ≡ false
    → leb_ℤ retention stale_after ≡ false
    → is_foreign r presence ≡ false
    → is_aware now ≡ true
    → is_aware r.last_seen ≡ true
    → Decides r presence
        (sub_ℕ now.instant r.last_seen.instant)
        retention
        (transient_gc_decision r presence now stale_after retention)
unfolding transient_gc_decision
transient_gc_decision_lem r presence now stale_after retention s l f n t =
    rw (s, l, f, n, t, elapsed_aware now r.last_seen n t)
      (elim (Bool-cases (is_unknown r.durability)) [
        | inl u ↦ rw u (refl, refl, ground arith)
        | inr u ↦ rw u (lifecycle_step (sub_ℕ now.instant r.last_seen.instant) u)
      ])
  where
    lifecycle_step :
        (age : ℤ)
        → is_unknown r.durability ≡ false
        → Decides r presence age retention (
            if is_named r.lifecycle
            then ok (decision r age false named_reason)
            else if ltb_ℤ age (pos 0)
            then ok (decision r age false clock_skew)
            else (do
              evidence ← presence_evidence (some r) presence now stale_after
              ok (by_evidence r age retention evidence)))
    lifecycle_step age u = elim (Bool-cases (is_named r.lifecycle)) [
      | inl m ↦ rw m (refl, refl, ground arith)
      | inr m ↦ elim (Bool-cases (ltb_ℤ age (pos 0))) [
        | inl g ↦ rw g (rw m (refl, refl, ground (arith, not_old age retention stale_after g s l)))
        | inr g ↦ rw g (
            rw m (
              by_weight r presence age retention
                (presence_evidence (some r) presence now stale_after) u m
                (evidence-Weighed r presence now stale_after s n t)))
      ]
    ]
