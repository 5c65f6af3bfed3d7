-- ===== src/Maintenance/Gc/Turns.antt =====
-- What the pass over the selected records counts, and what it deletes.
use swarmbus.Base.{
  ℕ, suc, ◌+◌, ◌≡◌, refl, sym, subst, ap, ◌∙◌, ◌⊎◌, inl, inr, Bool, true, false, not, ◌&&◌, List,
  [], ◌∷◌, ◌++◌, Text, text_eq, text_eq→≡, text_eq_refl, Option, none, some, All, if◌then◌else◌,
  arith, Bool-cases, Option-cases,
}
use swarmbus.Base.Int.{pos, sub_ℕ, leb_ℤ}
use swarmbus.Base.Result.{Result, ok, err, ◌>>=◌}
use swarmbus.Message.Json.{DateTime, Codec}
use swarmbus.Topics.{TopicMap, registry, presence}
use swarmbus.Registry.Records.{RegistryRecord, is_aware}
use swarmbus.Registry.Presence.{PresenceRecord}
use swarmbus.Registry.Decide.{presence_evidence, GcDecision, transient_gc_decision, is_foreign}
use swarmbus.Registry.Collect.{Decides, transient_gc_decision_lem, is_garbage, evidence-Weighed}
use swarmbus.Registry.Cache.{lookup}
use swarmbus.Registry.Listing.{ok_of_Weighed}
use swarmbus.Registry.Reachable.{IsRegistryEntry}
use swarmbus.Maintenance.Snapshot.{Snapshot, snapshot, snapshot-IsSnapshot, IsPresenceSeen}
use swarmbus.Maintenance.Report.{GcReport, resolved, orphan_resolved}
use swarmbus.Maintenance.Gc.{
  Settings, Turn, Tombstone, publish_tombstones, is_durable, is_offline, settle, preserve,
  delete_with, delete_record, decide_fresh, attend,
}

-- What a run needs of its settings and its clock.
pub record IsReady (now : DateTime) (s : Settings) : Type 0 where
  pub stale_positive : leb_ℤ s.stale_after (pos 0) ≡ false
  pub longer : leb_ℤ s.retention s.stale_after ≡ false
  pub aware : is_aware now ≡ true

pub lookup-All {ℓ κ} :
    {A : Type ℓ} (P : Text × A → Type κ) (k : Text) (d : List (Text × A)) {a : A}
    → All P d
    → lookup k d ≡ some a
    → P (k, a)
unfolding lookup
lookup-All P k [] h e = cc
lookup-All {A} P k ((j, b) ∷ d) {a} (p, h) e = elim (Bool-cases (text_eq j k)) [
  | inr t ↦ lookup-All P k d h (rw t at e)
  | inl t ↦
      subst (λ (x : A). P (k, x)) (same (rw t at e)) (subst (λ i. P (i, b)) (text_eq→≡ j k t) p)
]
  where
    same : some b ≡ some a → b ≡ a
    same q = cc

own_presence :
    (id : Text) (r : RegistryRecord) (d : List (Text × PresenceRecord))
    → r.agent_id ≡ id
    → All IsPresenceSeen d
    → is_foreign r (lookup id d) ≡ false
own_presence id r d e h = elim (Option-cases (lookup id d)) [
  | inl n ↦ rw n refl
  | inr (p, f) ↦
      let same : p.agent_id ≡ r.agent_id = (lookup-All IsPresenceSeen id d h f).0 ∙ sym e in
      rw (f, same, text_eq_refl r.agent_id) refl
]

-- The fields that a turn leaves alone.
abbrev pub frame : GcReport → (ℕ × ℕ × ℕ × ℕ) × (ℕ × ℕ × ℕ)
frame r = (
  (r.scanned, r.eligible, r.selected, r.retained),
  (r.orphan_presence, orphan_resolved r, r.orphan_deferred),
)

-- A turn that counts its record once and deletes only what satisfies J.
abbrev pub Counted : (Tombstone → Type 0) → GcReport → Result (GcReport × List Tombstone) → Type 0
Counted J before (ok (after, sent)) =
    (resolved after ≡ suc (resolved before)) × (frame after ≡ frame before) × All J sent
Counted J before (err e) = ⊥

pub tombstones :
    (t : TopicMap) (J : Tombstone → Type 0) (id : Text) (session : Bool) (turn : Turn)
    → J (record { topic = presence t id; session = session })
    → J (record { topic = registry t id; session = session })
    → All J (publish_tombstones t id session turn).0
unfolding publish_tombstones
tombstones t J id session turn p q = elim (Bool-cases (session && not turn.agent_connects)) [
  | inl e ↦ rw e tt
  | inr e ↦ elim (Bool-cases turn.presence_published) [
    | inr f ↦ rw (e, f) (p, tt)
    | inl f ↦ elim (Bool-cases turn.registry_published) [
      | inr g ↦ rw (e, f, g) (p, (q, tt))
      | inl g ↦ elim (Bool-cases (session && not turn.agent_closes)) [
        | inl h ↦ rw (e, f, g, h) (p, (q, tt))
        | inr h ↦ rw (e, f, g, h) (p, (q, tt))
      ]
    ]
  ]
]

module _ (c : Codec) (t : TopicMap) (now : DateTime) (s : Settings) where
  pub decision_ok :
      (id : Text) (r : RegistryRecord) (d : List (Text × PresenceRecord))
      → IsReady now s
      → IsRegistryEntry (id, r)
      → All IsPresenceSeen d
      → Decides r
          (lookup id d)
          (sub_ℕ now.instant r.last_seen.instant)
          s.retention
          (transient_gc_decision r (lookup id d) now s.stale_after s.retention)
  decision_ok id r d i e h =
      transient_gc_decision_lem r (lookup id d) now s.stale_after s.retention i.stale_positive
        i.longer (own_presence id r d e.0 h) i.aware e.1

  -- A deletion of the agent's retained messages, with the reading that authorized it.
  pub record IsJustified (turns : Text → Turn) (x : Tombstone) : Type 0 where
    pub agent_id : Text
    pub fresh : RegistryRecord
    pub found : lookup agent_id (snapshot c t (turns agent_id).deliveries).records ≡ some fresh
    pub garbage :
        is_garbage fresh
          (lookup agent_id (snapshot c t (turns agent_id).deliveries).presence)
          (sub_ℕ now.instant fresh.last_seen.instant)
          s.retention
        ≡ true
    pub acting : s.dry_run ≡ false
    pub on_topic : (x.topic ≡ presence t agent_id) ⊎ (x.topic ≡ registry t agent_id)
    pub own_session : x.session ≡ true → is_durable fresh.durability ≡ true

  settle_counts :
      (id : Text) (session : Bool) (o : Option Bool) (r : GcReport)
      → (resolved (settle id session o r) ≡ suc (resolved r))
        × (frame (settle id session o r) ≡ frame r)
  settle_counts id session none r = (omega arith, refl)
  settle_counts id session (some b) r = (omega arith, refl)

  and_left : (a b : Bool) → (a && b) ≡ true → a ≡ true
  and_left a b h = ground arith

  if-Counted :
      (J : Tombstone → Type 0) (report : GcReport) (b : Bool) (x y : GcReport × List Tombstone)
      → Counted J report (ok x)
      → Counted J report (ok y)
      → Counted J report (ok (if b then x else y))
  if-Counted J report true x y h k = h
  if-Counted J report false x y h k = k

  delete-Counted :
      (J : Tombstone → Type 0) (id : Text) (r : RegistryRecord) (p : Option PresenceRecord)
      (turn : Turn) (report : GcReport)
      → IsReady now s
      → is_aware r.last_seen ≡ true
      → ((x : Tombstone)
          → (x.topic ≡ presence t id) ⊎ (x.topic ≡ registry t id)
          → (x.session ≡ true → is_durable r.durability ≡ true)
          → J x)
      → Counted J report (delete_record c t now s id r p turn report)
  unfolding delete_record
  delete-Counted J id r p turn report i a j =
      let (e, k) =
        ok_of_Weighed (presence_evidence (some r) p now s.stale_after) p
          (evidence-Weighed r p now s.stale_after i.stale_positive i.aware a) in
      rw k (
        if-Counted J report (not turn.audits) _ _ (omega arith, refl, tt)
          (with_session (is_durable r.durability && is_offline e)
            (preserve (is_durable r.durability && not (is_offline e)) report) refl refl
            (λ h. and_left _ _ h)))
    where
      with_session :
          (session : Bool) (kept : GcReport)
          → resolved kept ≡ resolved report
          → frame kept ≡ frame report
          → (session ≡ true → is_durable r.durability ≡ true)
          → Counted J report (ok (delete_with c t now s id session turn kept))
      with_session session kept same framed d =
          let (n, f) = settle_counts id session (publish_tombstones t id session turn).1 kept in
          (
            n ∙ ap suc same,
            f ∙ framed,
            tombstones t J id session turn
                (j (record { topic = presence t id; session = session }) (inl refl) d)
                (j (record { topic = registry t id; session = session }) (inr refl) d),
          )

  pub attend-Counted :
      (turns : Text → Turn) (id : Text) (report : GcReport)
      → IsReady now s
      → Counted (IsJustified turns) report (attend c t now s id (turns id) report)
  unfolding attend decide_fresh
  attend-Counted turns id report i = elim (Option-cases (lookup id fresh.records)) [
    | inl e ↦ rw e (omega arith, refl, tt)
    | inr (r, e) ↦ rw e (
        by_decision r e
          (transient_gc_decision r (lookup id fresh.presence) now s.stale_after s.retention)
          (decision_ok id r fresh.presence i (entry r e)
            (snapshot-IsSnapshot c t (turns id).deliveries).presence_keys))
  ]
    where
      fresh : Snapshot
      fresh = snapshot c t (turns id).deliveries

      entry : (r : RegistryRecord) → lookup id fresh.records ≡ some r → IsRegistryEntry (id, r)
      entry r e =
          lookup-All IsRegistryEntry id fresh.records
            (snapshot-IsSnapshot c t (turns id).deliveries).registry_keys e

      seen : GcReport
      seen = record report { malformed = report.malformed + fresh.invalid_messages }

      by_decision :
          (r : RegistryRecord)
          → lookup id fresh.records ≡ some r
          → (m : Result GcDecision)
          → Decides r
              (lookup id fresh.presence)
              (sub_ℕ now.instant r.last_seen.instant)
              s.retention
              m
          → Counted (IsJustified turns) report (do
            decision ← m
            if not decision.eligible
                then ok (record seen { raced = seen.raced + 1; skipped = seen.skipped + 1 }, [])
                else if s.dry_run
                then ok (
                  record seen {
                    would_delete = seen.would_delete + 1;
                    would_delete_agent_ids = seen.would_delete_agent_ids ++ id ∷ [];
                  },
                  [],
                )
                else delete_record c t now s id r (lookup id fresh.presence) (turns id) seen)
      by_decision r e (err x) d = absurd d
      by_decision r e (ok g) (_, _, verdict) = settled g.eligible s.dry_run refl refl
        where
          settled :
              (n y : Bool)
              → g.eligible ≡ n
              → s.dry_run ≡ y
              → Counted (IsJustified turns) report (
                  if not n
                  then ok (record seen { raced = seen.raced + 1; skipped = seen.skipped + 1 }, [])
                  else if y
                  then ok (
                    record seen {
                      would_delete = seen.would_delete + 1;
                      would_delete_agent_ids = seen.would_delete_agent_ids ++ id ∷ [];
                    },
                    [],
                  )
                  else delete_record c t now s id r (lookup id fresh.presence) (turns id) seen)
          settled false y n d = (omega arith, refl, tt)
          settled true true n d = (omega arith, refl, tt)
          settled true false n d =
              delete-Counted (IsJustified turns) id r (lookup id fresh.presence) (turns id) seen i
                (entry r e).1
                (λ x topic own. record {
                  agent_id = id;
                  fresh = r;
                  found = e;
                  garbage = sym verdict ∙ n;
                  acting = d;
                  on_topic = topic;
                  own_session = own;
                })
