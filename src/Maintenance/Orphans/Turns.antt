-- ===== src/Maintenance/Orphans/Turns.antt =====
-- What the turn of an orphan counts, and what it writes.
use swarmbus.Base.{
  ℕ, suc, ◌+◌, ◌≡◌, refl, ◌⊎◌, inl, inr, Bool, true, false, not, List, [], ◌∷◌, Text, Option, none,
  some, All, if◌then◌else◌, arith, Bool-cases, Option-cases,
}
use swarmbus.Base.Int.{ℤ, pos, negsuc, sub_ℕ, leb_ℤ, ltb_ℤ}
use swarmbus.Base.Result.{Result, ok, err, ◌>>=◌}
use swarmbus.Message.Json.{DateTime, Codec}
use swarmbus.Topics.{TopicMap, presence}
use swarmbus.Registry.Records.{is_aware}
use swarmbus.Registry.Presence.{
  PresenceRecord, online, offline, aware_if_set, stamp_presence_payload,
}
use swarmbus.Registry.Decide.{
  OrphanAction, orphan_online, stamp, wait, collect, orphan_presence_action,
}
use swarmbus.Registry.Collect.{State-cases, elapsed_aware}
use swarmbus.Registry.Cache.{lookup, has_entry}
use swarmbus.Maintenance.Snapshot.{
  Snapshot, snapshot, IsSnapshot, snapshot-IsSnapshot, IsPresenceSeen, IsObject,
}
use swarmbus.Maintenance.Report.{GcReport, resolved, orphan_resolved}
use swarmbus.Maintenance.Gc.{Settings}
use swarmbus.Maintenance.Gc.Turns.{IsReady, lookup-All}
use swarmbus.Maintenance.Orphans.{
  OrphanTurn, OrphanWrite, fail_orphan, write_audited, count_stamp, count_collect, perform,
  decide_orphan, write_orphan_presence,
}

-- What each action says of the presence it was decided on.
abbrev pub Acts : PresenceRecord → DateTime → ℤ → Result OrphanAction → Type 0
Acts p now retention (ok orphan_online) = p.state ≡ online
Acts p now retention (ok stamp) = (p.state ≡ offline) × (p.first_seen_offline ≡ none)
Acts p now retention (ok wait) =
    (p.state ≡ offline)
    × (at : DateTime) × (p.first_seen_offline ≡ some at)
    × (ltb_ℤ retention (sub_ℕ now.instant at.instant) ≡ false)
Acts p now retention (ok collect) =
    (p.state ≡ offline)
    × (at : DateTime) × (p.first_seen_offline ≡ some at)
    × (ltb_ℤ retention (sub_ℕ now.instant at.instant) ≡ true)
Acts p now retention (err e) = ⊥

positive :
    (stale_after retention : ℤ)
    → leb_ℤ stale_after (pos 0) ≡ false
    → leb_ℤ retention stale_after ≡ false
    → leb_ℤ retention (pos 0) ≡ false
positive (pos a) (pos b) h k = ground arith
positive (pos a) (negsuc b) h k = ground arith
positive (negsuc a) (pos b) h k = ground arith
positive (negsuc a) (negsuc b) h k = ground arith

pub orphan-Acts :
    (p : PresenceRecord) (now : DateTime) (s : Settings)
    → IsReady now s
    → aware_if_set p.first_seen_offline ≡ true
    → Acts p now s.retention (orphan_presence_action p now s.retention)
unfolding orphan_presence_action
orphan-Acts p now s i a = elim (State-cases p.state) [
  | inl e ↦ simp (positive s.stale_after s.retention i.stale_positive i.longer, i.aware, e) refl
  | inr e ↦ elim (Option-cases p.first_seen_offline) [
    | inl n ↦
        simp (positive s.stale_after s.retention i.stale_positive i.longer, i.aware, e, n)
          (refl, refl)
    | inr (at, n) ↦ elim (Bool-cases (ltb_ℤ s.retention (sub_ℕ now.instant at.instant))) [
      | inl b ↦
          simp
            (
              positive s.stale_after s.retention i.stale_positive i.longer,
              i.aware,
              e,
              n,
              elapsed_aware now at i.aware (rw n at a),
              b,
            )
            (refl, at, refl, b)
      | inr b ↦
          simp
            (
              positive s.stale_after s.retention i.stale_positive i.longer,
              i.aware,
              e,
              n,
              elapsed_aware now at i.aware (rw n at a),
              b,
            )
            (refl, at, refl, b)
    ]
  ]
]

-- The fields that an orphan's turn leaves alone.
abbrev pub orphan_frame : GcReport → (ℕ × ℕ × ℕ × ℕ) × (ℕ × ℕ)
orphan_frame r = ((r.scanned, r.eligible, r.selected, r.retained), (r.orphan_presence, resolved r))

-- A turn that counts its orphan once and writes only what satisfies J.
abbrev pub Settled :
    (OrphanWrite → Type 0) → GcReport → Result (GcReport × List OrphanWrite) → Type 0
Settled J before (ok (after, written)) =
    (orphan_resolved after ≡ suc (orphan_resolved before))
    × (after.orphan_deferred ≡ before.orphan_deferred)
    × (orphan_frame after ≡ orphan_frame before)
    × All J written
Settled J before (err e) = ⊥

if-Settled :
    (J : OrphanWrite → Type 0) (report : GcReport) (b : Bool)
    (x y : Result (GcReport × List OrphanWrite))
    → (b ≡ true → Settled J report x)
    → (b ≡ false → Settled J report y)
    → Settled J report (if b then x else y)
if-Settled J report true x y h k = h refl
if-Settled J report false x y h k = k refl

module _ (c : Codec) (t : TopicMap) (now : DateTime) (s : Settings) where
  -- A stamp on, or the deletion of, the presence of an agent, with the reading that authorized it.
  pub record IsDue (turns : Text → OrphanTurn) (x : OrphanWrite) : Type 0 where
    pub agent_id : Text
    pub fresh : PresenceRecord
    pub found : lookup agent_id (snapshot c t (turns agent_id).deliveries).presence ≡ some fresh
    pub unregistered : has_entry agent_id (snapshot c t (turns agent_id).deliveries).records ≡ false
    pub acting : s.dry_run ≡ false
    pub on_topic : x.topic ≡ presence t agent_id
    pub is_offline : fresh.state ≡ offline
    pub due :
        ((fresh.first_seen_offline ≡ none)
          × (payload : Text) × (lookup agent_id
                (snapshot c t (turns agent_id).deliveries).presence_payloads
              ≡ some payload)
          × (stamp_presence_payload c now payload ≡ ok x.body))
        ⊎ ((x.body ≡ [])
            × (at : DateTime) × (fresh.first_seen_offline ≡ some at)
            × (ltb_ℤ s.retention (sub_ℕ now.instant at.instant) ≡ true))

  stampable :
      (payload : Text)
      → is_aware now ≡ true
      → IsObject c (payload, payload)
      → (body : Text) × (stamp_presence_payload c now payload ≡ ok body)
  unfolding stamp_presence_payload
  stampable payload a (fs, e) = rw (a, e) (_, refl)

  audited-Settled :
      (J : OrphanWrite → Type 0) (id : Text) (m : Result Text) (body : Text)
      (count : GcReport → GcReport) (turn : OrphanTurn) (report : GcReport)
      → m ≡ ok body
      → Settled J report (ok (count report, []))
      → J (record { topic = presence t id; body = body })
      → Settled J report (write_audited c t now s id m count turn report)
  audited-Settled J id m body count turn report e (a, b, f, _) j = simp e (
      if-Settled J report (not turn.audits) _ _ (λ n. (omega arith, refl, refl, tt))
        (λ n. published turn.published))
    where
      published :
          (b : Bool)
          → Settled J report (
              ok (
                if b then count report else fail_orphan report,
                record { topic = presence t id; body = body } ∷ [],
              ))
      published true = (a, b, f, (j, tt))
      published false = (omega arith, refl, refl, (j, tt))

  pub orphan-Settled :
      (turns : Text → OrphanTurn) (id : Text) (report : GcReport)
      → IsReady now s
      → Settled (IsDue turns) report (write_orphan_presence c t now s id (turns id) report)
  unfolding write_orphan_presence decide_orphan perform
  orphan-Settled turns id report i =
      by_entries (lookup id fresh.presence) (lookup id fresh.presence_payloads) refl refl
    where
      fresh : Snapshot
      fresh = snapshot c t (turns id).deliveries

      seen : GcReport
      seen = record report { malformed = report.malformed + fresh.invalid_messages }

      is_read : IsSnapshot c fresh
      is_read = snapshot-IsSnapshot c t (turns id).deliveries

      by_entries :
          (o : Option PresenceRecord) (b : Option Text)
          → lookup id fresh.presence ≡ o
          → lookup id fresh.presence_payloads ≡ b
          → Settled
              (IsDue turns)
              report
              (decide_orphan c t now s id o b (has_entry id fresh.records) (turns id) seen)
      by_entries none b e k = (omega arith, refl, refl, tt)
      by_entries (some p) none e k = (omega arith, refl, refl, tt)
      by_entries (some p) (some payload) e k =
          if-Settled (IsDue turns) report (has_entry id fresh.records) _ _
            (λ h. (omega arith, refl, refl, tt))
            (λ h. by_action h (orphan_presence_action p now s.retention) (
              orphan-Acts p now s i
                (lookup-All IsPresenceSeen id fresh.presence is_read.presence_keys e).1))
        where
          by_action :
              has_entry id fresh.records ≡ false
              → (m : Result OrphanAction) → Acts p now s.retention m
              → Settled
                  (IsDue turns)
                  report
                  (m >>= λ action. perform c t now s id payload (turns id) seen action)
          by_action h (err e) a = absurd a
          by_action h (ok orphan_online) a = (omega arith, refl, refl, tt)
          by_action h (ok wait) a = (omega arith, refl, refl, tt)
          by_action h (ok stamp) (off, none_yet) =
              let (body, stamped) =
                stampable payload i.aware
                  (lookup-All (IsObject c) id fresh.presence_payloads is_read.payload_objects k) in
              if-Settled (IsDue turns) report s.dry_run _ _ (λ d. (omega arith, refl, refl, tt))
                (λ d.
                  audited-Settled (IsDue turns) id (stamp_presence_payload c now payload) body
                    (count_stamp id) (turns id) seen stamped (omega arith, refl, refl, tt)
                    (record {
                      agent_id = id;
                      fresh = p;
                      found = e;
                      unregistered = h;
                      acting = d;
                      on_topic = refl;
                      is_offline = off;
                      due = inl (none_yet, payload, k, stamped);
                    }))
          by_action h (ok collect) (off, at, first, aged) =
              if-Settled (IsDue turns) report s.dry_run _ _ (λ d. (omega arith, refl, refl, tt))
                (λ d.
                  audited-Settled (IsDue turns) id (ok []) [] (count_collect id) (turns id) seen
                    refl (omega arith, refl, refl, tt)
                    (record {
                      agent_id = id;
                      fresh = p;
                      found = e;
                      unregistered = h;
                      acting = d;
                      on_topic = refl;
                      is_offline = off;
                      due = inr (refl, at, first, aged);
                    }))
