-- ===== src/Maintenance/Collect/Report.antt =====
-- The report of a collection, from the snapshot to the end of both passes.
use swarmbus.Base.{
  ℕ, suc, ◌+◌, ◌≡◌, refl, sym, ap, ◌∙◌, inl, inr, Bool, true, false, not, List, [], ◌∷◌, length,
  Text, text_eq, text_eq_refl, Option, some, All, if◌then◌else◌, arith, Bool-cases,
}
use swarmbus.Base.Int.{ℤ}
use swarmbus.Base.Result.{Result, ok, err, ◌>>=◌}
use swarmbus.Base.Table.{select_rows}
use swarmbus.Message.Json.{DateTime, Codec}
use swarmbus.Topics.{TopicMap}
use swarmbus.Registry.Records.{RegistryRecord}
use swarmbus.Registry.Presence.{PresenceRecord}
use swarmbus.Registry.Decide.{GcDecision, GcReason, transient_gc_decision}
use swarmbus.Registry.Collect.{Decides}
use swarmbus.Registry.Cache.{lookup, keys, has_entry}
use swarmbus.Registry.Listing.{All-sorted_set}
use swarmbus.Registry.Reachable.{IsRegistryEntry}
use swarmbus.Maintenance.Snapshot.{Snapshot, IsSnapshot, IsPresenceSeen}
use swarmbus.Maintenance.Report.{GcReport, resolved, orphan_resolved}
use swarmbus.Maintenance.Gc.{Settings, Turn, Pass, gc_loop}
use swarmbus.Maintenance.Gc.Turns.{IsReady, IsJustified, decision_ok}
use swarmbus.Maintenance.Gc.Loop.{Passed, loop-Passed}
use swarmbus.Maintenance.Orphans.{OrphanTurn, OrphanPass, stamp_or_collect_orphans}
use swarmbus.Maintenance.Orphans.Turns.{IsDue}
use swarmbus.Maintenance.Orphans.Loop.{Ended, orphans-Ended}
use swarmbus.Maintenance.Collect.{
  orphans_of, Collected, first_report, sift, select_batch, collect_snapshot,
}

module _ {ℓ} {A : Type ℓ} where
  HasKey : List (Text × A) → Text → Type ℓ
  HasKey d id = (a : A) × (lookup id d ≡ some a)

  key_further :
      (d : List (Text × A)) (j : Text) (b : A) (ids : List Text)
      → All (HasKey d) ids
      → All (HasKey ((j, b) ∷ d)) ids
  unfolding lookup HasKey
  key_further d j b [] h = tt
  key_further d j b (id ∷ ids) ((a, e), h) = elim (Bool-cases (text_eq j id)) [
    | inl t ↦ ((b, rw t refl), key_further d j b ids h)
    | inr t ↦ ((a, rw t e), key_further d j b ids h)
  ]

  keys-HasKey : (d : List (Text × A)) → All (HasKey d) (keys d)
  unfolding lookup HasKey
  keys-HasKey [] = tt
  keys-HasKey ((j, a) ∷ d) =
      ((a, rw (text_eq_refl j) refl), key_further d j a (keys d) (keys-HasKey d))

All-select_rows :
    (P : Text → Type 0) (f : Text → Bool) (xs : List Text) → All P xs → All P (select_rows f xs)
unfolding select_rows
All-select_rows P f [] h = tt
All-select_rows P f (x ∷ xs) (p, h) = elim (Bool-cases (f x)) [
  | inl e ↦ rw e (p, All-select_rows P f xs h)
  | inr e ↦ rw e (All-select_rows P f xs h)
]

pub orphans_of-HasPresence :
    (s : Snapshot)
    → All (λ id. (p : PresenceRecord) × (lookup id s.presence ≡ some p)) (orphans_of s)
unfolding HasKey
orphans_of-HasPresence s =
    All-sorted_set (HasKey s.presence)
      (select_rows (λ id. not (has_entry id s.records)) (keys s.presence))
      (All-select_rows (HasKey s.presence) (λ id. not (has_entry id s.records)) (keys s.presence)
        (keys-HasKey s.presence))

-- What the selection of candidates leaves: each record on one side.
abbrev Sifted : ℕ → Result (List RegistryRecord × List GcReason) → Type 0
Sifted n (ok (candidates, preserved)) = length candidates + length preserved ≡ n
Sifted n (err e) = ⊥

-- The report accounts for every record of the snapshot, every selected record and every orphan.
pub record IsAccounted (initial : Snapshot) (r : GcReport) : Type 0 where
  pub all_scanned : r.scanned ≡ length initial.records
  pub all_sifted : r.eligible + r.retained ≡ r.scanned
  pub all_resolved : r.deleted + r.would_delete + r.skipped ≡ r.selected
  pub all_orphans : r.orphan_presence ≡ length (orphans_of initial)
  pub orphans_resolved :
      r.orphan_online + r.orphan_stamped + r.orphan_waiting + r.orphan_collected
        + r.orphan_would_stamp + r.orphan_would_collect + r.orphan_skipped + r.orphan_deferred
      ≡ r.orphan_presence

module _ (c : Codec) (t : TopicMap) (now : DateTime) (s : Settings) (i : IsReady now s) where
  sift_all :
      (d : List (Text × PresenceRecord)) (rs : List (Text × RegistryRecord))
      → All IsPresenceSeen d
      → All IsRegistryEntry rs
      → Sifted (length rs) (sift c t now s d rs)
  unfolding sift
  sift_all d [] seen h = refl
  sift_all d ((id, r) ∷ rs) seen (p, h) =
      decided (lookup id d) _ (transient_gc_decision r (lookup id d) now s.stale_after s.retention)
        (decision_ok c t now s id r d i p seen) (sift c t now s d rs) (sift_all d rs seen h)
    where
      decided :
          (p : Option PresenceRecord) (age : ℤ) (m : Result GcDecision)
          → Decides r p age s.retention m
          → (n : Result (List RegistryRecord × List GcReason)) → Sifted (length rs) n
          → Sifted (suc (length rs)) (
              m >>= λ decision. n >>= λ x.
              let (candidates, preserved) = x in
              ok (
                if decision.eligible
                then (r ∷ candidates, preserved)
                else (candidates, decision.reason ∷ preserved)))
      decided p age (err e) v n k = absurd v
      decided p age (ok g) v (err e) k = absurd k
      decided p age (ok g) v (ok (a, b)) k = elim (Bool-cases g.eligible) [
        | inl e ↦ simp e (omega arith)
        | inr e ↦ simp e (omega arith)
      ]

  abbrev pub Whole : Snapshot → (Text → Turn) → (Text → OrphanTurn) → Result Collected → Type 0
  Whole initial turns orphan_turns (ok out) =
      IsAccounted initial out.report
      × All (IsJustified c t now s turns) out.sent
      × All (IsDue c t now s orphan_turns) out.written
  Whole initial turns orphan_turns (err e) = ⊥

  pub collected-Whole :
      (batch : ℕ) (initial : Snapshot) (turns : Text → Turn) (orphan_turns : Text → OrphanTurn)
      → IsSnapshot c initial
      → Whole initial turns orphan_turns
          (collect_snapshot c t now s batch initial turns orphan_turns)
  unfolding collect_snapshot
  collected-Whole batch initial turns orphan_turns read =
      by_sift (sift c t now s initial.presence initial.records)
        (sift_all initial.presence initial.records read.presence_keys read.registry_keys)
    where
      by_orphans :
          (p : Pass)
          → p.report.orphan_deferred + orphan_resolved p.report ≡ 0
          → (m : Result OrphanPass)
          → Ended
              (IsDue c t now s orphan_turns)
              (orphan_resolved p.report + p.report.orphan_deferred + length (orphans_of initial))
              p.report
              m
          → (p.report.scanned ≡ length initial.records)
          → (p.report.eligible + p.report.retained ≡ length initial.records)
          → (p.report.orphan_presence ≡ length (orphans_of initial))
          → (resolved p.report ≡ p.report.selected)
          → All (IsJustified c t now s turns) p.sent
          → Whole initial turns orphan_turns
              (m >>= λ o. ok (record { report = o.report; sent = p.sent; written = o.written }))
      by_orphans p z (err e) k a b d f j = absurd k
      by_orphans p z (ok o) (n, g, w) a b d f j = (
        record {
          all_scanned = ap (λ x. x.0.0) g ∙ a;
          all_sifted = ap (λ x. x.0.1 + x.0.3) g ∙ b ∙ sym (ap (λ x. x.0.0) g ∙ a);
          all_resolved = ap (λ x. x.1.1) g ∙ f ∙ sym (ap (λ x. x.0.2) g);
          all_orphans = ap (λ x. x.1.0) g ∙ d;
          orphans_resolved = n ∙ omega (arith, z) ∙ sym (ap (λ x. x.1.0) g ∙ d);
        },
        j,
        w,
      )

      by_pass :
          (candidates : List RegistryRecord) (preserved : List GcReason)
          → length candidates + length preserved ≡ length initial.records
          → (m : Result Pass)
          → Passed
              (IsJustified c t now s turns)
              (length (select_batch c t now s batch candidates))
              (length (select_batch c t now s batch candidates))
              (first_report s initial candidates
                (select_batch c t now s batch candidates)
                preserved)
              m
          → Whole initial turns orphan_turns (
              m >>= λ pass.
              stamp_or_collect_orphans c t now s batch pass.broker_lost orphan_turns
                initial.presence
                (orphans_of initial)
                pass.report
              >>= λ o. ok (record { report = o.report; sent = pass.sent; written = o.written }))
      by_pass candidates preserved k (err e) h = absurd h
      by_pass candidates preserved k (ok p) (n, f, h) =
          by_orphans p (ap (λ x. x.1.2 + x.1.1) f)
            (stamp_or_collect_orphans c t now s batch p.broker_lost orphan_turns initial.presence
              (orphans_of initial) p.report)
            (orphans-Ended c t now s i batch p.broker_lost orphan_turns initial.presence
              (orphans_of initial) p.report read.presence_keys (orphans_of-HasPresence initial))
            (ap (λ x. x.0.0) f) (ap (λ x. x.0.1 + x.0.3) f ∙ k) (ap (λ x. x.1.0) f)
            (either p.broker_lost n ∙ sym (ap (λ x. x.0.2) f)) h
        where
          either : (b : Bool) {x y : ℕ} → x ≡ (if b then y else y) → x ≡ y
          either true h = h
          either false h = h

      by_sift :
          (m : Result (List RegistryRecord × List GcReason))
          → Sifted (length initial.records) m
          → Whole initial turns orphan_turns (
              m >>= λ x.
              let (candidates, preserved) = x in
              let selected = select_batch c t now s batch candidates in
              gc_loop c t now s
                (length selected)
                turns
                selected
                (first_report s initial candidates selected preserved)
              >>= λ pass.
                  stamp_or_collect_orphans c t now s batch pass.broker_lost orphan_turns
                    initial.presence
                    (orphans_of initial)
                    pass.report
                  >>= λ o. ok (record { report = o.report; sent = pass.sent; written = o.written }))
      by_sift (err e) k = absurd k
      by_sift (ok (candidates, preserved)) k = by_pass candidates preserved k _ (
          loop-Passed c t now s turns i (length (select_batch c t now s batch candidates))
            (select_batch c t now s batch candidates)
            (first_report s initial candidates (select_batch c t now s batch candidates) preserved)
            (omega arith))
