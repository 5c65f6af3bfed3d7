-- ===== src/Maintenance/Orphans/Loop.antt =====
-- Every orphan of the selection is counted once, or waits for the next run.
use swarmbus.Base.{
  ℕ, suc, ◌+◌, ◌≡◌, refl, ◌∙◌, inl, inr, Bool, true, false, not, List, [], ◌∷◌, ◌++◌, length, Text,
  some, All, All-append, if◌then◌else◌, arith, Bool-cases, ◌==◌, ltb, length-append,
}
use swarmbus.Base.Result.{Result, ok, err, ◌>>=◌}
use swarmbus.Message.Json.{DateTime, Codec}
use swarmbus.Topics.{TopicMap}
use swarmbus.Registry.Presence.{PresenceRecord}
use swarmbus.Registry.Decide.{
  OrphanAction, orphan_online, stamp, wait, collect, orphan_presence_action,
}
use swarmbus.Registry.Cache.{lookup}
use swarmbus.Maintenance.Snapshot.{IsPresenceSeen}
use swarmbus.Maintenance.Report.{GcReport, orphan_resolved}
use swarmbus.Maintenance.Gc.{Settings}
use swarmbus.Maintenance.Gc.Turns.{IsReady, lookup-All}
use swarmbus.Maintenance.Orphans.{
  OrphanTurn, OrphanWrite, OrphanPass, choose, choose_orphans, lose_orphan, write_orphan_presence,
  orphan_loop, act_on, stamp_or_collect_orphans,
}
use swarmbus.Maintenance.Orphans.Turns.{
  IsDue, Acts, orphan-Acts, orphan_frame, Settled, orphan-Settled,
}

-- A pass that wrote only what satisfies J, left the frame alone, and ends with `total` orphans counted or deferred.
abbrev pub Ended : (OrphanWrite → Type 0) → ℕ → GcReport → Result OrphanPass → Type 0
Ended J total before (ok p) =
    (orphan_resolved p.report + p.report.orphan_deferred ≡ total)
    × (orphan_frame p.report ≡ orphan_frame before)
    × All J p.written
Ended J total before (err e) = ⊥

lost_before :
    (rest : ℕ) (r : GcReport)
    → (orphan_resolved (lose_orphan (orphan_resolved r) rest r)
          + (lose_orphan (orphan_resolved r) rest r).orphan_deferred
        ≡ suc (orphan_resolved r + r.orphan_deferred + rest))
      × (orphan_frame (lose_orphan (orphan_resolved r) rest r) ≡ orphan_frame r)
lost_before rest r = elim (Bool-cases (orphan_resolved r == orphan_resolved r)) [
  | inl e ↦ simp e (omega arith, refl)
  | inr e ↦ absurd (ground arith)
]

lost_after :
    (before rest : ℕ) (r : GcReport)
    → orphan_resolved r ≡ suc before
    → (orphan_resolved (lose_orphan before rest r) + (lose_orphan before rest r).orphan_deferred
        ≡ orphan_resolved r + r.orphan_deferred + rest)
      × (orphan_frame (lose_orphan before rest r) ≡ orphan_frame r)
lost_after before rest r h = elim (Bool-cases (orphan_resolved r == before)) [
  | inl e ↦ absurd (ground arith)
  | inr e ↦ simp e (omega arith, refl)
]

if-Ended :
    (J : OrphanWrite → Type 0) (total : ℕ) (report : GcReport) (b : Bool) (x y : Result OrphanPass)
    → Ended J total report x
    → Ended J total report y
    → Ended J total report (if b then x else y)
if-Ended J total report true x y h k = h
if-Ended J total report false x y h k = k

module _ (c : Codec) (t : TopicMap) (now : DateTime) (s : Settings) (i : IsReady now s) where
  loop-Ended :
      (turns : Text → OrphanTurn) (total : ℕ) (ids : List Text) (report : GcReport)
      → orphan_resolved report + report.orphan_deferred + length ids ≡ total
      → Ended (IsDue c t now s turns) total report (orphan_loop c t now s turns ids report)
  unfolding orphan_loop
  loop-Ended turns total [] report b = (omega arith, refl, tt)
  loop-Ended turns total (id ∷ rest) report b =
      if-Ended (IsDue c t now s turns) total report (not (turns id).connects) _ _
        (let (n, f) = lost_before (length rest) report in (omega arith, f, tt))
        (written (loop-Ended turns total rest)
          (write_orphan_presence c t now s id (turns id) report)
          (orphan-Settled c t now s turns id report i))
    where
      written :
          ((after : GcReport)
            → orphan_resolved after + after.orphan_deferred + length rest ≡ total
            → Ended (IsDue c t now s turns) total after (orphan_loop c t now s turns rest after))
          → (m : Result (GcReport × List OrphanWrite)) → Settled (IsDue c t now s turns) report m
          → Ended (IsDue c t now s turns) total report (
              m >>= λ x.
              let (after, written) = x in
              if not (turns id).closes
              then ok (record {
                report = lose_orphan (orphan_resolved report) (length rest) after;
                written = written;
              })
              else (do
                others ← orphan_loop c t now s turns rest after
                ok (record others { written = written ++ others.written })))
      written next (err e) h = absurd h
      written next (ok (after, w)) (n, d, f, h) =
          if-Ended (IsDue c t now s turns) total report (not (turns id).closes) _ _
            (let (m, g) = lost_after (orphan_resolved report) (length rest) after n in
              (omega arith, g ∙ f, h))
            (joined (orphan_loop c t now s turns rest after) (next after (omega arith)))
        where
          joined :
              (m : Result OrphanPass)
              → Ended (IsDue c t now s turns) total after m
              → Ended
                  (IsDue c t now s turns)
                  total
                  report
                  (m >>= λ others. ok (record others { written = w ++ others.written }))
          joined (err e) k = absurd k
          joined (ok p) (a, g, k) = (a, g ∙ f, All-append (IsDue c t now s turns) w p.written h k)

  -- A selection that accounts for every orphan it has passed.
  abbrev Chosen : ℕ → GcReport → Result (List Text × GcReport) → Type 0
  Chosen total before (ok (ids, r)) =
      (orphan_resolved r + r.orphan_deferred + length ids ≡ total)
      × (orphan_frame r ≡ orphan_frame before)
  Chosen total before (err e) = ⊥

  choose-Chosen :
      (batch : ℕ) (id : Text) (selected : List Text) (r : GcReport) (a : OrphanAction) (total : ℕ)
      → suc (orphan_resolved r + r.orphan_deferred + length selected) ≡ total
      → Chosen total r (ok (choose batch id selected r a))
  choose-Chosen batch id selected r orphan_online total h = (omega arith, refl)
  choose-Chosen batch id selected r wait total h = (omega arith, refl)
  choose-Chosen batch id selected r stamp total h =
      elim (Bool-cases (ltb (length selected) batch)) [
        | inl e ↦ simp (e, length-append selected (id ∷ [])) (omega arith, refl)
        | inr e ↦ simp e (omega arith, refl)
      ]
  choose-Chosen batch id selected r collect total h =
      elim (Bool-cases (ltb (length selected) batch)) [
        | inl e ↦ simp (e, length-append selected (id ∷ [])) (omega arith, refl)
        | inr e ↦ simp e (omega arith, refl)
      ]

  abbrev HasPresence : List (Text × PresenceRecord) → Text → Type 0
  HasPresence d id = (p : PresenceRecord) × (lookup id d ≡ some p)

  all-Chosen :
      (batch : ℕ) (d : List (Text × PresenceRecord)) (ids selected : List Text) (r : GcReport)
      (total : ℕ)
      → All IsPresenceSeen d
      → All (HasPresence d) ids
      → orphan_resolved r + r.orphan_deferred + length selected + length ids ≡ total
      → Chosen total r (choose_orphans c t now s batch d ids selected r)
  unfolding choose_orphans
  all-Chosen batch d [] selected r total seen h b = (omega arith, refl)
  all-Chosen batch d (id ∷ ids) selected r total seen ((p, e), h) b = rw e (
      acted (all-Chosen batch d ids) (orphan_presence_action p now s.retention)
        (orphan-Acts p now s i (lookup-All IsPresenceSeen id d seen e).1))
    where
      acted :
          ((selected : List Text) (r : GcReport) (total : ℕ)
            → All IsPresenceSeen d
            → All (HasPresence d) ids
            → orphan_resolved r + r.orphan_deferred + length selected + length ids ≡ total
            → Chosen total r (choose_orphans c t now s batch d ids selected r))
          → (m : Result OrphanAction) → Acts p now s.retention m
          → Chosen total r (
              m >>= λ action.
              let (more, counted) = choose batch id selected r action in
              choose_orphans c t now s batch d ids more counted)
      acted next (err x) a = absurd a
      acted next (ok action) a =
          let more = (choose batch id selected r action).0 in
          let counted = (choose batch id selected r action).1 in
          let (n, f) =
            choose-Chosen batch id selected r action
              (suc (orphan_resolved r + r.orphan_deferred + length selected)) refl in
          framed counted f (choose_orphans c t now s batch d ids more counted)
            (next more counted total seen h (omega (arith, n, b)))
        where
          framed :
              (q : GcReport)
              → orphan_frame q ≡ orphan_frame r
              → (m : Result (List Text × GcReport)) → Chosen total q m
              → Chosen total r m
          framed q f (err x) k = absurd k
          framed q f (ok (l, r2)) (a, g) = (a, g ∙ f)

  pub orphans-Ended :
      (batch : ℕ) (lost : Bool) (turns : Text → OrphanTurn) (d : List (Text × PresenceRecord))
      (ids : List Text) (r : GcReport)
      → All IsPresenceSeen d
      → All (λ id. (p : PresenceRecord) × (lookup id d ≡ some p)) ids
      → Ended
          (IsDue c t now s turns)
          (orphan_resolved r + r.orphan_deferred + length ids)
          r
          (stamp_or_collect_orphans c t now s batch lost turns d ids r)
  unfolding stamp_or_collect_orphans
  orphans-Ended batch lost turns d ids r seen h =
      acted lost (choose_orphans c t now s batch d ids [] r)
        (all-Chosen batch d ids [] r _ seen h (omega arith))
    where
      acted :
          (lost : Bool) (m : Result (List Text × GcReport))
          → Chosen (orphan_resolved r + r.orphan_deferred + length ids) r m
          → Ended
              (IsDue c t now s turns)
              (orphan_resolved r + r.orphan_deferred + length ids)
              r
              (m >>= λ chosen. act_on c t now s lost turns chosen)
      acted lost (err e) k = absurd k
      acted true (ok (l, q)) (a, f) = (omega arith, f, tt)
      acted false (ok (l, q)) (a, f) =
          framed (orphan_loop c t now s turns l q) (loop-Ended turns _ l q a)
        where
          framed :
              (m : Result OrphanPass)
              → Ended
                  (IsDue c t now s turns)
                  (orphan_resolved r + r.orphan_deferred + length ids)
                  q
                  m
              → Ended
                  (IsDue c t now s turns)
                  (orphan_resolved r + r.orphan_deferred + length ids)
                  r
                  m
          framed (err e) k = absurd k
          framed (ok p) (b, g, w) = (b, g ∙ f, w)
