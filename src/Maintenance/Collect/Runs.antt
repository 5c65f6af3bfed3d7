-- ===== src/Maintenance/Collect/Runs.antt =====
-- What a whole run of `gc_transient` promises.
use swarmbus.Base.{
  ◌≡◌, refl, sym, subst, ◌∙◌, ◌⊎◌, Bool, true, false, not, ◌||◌, List, [], ◌∷◌, Text, Option, none,
  some, All, arith, Bool-cases, inl, inr,
}
use swarmbus.Base.Int.{ℤ, pos, leb_ℤ, pos_part}
use swarmbus.Base.Result.{Result, ok, err, value_error, mqtt_error, ◌>>◌, raise_if, ok-injective}
use swarmbus.Message.Json.{DateTime, Codec}
use swarmbus.Topics.{TopicMap}
use swarmbus.Registry.Records.{is_aware}
use swarmbus.Maintenance.Snapshot.{Delivery, Snapshot, snapshot, snapshot-IsSnapshot}
use swarmbus.Maintenance.Gc.{Settings, Turn}
use swarmbus.Maintenance.Gc.Turns.{IsReady, IsJustified}
use swarmbus.Maintenance.Orphans.{OrphanTurn}
use swarmbus.Maintenance.Orphans.Turns.{IsDue}
use swarmbus.Maintenance.Collect.{Collected, gc_transient}
use swarmbus.Maintenance.Collect.Report.{IsAccounted, Whole, collected-Whole}

none_of : {A : Type 0} (P : A → Type 0) (xs : List A) → ((x : A) → P x → ⊥) → All P xs → xs ≡ []
none_of P [] never h = refl
none_of P (x ∷ xs) never (p, h) = absurd (never x p)

-- `gc_transient` refuses its arguments.
abbrev pub is_refused : ℤ → DateTime → Settings → Bool
is_refused batch_size now s =
    leb_ℤ s.stale_after (pos 0)
    || leb_ℤ s.retention s.stale_after
    || leb_ℤ batch_size (pos 0)
    || not (is_aware now)

module _ (c : Codec) (t : TopicMap) (now : DateTime) (s : Settings) where
  ready :
      (batch_size : ℤ)
      → is_refused batch_size now s ≡ false
      → IsReady now s × (leb_ℤ batch_size (pos 0) ≡ false)
  ready batch_size h = (
    record { stale_positive = ground arith; longer = ground arith; aware = ground arith },
    ground arith,
  )

  ok-Whole :
      (i : IsReady now s) (initial : Snapshot) (turns : Text → Turn)
      (orphan_turns : Text → OrphanTurn) (m : Result Collected)
      → Whole c t now s i initial turns orphan_turns m
      → (out : Collected) × (m ≡ ok out)
        × IsAccounted initial out.report
        × All (IsJustified c t now s turns) out.sent
        × All (IsDue c t now s orphan_turns) out.written
  ok-Whole i initial turns orphan_turns (err e) h = absurd h
  ok-Whole i initial turns orphan_turns (ok out) (a, j, d) = (out, refl, a, j, d)

  runs :
      (batch_size : ℤ) (initial : List Delivery) (turns : Text → Turn)
      (orphan_turns : Text → OrphanTurn)
      → is_refused batch_size now s ≡ false
      → (out : Collected) × (gc_transient c t now s batch_size (some initial) turns orphan_turns
          ≡ ok out)
        × IsAccounted (snapshot c t initial) out.report
        × All (IsJustified c t now s turns) out.sent
        × All (IsDue c t now s orphan_turns) out.written
  unfolding gc_transient
  runs batch_size initial turns orphan_turns h =
      let (i, b) = ready batch_size h in
      simp (i.stale_positive, i.longer, i.aware, b)
        (ok-Whole i (snapshot c t initial) turns orphan_turns _ (
          collected-Whole c t now s i (pos_part batch_size) (snapshot c t initial) turns
            orphan_turns (snapshot-IsSnapshot c t initial)))

  loses :
      (batch_size : ℤ) (turns : Text → Turn) (orphan_turns : Text → OrphanTurn)
      → is_refused batch_size now s ≡ false
      → gc_transient c t now s batch_size none turns orphan_turns ≡ err mqtt_error
  unfolding gc_transient
  loses batch_size turns orphan_turns h =
      let (i, b) = ready batch_size h in simp (i.stale_positive, i.longer, i.aware, b) refl

  refuses :
      (batch_size : ℤ) (first : Option (List Delivery)) (turns : Text → Turn)
      (orphan_turns : Text → OrphanTurn)
      → is_refused batch_size now s ≡ true
      → gc_transient c t now s batch_size first turns orphan_turns ≡ err value_error
  unfolding gc_transient
  refuses batch_size first turns orphan_turns h =
      by_guards (leb_ℤ s.stale_after (pos 0)) (leb_ℤ s.retention s.stale_after)
        (leb_ℤ batch_size (pos 0)) (not (is_aware now)) _ h
    where
      by_guards :
          (a b d e : Bool) (k : Result Collected)
          → (a || b || d || e) ≡ true
          → (raise_if a value_error
              >> (raise_if b value_error
                  >> (raise_if d value_error >> (raise_if e value_error >> k))))
            ≡ err value_error
      by_guards true b d e k h = refl
      by_guards false true d e k h = refl
      by_guards false false true e k h = refl
      by_guards false false false true k h = refl
      by_guards false false false false k h = cc

  -- `gc_transient` raises ValueError when the staleness limit or the batch size is not positive, the retention is not
  -- longer than the staleness limit, or the clock reading is not aware; otherwise it raises MqttError when its first
  -- snapshot fails. In every other case it returns a report, whatever connections, publishes and audits fail
  -- after that. In it, the scanned records are those of the first snapshot, each eligible or retained; each
  -- selected record is deleted, would be deleted, or skipped, once; and each orphan of the first
  -- snapshot is counted once as online, stamped, waiting, collected, to be stamped, to be
  -- collected, skipped or deferred.
  pub gc_transient-IsAccounted :
      (batch_size : ℤ) (first : Option (List Delivery)) (turns : Text → Turn)
      (orphan_turns : Text → OrphanTurn)
      → ((is_refused batch_size now s ≡ true)
          × (gc_transient c t now s batch_size first turns orphan_turns ≡ err value_error))
        ⊎ ((is_refused batch_size now s ≡ false)
            × (first ≡ none)
            × (gc_transient c t now s batch_size first turns orphan_turns ≡ err mqtt_error))
        ⊎ ((is_refused batch_size now s ≡ false)
            × (initial : List Delivery) × (first ≡ some initial)
            × (out : Collected) × (gc_transient c t now s batch_size first turns orphan_turns
                ≡ ok out)
            × IsAccounted (snapshot c t initial) out.report)
  gc_transient-IsAccounted batch_size first turns orphan_turns =
      elim (Bool-cases (is_refused batch_size now s)) [
        | inl e ↦ inl (e, refuses batch_size first turns orphan_turns e)
        | inr e ↦ inr (accepted first e)
      ]
    where
      accepted :
          (f : Option (List Delivery))
          → is_refused batch_size now s ≡ false
          → ((is_refused batch_size now s ≡ false)
              × (f ≡ none)
              × (gc_transient c t now s batch_size f turns orphan_turns ≡ err mqtt_error))
            ⊎ ((is_refused batch_size now s ≡ false)
                × (initial : List Delivery) × (f ≡ some initial)
                × (out : Collected) × (gc_transient c t now s batch_size f turns orphan_turns
                    ≡ ok out)
                × IsAccounted (snapshot c t initial) out.report)
      accepted none e = inl (e, refl, loses batch_size turns orphan_turns e)
      accepted (some initial) e =
          let (out, returned, accounted, _, _) = runs batch_size initial turns orphan_turns e in
          inr (e, initial, refl, out, returned, accounted)

  returned_runs :
      (batch_size : ℤ) (first : Option (List Delivery)) (turns : Text → Turn)
      (orphan_turns : Text → OrphanTurn) {out : Collected}
      → gc_transient c t now s batch_size first turns orphan_turns ≡ ok out
      → (is_refused batch_size now s ≡ false)
  returned_runs batch_size first turns orphan_turns h =
      elim (Bool-cases (is_refused batch_size now s)) [
        | inl e ↦ let r = refuses batch_size first turns orphan_turns e in cc
        | inr e ↦ e
      ]

  -- When `gc_transient` returns, what it published was allowed, and nothing was in a dry run. A deletion of an agent's
  -- retained message goes to its presence or registry topic, and the snapshot read in that agent's own turn
  -- holds a record of known durability, with the transient lifecycle, a presence that says offline and an
  -- age over the retention; it goes out on the agent's own session only if the record is durable. A
  -- message on the presence topic of an orphan follows a snapshot, read in that orphan's own turn,
  -- with no record of the agent and an offline presence: one with no stamp, and the message is the
  -- payload read then with its stamp added; or one with a stamp older than the retention,
  -- and the message is empty.
  pub gc_transient-justified :
      (batch_size : ℤ) (first : Option (List Delivery)) (turns : Text → Turn)
      (orphan_turns : Text → OrphanTurn) {out : Collected}
      → gc_transient c t now s batch_size first turns orphan_turns ≡ ok out
      → All (IsJustified c t now s turns) out.sent × All (IsDue c t now s orphan_turns) out.written
  gc_transient-justified batch_size none turns orphan_turns h =
      let lost =
        loses batch_size turns orphan_turns (returned_runs batch_size none turns orphan_turns h) in
      cc
  gc_transient-justified batch_size (some initial) turns orphan_turns {out} h =
      let (made, returned, _, j, d) =
        runs batch_size initial turns orphan_turns
          (returned_runs batch_size (some initial) turns orphan_turns h) in
      subst
        (λ (x : Collected).
          All (IsJustified c t now s turns) x.sent × All (IsDue c t now s orphan_turns) x.written)
        (ok-injective (sym returned ∙ h)) (j, d)

  -- A dry run of `gc_transient` that returns has published nothing.
  pub gc_transient-dry_run :
      (batch_size : ℤ) (first : Option (List Delivery)) (turns : Text → Turn)
      (orphan_turns : Text → OrphanTurn) {out : Collected}
      → s.dry_run ≡ true
      → gc_transient c t now s batch_size first turns orphan_turns ≡ ok out
      → (out.sent ≡ []) × (out.written ≡ [])
  gc_transient-dry_run batch_size first turns orphan_turns {out} d h =
      let (j, k) = gc_transient-justified batch_size first turns orphan_turns h in
      (
        none_of (IsJustified c t now s turns) out.sent (λ x w. let a = w.acting in cc) j,
        none_of (IsDue c t now s orphan_turns) out.written (λ x w. let a = w.acting in cc) k,
      )
