-- ===== src/Maintenance/Gc/Loop.antt =====
-- The loop over the selected records counts each once, whether or not the broker is lost on the way.
use swarmbus.Base.{
  ℕ, suc, ◌+◌, ◌≡◌, refl, sym, subst, ap, ◌∙◌, ◌≤◌, inl, inr, List, [], ◌∷◌, ◌++◌, length, Text,
  All, All-append, if◌then◌else◌, arith, Bool-cases, ◌==◌,
}
use swarmbus.Base.Result.{Result, ok, err, ◌>>=◌}
use swarmbus.Message.Json.{DateTime, Codec}
use swarmbus.Topics.{TopicMap}
use swarmbus.Registry.Records.{RegistryRecord}
use swarmbus.Maintenance.Report.{GcReport, resolved}
use swarmbus.Maintenance.Gc.{
  Settings, Turn, Tombstone, attend, lose, Pass, end_turn, gc_turn, gc_loop,
}
use swarmbus.Maintenance.Gc.Turns.{IsReady, IsJustified, Counted, frame, attend-Counted}

-- A pass that deleted only what satisfies J, left the frame alone, and ends with `n` records resolved, or `total` if
-- the broker is lost.
abbrev pub Passed : (Tombstone → Type 0) → ℕ → ℕ → GcReport → Result Pass → Type 0
Passed J total n before (ok p) =
    (resolved p.report ≡ (if p.broker_lost then total else n))
    × (frame p.report ≡ frame before)
    × All J p.sent
Passed J total n before (err e) = ⊥

lose_counts :
    (id : Text) (total before : ℕ) (r : GcReport)
    → resolved r ≤ total
    → (resolved (lose id total before r) ≡ total) × (frame (lose id total before r) ≡ frame r)
lose_counts id total before r h = elim (Bool-cases (resolved r == before)) [
  | inl e ↦ simp e (omega arith, refl)
  | inr e ↦ simp e (omega arith, refl)
]

ended :
    (J : Tombstone → Type 0) (id : Text) (total : ℕ) (before : GcReport) (turn : Turn)
    (m : Result (GcReport × List Tombstone))
    → suc (resolved before) ≤ total
    → Counted J before m
    → Passed J total
        (suc (resolved before))
        before
        (m >>= λ x. ok (end_turn id total (resolved before) turn x))
ended J id total before turn (err e) b h = absurd h
ended J id total before turn (ok (after, sent)) b (n, f, h) = elim (Bool-cases turn.closes) [
  | inl e ↦ simp e (n, f, h)
  | inr e ↦
      let (m, g) =
        lose_counts id total (resolved before) after (subst (λ k. k ≤ total) (sym n) b) in
      simp e (m, g ∙ f, h)
]

module _ (c : Codec) (t : TopicMap) (now : DateTime) (s : Settings) (turns : Text → Turn)
    (i : IsReady now s) where
  turn-Passed :
      (total : ℕ) (id : Text) (report : GcReport)
      → suc (resolved report) ≤ total
      → Passed
          (IsJustified c t now s turns)
          total
          (suc (resolved report))
          report
          (gc_turn c t now s total id (turns id) report)
  unfolding gc_turn
  turn-Passed total id report b = elim (Bool-cases (turns id).connects) [
    | inr e ↦
        let (m, g) = lose_counts id total (resolved report) report (omega arith) in
        simp e (m, g, tt)
    | inl e ↦ simp e (
        ended (IsJustified c t now s turns) id total report (turns id)
          (attend c t now s id (turns id) report) b (attend-Counted c t now s turns id report i))
  ]

  along :
      (total : ℕ) (rest : List RegistryRecord) (before : GcReport) (m : Result Pass)
      → ((p : Pass)
          → resolved p.report + length rest ≡ total
          → Passed
              (IsJustified c t now s turns)
              total
              total
              p.report
              (gc_loop c t now s total turns rest p.report))
      → suc (resolved before) + length rest ≡ total
      → Passed (IsJustified c t now s turns) total (suc (resolved before)) before m
      → Passed (IsJustified c t now s turns) total total before (
          m >>= λ pass. if pass.broker_lost then ok pass else (do
            others ← gc_loop c t now s total turns rest pass.report
            ok (record others { sent = pass.sent ++ others.sent })))
  along total rest before (err e) next b h = absurd h
  along total rest before (ok p) next b (n, f, h) = elim (Bool-cases p.broker_lost) [
    | inl e ↦ simp e (simp e at n, f, h)
    | inr e ↦ simp e (
        joined (gc_loop c t now s total turns rest p.report)
          (next p (ap (λ k. k + length rest) (simp e at n) ∙ b)))
  ]
    where
      joined :
          (m : Result Pass)
          → Passed (IsJustified c t now s turns) total total p.report m
          → Passed
              (IsJustified c t now s turns)
              total
              total
              before
              (m >>= λ others. ok (record others { sent = p.sent ++ others.sent }))
      joined (err e) k = absurd k
      joined (ok q) (m, g, k) =
          (m, g ∙ f, All-append (IsJustified c t now s turns) p.sent q.sent h k)

  pub loop-Passed :
      (total : ℕ) (rs : List RegistryRecord) (report : GcReport)
      → resolved report + length rs ≡ total
      → Passed
          (IsJustified c t now s turns)
          total
          total
          report
          (gc_loop c t now s total turns rs report)
  unfolding gc_loop
  loop-Passed total [] report b = (omega arith, refl, tt)
  loop-Passed total (r ∷ rs) report b =
      along total rs report (gc_turn c t now s total r.agent_id (turns r.agent_id) report)
        (λ p. loop-Passed total rs p.report) (omega arith)
        (turn-Passed total r.agent_id report (omega arith))
