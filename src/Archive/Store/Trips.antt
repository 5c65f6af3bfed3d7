-- ===== src/Archive/Store/Trips.antt =====
-- A tripped sender stays refused until a person resets it, whatever else arrives.
use swarmbus.Base.{◌≡◌, ◌≢◌, refl, true, Text, Bool-cases, inl, inr, List, [], ◌∷◌}
use swarmbus.Base.Result.{Result, ok, err}
use swarmbus.Message.Json.{Codec}
use swarmbus.Archive.Statements.{is_tripped}
use swarmbus.Archive.Admit.{Decision, Arrival, admit_in}
use swarmbus.Archive.Admit.Gate.{admit_in_gate}
use swarmbus.Archive.Admit.Trips.{TripsAfter, admit_trips, pruned_trips}
use swarmbus.Archive.Store.{Store, admit, finish}

-- The store after a sequence of messages.
unfoldable pub run : (c : Codec) (sha256 : Text → Text) → Store → List Arrival → Store
run c sha256 s [] = s
run c sha256 s (a ∷ rest) = run c sha256 (admit c sha256 s a).0 rest

module _ (c : Codec) (sha256 : Text → Text) (sender : Text) where
  pub finish_trips :
      (s : Store) (r : Result Decision)
      → is_tripped s.db sender ≡ true
      → TripsAfter sender r
      → is_tripped (finish c sha256 s r).0.db sender ≡ true
  finish_trips s (ok d) h k = k
  finish_trips s (err e) h k = h

  run_trips :
      (s : Store) (rest : List Arrival)
      → is_tripped s.db sender ≡ true
      → is_tripped (run c sha256 s rest).db sender ≡ true
  unfolding run admit
  run_trips s [] h = h
  run_trips s (a ∷ rest) h = run_trips (admit c sha256 s a).0 rest (
      finish_trips s (admit_in c sha256 s.limits s.admissions_since_prune a s.db) h
        (admit_trips c sha256 a sender s.limits s.admissions_since_prune s.db h))

  pub refuses :
      (s : Store) (a : Arrival) (r : Result Decision)
      → admit_in c sha256 s.limits s.admissions_since_prune a s.db ≡ r
      → is_tripped s.db a.msg.from_agent ≡ true
      → (finish c sha256 s r).1 ≢ ok true
  refuses s a (err e) q h p = cc
  refuses s a (ok d) q h p = elim (Bool-cases d.admitted) [
    | inr no_answer ↦ cc
    | inl admitted ↦
        let gate = admit_in_gate c sha256 s.limits s.admissions_since_prune a s.db q admitted in
        let kept = pruned_trips c sha256 a a.msg.from_agent s.admissions_since_prune s.db h in
        cc (gate.1, kept)
  ]

-- Once a sender is tripped it stays tripped through every sequence of messages, its own and others';
-- and after any such sequence a message from it is not admitted.
pub tripped_stays_refused :
    (c : Codec) (sha256 : Text → Text) (s : Store) (before : List Arrival) (a : Arrival)
    → is_tripped s.db a.msg.from_agent ≡ true
    → (is_tripped (run c sha256 s before).db a.msg.from_agent ≡ true)
      × ((admit c sha256 (run c sha256 s before) a).1 ≢ ok true)
tripped_stays_refused c sha256 s before a h =
    let after = run c sha256 s before in
    let kept = run_trips c sha256 a.msg.from_agent s before h in
    (kept, unfold admit in refuses c sha256 a.msg.from_agent after a _ refl kept)
