-- ===== src/Archive/Admit/Trips.antt =====
-- A tripped sender stays refused until a person resets it.
use swarmbus.Base.{
  ltb, ◌≡◌, refl, Bool, true, false, ℕ, Text, text_eq, Option, none, some, arith, Bool-cases, inl,
  inr, if◌then◌else◌, any-append, [], ◌∷◌,
}
use swarmbus.Base.Result.{Result, ok, err, ◌>>=◌}
use swarmbus.Message.Json.{Codec}
use swarmbus.Archive.Rows.{
  Database, Limits, Reason, HeldRow, TripRow, HoldRow, AdmittedRow, sender_tripped,
  hop_limit_reason, rate_limit_reason,
}
use swarmbus.Archive.Caps.{prune_admitted, cap_held, cap_conflicts}
use swarmbus.Archive.Statements.{
  is_held, is_tripped, has_admitted, insert_held, insert_trip, insert_admitted, find_admitted,
  end_hold, shorten_hold, upsert_bucket, find_hold, replace_hold, record_conflict_in,
}
use swarmbus.Archive.Admit.{
  Decision, Arrival, is_broadcast, pruned, kept_envelope, hold_sender_message, hold_and_refuse,
  decide_known, trip_sender, admit_new, over_rate, cool_down, draw_token, clamp_hold, check_rate,
  decide_new, decide_seen, admit_in, prunes,
}

-- Of a step that succeeds: the sender is tripped in the tables that it leaves.
abbrev pub TripsIn : Text → Result Database → Type 0
TripsIn sender (ok db) = is_tripped db sender ≡ true
TripsIn sender (err e) = Unit {0}

abbrev pub TripsAfter : Text → Result Decision → Type 0
TripsAfter sender (ok d) = is_tripped d.db sender ≡ true
TripsAfter sender (err e) = Unit {0}

after_bind :
    (sender : Text) (m : Result Database) (f : Database → Result Decision)
    → TripsIn sender m
    → ((db : Database) → is_tripped db sender ≡ true → TripsAfter sender (f db))
    → TripsAfter sender (m >>= f)
after_bind sender (ok db) f h k = k db h
after_bind sender (err e) f h k = tt

bind_trips :
    {A : Type 0} (sender : Text) (m : Result A) (f : A → Result Database)
    → ((x : A) → TripsIn sender (f x))
    → TripsIn sender (m >>= f)
bind_trips sender (ok x) f k = k x
bind_trips sender (err e) f k = tt

after_if :
    (sender : Text) (b : Bool) (x y : Result Decision)
    → TripsAfter sender x
    → TripsAfter sender y
    → TripsAfter sender (if b then x else y)
after_if sender true x y h k = h
after_if sender false x y h k = k

module _ (c : Codec) (sha256 : Text → Text) (a : Arrival) (sender : Text) where
  held_trips :
      (row : HeldRow) (db : Database)
      → is_tripped db sender ≡ true
      → TripsIn sender (insert_held row db)
  unfolding insert_held
  held_trips row db h = elim (Bool-cases (is_held db row.id)) [ inl e ↦ rw e tt | inr e ↦ rw e h ]

  hold_trips :
      (reason : Reason) (db : Database)
      → is_tripped db sender ≡ true
      → TripsIn sender (hold_sender_message c sha256 a reason db)
  unfolding hold_sender_message
  hold_trips reason db h =
      bind_trips sender (kept_envelope c sha256 db a.msg reason) _ (λ k. held_trips _ db h)

  refuse_trips :
      (reason : Reason) (db : Database)
      → is_tripped db sender ≡ true
      → TripsAfter sender (hold_and_refuse c sha256 a reason db)
  unfolding hold_and_refuse cap_held
  refuse_trips reason db h =
      after_bind sender (hold_sender_message c sha256 a reason db) _ (hold_trips reason db h)
        (λ _ k. k)

  insert_trips :
      (row : TripRow) (db : Database)
      → is_tripped db sender ≡ true
      → TripsIn sender (insert_trip row db)
  unfolding insert_trip
  insert_trips row db h = elim (Bool-cases (is_tripped db row.sender)) [
    | inl e ↦ rw e tt
    | inr e ↦ rw (e, any-append (λ t. text_eq t.sender sender) db.hop_trips (row ∷ []), h) refl
  ]

  trip_trips :
      (db : Database) → is_tripped db sender ≡ true → TripsAfter sender (trip_sender c sha256 a db)
  unfolding trip_sender cap_held
  trip_trips db h =
      after_bind sender (insert_held _ db) _ (held_trips _ db h)
        (λ held k. after_bind sender (insert_trip _ held) _ (insert_trips _ held k) (λ _ t. t))

  new_trips :
      (db : Database) → is_tripped db sender ≡ true → TripsAfter sender (admit_new c sha256 a db)
  unfolding admit_new insert_admitted
  new_trips db h = elim (Bool-cases (has_admitted db a.msg.id)) [ inl e ↦ rw e tt | inr e ↦ rw e h ]

  over_trips :
      (limits : Limits) (db : Database)
      → is_tripped db sender ≡ true
      → TripsAfter sender (over_rate c sha256 limits a db)
  unfolding over_rate cool_down cap_held replace_hold
  over_trips limits db h =
      after_bind sender (hold_sender_message c sha256 a rate_limit_reason db) _
        (hold_trips rate_limit_reason db h) (λ held k. ground arith)

  draw_trips :
      (limits : Limits) (db : Database)
      → is_tripped db sender ≡ true
      → TripsAfter sender (draw_token c sha256 limits a db)
  unfolding draw_token upsert_bucket
  draw_trips limits db h = after_if sender _ _ _ (new_trips _ h) (over_trips limits _ h)

  clamp_trips :
      (limits : Limits) (hold : HoldRow) (db : Database)
      → is_tripped db sender ≡ true
      → is_tripped (clamp_hold c sha256 limits a hold db) sender ≡ true
  unfolding clamp_hold shorten_hold
  clamp_trips limits hold db h = ground arith

  rate_trips :
      (limits : Limits) (hold : Option HoldRow) (db : Database)
      → is_tripped db sender ≡ true
      → TripsAfter sender (check_rate c sha256 limits a hold db)
  unfolding check_rate end_hold
  rate_trips limits none db h = draw_trips limits db h
  rate_trips limits (some hold) db h =
      after_if sender _ _ _ (refuse_trips rate_limit_reason _ (clamp_trips limits hold db h))
        (draw_trips limits (end_hold a.msg.from_agent db) h)

  decide_trips :
      (limits : Limits) (db : Database)
      → is_tripped db sender ≡ true
      → TripsAfter sender (decide_new c sha256 limits a db)
  unfolding decide_new
  decide_trips limits db h =
      after_if sender (ltb limits.hop_limit a.msg.hops) _ _
        (after_if sender (is_broadcast a) (hold_and_refuse c sha256 a hop_limit_reason db)
          (trip_sender c sha256 a db) (refuse_trips hop_limit_reason db h) (trip_trips db h))
        (after_if sender (ltb 0 limits.rate_limit)
          (check_rate c sha256 limits a (find_hold db a.msg.from_agent) db)
          (admit_new c sha256 a db) (rate_trips limits _ db h) (new_trips db h))

  known_trips :
      (row : AdmittedRow) (db : Database)
      → is_tripped db sender ≡ true
      → is_tripped (decide_known c sha256 a row db).db sender ≡ true
  unfolding decide_known record_conflict_in cap_conflicts
  known_trips row db h = ground arith

  seen_trips :
      (limits : Limits) (row : Option AdmittedRow) (db : Database)
      → is_tripped db sender ≡ true
      → TripsAfter sender (decide_seen c sha256 limits a row db)
  unfolding decide_seen
  seen_trips limits (some row) db h = known_trips row db h
  seen_trips limits none db h = decide_trips limits db h

  pub pruned_trips :
      (count : ℕ) (db : Database)
      → is_tripped db sender ≡ true
      → is_tripped (pruned count a db) sender ≡ true
  unfolding prune_admitted
  pruned_trips count db h = elim (Bool-cases (prunes count)) [ inl e ↦ rw e h | inr e ↦ rw e h ]

  pub admit_trips :
      (limits : Limits) (count : ℕ) (db : Database)
      → is_tripped db sender ≡ true
      → TripsAfter sender (admit_in c sha256 limits count a db)
  unfolding admit_in
  admit_trips limits count db h =
      let h' = pruned_trips count db h in
      after_if sender (is_held (pruned count a db) a.msg.id) _ _ h' (
        after_if sender (is_tripped (pruned count a db) a.msg.from_agent)
          (hold_and_refuse c sha256 a sender_tripped (pruned count a db))
          (decide_seen c sha256 limits a (find_admitted (pruned count a db) a.msg.id)
            (pruned count a db))
          (refuse_trips sender_tripped _ h') (seen_trips limits _ _ h'))
