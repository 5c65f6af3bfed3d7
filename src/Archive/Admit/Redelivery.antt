-- ===== src/Archive/Admit/Redelivery.antt =====
-- An admitted message that the broker delivers again is admitted again.
use swarmbus.Base.{
  min, ltb, ◌≡◌, refl, subst, Bool, true, false, ℕ, Text, text_eq_refl, Option, none, some, arith,
  Bool-cases, Option-cases, inl, inr, if◌then◌else◌, [],
}
use swarmbus.Base.Result.{Result, ok, err}
use swarmbus.Base.Table.{find_append}
use swarmbus.Message.Json.{Codec}
use swarmbus.Message.Envelope.{to_json}
use swarmbus.Archive.Rows.{
  Database, sqlite_max_integer, Limits, HoldRow, AdmittedRow, sender_tripped, hop_limit_reason,
  rate_limit_reason,
}
use swarmbus.Archive.Statements.{
  is_held, is_tripped, has_admitted, find_admitted, find_hold, insert_admitted, upsert_bucket,
  end_hold,
}
use swarmbus.Archive.Admit.{
  Decision, Arrival, prunes, is_broadcast, pruned, hold_and_refuse, decide_known, is_redelivery,
  check_rate, clamp_hold, admit_new, over_rate, cool_down, draw_token, decide_new, decide_seen,
  admit_in,
}
use swarmbus.Archive.Admit.Gate.{admits, hold_refuses, trip_refuses}

module _ (c : Codec) (sha256 : Text → Text) (a : Arrival) where
  -- The message would be let through as a redelivery.
  record Known (db : Database) : Type 0 where
    not_held : is_held db a.msg.id ≡ false
    not_tripped : is_tripped db a.msg.from_agent ≡ false
    row : AdmittedRow
    found : find_admitted db a.msg.id ≡ some row
    same : is_redelivery c sha256 a row ≡ true

  abbrev KnownAfter : Result Decision → Type 0
  KnownAfter (ok d) = d.admitted ≡ true → Known d.db
  KnownAfter (err e) = Unit {0}

  refused_known : (r : Result Decision) → admits r ≡ false → KnownAfter r
  refused_known (ok d) h = λ p. cc
  refused_known (err e) h = tt

  known_if :
      (b : Bool) (x y : Result Decision)
      → KnownAfter x
      → KnownAfter y
      → KnownAfter (if b then x else y)
  known_if true x y h k = h
  known_if false x y h k = k

  new_row : AdmittedRow
  new_row = record {
    id = a.msg.id;
    from_agent = a.msg.from_agent;
    hops = min a.msg.hops sqlite_max_integer;
    origin = a.msg.origin;
    seen_at = a.now;
    envelope_sha256 = some (sha256 (to_json c a.msg));
  }

  new_known :
      (db : Database)
      → is_held db a.msg.id ≡ false
      → is_tripped db a.msg.from_agent ≡ false
      → find_admitted db a.msg.id ≡ none
      → KnownAfter (admit_new c sha256 a db)
  unfolding admit_new insert_admitted new_row is_redelivery
  new_known db h t n = elim (Bool-cases (has_admitted db a.msg.id)) [
    | inl e ↦ rw e tt
    | inr e ↦ rw e λ p. record {
      not_held = h;
      not_tripped = t;
      row = new_row;
      found = find_append _ db.admitted_messages new_row n (text_eq_refl a.msg.id);
      same = text_eq_refl (sha256 (to_json c a.msg));
    }
  ]

  over_refuses : (limits : Limits) (db : Database) → admits (over_rate c sha256 limits a db) ≡ false
  unfolding over_rate cool_down
  over_refuses limits db = ground arith

  over_known : (limits : Limits) (db : Database) → KnownAfter (over_rate c sha256 limits a db)
  over_known limits db = refused_known _ (over_refuses limits db)

  draw_known :
      (limits : Limits) (db : Database)
      → is_held db a.msg.id ≡ false
      → is_tripped db a.msg.from_agent ≡ false
      → find_admitted db a.msg.id ≡ none
      → KnownAfter (draw_token c sha256 limits a db)
  unfolding draw_token upsert_bucket
  draw_known limits db h t n = known_if _ _ _ (new_known _ h t n) (over_known limits _)

  rate_known :
      (limits : Limits) (hold : Option HoldRow) (db : Database)
      → is_held db a.msg.id ≡ false
      → is_tripped db a.msg.from_agent ≡ false
      → find_admitted db a.msg.id ≡ none
      → KnownAfter (check_rate c sha256 limits a hold db)
  unfolding check_rate end_hold
  rate_known limits none db h t n = draw_known limits db h t n
  rate_known limits (some hold) db h t n =
      known_if (ltb a.now hold.held_until)
        (hold_and_refuse c sha256 a rate_limit_reason (clamp_hold c sha256 limits a hold db))
        (draw_token c sha256 limits a (end_hold a.msg.from_agent db))
        (refused_known _
          (hold_refuses c sha256 a rate_limit_reason (clamp_hold c sha256 limits a hold db)))
        (draw_known limits (end_hold a.msg.from_agent db) h t n)

  fresh_known :
      (limits : Limits) (db : Database)
      → is_held db a.msg.id ≡ false
      → is_tripped db a.msg.from_agent ≡ false
      → find_admitted db a.msg.id ≡ none
      → KnownAfter (decide_new c sha256 limits a db)
  unfolding decide_new
  fresh_known limits db h t n =
      known_if (ltb limits.hop_limit a.msg.hops) _ _
        (known_if (is_broadcast a) _ _
          (refused_known _ (hold_refuses c sha256 a hop_limit_reason db))
          (refused_known _ (trip_refuses c sha256 a db)))
        (known_if (ltb 0 limits.rate_limit) _ _
          (rate_known limits (find_hold db a.msg.from_agent) db h t n) (new_known db h t n))

  seen_known :
      (limits : Limits) (db : Database)
      → is_held db a.msg.id ≡ false
      → is_tripped db a.msg.from_agent ≡ false
      → KnownAfter (decide_seen c sha256 limits a (find_admitted db a.msg.id) db)
  unfolding decide_seen decide_known
  seen_known limits db h t = elim (Option-cases (find_admitted db a.msg.id)) [
    | inl e ↦ rw e (fresh_known limits db h t e)
    | inr (row, e) ↦ rw e (known_row row e)
  ]
    where
      known_row :
          (row : AdmittedRow)
          → find_admitted db a.msg.id ≡ some row
          → KnownAfter (ok (decide_known c sha256 a row db))
      known_row row e = elim (Bool-cases (is_redelivery c sha256 a row)) [
        | inl s ↦ rw s λ p. record { not_held = h; not_tripped = t; row = row; found = e; same = s }
        | inr s ↦ rw s λ p. cc
      ]

  known :
      (limits : Limits) (count : ℕ) (db : Database)
      → KnownAfter (admit_in c sha256 limits count a db)
  unfolding admit_in
  known limits count before = elim (Bool-cases (is_held (pruned count a before) a.msg.id)) [
    | inl h ↦ rw h λ p. cc
    | inr h ↦ elim (Bool-cases (is_tripped (pruned count a before) a.msg.from_agent)) [
      | inl t ↦
          rw (h, t)
            (refused_known _ (hold_refuses c sha256 a sender_tripped (pruned count a before)))
      | inr t ↦ rw (h, t) (seen_known limits (pruned count a before) h t)
    ]
  ]

again :
    (c : Codec) (sha256 : Text → Text) (limits : Limits) (count : ℕ) (a : Arrival) (db : Database)
    → prunes count ≡ false
    → Known c sha256 a db
    → admit_in c sha256 limits count a db ≡ ok (record { db = db; trips = []; admitted = true })
unfolding admit_in decide_seen decide_known
again c sha256 limits count a db q k = rw (q, k.not_held, k.not_tripped, k.found, k.same) refl

moved :
    (c : Codec) (sha256 : Text → Text) (a : Arrival) (topic : Text) (later : ℕ) (db : Database)
    → Known c sha256 a db
    → Known c sha256 (record { msg = a.msg; source_topic = topic; now = later }) db
unfolding is_redelivery
moved c sha256 a topic later db k = record {
  not_held = k.not_held;
  not_tripped = k.not_tripped;
  row = k.row;
  found = k.found;
  same = k.same;
}

-- If a message is admitted, then the same message delivered again, with the same envelope, is admitted
-- again whatever the time, the topic and the limits, and nothing changes in the store and no trip is
-- reported, provided that the second call is not one that prunes.
pub admit_in_twice :
    (c : Codec) (sha256 : Text → Text) (limits limits' : Limits) (count count' : ℕ) (a : Arrival)
    (db : Database) {d : Decision} (topic : Text) (later : ℕ)
    → admit_in c sha256 limits count a db ≡ ok d
    → d.admitted ≡ true
    → prunes count' ≡ false
    → admit_in c sha256 limits' count'
        (record { msg = a.msg; source_topic = topic; now = later })
        d.db
      ≡ ok (record { db = d.db; trips = []; admitted = true })
admit_in_twice c sha256 limits limits' count count' a db {d} topic later h passed q =
    again c sha256 limits' count' (record { msg = a.msg; source_topic = topic; now = later }) d.db q
      (moved c sha256 a topic later d.db k)
  where
    k : Known c sha256 a d.db
    k = subst (λ r. KnownAfter c sha256 a r) h (known c sha256 a limits count db) passed
