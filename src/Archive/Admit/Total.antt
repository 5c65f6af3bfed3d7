-- ===== src/Archive/Admit/Total.antt =====
-- `_admit_in` answers every message.
use swarmbus.Base.{
  ◌≡◌, ◌<◌, ◌+◌, ◌⊎◌, ltb, refl, Bool, true, false, ℕ, Text, Option, none, some, arith, Bool-cases,
  Option-cases, inl, inr, if◌then◌else◌,
}
use swarmbus.Base.Result.{Result, ok, err, value_error}
use swarmbus.Base.Table.{find_none}
use swarmbus.Message.Json.{Codec, obj}
use swarmbus.Message.Envelope.{to_json, dump}
use swarmbus.Archive.Rows.{
  Database, Limits, Reason, HoldRow, sender_tripped, hop_limit_reason, rate_limit_reason,
}
use swarmbus.Archive.Stub.{stub_envelope}
use swarmbus.Archive.Bucket.{Bucket, draw, bucket_or_full}
use swarmbus.Archive.Statements.{
  find_bucket, is_held, is_tripped, has_admitted, insert_held, insert_trip, insert_admitted,
  find_admitted, end_hold, shorten_hold, upsert_bucket, find_hold,
}
use swarmbus.Archive.Admit.{
  Decision, Arrival, refused, kept_envelope, hold_sender_message, hold_and_refuse, trip_sender,
  max_timestamp, cool_down, admit_new, over_rate, draw_token, clamp_hold, check_rate, decide_new,
  decide_seen, admit_in,
}

-- A result, or where `late` a ValueError.
abbrev pub is_fine : {A : Type 0} → Bool → Result A → Bool
is_fine late (ok a) = true
is_fine late (err value_error) = late
is_fine late (err e) = false

abbrev pub Fine : {A : Type 0} → Bool → Result A → Type 0
Fine {A} late r = ((a : A) × (r ≡ ok a)) ⊎ ((late ≡ true) × (r ≡ err value_error))

Fine-cases : {A : Type 0} (late : Bool) (r : Result A) → is_fine late r ≡ true → Fine late r
Fine-cases late (ok a) h = inl (a, refl)
Fine-cases late (err value_error) h = inr (h, refl)
Fine-cases late (err e) h = cc

-- The end of a cool-down that starts with the message is past the year 9999.
abbrev pub is_late : Limits → Arrival → Bool
is_late limits a = ltb max_timestamp (a.now + limits.rate_cooldown)

if_ok :
    {A : Type 0} (late b : Bool) (x y : Result A)
    → is_fine late x ≡ true
    → is_fine late y ≡ true
    → is_fine late (if b then x else y) ≡ true
if_ok late true x y h k = h
if_ok late false x y h k = k

module _ (c : Codec) (sha256 : Text → Text) (a : Arrival)
    (reads_back : c.loads (to_json c a.msg) ≡ some (obj (dump c a.msg))) where
  stub_ok : (late : Bool) → is_fine late (stub_envelope c a.msg) ≡ true
  unfolding stub_envelope dump
  stub_ok late = rw reads_back refl

  kept_ok :
      (late : Bool) (db : Database) (reason : Reason)
      → is_fine late (kept_envelope c sha256 db a.msg reason) ≡ true
  unfolding kept_envelope
  kept_ok late db reason = ground (arith, stub_ok late)

  hold_ok :
      (late : Bool) (db : Database) (reason : Reason)
      → is_held db a.msg.id ≡ false
      → is_fine late (hold_sender_message c sha256 a reason db) ≡ true
  unfolding hold_sender_message insert_held
  hold_ok late db reason h = ground (arith, kept_ok late db reason)

  hold_and_refuse_ok :
      (late : Bool) (db : Database) (reason : Reason)
      → is_held db a.msg.id ≡ false
      → is_fine late (hold_and_refuse c sha256 a reason db) ≡ true
  unfolding hold_and_refuse
  hold_and_refuse_ok late db reason h = ground (arith, hold_ok late db reason h)

  new_ok :
      (late : Bool) (db : Database)
      → has_admitted db a.msg.id ≡ false
      → is_fine late (admit_new c sha256 a db) ≡ true
  unfolding admit_new insert_admitted
  new_ok late db h = ground arith

  trip_ok :
      (late : Bool) (db : Database)
      → is_held db a.msg.id ≡ false
      → is_tripped db a.msg.from_agent ≡ false
      → is_fine late (trip_sender c sha256 a db) ≡ true
  unfolding trip_sender insert_held insert_trip
  trip_ok late db h t = ground arith

  over_rate_ok :
      (limits : Limits) (db : Database)
      → is_held db a.msg.id ≡ false
      → is_fine (is_late limits a) (over_rate c sha256 limits a db) ≡ true
  unfolding over_rate cool_down
  over_rate_ok limits db h = ground (arith, hold_ok (is_late limits a) db rate_limit_reason h)

  draw_ok :
      (limits : Limits) (db : Database)
      → is_held db a.msg.id ≡ false
      → has_admitted db a.msg.id ≡ false
      → is_fine (is_late limits a) (draw_token c sha256 limits a db) ≡ true
  unfolding draw_token upsert_bucket
  draw_ok limits db h n =
      if_ok (is_late limits a) drawn.1 (admit_new c sha256 a after)
        (over_rate c sha256 limits a after) (new_ok (is_late limits a) after n)
        (over_rate_ok limits after h)
    where
      drawn : Bucket × Bool
      drawn =
          draw limits.rate_limit a.now (
            bucket_or_full limits.rate_limit a.now (find_bucket db a.msg.from_agent a.source_topic))

      after : Database
      after = upsert_bucket a.msg.from_agent a.source_topic drawn.0 db

  clamp_keeps :
      (limits : Limits) (hold : HoldRow) (db : Database)
      → (clamp_hold c sha256 limits a hold db).held_messages ≡ db.held_messages
  unfolding clamp_hold shorten_hold
  clamp_keeps limits hold db = ground arith

  rate_ok :
      (limits : Limits) (hold : Option HoldRow) (db : Database)
      → is_held db a.msg.id ≡ false
      → has_admitted db a.msg.id ≡ false
      → is_fine (is_late limits a) (check_rate c sha256 limits a hold db) ≡ true
  unfolding check_rate end_hold
  rate_ok limits none db h n = draw_ok limits db h n
  rate_ok limits (some hold) db h n = ground (
    arith,
    hold_and_refuse_ok (is_late limits a) (clamp_hold c sha256 limits a hold db) rate_limit_reason
        (rw clamp_keeps h),
    draw_ok limits (end_hold a.msg.from_agent db) h n,
  )

  decide_new_ok :
      (limits : Limits) (db : Database)
      → is_held db a.msg.id ≡ false
      → is_tripped db a.msg.from_agent ≡ false
      → has_admitted db a.msg.id ≡ false
      → is_fine (is_late limits a) (decide_new c sha256 limits a db) ≡ true
  unfolding decide_new
  decide_new_ok limits db h t n = ground (
    arith,
    hold_and_refuse_ok (is_late limits a) db hop_limit_reason h,
    trip_ok (is_late limits a) db h t,
    rate_ok limits (find_hold db a.msg.from_agent) db h n,
    new_ok (is_late limits a) db n,
  )

  seen_ok :
      (limits : Limits) (db : Database)
      → is_held db a.msg.id ≡ false
      → is_tripped db a.msg.from_agent ≡ false
      → is_fine (is_late limits a) (decide_seen c sha256 limits a (find_admitted db a.msg.id) db)
        ≡ true
  seen_ok limits db h t = elim (Option-cases (find_admitted db a.msg.id)) [
    | inl e ↦
        rw e
          (unfold decide_seen in decide_new_ok limits db h t (find_none _ db.admitted_messages e))
    | inr (row, e) ↦ rw e (unfold decide_seen in refl)
  ]

  pruned_ok :
      (limits : Limits) (db : Database)
      → is_fine (is_late limits a) (
          if is_held db a.msg.id
          then ok (refused db)
          else if is_tripped db a.msg.from_agent
          then hold_and_refuse c sha256 a sender_tripped db
          else decide_seen c sha256 limits a (find_admitted db a.msg.id) db)
        ≡ true
  pruned_ok limits db = elim (Bool-cases (is_held db a.msg.id)) [
    | inl h ↦ rw h refl
    | inr h ↦ elim (Bool-cases (is_tripped db a.msg.from_agent)) [
      | inl t ↦ rw (h, t) (hold_and_refuse_ok (is_late limits a) db sender_tripped h)
      | inr t ↦ rw (h, t) (seen_ok limits db h t)
    ]
  ]

-- For every message, in every state of the tables and whether or not it prunes, `_admit_in` gives an answer: no primary
-- key is ever taken twice, and no row fails to be written. Only where a cool-down that starts with the message
-- would end past the year 9999 can it raise a ValueError in place of an answer. The one condition is that
-- json reads back the text that it wrote for the message.
pub admit_in_total :
    (c : Codec) (sha256 : Text → Text) (limits : Limits) (count : ℕ) (a : Arrival) (db : Database)
    → c.loads (to_json c a.msg) ≡ some (obj (dump c a.msg))
    → ((d : Decision) × (admit_in c sha256 limits count a db ≡ ok d))
      ⊎ ((max_timestamp < a.now + limits.rate_cooldown)
          × (admit_in c sha256 limits count a db ≡ err value_error))
unfolding admit_in
admit_in_total c sha256 limits count a db reads_back =
    elim (Fine-cases (is_late limits a) (admit_in c sha256 limits count a db)
      (pruned_ok c sha256 a reads_back limits _)) [
        | inl d ↦ inl d
        | inr (late, e) ↦ inr (ground arith, e)
      ]
