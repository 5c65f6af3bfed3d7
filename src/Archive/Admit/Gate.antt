-- ===== src/Archive/Admit/Gate.antt =====
-- What an admitted message has passed.
use swarmbus.Base.{
  subst, sym, ◌≤◌, ◌≡◌, Bool, true, false, ℕ, Text, some, arith, Bool-cases, Option-cases, ◌⊎◌, inl,
  inr, if◌then◌else◌,
}
use swarmbus.Base.Result.{Result, ok, err}
use swarmbus.Message.Json.{Codec}
use swarmbus.Archive.Rows.{Database, Limits, Reason, AdmittedRow, sender_tripped, hop_limit_reason}
use swarmbus.Archive.Statements.{is_held, is_tripped, find_admitted}
use swarmbus.Archive.Admit.{
  Decision, Arrival, refused, pruned, hold_and_refuse, decide_known, trip_sender, is_redelivery,
  decide_new, decide_seen, admit_in,
}

-- The answer yes.
abbrev pub admits : Result Decision → Bool
admits (ok d) = d.admitted
admits (err e) = false

module _ (c : Codec) (sha256 : Text → Text) (a : Arrival) where
  pub hold_refuses :
      (reason : Reason) (db : Database) → admits (hold_and_refuse c sha256 a reason db) ≡ false
  unfolding hold_and_refuse
  hold_refuses reason db = ground arith

  pub trip_refuses : (db : Database) → admits (trip_sender c sha256 a db) ≡ false
  unfolding trip_sender
  trip_refuses db = ground arith

  decide_new_gate :
      (limits : Limits) (db : Database)
      → admits (decide_new c sha256 limits a db) ≡ true
      → a.msg.hops ≤ limits.hop_limit
  unfolding decide_new
  decide_new_gate limits db h = ground (arith, hold_refuses hop_limit_reason db, trip_refuses db)

  -- How a message that passes the first two tests can be admitted.
  abbrev pub Passes : Limits → Database → Type 0
  Passes limits db =
      (a.msg.hops ≤ limits.hop_limit)
      ⊎ ((row : AdmittedRow) × (find_admitted db a.msg.id ≡ some row)
          × (is_redelivery c sha256 a row ≡ true))

  known_gate :
      (row : AdmittedRow) (db : Database)
      → (decide_known c sha256 a row db).admitted ≡ true
      → is_redelivery c sha256 a row ≡ true
  unfolding decide_known
  known_gate row db h = ground arith

  seen_gate :
      (limits : Limits) (db : Database)
      → admits (decide_seen c sha256 limits a (find_admitted db a.msg.id) db) ≡ true
      → Passes limits db
  seen_gate limits db h = elim (Option-cases (find_admitted db a.msg.id)) [
    | inl e ↦ inl (decide_new_gate limits db (unfold decide_seen in (rw e at h)))
    | inr (row, e) ↦ inr (row, e, known_gate row db (unfold decide_seen in (rw e at h)))
  ]

  gate :
      (limits : Limits) (db : Database)
      → admits (
          if is_held db a.msg.id
          then ok (refused db)
          else if is_tripped db a.msg.from_agent
          then hold_and_refuse c sha256 a sender_tripped db
          else decide_seen c sha256 limits a (find_admitted db a.msg.id) db)
        ≡ true
      → (is_held db a.msg.id ≡ false) × (is_tripped db a.msg.from_agent ≡ false) × Passes limits db
  gate limits db h = elim (Bool-cases (is_held db a.msg.id)) [
    | inl e ↦ absurd (ground arith)
    | inr e ↦ elim (Bool-cases (is_tripped db a.msg.from_agent)) [
      | inl t ↦ absurd (ground (arith, hold_refuses sender_tripped db))
      | inr t ↦ (e, t, seen_gate limits db (rw (e, t) at h))
    ]
  ]

-- A message is admitted only if its id is not held, its sender is not tripped, and either its hops
-- are within the limit or it is the redelivery of a message that was admitted before: the store has
-- a row under its id with the hash of its envelope (or, on a row without a hash, with its sender and
-- hops).
pub admit_in_gate :
    (c : Codec) (sha256 : Text → Text) (limits : Limits) (count : ℕ) (a : Arrival) (db : Database)
    {d : Decision}
    → admit_in c sha256 limits count a db ≡ ok d
    → d.admitted ≡ true
    → (is_held (pruned count a db) a.msg.id ≡ false)
      × (is_tripped (pruned count a db) a.msg.from_agent ≡ false)
      × Passes c sha256 a limits (pruned count a db)
unfolding admit_in
admit_in_gate c sha256 limits count a db {d} h passed =
    gate c sha256 a limits (pruned count a db) (subst (λ r. admits r ≡ true) (sym h) passed)
