-- ===== src/Archive/Admit/HopLimit.antt =====
-- What a new message past the hop limit does.
use swarmbus.Base.{
  ◌≡◌, refl, sym, ap, ◌∙◌, ◌<◌, ℕ, Bool, true, false, ◌&&◌, List, [], ◌∷◌, ◌++◌, Text, text_eq,
  text_eq_refl, none, any, any-append, arith, lt→ltb,
}
use swarmbus.Base.Result.{ok}
use swarmbus.Base.Table.{any-select}
use swarmbus.Message.Json.{Codec}
use swarmbus.Archive.Rows.{Database, Limits, HeldRow, TripRow, TripEvent, hop_limit_trip}
use swarmbus.Archive.Statements.{is_held, is_tripped, find_admitted, insert_held, insert_trip}
use swarmbus.Archive.Caps.{cap_held, cap_held_lem, is_protected}
use swarmbus.Archive.Admit.{
  Decision, Arrival, is_broadcast, pruned, trip_sender, decide_new, decide_seen, admit_in,
}

any_left :
    {A : Type 0} (p q : A → Bool) (xs : List A) → any (λ x. p x && q x) xs ≡ true → any p xs ≡ true
any_left p q [] h = cc
any_left p q (x ∷ xs) h = ground (arith, any_left p q xs)

-- A message that tripped its sender outlasts the cap.
held-cap_held :
    (db : Database) (id : Text)
    → any (λ r. text_eq r.id id && is_protected db.hop_trips r.id) db.held_messages ≡ true
    → is_held (cap_held db) id ≡ true
held-cap_held db id h = any_left named guarded (cap_held db).held_messages (
    sym (any-select named guarded (cap_held db).held_messages)
    ∙ ap (any named) (cap_held_lem db).1
    ∙ any-select named guarded db.held_messages
    ∙ h)
  where
    named : HeldRow → Bool
    named r = text_eq r.id id

    guarded : HeldRow → Bool
    guarded r = is_protected db.hop_trips r.id

-- A decision that trips the sender of the message.
pub record Trips (a : Arrival) (d : Decision) : Type 0 where
  pub refused_ : d.admitted ≡ false
  pub sender_tripped : is_tripped d.db a.msg.from_agent ≡ true
  pub message_held : is_held d.db a.msg.id ≡ true
  pub event :
      (e : TripEvent) × (d.trips ≡ e ∷ [])
      × (e.sender ≡ a.msg.from_agent)
      × (e.message_id ≡ a.msg.id)
      × (e.kind ≡ hop_limit_trip)

last_any :
    {A : Type 0} (p : A → Bool) (xs : List A) (x : A) → p x ≡ true → any p (xs ++ x ∷ []) ≡ true
last_any p xs x h = ground (arith, any-append p xs (x ∷ []))

tripped-cap_held :
    (db : Database) (sender : Text) → is_tripped (cap_held db) sender ≡ is_tripped db sender
unfolding cap_held
tripped-cap_held db sender = refl

tripped_over :
    (c : Codec) (sha256 : Text → Text) (a : Arrival) (db : Database)
    → is_held db a.msg.id ≡ false
    → is_tripped db a.msg.from_agent ≡ false
    → (d : Decision) × (trip_sender c sha256 a db ≡ ok d) × Trips a d
unfolding trip_sender insert_held insert_trip
tripped_over c sha256 a db h t =
    rw (h, t)
      (
        _,
        refl,
        record {
          refused_ = refl;
          sender_tripped =
              tripped-cap_held _ a.msg.from_agent
              ∙ last_any _ db.hop_trips _ (text_eq_refl a.msg.from_agent);
          message_held = held-cap_held _ a.msg.id (
              last_any _ db.held_messages _ (
                rw
                  (
                    text_eq_refl a.msg.id,
                    last_any (λ (t : TripRow). text_eq t.message_id a.msg.id) db.hop_trips
                        (record {
                          sender = a.msg.from_agent;
                          tripped_at = a.now;
                          message_id = a.msg.id;
                        })
                        (text_eq_refl a.msg.id),
                  )
                  refl));
          event = (_, refl, refl, refl, refl);
        },
      )

-- A message that is new, directed, over the hop limit and from a sender that is not tripped is refused;
-- its sender is tripped, it is held and is still held after the cap on held messages, and exactly one trip
-- of this sender, by this message, is reported.
pub admit_in-Trips :
    (c : Codec) (sha256 : Text → Text) (limits : Limits) (count : ℕ) (a : Arrival) (db : Database)
    → is_held (pruned count a db) a.msg.id ≡ false
    → is_tripped (pruned count a db) a.msg.from_agent ≡ false
    → find_admitted (pruned count a db) a.msg.id ≡ none
    → limits.hop_limit < a.msg.hops
    → is_broadcast a ≡ false
    → (d : Decision) × (admit_in c sha256 limits count a db ≡ ok d) × Trips a d
unfolding admit_in decide_seen decide_new
admit_in-Trips c sha256 limits count a db h t n over directed =
    rw (h, t, n, lt→ltb limits.hop_limit a.msg.hops over, directed)
      (tripped_over c sha256 a (pruned count a db) h t)
