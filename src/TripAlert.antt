-- ===== src/TripAlert.antt =====
-- `_clean`, `trip_env` and `TripAlerter.submit` of src/swarmbus/trip_alert.py. `iso` gives the ISO text of a time.
pub mod Clean
use swarmbus.Base.{
  ℕ, zero, suc, ◌+◌, ◌-◌, ◌/◌, ◌%◌, ◌≤◌, ◌≡◌, refl, sym, ap, ◌∙◌, min, Bool, true, false, not, ◌&&◌,
  ◌||◌, List, [], ◌∷◌, ◌++◌, map, take, length, length-map, length-take, length-append, Text, codes,
  text_eq, starts_with, Option, none, some, All, any, every, if◌then◌else◌, arith, ltb, leb, ◌==◌,
  Bool-cases, inl, inr,
}
use swarmbus.Base.Table.{select_rows}
use swarmbus.Message.Unicode.{is_hidden, is_hidden-ascii}
use swarmbus.Message.Sanitize.{sanitize_field, sanitize_field-IsVisible, IsVisible}
use swarmbus.Registry.Cache.{set_entry}
use swarmbus.Registry.Reachable.{All-set_entry}
use swarmbus.Archive.Rows.{TripEvent, TripKind, hop_limit_trip, rate_limit_trip}

abbrev pub max_field : ℕ
max_field = 256

abbrev pub max_pending_alerts : ℕ
max_pending_alerts = 64

abbrev wake_vars : List Text
wake_vars =
    codes "SWARMBUS_FROM"
    ∷ codes "SWARMBUS_TO"
    ∷ codes "SWARMBUS_ID"
    ∷ codes "SWARMBUS_SUBJECT"
    ∷ codes "SWARMBUS_CONTENT_TYPE"
    ∷ codes "SWARMBUS_PRIORITY"
    ∷ codes "SWARMBUS_TS"
    ∷ codes "SWARMBUS_HOPS"
    ∷ codes "SWARMBUS_ORIGIN"
    ∷ codes "SWARMBUS_REPLY_TO"
    ∷ []

abbrev pub trip_prefix : Text
trip_prefix = codes "SWARMBUS_TRIP_"

-- `encode("utf-8", "replace")`: a surrogate becomes a question mark.
abbrev pub replace_surrogate : ℕ → ℕ
replace_surrogate ch = if leb 0xd800 ch && leb ch 0xdfff then b'?' else ch

-- `_clean`
unfoldable pub clean : Option Text → Text
clean v = map replace_surrogate (take max_field (sanitize_field v))

-- `str` of an int; its fuel is one more than the number, which has fewer digits.
decimal_digits : ℕ → ℕ → Text
decimal_digits zero n = []
decimal_digits (suc k) n =
    let before = decimal_digits k (n / 10) in
    if ltb n 10 then (b'0' + n) ∷ [] else before ++ (b'0' + n % 10) ∷ []

unfoldable pub decimal : ℕ → Text
unfolding decimal_digits
decimal n = decimal_digits (n + 1) n

abbrev kind_text : TripKind → Text
kind_text hop_limit_trip = codes "hop-limit"
kind_text rate_limit_trip = codes "rate-limit"

-- `kind.replace('-', ' ')`
abbrev spaced : Text → Text
spaced = map (λ ch. if ch == b'-' then b' ' else ch)

abbrev until_of : (ℕ → Text) → Option ℕ → Option Text
until_of iso none = none
until_of iso (some n) = some (iso n)

abbrev held_text : Option ℕ → Text → Text → Text
held_text none until reset = codes "held until a person runs: " ++ reset
held_text (some n) until reset =
    codes "held until " ++ until ++ codes " (or until: " ++ reset ++ codes ")"

module _ (iso : ℕ → Text) where
  abbrev reset_command : Text → Text → Text
  reset_command agent sender =
      clean (some (codes "swarmbus held --agent-id " ++ agent ++ codes " --reset " ++ sender))

  abbrev summary : TripEvent → Text → Text
  summary trip agent_id =
      let agent = clean (some agent_id) in
      let sender = clean (some trip.sender) in
      codes "[swarmbus] "
      ++ agent
      ++ codes ": "
      ++ spaced (clean (some (kind_text trip.kind)))
      ++ codes " tripped by "
      ++ sender
      ++ codes " (message "
      ++ clean (some trip.message_id)
      ++ codes ", hops "
      ++ clean (some (decimal trip.hops))
      ++ codes "); "
      ++ held_text trip.until (clean (until_of iso trip.until)) (reset_command agent sender)

  -- The variables of a trip.
  abbrev pub trip_vars : TripEvent → Text → Text → List (Text × Option Text)
  trip_vars trip agent_id listener =
      (codes "SWARMBUS_TRIP_AGENT", some agent_id)
      ∷ (codes "SWARMBUS_TRIP_LISTENER", some listener)
      ∷ (codes "SWARMBUS_TRIP_KIND", some (kind_text trip.kind))
      ∷ (codes "SWARMBUS_TRIP_SENDER", some trip.sender)
      ∷ (codes "SWARMBUS_TRIP_MESSAGE_ID", some trip.message_id)
      ∷ (codes "SWARMBUS_TRIP_HOPS", some (decimal trip.hops))
      ∷ (codes "SWARMBUS_TRIP_ORIGIN", trip.origin)
      ∷ (codes "SWARMBUS_TRIP_TOPIC", some trip.source_topic)
      ∷ (codes "SWARMBUS_TRIP_AT", some (iso trip.tripped_at))
      ∷ (codes "SWARMBUS_TRIP_UNTIL", until_of iso trip.until)
      ∷ (
        codes "SWARMBUS_TRIP_RESET",
        some (
            codes "swarmbus held --agent-id "
            ++ clean (some agent_id)
            ++ codes " --reset "
            ++ clean (some trip.sender)),
      )
      ∷ (codes "SWARMBUS_TRIP_SUMMARY", some (summary trip agent_id))
      ∷ []

  -- `env.update`, each value cleaned.
  abbrev pub update_env : List (Text × Text) → List (Text × Option Text) → List (Text × Text)
  update_env env [] = env
  update_env env ((k, v) ∷ vars) = update_env (set_entry k (clean v) env) vars

  abbrev pub is_inherited : Text × Text → Bool
  is_inherited e = not (any (text_eq e.0) wake_vars) && not (starts_with e.0 trip_prefix)

  unfoldable pub trip_env : List (Text × Text) → TripEvent → Text → Text → List (Text × Text)
  trip_env environ trip agent_id listener =
      update_env (select_rows is_inherited environ) (trip_vars trip agent_id listener)

-- The queue of an alerter and the alerts that it dropped.
pub record Alerter : Type 0 where
  pub queue : List TripEvent
  pub max_pending : ℕ
  pub dropped : ℕ

-- `put_nowait`; a `max_pending` of 0 sets no bound.
unfoldable pub submit : TripEvent → Alerter → Alerter
submit trip s =
    if not (s.max_pending == 0) && leb s.max_pending (length s.queue)
    then record s { dropped = s.dropped + 1 }
    else record s { queue = s.queue ++ trip ∷ [] }

-- The worker takes the next alert.
unfoldable pub take_alert : Alerter → Alerter
take_alert s = elim s.queue [ [] ↦ s | t ∷ ts ↦ record s { queue = ts } ]
