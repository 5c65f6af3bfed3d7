-- ===== src/Bus/Inbox.antt =====
-- `read_inbox` and `_watch_inbox` of src/swarmbus/bus.py, on the messages that come in before the timeout. The messages
-- that they return are what `json.loads` reads in the text of the envelope.
use swarmbus.Base.{
  ◌==◌, Bool, true, false, not, List, [], ◌∷◌, ◌++◌, length, Text, Option, none, some,
  if◌then◌else◌,
}
use swarmbus.Base.Int.{ℤ, pos, leb_ℤ}
use swarmbus.Base.Result.{Result, ok, err, ◌>>=◌, store_error, runtime_error}
use swarmbus.Message.Json.{Json, Codec}
use swarmbus.Message.Envelope.{AgentMessage, from_json, to_json, or_raise}
use swarmbus.Archive.Rows.{TripEvent}
use swarmbus.Archive.Store.{Store, admit, pop_trips}
use swarmbus.Bus.Listen.{Incoming, arrival_of}

-- `len(messages) >= max_messages`
abbrev is_full : ℤ → List Json → Bool
is_full max_messages messages = leb_ℤ max_messages (pos (length messages))

module _ (c : Codec) (sha256 : Text → Text) where
  -- What the store says of a message; without one all are admitted. A check that fails refuses.
  abbrev ask : Option Store → Incoming → AgentMessage → Option Store × Result Bool
  ask none i m = (none, ok true)
  ask (some st) i m =
      if i.store_fails
      then (some st, err store_error)
      else (let (after, r) = admit c sha256 st (arrival_of i m) in (some after, r))

  abbrev answered : Result Bool → Bool
  answered (ok b) = b
  answered (err e) = false

  abbrev append_if : Bool → AgentMessage → List Json → Result (List Json)
  append_if true m messages = do j ← or_raise (c.loads (to_json c m)); ok (messages ++ j ∷ [])
  append_if false m messages = ok messages

  abbrev drain_one :
      Incoming → Option Store × List Json → Result AgentMessage → Result (Option Store × List Json)
  drain_one i (st, messages) (err e) = ok (st, messages)
  drain_one i (st, messages) (ok m) = do
    let (after, r) = ask st i m
    more ← append_if (answered r) m messages
    ok (after, more)

  unfoldable pub drain :
      ℤ → Option Store → List Json → List Incoming → Result (Option Store × List Json)
  drain max_messages st messages [] = ok (st, messages)
  drain max_messages st messages (i ∷ is) = do
    (after, more) ← drain_one i (st, messages) (from_json c i.fresh i.now i.payload)
    if is_full max_messages more then ok (after, more) else drain max_messages after more is

  unfoldable pub read_inbox : ℤ → Option Store → List Incoming → Result (Option Store × List Json)
  read_inbox max_messages st is = drain max_messages st [] is

  pub record Watch : Type 0 where
    pub hold_store : Option Store
    pub alerts : List TripEvent
    pub acked : List Incoming

  -- How a message ends: skipped, returned, or with AcknowledgementError.
  pub data Verdict : Type 0 where
    skip : Verdict
    give : Json → Verdict
    failing : Verdict

  abbrev resume :
      Watch × Verdict → (Watch → Watch × Result (Option Json)) → Watch × Result (Option Json)
  resume (s, skip) next = next s
  resume (s, give j) next = (s, ok (some j))
  resume (s, failing) next = (s, err runtime_error)

  module _ (persistent has_alerter : Bool) where
    abbrev ack_watched : Watch → Incoming → Verdict → Watch × Verdict
    ack_watched s i v =
        if not persistent
        then (s, v)
        else if i.qos == 0
        then (s, v)
        else if i.acknowledges
        then (record s { acked = s.acked ++ i ∷ [] }, v)
        else (s, failing)

    abbrev alert_watched : Watch → Option Store → Watch
    alert_watched s none = record s { hold_store = none }
    alert_watched s (some st) =
        if has_alerter
        then record s { hold_store = some (pop_trips st).0; alerts = s.alerts ++ (pop_trips st).1 }
        else record s { hold_store = some st }

    abbrev after_watched : Watch → Incoming → Json → Option Store × Result Bool → Watch × Verdict
    after_watched s i j (st, err e) = (record s { hold_store = st }, skip)
    after_watched s i j (st, ok true) = ack_watched (alert_watched s st) i (give j)
    after_watched s i j (st, ok false) = ack_watched (alert_watched s st) i skip

    abbrev envelope : Result AgentMessage → Result (AgentMessage × Json)
    envelope r = do m ← r; j ← or_raise (c.loads (to_json c m)); ok (m, j)

    abbrev on_envelope : Watch → Incoming → Result (AgentMessage × Json) → Watch × Verdict
    on_envelope s i (err e) = ack_watched s i skip
    on_envelope s i (ok (m, j)) = after_watched s i j (ask s.hold_store i m)

    unfoldable pub watch_one : Watch → Incoming → Watch × Verdict
    unfolding pop_trips
    watch_one s i = on_envelope s i (envelope (from_json c i.fresh i.now i.payload))

    -- A timeout returns None.
    unfoldable pub watch : Watch → List Incoming → Watch × Result (Option Json)
    watch s [] = (s, ok none)
    watch s (i ∷ is) = resume (watch_one s i) (λ after. watch after is)

    unfoldable pub watch_inbox : Option Store → List Incoming → Watch × Result (Option Json)
    watch_inbox st is = watch (record { hold_store = st; alerts = []; acked = [] }) is
