-- ===== src/Bus/Listen.antt =====
-- `_listen` and `_archive_unchecked` of src/swarmbus/bus.py. A handler that raises is caught and logged, so only
-- the calls are kept. The connection, its failures and those of the hold store are inputs.
pub mod Acks
pub mod Silence
use swarmbus.Base.{
  ℕ, ◌+◌, ◌*◌, min, Bool, true, false, not, ◌&&◌, List, [], ◌∷◌, ◌++◌, Text, codes, Option, none,
  some, if◌then◌else◌, ◌==◌,
}
use swarmbus.Base.Result.{Result, ok, err, store_error, ◌>>=◌}
use swarmbus.Message.Json.{DateTime, Codec}
use swarmbus.Message.Envelope.{AgentMessage, from_json}
use swarmbus.Archive.Rows.{TripEvent}
use swarmbus.Archive.Admit.{Arrival}
use swarmbus.Archive.Store.{Store, admit, pop_trips}

pub record Handler : Type 0 where
  pub name : Text
  pub file_bridge : Bool

-- A message as it comes in: its quality of service, the id that pydantic would draw for it, the readings of the clock, and whether the
-- hold store fails on it and the acknowledgement goes out.
pub record Incoming : Type 0 where
  pub topic : Text
  pub payload : Text
  pub qos : ℕ
  pub fresh : Text
  pub now : DateTime
  pub seen_at : ℕ
  pub store_fails : Bool
  pub acknowledges : Bool

-- The call of a handler.
pub record Run : Type 0 where
  pub handler : Handler
  pub msg : AgentMessage

pub record Listening : Type 0 where
  pub hold_store : Option Store
  pub alerts : List TripEvent
  pub runs : List Run
  pub acked : List Incoming
  pub hold_backoff : ℕ

-- Why a connection is left.
pub data Leave : Type 0 where
  left_hold left_ack : Leave

pub record Listener : Type 0 where
  pub handlers : List Handler
  pub manual_ack : Bool
  pub has_alerter : Bool
  pub reconnect_initial : ℕ
  pub reconnect_max : ℕ

abbrev pub failed_prefix : Text
failed_prefix = codes "[HOLD CHECK FAILED] "

abbrev pub marked : AgentMessage → AgentMessage
marked m = record m { subject = failed_prefix ++ m.subject }

abbrev pub dispatched : List Handler → AgentMessage → List Run
dispatched [] m = []
dispatched (h ∷ hs) m = record { handler = h; msg = m } ∷ dispatched hs m

-- `_archive_unchecked`
unfoldable pub archive_unchecked : List Handler → AgentMessage → List Run
archive_unchecked [] m = []
archive_unchecked (h ∷ hs) m =
    let rest = archive_unchecked hs m in
    if h.file_bridge then record { handler = h; msg = marked m } ∷ rest else rest

abbrev pub arrival_of : Incoming → AgentMessage → Arrival
arrival_of i m = record { msg = m; source_topic = i.topic; now = i.seen_at }

abbrev pub go_on :
    Listening × Option Leave → (Listening → Listening × Option Leave) → Listening × Option Leave
go_on (s, none) next = next s
go_on (s, some l) next = (s, some l)

module _ (c : Codec) (sha256 : Text → Text) (b : Listener) where
  -- `ack`, with `_ManualAckAdapter.ack`: a delivery of quality of service 0 needs none.
  abbrev pub acknowledge : Listening → Incoming → Listening × Option Leave
  acknowledge s i =
      if not b.manual_ack
      then (s, none)
      else if i.qos == 0
      then (s, none)
      else if i.acknowledges
      then (record s { acked = s.acked ++ i ∷ [] }, none)
      else (s, some left_ack)

  abbrev pub dispatch : Listening → Incoming → AgentMessage → Listening × Option Leave
  dispatch s i m = acknowledge (record s { runs = s.runs ++ dispatched b.handlers m }) i

  abbrev pub checked : Store → Incoming → AgentMessage → Store × Result Bool
  checked st i m =
      if i.store_fails then (st, err store_error) else admit c sha256 st (arrival_of i m)

  -- `_alert_new_trips`
  abbrev pub alert : Listening → Store → Listening
  alert s st =
      if b.has_alerter
      then record s { hold_store = some (pop_trips st).0; alerts = s.alerts ++ (pop_trips st).1 }
      else record s { hold_store = some st }

  unfoldable pub after_check :
      Listening → Incoming → AgentMessage → Store × Result Bool → Listening × Option Leave
  unfolding pop_trips
  after_check s i m (st, err e) =
      if b.manual_ack then (record s { hold_store = some st }, some left_hold) else (
        record s { hold_store = some st; runs = s.runs ++ archive_unchecked b.handlers m },
        none,
      )
  after_check s i m (st, ok admitted) =
      let told = record (alert s st) { hold_backoff = b.reconnect_initial } in
      if not admitted then acknowledge told i else dispatch told i m

  abbrev pub on_message :
      Listening → Incoming → AgentMessage → Option Store → Listening × Option Leave
  on_message s i m none = dispatch s i m
  on_message s i m (some st) = after_check s i m (checked st i m)

  abbrev pub on_parse : Listening → Incoming → Result AgentMessage → Listening × Option Leave
  on_parse s i (err e) = acknowledge s i
  on_parse s i (ok m) = on_message s i m s.hold_store

  unfoldable pub receive : Listening → Incoming → Listening × Option Leave
  receive s i = on_parse s i (from_json c i.fresh i.now i.payload)

  -- The messages of one connection.
  unfoldable pub receive_all : Listening → List Incoming → Listening × Option Leave
  receive_all s [] = (s, none)
  receive_all s (i ∷ is) = go_on (receive s i) (λ after. receive_all after is)
