-- ===== src/Bus/Reconnect.antt =====
-- The reconnecting loop of `_listen` in src/swarmbus/bus.py. A connection is an input: whether it is made with its
-- lease and its subscriptions, what comes in, whether the broker drops it in the end, and whether it closes.
-- Delays are in whole microseconds.
pub mod Bounds
use swarmbus.Base.{
  ℕ, ◌*◌, ◌≤◌, ◌≡◌, refl, min, Bool, true, false, not, List, [], ◌∷◌, ◌++◌, Text, Option, none,
  some, All, All-append, if◌then◌else◌, arith, Bool-cases, inl, inr,
}
use swarmbus.Message.Json.{Codec}
use swarmbus.Archive.Store.{Store}
use swarmbus.Archive.Statements.{is_tripped}
use swarmbus.Bus.Listen.{Incoming, Listening, Leave, left_hold, left_ack, Listener, receive_all}
use swarmbus.Bus.Listen.Silence.{IsQuiet, Silent, all-Silent}

pub record Connection : Type 0 where
  pub connects : Bool
  pub arrivals : List Incoming
  pub drops : Bool
  pub closes : Bool

pub record Session : Type 0 where
  pub listening : Listening
  pub backoff : ℕ
  pub sleeps : List ℕ
  pub returned : Bool

abbrev pub next_backoff : Listener → ℕ → ℕ
next_backoff b delay = min (delay * 2) b.reconnect_max

-- `await asyncio.sleep(backoff)`, and the next delay.
abbrev sleep : Listener → Session → Session
sleep b s = record s { sleeps = s.sleeps ++ s.backoff ∷ []; backoff = next_backoff b s.backoff }

abbrev sleep_hold : Listener → Session → Session
sleep_hold b s = record s {
  sleeps = s.sleeps ++ s.listening.hold_backoff ∷ [];
  listening = record s.listening { hold_backoff = next_backoff b s.listening.hold_backoff };
}

-- After the messages of a connection.
abbrev pub end_connection : Listener → Connection → Session → Option Leave → Session
end_connection b k s none =
    if k.drops then sleep b s else if k.closes then record s { returned = true } else sleep b s
end_connection b k s (some left_hold) = if k.closes then sleep_hold b s else sleep b s
end_connection b k s (some left_ack) = sleep b s

abbrev pub unless_returned : Bool → Session → (Session → Session) → Session
unless_returned true s next = s
unless_returned false s next = next s

module _ (c : Codec) (sha256 : Text → Text) (b : Listener) where
  unfoldable pub connect : Session → Connection → Session
  connect s k =
      if not k.connects
      then sleep b s
      else (let (after, leave) = receive_all c sha256 b s.listening k.arrivals in
          end_connection b k (record s { listening = after; backoff = b.reconnect_initial }) leave)

  unfoldable pub listen : Session → List Connection → Session
  listen s [] = s
  listen s (k ∷ ks) =
      unless_returned (connect s k).returned (connect s k) (λ after. listen after ks)

  -- `_listen` as it begins.
  abbrev pub begin : Option Store → Session
  begin st = record {
    listening = record {
      hold_store = st;
      alerts = [];
      runs = [];
      acked = [];
      hold_backoff = b.reconnect_initial;
    };
    backoff = b.reconnect_initial;
    sleeps = [];
    returned = false;
  }

  end-Silent :
      (sender : Text) (k : Connection) (s : Session) (leave : Option Leave)
      → Silent sender s.listening
      → Silent sender (end_connection b k s leave).listening
  end-Silent sender k s none h = elim (Bool-cases k.drops) [
    | inl e ↦ simp e h
    | inr e ↦ elim (Bool-cases k.closes) [ inl a ↦ simp (e, a) h | inr a ↦ simp (e, a) h ]
  ]
  end-Silent sender k s (some left_hold) h = elim (Bool-cases k.closes) [
    | inl a ↦ simp a h
    | inr a ↦ simp a h
  ]
  end-Silent sender k s (some left_ack) h = h

  connect-Silent :
      (sender : Text) (s : Session) (k : Connection)
      → Silent sender s.listening
      → Silent sender (connect s k).listening
  unfolding connect
  connect-Silent sender s k h = elim (Bool-cases k.connects) [
    | inr e ↦ simp e h
    | inl e ↦ simp e (
        end-Silent sender k _ (receive_all c sha256 b s.listening k.arrivals).1
          (all-Silent c sha256 b sender s.listening k.arrivals h))
  ]

  listen-Silent :
      (sender : Text) (s : Session) (ks : List Connection)
      → Silent sender s.listening
      → Silent sender (listen s ks).listening
  unfolding listen
  listen-Silent sender s [] h = h
  listen-Silent sender s (k ∷ ks) h =
      further (connect s k).returned (connect s k) (connect-Silent sender s k h)
        (λ after q. listen-Silent sender after ks q)
    where
      further :
          (done : Bool) (x : Session)
          → Silent sender x.listening
          → ((after : Session)
              → Silent sender after.listening
              → Silent sender (listen after ks).listening)
          → Silent sender (unless_returned done x (λ after. listen after ks)).listening
      further true x q next = q
      further false x q next = next x q

  -- A listener with a hold store in which a sender is tripped calls no handler on a message of that sender, through every
  -- sequence of connections and messages; the file bridge alone may record one whose check failed, with
  -- its subject marked.
  pub listen-IsQuiet :
      (sender : Text) (st : Store) (ks : List Connection)
      → is_tripped st.db sender ≡ true
      → All (IsQuiet sender) (listen (begin (some st)) ks).listening.runs
  listen-IsQuiet sender st ks h = (listen-Silent sender (begin (some st)) ks (st, refl, h, tt)).3
