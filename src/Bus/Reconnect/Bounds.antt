-- ===== src/Bus/Reconnect/Bounds.antt =====
-- The delays of the reconnecting loop.
use swarmbus.Base.{
  ◌==◌, ℕ, ◌≤◌, ◌≡◌, refl, subst, sym, Bool, true, false, List, [], ◌∷◌, Text, Option, none, some,
  All, All-append, arith, Bool-cases, inl, inr,
}
use swarmbus.Base.Result.{Result, ok, err}
use swarmbus.Message.Json.{Codec}
use swarmbus.Message.Envelope.{AgentMessage, from_json}
use swarmbus.Archive.Store.{Store}
use swarmbus.Bus.Listen.{
  Incoming, Listening, Leave, left_hold, left_ack, Listener, go_on, acknowledge, checked,
  after_check, on_parse, receive, receive_all,
}
use swarmbus.Bus.Reconnect.{
  Connection, Session, next_backoff, end_connection, connect, listen, begin, unless_returned,
}

-- A delay from the first to the greatest.
abbrev pub InRange : Listener → ℕ → Type 0
InRange b n = (b.reconnect_initial ≤ n) × (n ≤ b.reconnect_max)

module _ (c : Codec) (sha256 : Text → Text) (b : Listener)
    (ordered : b.reconnect_initial ≤ b.reconnect_max) where
  next-InRange : (n : ℕ) → InRange b n → InRange b (next_backoff b n)
  next-InRange n (h, k) = (omega arith, omega arith)

  first-InRange : InRange b b.reconnect_initial
  first-InRange = (omega arith, ordered)

  acknowledge_backoff :
      (s : Listening) (i : Incoming) → (acknowledge c sha256 b s i).0.hold_backoff ≡ s.hold_backoff
  acknowledge_backoff s i = elim (Bool-cases b.manual_ack) [
    | inr e ↦ simp e refl
    | inl e ↦ elim (Bool-cases (i.qos == 0)) [
      | inl q ↦ simp (e, q) refl
      | inr q ↦ elim (Bool-cases i.acknowledges) [
        | inl a ↦ simp (e, q, a) refl
        | inr a ↦ simp (e, q, a) refl
      ]
    ]
  ]

  check_backoff :
      (s : Listening) (i : Incoming) (m : AgentMessage) (x : Store × Result Bool)
      → InRange b s.hold_backoff
      → InRange b (after_check c sha256 b s i m x).0.hold_backoff
  unfolding after_check
  check_backoff s i m (st, err e) h = elim (Bool-cases b.manual_ack) [
    | inl a ↦ simp a h
    | inr a ↦ simp a h
  ]
  check_backoff s i m (st, ok true) h =
      subst (InRange b) (sym (acknowledge_backoff _ i)) first-InRange
  check_backoff s i m (st, ok false) h =
      subst (InRange b) (sym (acknowledge_backoff _ i)) first-InRange

  receive_backoff :
      (s : Listening) (i : Incoming)
      → InRange b s.hold_backoff
      → InRange b (receive c sha256 b s i).0.hold_backoff
  unfolding receive
  receive_backoff s i h = by_parse (from_json c i.fresh i.now i.payload) s.hold_store
    where
      by_parse :
          (r : Result AgentMessage) (o : Option Store)
          → InRange b (on_parse c sha256 b (record s { hold_store = o }) i r).0.hold_backoff
      by_parse (err e) o = subst (InRange b) (sym (acknowledge_backoff _ i)) h
      by_parse (ok m) none = subst (InRange b) (sym (acknowledge_backoff _ i)) h
      by_parse (ok m) (some st) =
          check_backoff (record s { hold_store = some st }) i m (checked c sha256 b st i m) h

  all_backoff :
      (s : Listening) (is : List Incoming)
      → InRange b s.hold_backoff
      → InRange b (receive_all c sha256 b s is).0.hold_backoff
  unfolding receive_all
  all_backoff s [] h = h
  all_backoff s (i ∷ is) h =
      further (receive c sha256 b s i) (receive_backoff s i h) (λ after k. all_backoff after is k)
    where
      further :
          (x : Listening × Option Leave)
          → InRange b x.0.hold_backoff
          → ((after : Listening)
              → InRange b after.hold_backoff
              → InRange b (receive_all c sha256 b after is).0.hold_backoff)
          → InRange b (go_on x (λ after. receive_all c sha256 b after is)).0.hold_backoff
      further (after, none) k next = next after k
      further (after, some l) k next = k

  -- The delays of a session.
  Ranged : Session → Type 0
  Ranged s = InRange b s.backoff × InRange b s.listening.hold_backoff × All (InRange b) s.sleeps

  end-Ranged :
      (k : Connection) (s : Session) (leave : Option Leave)
      → Ranged s
      → Ranged (end_connection b k s leave)
  unfolding Ranged
  end-Ranged k s none (h, q, a) = elim (Bool-cases k.drops) [
    | inl e ↦
        simp e
          (next-InRange s.backoff h, q, All-append (InRange b) s.sleeps (s.backoff ∷ []) a (h, tt))
    | inr e ↦ elim (Bool-cases k.closes) [
      | inl d ↦ simp (e, d) (h, q, a)
      | inr d ↦
          simp (e, d)
            (
              next-InRange s.backoff h,
              q,
              All-append (InRange b) s.sleeps (s.backoff ∷ []) a (h, tt),
            )
    ]
  ]
  end-Ranged k s (some left_hold) (h, q, a) = elim (Bool-cases k.closes) [
    | inl d ↦ simp d (
      h,
      next-InRange s.listening.hold_backoff q,
      All-append (InRange b) s.sleeps (s.listening.hold_backoff ∷ []) a (q, tt),
    )
    | inr d ↦
        simp d
          (next-InRange s.backoff h, q, All-append (InRange b) s.sleeps (s.backoff ∷ []) a (h, tt))
  ]
  end-Ranged k s (some left_ack) (h, q, a) =
      (next-InRange s.backoff h, q, All-append (InRange b) s.sleeps (s.backoff ∷ []) a (h, tt))

  connect-Ranged : (s : Session) (k : Connection) → Ranged s → Ranged (connect c sha256 b s k)
  unfolding connect Ranged
  connect-Ranged s k (h, q, a) = elim (Bool-cases k.connects) [
    | inr e ↦
        simp e
          (next-InRange s.backoff h, q, All-append (InRange b) s.sleeps (s.backoff ∷ []) a (h, tt))
    | inl e ↦ simp e (
        end-Ranged k _ (receive_all c sha256 b s.listening k.arrivals).1
          (first-InRange, all_backoff s.listening k.arrivals q, a))
  ]

  listen-Ranged : (s : Session) (ks : List Connection) → Ranged s → Ranged (listen c sha256 b s ks)
  unfolding listen
  listen-Ranged s [] h = h
  listen-Ranged s (k ∷ ks) h =
      further (connect c sha256 b s k).returned (connect c sha256 b s k) (connect-Ranged s k h)
        (λ after q. listen-Ranged after ks q)
    where
      further :
          (done : Bool) (x : Session)
          → Ranged x
          → ((after : Session) → Ranged after → Ranged (listen c sha256 b after ks))
          → Ranged (unless_returned done x (λ after. listen c sha256 b after ks))
      further true x q next = q
      further false x q next = next x q

  -- If the first delay is at most the greatest one, every delay between two connections of `_listen` is from the first to
  -- the greatest, whatever the connections do.
  pub listen-InRange :
      (st : Option Store) (ks : List Connection)
      → All (InRange b) (listen c sha256 b (begin c sha256 b st) ks).sleeps
  unfolding Ranged
  listen-InRange st ks =
      (listen-Ranged (begin c sha256 b st) ks (first-InRange, first-InRange, tt)).2
