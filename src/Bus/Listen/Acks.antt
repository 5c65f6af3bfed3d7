-- ===== src/Bus/Listen/Acks.antt =====
-- What the listener acknowledges.
use swarmbus.Base.{
  ◌≡◌, refl, sym, ap, ◌∙◌, Bool, true, false, not, ◌==◌, List, [], ◌∷◌, ◌++◌, append_assoc,
  append-nil, Text, Option, none, some, Bool-cases, inl, inr,
}
use swarmbus.Base.Table.{select_rows}
use swarmbus.Base.Result.{Result, ok, err}
use swarmbus.Message.Json.{Codec}
use swarmbus.Message.Envelope.{AgentMessage, from_json}
use swarmbus.Archive.Store.{Store}
use swarmbus.Bus.Listen.{
  Incoming, Listening, Leave, Listener, go_on, acknowledge, alert, checked, after_check, on_message,
  on_parse, receive, receive_all,
}

-- A delivery that is acknowledged at all.
abbrev pub needs_ack : Incoming → Bool
needs_ack i = not (i.qos == 0)

-- What the messages of a connection add to the acknowledged ones: those of them that need it, or if the connection is
-- left those that need it before one that is not acknowledged.
abbrev pub Acks : Listening → List Incoming → Listening × Option Leave → Type 0
Acks s is (after, none) = after.acked ≡ s.acked ++ select_rows needs_ack is
Acks s is (after, some l) =
    (done : List Incoming) × (i : Incoming) × (rest : List Incoming) × (is ≡ done ++ i ∷ rest)
    × (after.acked ≡ s.acked ++ select_rows needs_ack done)

-- After the first message, the rest.
later :
    (acked : List Incoming) (i : Incoming) (is : List Incoming)
    → (acked ++ select_rows needs_ack (i ∷ [])) ++ select_rows needs_ack is
      ≡ acked ++ select_rows needs_ack (i ∷ is)
unfolding select_rows
later acked i is = elim (Bool-cases (needs_ack i)) [
  | inl e ↦ simp e (append_assoc acked (i ∷ []) (select_rows needs_ack is))
  | inr e ↦ simp e (ap (λ (xs : List Incoming). xs ++ select_rows needs_ack is) (append-nil acked))
]

module _ (c : Codec) (sha256 : Text → Text) (b : Listener) (manual : b.manual_ack ≡ true) where
  acknowledge-Acks :
      (s told : Listening) (i : Incoming)
      → told.acked ≡ s.acked
      → Acks s (i ∷ []) (acknowledge c sha256 b told i)
  unfolding select_rows
  acknowledge-Acks s told i e = elim (Bool-cases (i.qos == 0)) [
    | inl q ↦ simp (manual, q, e) (sym (append-nil s.acked))
    | inr q ↦ elim (Bool-cases i.acknowledges) [
      | inl a ↦ simp (manual, q, a, e) refl
      | inr a ↦ simp (manual, q, a) ([], i, [], refl, e ∙ sym (append-nil s.acked))
    ]
  ]

  alert_acked : (s : Listening) (st : Store) → (alert c sha256 b s st).acked ≡ s.acked
  alert_acked s st = elim (Bool-cases b.has_alerter) [ inl e ↦ simp e refl | inr e ↦ simp e refl ]

  check-Acks :
      (s : Listening) (i : Incoming) (m : AgentMessage) (r : Store × Result Bool)
      → Acks s (i ∷ []) (after_check c sha256 b s i m r)
  unfolding after_check select_rows
  check-Acks s i m (st, err e) = simp manual ([], i, [], refl, sym (append-nil s.acked))
  check-Acks s i m (st, ok true) = acknowledge-Acks s _ i (alert_acked s st)
  check-Acks s i m (st, ok false) = acknowledge-Acks s _ i (alert_acked s st)

  parse-Acks :
      (s : Listening) (i : Incoming) (r : Result AgentMessage)
      → Acks s (i ∷ []) (on_parse c sha256 b s i r)
  parse-Acks s i (err e) = acknowledge-Acks s s i refl
  parse-Acks s i (ok m) = by_store s.hold_store
    where
      by_store : (o : Option Store) → Acks s (i ∷ []) (on_message c sha256 b s i m o)
      by_store none = acknowledge-Acks s _ i refl
      by_store (some st) = check-Acks s i m (checked c sha256 b st i m)

  receive-Acks : (s : Listening) (i : Incoming) → Acks s (i ∷ []) (receive c sha256 b s i)
  unfolding receive
  receive-Acks s i = parse-Acks s i (from_json c i.fresh i.now i.payload)

  -- The first messages of a connection leave it, or the rest goes on.
  go_on-Acks :
      (s : Listening) (i : Incoming) (is : List Incoming) (x : Listening × Option Leave)
      → Acks s (i ∷ []) x
      → ((after : Listening) → Acks after is (receive_all c sha256 b after is))
      → Acks s (i ∷ is) (go_on x (λ after. receive_all c sha256 b after is))
  go_on-Acks s i is (after, some l) (done, j, rest, e, k) next = (
    done,
    j,
    rest ++ is,
    ap (λ (xs : List Incoming). xs ++ is) e ∙ append_assoc done (j ∷ rest) is,
    k,
  )
  go_on-Acks s i is (after, none) k next = further (receive_all c sha256 b after is) (next after)
    where
      further : (x : Listening × Option Leave) → Acks after is x → Acks s (i ∷ is) x
      further (last, none) h =
          h ∙ ap (λ (xs : List Incoming). xs ++ select_rows needs_ack is) k ∙ later s.acked i is
      further (last, some l) (done, j, rest, e, h) = (
        i ∷ done,
        j,
        rest,
        ap (λ (xs : List Incoming). i ∷ xs) e,
        h ∙ ap (λ (xs : List Incoming). xs ++ select_rows needs_ack done) k ∙ later s.acked i done,
      )

  -- A listener that acknowledges by hand acknowledges the messages of a connection that have a quality of service above 0,
  -- in the order in which they came: all of them, or if it leaves the connection all those before one that it does not
  -- acknowledge.
  pub receive_all-Acks :
      (s : Listening) (is : List Incoming) → Acks s is (receive_all c sha256 b s is)
  unfolding receive_all select_rows
  receive_all-Acks s [] = sym (append-nil s.acked)
  receive_all-Acks s (i ∷ is) =
      go_on-Acks s i is (receive c sha256 b s i) (receive-Acks s i)
        (λ after. receive_all-Acks after is)
