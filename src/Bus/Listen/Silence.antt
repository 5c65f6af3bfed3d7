-- ===== src/Bus/Listen/Silence.antt =====
-- A tripped sender is not heard.
use swarmbus.Base.{
  ◌==◌, ◌≡◌, refl, sym, subst, ◌≢◌, ◌⊎◌, Bool, true, false, List, [], ◌∷◌, Text, Option, none, some,
  All, All-append, Bool-cases, inl, inr, starts_with, starts_with-append,
}
use swarmbus.Base.Result.{Result, ok, err}
use swarmbus.Message.Json.{Codec}
use swarmbus.Message.Envelope.{AgentMessage, from_json}
use swarmbus.Archive.Statements.{is_tripped}
use swarmbus.Archive.Admit.Trips.{admit_trips}
use swarmbus.Archive.Store.{Store, admit, pop_trips}
use swarmbus.Archive.Store.Trips.{finish_trips, refuses}
use swarmbus.Bus.Listen.{
  Handler, Run, Incoming, Listening, Leave, Listener, failed_prefix, dispatched, archive_unchecked,
  arrival_of, go_on, acknowledge, alert, checked, after_check, on_parse, receive, receive_all,
}

-- A call of a handler that a held sender may cause: not on a message of its own, or for the record of the file
-- bridge alone, under the mark of a failed check.
abbrev pub IsQuiet : Text → Run → Type 0
IsQuiet sender r =
    (r.msg.from_agent ≢ sender)
    ⊎ ((r.handler.file_bridge ≡ true) × (starts_with r.msg.subject failed_prefix ≡ true))

dispatched_all :
    (P : Run → Type 0) (hs : List Handler) (m : AgentMessage)
    → ((h : Handler) → P (record { handler = h; msg = m }))
    → All P (dispatched hs m)
dispatched_all P [] m p = tt
dispatched_all P (h ∷ hs) m p = (p h, dispatched_all P hs m p)

archived_all :
    (sender : Text) (hs : List Handler) (m : AgentMessage)
    → All (IsQuiet sender) (archive_unchecked hs m)
unfolding archive_unchecked
archived_all sender [] m = tt
archived_all sender (h ∷ hs) m = elim (Bool-cases h.file_bridge) [
  | inl e ↦
      simp e (inr (refl, starts_with-append failed_prefix m.subject), archived_all sender hs m)
  | inr e ↦ simp e (archived_all sender hs m)
]

-- The sender is tripped in the store of the listener, and has not been heard.
abbrev pub Silent : Text → Listening → Type 0
Silent sender s =
    (st : Store) × (s.hold_store ≡ some st)
    × (is_tripped st.db sender ≡ true)
    × All (IsQuiet sender) s.runs

module _ (c : Codec) (sha256 : Text → Text) (b : Listener) (sender : Text) where
  acknowledge-Silent :
      (s : Listening) (i : Incoming)
      → Silent sender s
      → Silent sender (acknowledge c sha256 b s i).0
  acknowledge-Silent s i h = elim (Bool-cases b.manual_ack) [
    | inr e ↦ simp e h
    | inl e ↦ elim (Bool-cases (i.qos == 0)) [
      | inl q ↦ simp (e, q) h
      | inr q ↦ elim (Bool-cases i.acknowledges) [
        | inl a ↦ simp (e, q, a) h
        | inr a ↦ simp (e, q, a) h
      ]
    ]
  ]

  alert-Silent :
      (s : Listening) (st : Store)
      → is_tripped st.db sender ≡ true
      → All (IsQuiet sender) s.runs
      → Silent sender (alert c sha256 b s st)
  unfolding pop_trips
  alert-Silent s st h q = elim (Bool-cases b.has_alerter) [
    | inl e ↦ simp e (_, refl, h, q)
    | inr e ↦ simp e (st, refl, h, q)
  ]

  -- The store keeps the trip, and admits nothing of the sender.
  abbrev Keeps : AgentMessage → Store × Result Bool → Type 0
  Keeps m (st, r) = (is_tripped st.db sender ≡ true) × (r ≡ ok true → m.from_agent ≢ sender)

  checked-Keeps :
      (st : Store) (i : Incoming) (m : AgentMessage)
      → is_tripped st.db sender ≡ true
      → Keeps m (checked c sha256 b st i m)
  unfolding admit
  checked-Keeps st i m h = elim (Bool-cases i.store_fails) [
    | inl e ↦ simp e (h, λ k. cc)
    | inr e ↦ simp e (
      finish_trips c sha256 sender st _ h (
          admit_trips c sha256 (arrival_of i m) sender st.limits st.admissions_since_prune st.db h),
      λ k same.
          refuses c sha256 sender st (arrival_of i m) _ refl
            (subst (λ x. is_tripped st.db x ≡ true) (sym same) h) k,
    )
  ]

  check-Silent :
      (s : Listening) (i : Incoming) (m : AgentMessage) (x : Store × Result Bool)
      → All (IsQuiet sender) s.runs
      → Keeps m x
      → Silent sender (after_check c sha256 b s i m x).0
  unfolding after_check
  check-Silent s i m (st, err e) q (h, k) = elim (Bool-cases b.manual_ack) [
    | inl a ↦ simp a (st, refl, h, q)
    | inr a ↦ simp a (
      st,
      refl,
      h,
      All-append (IsQuiet sender) s.runs (archive_unchecked b.handlers m) q
          (archived_all sender b.handlers m),
    )
  ]
  check-Silent s i m (st, ok false) q (h, k) = acknowledge-Silent _ i (alert-Silent s st h q)
  check-Silent s i m (st, ok true) q (h, k) =
      let (kept, e, t, a) = alert-Silent s st h q in
      acknowledge-Silent _ i (
        kept,
        e,
        t,
        All-append (IsQuiet sender) _ (dispatched b.handlers m) a
            (dispatched_all (IsQuiet sender) b.handlers m (λ _. inl (k refl))),
      )

  receive-Silent :
      (s : Listening) (i : Incoming) → Silent sender s → Silent sender (receive c sha256 b s i).0
  unfolding receive
  receive-Silent s i h = by_parse (from_json c i.fresh i.now i.payload)
    where
      by_parse : (r : Result AgentMessage) → Silent sender (on_parse c sha256 b s i r).0
      by_parse (err e) = acknowledge-Silent s i h
      by_parse (ok m) =
          let (st, e, t, q) = h in
          simp e (check-Silent s i m (checked c sha256 b st i m) q (checked-Keeps st i m t))

  pub all-Silent :
      (s : Listening) (is : List Incoming)
      → Silent sender s
      → Silent sender (receive_all c sha256 b s is).0
  unfolding receive_all
  all-Silent s [] h = h
  all-Silent s (i ∷ is) h =
      further (receive c sha256 b s i) (receive-Silent s i h) (λ after k. all-Silent after is k)
    where
      further :
          (x : Listening × Option Leave)
          → Silent sender x.0
          → ((after : Listening)
              → Silent sender after
              → Silent sender (receive_all c sha256 b after is).0)
          → Silent sender (go_on x (λ after. receive_all c sha256 b after is)).0
      further (after, none) k next = next after k
      further (after, some l) k next = k
