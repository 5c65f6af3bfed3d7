-- ===== src/Runtime/Handle/Durable.antt =====
-- What is acknowledged is kept.
use swarmbus.Base.{
  ℕ, ◌≡◌, refl, sym, subst, ◌⊎◌, inl, inr, Bool, true, false, List, [], ◌∷◌, Text, some,
  if◌then◌else◌, Bool-cases, Option-cases, ◌==◌,
}
use mathlib.Core.List.{Memᴰ}
use swarmbus.Base.Result.{Result, ok, err, store_error}
use swarmbus.Message.Json.{Codec, obj}
use swarmbus.Message.Envelope.{AgentMessage, from_json, to_json, dump}
use swarmbus.Topics.{default_topics, is_message_topic}
use swarmbus.Archive.Store.{admit}
use swarmbus.Archive.Inbox.{Mailbox, Observed, store, same_columns, columns_of, find_message}
use swarmbus.Runtime.State.{Runtime, next_delay, one_second, observe_sender_state}
use swarmbus.Runtime.Commit.{
  Attempt, arrives, commit, after_commit, commit_loop, store_inbox_message,
}
use swarmbus.Runtime.Commit.Kept.{IsKept, ReadsBack, Answers, inserted, succeeded, waiting}
use swarmbus.Runtime.Handle.{Delivered, adapter_ack, on_stored, on_observed, handle_message}

module _ (c : Codec) (sha256 : Text → Text) (m : AgentMessage) (back : ReadsBack c m) where
  commit_cases :
      (mb : Mailbox) (topic : Text) (o : Observed) (a : Attempt)
      → (commit c sha256 mb m topic o a ≡ (mb, err store_error))
        ⊎ Answers c sha256 mb (arrives c sha256 m topic a) (commit c sha256 mb m topic o a)
  unfolding commit store
  commit_cases mb topic o a = elim (Bool-cases a.store_fails) [
    | inl f ↦ inl (simp f refl)
    | inr f ↦ elim (Option-cases (find_message mb m.id)) [
      | inl n ↦ inr (
          simp (f, n)
            (inserted c sha256 mb (arrives c sha256 m topic a) a o
              (admit c sha256 mb.store_ (arrives c sha256 m topic a)) back n refl))
      | inr (row, e) ↦ elim (Bool-cases (same_columns row.columns (columns_of c m))) [
        | inl same ↦ inr (simp (f, e, same) (inl (row, refl, same)))
        | inr other ↦ elim (Bool-cases a.conflict_fails) [
          | inl k ↦ inl (simp (f, e, other, k) refl)
          | inr k ↦ inr (simp (f, e, other, k) (inr (inr (row, refl, other, refl))))
        ]
      ]
    ]
  ]

  -- An answer of the loop, and the attempt that it came from.
  abbrev Ends : Runtime → Text → List Attempt → Runtime × Result Bool → Type 0
  Ends r topic attempts (out, ok b) =
      (a : Attempt) × Memᴰ a attempts
      × IsKept c sha256 r.mailbox (arrives c sha256 m topic a) out.mailbox
  Ends r topic attempts (out, err e) = Unit

  loop-Ends :
      (topic : Text) (o : Observed) (attempts : List Attempt) (delay : ℕ) (r : Runtime)
      → Ends r topic attempts (commit_loop c sha256 m topic o attempts delay r)
  unfolding commit_loop
  loop-Ends topic o [] delay r = tt
  loop-Ends topic o (a ∷ rest) delay r = elim (commit_cases r.mailbox topic o a) [
    | inl q ↦
        subst
          (λ x. Ends r topic (a ∷ rest) (
            after_commit c sha256 r delay (commit_loop c sha256 m topic o rest (next_delay delay))
              x))
          (sym q)
          (lost (commit_loop c sha256 m topic o rest (next_delay delay) (waiting c sha256 r delay))
            _ r.persistent
            (later
              (commit_loop c sha256 m topic o rest (next_delay delay) (waiting c sha256 r delay))
              (loop-Ends topic o rest (next_delay delay) (waiting c sha256 r delay))))
    | inr k ↦ answers (commit c sha256 r.mailbox m topic o a) k
  ]
    where
      later :
          (x : Runtime × Result Bool)
          → Ends (waiting c sha256 r delay) topic rest x
          → Ends r topic (a ∷ rest) x
      later (out, ok b) (x, d, k) = (x, Memᴰ.tail d, k)
      later (out, err e) h = tt

      lost :
          (x : Runtime × Result Bool) (s : Runtime) (b : Bool)
          → Ends r topic (a ∷ rest) x
          → Ends r topic (a ∷ rest) (if b then (s, err store_error) else x)
      lost x s true h = tt
      lost x s false h = h

      answers :
          (x : Mailbox × Result Bool)
          → Answers c sha256 r.mailbox (arrives c sha256 m topic a) x
          → Ends r topic (a ∷ rest) (
              after_commit c sha256 r delay
                (commit_loop c sha256 m topic o rest (next_delay delay))
                x)
      answers (mb, ok b) k = (a, Memᴰ.head refl, (succeeded c sha256 r m topic a mb k).is_kept)
      answers (mb, err e) (late, other) = simp other tt

  stored-Ends :
      (d : Delivered) (o : Observed) (r : Runtime)
      → Ends r d.topic d.attempts (store_inbox_message c sha256 m d.topic o d.attempts r)
  unfolding store_inbox_message
  stored-Ends d o r = loop-Ends d.topic o d.attempts one_second r

  ack_runtime : (r : Runtime) (d : Delivered) → (adapter_ack r d).runtime ≡ r
  ack_runtime r d = elim (Bool-cases (d.qos == 0)) [
    | inl e ↦ simp e refl
    | inr e ↦ elim (Bool-cases d.acknowledges) [
      | inl a ↦ simp (e, a) refl
      | inr a ↦ simp (e, a) refl
    ]
  ]

-- If `_handle_message` acknowledges a message on the agent's inbox or the broadcast topic that is a valid envelope, then
-- one of the attempts of its delivery has kept the message: it is in the inbox with its own columns; or the hold store
-- did not admit it, the inbox is as it was, and the tables of the hold store are those that `admit` leaves; or its id
-- stood for another message and it is recorded as a conflict. The one condition is that json reads back the text
-- that it wrote for the message.
pub handle_message-IsKept :
    (c : Codec) (sha256 : Text → Text) (r : Runtime) (d : Delivered) {m : AgentMessage}
    → is_message_topic default_topics d.topic r.agent_id ≡ true
    → from_json c d.fresh d.now d.payload ≡ ok m
    → c.loads (to_json c m) ≡ some (obj (dump c m))
    → (handle_message c sha256 r d).acked ≡ true
    → (a : Attempt) × Memᴰ a d.attempts
      × IsKept c sha256 r.mailbox
          (arrives c sha256 m d.topic a)
          (handle_message c sha256 r d).runtime.mailbox
unfolding handle_message
handle_message-IsKept c sha256 r d {m} on_inbox valid back h =
    simp (on_inbox, valid)
      (by_sender (observe_sender_state m.from_agent d.now r.registry) (simp (on_inbox, valid) at h))
  where
    by_store :
        (x : Runtime × Result Bool)
        → Ends c sha256 m back r d.topic d.attempts x
        → (on_stored c sha256 d x).acked ≡ true
        → (a : Attempt) × Memᴰ a d.attempts
          × IsKept c sha256 r.mailbox
              (arrives c sha256 m d.topic a)
              (on_stored c sha256 d x).runtime.mailbox
    by_store (after, ok b) (a, among, k) h = (
      a,
      among,
      subst (λ (s : Runtime). IsKept c sha256 r.mailbox (arrives c sha256 m d.topic a) s.mailbox)
          (sym (ack_runtime c sha256 m back after d)) k,
    )
    by_store (after, err e) k h = cc

    by_sender :
        (o : Result Observed)
        → (on_observed c sha256 r d m o).acked ≡ true
        → (a : Attempt) × Memᴰ a d.attempts
          × IsKept c sha256 r.mailbox
              (arrives c sha256 m d.topic a)
              (on_observed c sha256 r d m o).runtime.mailbox
    by_sender (err e) h = cc
    by_sender (ok o) h =
        by_store (store_inbox_message c sha256 m d.topic o d.attempts r)
          (stored-Ends c sha256 m back d o r) h
