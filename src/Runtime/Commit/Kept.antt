-- ===== src/Runtime/Commit/Kept.antt =====
-- What a commit that answers has done with the message.
use swarmbus.Base.{
  ℕ, ◌+◌, lt→ltb, ◌≡◌, refl, sym, ap, ◌∙◌, ◌⊎◌, inl, inr, Bool, true, false, List, [], ◌∷◌, ◌++◌,
  Text, text_eq, text_eq_refl, none, some, All, length, ◌≤◌, append-nil, append_assoc, arith,
  Bool-cases, Option-cases,
}
use swarmbus.Base.Result.{Result, Error, ok, err, store_error, value_error}
use swarmbus.Base.Table.{find_append}
use swarmbus.Message.Json.{Codec, obj}
use swarmbus.Message.Envelope.{AgentMessage, to_json, dump}
use swarmbus.Archive.Admit.{Arrival}
use swarmbus.Archive.Admit.Total.{Fine, is_late, admit_in_total}
use swarmbus.Archive.Admit.{max_timestamp}
use swarmbus.Archive.Store.{Store, admit, finish, pop_trips}
use swarmbus.Archive.Inbox.{
  Mailbox, InboxRow, Observed, store, insert_admission, new_message, next_rowid, record_conflict,
  same_columns, columns_of, find_message,
}
use swarmbus.Archive.Inbox.Keep.{same_columns_refl}
use swarmbus.Runtime.State.{Runtime, is_store_error, connected, max_backoff, one_second, next_delay}
use swarmbus.Runtime.Commit.{
  Attempt, arrives, settle_conflict, commit, succeed, degrade, after_commit, commit_loop,
  store_inbox_message,
}

-- A message that arrives at a mailbox is in the inbox afterwards, with its own columns; or the hold store did not admit
-- it, and its tables are those that `admit` leaves, with the inbox as it was; or another message with its id was
-- there, and it is recorded as a conflict.
abbrev pub IsKept : Codec → (Text → Text) → Mailbox → Arrival → Mailbox → Type 0
IsKept c sha256 before a after =
    ((row : InboxRow) × (find_message after a.msg.id ≡ some row)
      × (same_columns row.columns (columns_of c a.msg) ≡ true))
    ⊎ ((find_message before a.msg.id ≡ none)
        × ((admit c sha256 before.store_ a).1 ≡ ok false)
        × (after.store_.db ≡ (admit c sha256 before.store_ a).0.db)
        × (after.inbox ≡ before.inbox))
    ⊎ ((row : InboxRow) × (find_message before a.msg.id ≡ some row)
        × (same_columns row.columns (columns_of c a.msg) ≡ false)
        × (after.store_.db ≡ (record_conflict c before a).0.store_.db))

-- The bytes of a message are read back.
abbrev pub ReadsBack : Codec → AgentMessage → Type 0
ReadsBack c m = c.loads (to_json c m) ≡ some (obj (dump c m))

module _ (c : Codec) (sha256 : Text → Text) where
  admit-Fine :
      (st : Store) (a : Arrival)
      → ReadsBack c a.msg
      → Fine (is_late st.limits a) (admit c sha256 st a).1
  unfolding admit
  admit-Fine st a h = elim (admit_in_total c sha256 st.limits st.admissions_since_prune a st.db h) [
    | inl (d, e) ↦ inl (d.admitted, ap (λ r. (finish c sha256 st r).1) e)
    | inr (past, e) ↦ inr (
      lt→ltb max_timestamp (a.now + st.limits.rate_cooldown) past,
      ap (λ r. (finish c sha256 st r).1) e,
    )
  ]

  -- An answer keeps the message; an error is none of the database, and only a cool-down past the year 9999 raises it.
  abbrev pub Answers : Mailbox → Arrival → Mailbox × Result Bool → Type 0
  Answers before a (after, ok b) = IsKept c sha256 before a after
  Answers before a (after, err e) =
      (is_late before.store_.limits a ≡ true) × (is_store_error e ≡ false)

  pub inserted :
      (mb : Mailbox) (arrival : Arrival) (a : Attempt) (o : Observed) (x : Store × Result Bool)
      → ReadsBack c arrival.msg
      → find_message mb arrival.msg.id ≡ none
      → admit c sha256 mb.store_ arrival ≡ x
      → Answers mb arrival (
          settle_conflict c sha256 arrival a.conflict_fails
            (insert_admission c sha256 mb arrival a.received o x))
  inserted mb arrival a o (s, ok true) h n e = inl (
    new_message c sha256 arrival a.received o (next_rowid mb.inbox),
    find_append (λ (r : InboxRow). text_eq r.columns.id arrival.msg.id) mb.inbox
        (new_message c sha256 arrival a.received o (next_rowid mb.inbox)) n
        (text_eq_refl arrival.msg.id),
    same_columns_refl (columns_of c arrival.msg),
  )
  inserted mb arrival a o (s, ok false) h n e = inr (
      inl (
        n,
        ap (λ (y : Store × Result Bool). y.1) e,
        ap (λ (y : Store × Result Bool). y.0.db) (sym e),
        refl,
      ))
  inserted mb arrival a o (s, err x) h n e = elim (admit-Fine mb.store_ arrival h) [
    | inl (b, k) ↦ absurd (wrong (sym k ∙ ap (λ (y : Store × Result Bool). y.1) e))
    | inr (late, k) ↦
        raises x (admit c sha256 mb.store_ arrival).1 k (ap (λ (y : Store × Result Bool). y.1) e)
          late
  ]
    where
      wrong : {b : Bool} → ok b ≡ err x → ⊥
      wrong q = cc

      raises :
          (x : Error) (y : Result Bool)
          → y ≡ err value_error
          → y ≡ err x
          → is_late mb.store_.limits arrival ≡ true
          → Answers mb arrival (
              settle_conflict c sha256 arrival a.conflict_fails
                (insert_admission c sha256 mb arrival a.received o (s, err x)))
      raises value_error y p q late = (late, refl)
      raises x y p q late = cc

  -- An attempt on which the database does not fail answers, and the message is kept.
  pub commit-Answers :
      (mb : Mailbox) (m : AgentMessage) (topic : Text) (o : Observed) (a : Attempt)
      → ReadsBack c m
      → a.store_fails ≡ false
      → a.conflict_fails ≡ false
      → Answers mb (arrives c sha256 m topic a) (commit c sha256 mb m topic o a)
  unfolding commit store
  commit-Answers mb m topic o a h e k = elim (Option-cases (find_message mb m.id)) [
    | inl n ↦
        simp (e, n)
          (inserted mb (arrives c sha256 m topic a) a o
            (admit c sha256 mb.store_ (arrives c sha256 m topic a)) h n refl)
    | inr (row, f) ↦ elim (Bool-cases (same_columns row.columns (columns_of c m))) [
      | inl same ↦ simp (e, f, same) (inl (row, refl, same))
      | inr other ↦ simp (e, k, f, other) (inr (inr (row, refl, other, refl)))
    ]
  ]

  -- The runtime has stored the message: its state is connected, it has waited at most the greatest delay, as often as
  -- the database failed, and the message is kept.
  pub record IsStored (before : Runtime) (failures : ℕ) (m : AgentMessage) (topic : Text)
      (a : Attempt) (after : Runtime) : Type 0 where
    pub is_connected : after.state ≡ connected
    pub no_error : after.last_store_error ≡ none
    pub waits : List ℕ
    pub waited : after.sleeps ≡ before.sleeps ++ waits
    pub often : length waits ≡ failures
    pub bounded : All (λ d. d ≤ max_backoff) waits
    pub is_kept : IsKept c sha256 before.mailbox (arrives c sha256 m topic a) after.mailbox

  pub succeeded :
      (r : Runtime) (m : AgentMessage) (topic : Text) (a : Attempt) (mb : Mailbox)
      → IsKept c sha256 r.mailbox (arrives c sha256 m topic a) mb
      → IsStored r 0 m topic a (succeed c sha256 r mb)
  unfolding pop_trips
  succeeded r m topic a mb k = elim (Bool-cases r.has_alerter) [
    | inl e ↦ simp e (record {
      is_connected = refl;
      no_error = refl;
      waits = [];
      waited = sym (append-nil r.sleeps);
      often = refl;
      bounded = tt;
      is_kept = k;
    })
    | inr e ↦ simp e (record {
      is_connected = refl;
      no_error = refl;
      waits = [];
      waited = sym (append-nil r.sleeps);
      often = refl;
      bounded = tt;
      is_kept = k;
    })
  ]

  answered :
      (r : Runtime) (m : AgentMessage) (topic : Text) (a : Attempt) (delay : ℕ)
      (retry : Runtime → Runtime × Result Bool) (x : Mailbox × Result Bool)
      → is_late r.mailbox.store_.limits (arrives c sha256 m topic a) ≡ false
      → Answers r.mailbox (arrives c sha256 m topic a) x
      → (out : Runtime) × (b : Bool) × (after_commit c sha256 r delay retry x ≡ (out, ok b))
        × IsStored r 0 m topic a out
  answered r m topic a delay retry (mb, ok b) f k =
      (succeed c sha256 r mb, b, refl, succeeded r m topic a mb k)
  answered r m topic a delay retry (mb, err e) f (late, k) = cc

  -- The runtime after a commit that failed, in live-session mode.
  abbrev pub waiting : Runtime → ℕ → Runtime
  waiting r delay = record (degrade c sha256 r r.mailbox store_error) {
    sleeps = r.sleeps ++ delay ∷ [];
  }

  failed_commit :
      (r : Runtime) (m : AgentMessage) (topic : Text) (o : Observed) (x : Attempt) (delay : ℕ)
      (retry : Runtime → Runtime × Result Bool)
      → r.persistent ≡ false
      → x.store_fails ≡ true
      → after_commit c sha256 r delay retry (commit c sha256 r.mailbox m topic o x)
        ≡ retry (waiting r delay)
  unfolding commit
  failed_commit r m topic o x delay retry p e = simp (e, p) refl

  loop_stores :
      (m : AgentMessage) (topic : Text) (o : Observed) (bad : List Attempt) (a : Attempt)
      (rest : List Attempt) (delay : ℕ) (r : Runtime)
      → r.persistent ≡ false
      → delay ≤ max_backoff
      → All (λ (x : Attempt). x.store_fails ≡ true) bad
      → a.store_fails ≡ false
      → a.conflict_fails ≡ false
      → is_late r.mailbox.store_.limits (arrives c sha256 m topic a) ≡ false
      → ReadsBack c m
      → (out : Runtime) × (b : Bool) × (commit_loop c sha256 m topic o (bad ++ a ∷ rest) delay r
          ≡ (out, ok b))
        × IsStored r (length bad) m topic a out
  unfolding commit_loop
  loop_stores m topic o [] a rest delay r p d h e k f back =
      answered r m topic a delay (commit_loop c sha256 m topic o rest (next_delay delay))
        (commit c sha256 r.mailbox m topic o a) f (commit-Answers r.mailbox m topic o a back e k)
  loop_stores m topic o (x ∷ bad) a rest delay r p d (f, h) e k fits back =
      let (out, b, q, i) =
        loop_stores m topic o bad a rest (next_delay delay) (waiting r delay) p (omega arith) h e k
          fits back in
      (
        out,
        b,
        failed_commit r m topic o x delay
              (commit_loop c sha256 m topic o (bad ++ a ∷ rest) (next_delay delay)) p f
            ∙ q,
        record {
          is_connected = i.is_connected;
          no_error = i.no_error;
          waits = delay ∷ i.waits;
          waited = i.waited ∙ append_assoc r.sleeps (delay ∷ []) i.waits;
          often = omega (arith, i.often);
          bounded = (d, i.bounded);
          is_kept = i.is_kept;
        },
      )

  -- In a live session (not persistent), if the database fails on some attempts and then works, and a cool-down from that
  -- attempt on would not end past the year 9999, `store_inbox_message` answers: the state is connected again, it has
  -- waited as often as the database failed, each time at most a minute, and the message is in the inbox with its
  -- own columns, or the hold store did not admit it and its tables are those that `admit` leaves, or its id
  -- stood for another message and it is recorded as a conflict. The one other condition is that json
  -- reads back the text that it wrote for the message.
  pub store_inbox_message-IsStored :
      (m : AgentMessage) (topic : Text) (o : Observed) (bad : List Attempt) (a : Attempt)
      (rest : List Attempt) (r : Runtime)
      → r.persistent ≡ false
      → All (λ (x : Attempt). x.store_fails ≡ true) bad
      → a.store_fails ≡ false
      → a.conflict_fails ≡ false
      → a.seen_at + r.mailbox.store_.limits.rate_cooldown ≤ max_timestamp
      → c.loads (to_json c m) ≡ some (obj (dump c m))
      → (out : Runtime) × (b : Bool) × (store_inbox_message c sha256 m topic o (bad ++ a ∷ rest) r
          ≡ (out, ok b))
        × IsStored r (length bad) m topic a out
  unfolding store_inbox_message
  store_inbox_message-IsStored m topic o bad a rest r p h e k fits back =
      loop_stores m topic o bad a rest one_second r p (omega arith) h e k (ground arith) back
