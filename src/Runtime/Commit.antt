-- ===== src/Runtime/Commit.antt =====
-- `_commit_inbox_message` and `_store_inbox_message` of src/swarmbus/runtime.py. Each attempt is an input: whether the
-- database fails on the commit or on the record of a conflict, and the clock. After the last one the runtime stops.
pub mod Kept
use swarmbus.Base.{
  ℕ, ◌*◌, min, Bool, true, false, not, List, [], ◌∷◌, ◌++◌, Text, Option, none, some, if◌then◌else◌,
}
use swarmbus.Base.Result.{Result, ok, err, Error, message_conflict, store_error, cancelled, ◌>>=◌}
use swarmbus.Message.Json.{DateTime, Codec}
use swarmbus.Message.Envelope.{AgentMessage}
use swarmbus.Archive.Admit.{Arrival}
use swarmbus.Archive.Store.{Store, pop_trips}
use swarmbus.Archive.Inbox.{Mailbox, Observed, store, record_conflict}
use swarmbus.Runtime.State.{
  RuntimeState, connected, store_degraded, Runtime, one_second, next_delay, is_store_error,
}

pub record Attempt : Type 0 where
  pub store_fails : Bool
  pub conflict_fails : Bool
  pub seen_at : ℕ
  pub received : DateTime

module _ (c : Codec) (sha256 : Text → Text) where
  abbrev pub arrives : AgentMessage → Text → Attempt → Arrival
  arrives m topic a = record { msg = m; source_topic = topic; now = a.seen_at }

  abbrev pub settle_conflict : Arrival → Bool → Mailbox × Result Bool → Mailbox × Result Bool
  settle_conflict arrival fails (mb, err message_conflict) =
      if fails then (mb, err store_error) else ((record_conflict c mb arrival).0, ok false)
  settle_conflict arrival fails (mb, r) = (mb, r)

  -- `_commit_inbox_message`
  unfoldable pub commit : Mailbox → AgentMessage → Text → Observed → Attempt → Mailbox × Result Bool
  commit mb m topic o a =
      if a.store_fails
      then (mb, err store_error)
      else settle_conflict (arrives m topic a) a.conflict_fails
          (store c sha256 mb (arrives m topic a) a.received o)

  abbrev pub succeed : Runtime → Mailbox → Runtime
  succeed r mb =
      let back = record r { last_store_error = none; state = connected } in
      if r.has_alerter
      then record back {
        mailbox = record mb { store_ = (pop_trips mb.store_).0 };
        alerts = r.alerts ++ (pop_trips mb.store_).1;
      }
      else record back { mailbox = mb }

  abbrev pub degrade : Runtime → Mailbox → Error → Runtime
  degrade r mb e = record r { mailbox = mb; last_store_error = some e; state = store_degraded }

  -- After a commit; `retry` goes on with the next attempt, from the delay after this one.
  abbrev pub after_commit :
      Runtime
      → ℕ
      → (Runtime → Runtime × Result Bool)
      → Mailbox × Result Bool
      → Runtime × Result Bool
  after_commit r delay retry (mb, ok inserted) = (succeed r mb, ok inserted)
  after_commit r delay retry (mb, err e) =
      if not (is_store_error e)
      then (record r { mailbox = mb }, err e)
      else if r.persistent
      then (degrade r mb e, err e)
      else retry (record (degrade r mb e) { sleeps = r.sleeps ++ delay ∷ [] })

  -- The loop of `_store_inbox_message`.
  unfoldable pub commit_loop :
      AgentMessage → Text → Observed → List Attempt → ℕ → Runtime → Runtime × Result Bool
  unfolding pop_trips
  commit_loop m topic o [] delay r = (r, err cancelled)
  commit_loop m topic o (a ∷ rest) delay r =
      after_commit r delay (commit_loop m topic o rest (next_delay delay))
        (commit r.mailbox m topic o a)

  unfoldable pub store_inbox_message :
      AgentMessage → Text → Observed → List Attempt → Runtime → Runtime × Result Bool
  store_inbox_message m topic o attempts r = commit_loop m topic o attempts one_second r
