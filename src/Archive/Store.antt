-- ===== src/Archive/Store.antt =====
-- `SQLiteMessageStore` of src/swarmbus/archive.py as an object: `admit` in its transaction,
-- `pop_trips`, `reset_trips` and `lookup`.
pub mod Trips
pub mod Reset
use swarmbus.Base.{
  ℕ, ◌+◌, ◌-◌, Bool, true, false, [], ◌∷◌, ◌++◌, List, Text, text_eq, ltb, leb, Option, none, some,
  if◌then◌else◌, length, drop,
}
use swarmbus.Base.Int.{ℤ, pos, pos_part, ltb_ℤ}
use swarmbus.Base.Result.{Result, ok, err, value_error, ◌>>=◌, ◌>>◌, raise_if}
use swarmbus.Base.Table.{count_rows, delete_rows, find_row}
use swarmbus.Message.Json.{Json, str, null, obj, Codec, get}
use swarmbus.Archive.Rows.{
  Database, Limits, TripEvent, prune_every_admissions, HeldRow, AdmittedRow,
}
use swarmbus.Archive.Admit.{Decision, Arrival, admit_in, prunes}

pub record Store : Type 0 where
  pub limits : Limits
  pub db : Database
  pub admissions_since_prune : ℕ
  pub new_trips : List TripEvent

-- `_MAX_PENDING_TRIPS`, the `maxlen` of the deque.
abbrev pub max_pending_trips : ℕ
max_pending_trips = 256

-- `deque.extend` with a `maxlen`: the oldest fall out.
abbrev pub extend_trips : List TripEvent → List TripEvent → List TripEvent
extend_trips old new = drop (length (old ++ new) - max_pending_trips) (old ++ new)

abbrev pub next_count : ℕ → ℕ
next_count count = if prunes count then 0 else count + 1

module _ (c : Codec) (sha256 : Text → Text) where
  -- A call that raises rolls the tables back; the counter stays advanced.
  abbrev pub finish : Store → Result Decision → Store × Result Bool
  finish s (ok d) = (
    record s {
      db = d.db;
      admissions_since_prune = next_count s.admissions_since_prune;
      new_trips = extend_trips s.new_trips d.trips;
    },
    ok d.admitted,
  )
  finish s (err e) =
      (record s { admissions_since_prune = next_count s.admissions_since_prune }, err e)

  unfoldable pub admit : Store → Arrival → Store × Result Bool
  admit s a = finish s (admit_in c sha256 s.limits s.admissions_since_prune a s.db)

unfoldable pub pop_trips : Store → Store × List TripEvent
pop_trips s = (record s { new_trips = [] }, s.new_trips)

-- `reset_trips`: the rows of one sender, or of all; and how many trips and cool-downs were cleared.
unfoldable pub reset_trips : Option Text → Store → Store × ℕ
reset_trips none s = (
  record s { db = record s.db { hop_trips = []; rate_buckets = []; rate_holds = [] } },
  length s.db.hop_trips + length s.db.rate_holds,
)
reset_trips (some sender) s = (
  record s {
    db = record s.db {
      hop_trips = delete_rows (λ t. text_eq t.sender sender) s.db.hop_trips;
      rate_buckets = delete_rows (λ r. text_eq r.sender sender) s.db.rate_buckets;
      rate_holds = delete_rows (λ r. text_eq r.sender sender) s.db.rate_holds;
    };
  },
  count_rows (λ t. text_eq t.sender sender) s.db.hop_trips
      + count_rows (λ r. text_eq r.sender sender) s.db.rate_holds,
)

-- `SQLiteMessageStore.__init__`: negative limits are refused.
unfoldable pub make_store : (hop_limit rate_limit rate_cooldown : ℤ) → Result Limits
make_store hop_limit rate_limit rate_cooldown = do
  raise_if (ltb_ℤ hop_limit (pos 0)) value_error
  raise_if (ltb_ℤ rate_limit (pos 0)) value_error
  raise_if (ltb_ℤ rate_cooldown (pos 0)) value_error
  ok (record {
    hop_limit = pos_part hop_limit;
    rate_limit = pos_part rate_limit;
    rate_cooldown = pos_part rate_cooldown;
  })
