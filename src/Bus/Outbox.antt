-- ===== src/Bus/Outbox.antt =====
-- `_append_outbox_entry` of src/swarmbus/bus.py with `_rotated_outbox_path` and `_prune_rotated_outboxes`, and `send`,
-- which calls it after its publish. What the file system does in a call is an input of it.
pub mod Lossless
use swarmbus.Base.{
  ℕ, zero, suc, ◌+◌, ◌-◌, ◌≤◌, ◌<◌, max, ◌≡◌, refl, Bool, true, false, not, ◌&&◌, ◌||◌, List, [],
  ◌∷◌, ◌++◌, map, take, length, Text, codes, Option, none, some, any, if◌then◌else◌, ltb, leb, ◌==◌,
}
use swarmbus.Base.Int.{ℤ, pos, negsuc}
use swarmbus.Base.Table.{select_rows}
use swarmbus.Base.Sort.{order_by}
use swarmbus.Base.Result.{Result, ok, err, value_error, mqtt_error, ◌>>=◌, ◌>>◌, raise_if}
use swarmbus.Message.Json.{DateTime, Codec}
use swarmbus.Message.Envelope.{AgentMessage, create}
use swarmbus.Topics.{TopicMap, route}

-- The file at the path, if there is one, and the rotated files by the microsecond in their names, which have a
-- fixed width and sort as it does.
pub record Outbox : Type 0 where
  pub current : Option (List ℕ)
  pub rotated : List (ℕ × List ℕ)

-- What `_open_outbox_locked` comes to: a locked handle, none, or an OSError.
pub data Opening : Type 0 where
  opened kept_rotating open_fails : Opening

-- What the file system does in a call. `cut` is how many bytes of a write reach the file when it fails.
pub record Disk : Type 0 where
  pub mkdir_fails : Bool
  pub first_open : Opening
  pub rename_fails : Bool
  pub list_fails : Bool
  pub unlink_fails : ℕ → Bool
  pub second_open : Opening
  pub cut : Option ℕ

abbrev pub content : Option (List ℕ) → List ℕ
content none = []
content (some bytes) = bytes

abbrev pub touch : Outbox → Outbox
touch b = record b { current = some (content b.current) }

unfoldable pub has_stamp : ℕ → List (ℕ × List ℕ) → Bool
has_stamp stamp [] = false
has_stamp stamp ((s, bytes) ∷ files) = (s == stamp) || has_stamp stamp files

unfoldable pub latest_stamp : List (ℕ × List ℕ) → ℕ
latest_stamp [] = zero
latest_stamp ((s, bytes) ∷ files) = max s (latest_stamp files)

-- The search for a name that no file has.
unfoldable pub free_stamp : ℕ → List (ℕ × List ℕ) → ℕ → ℕ
free_stamp zero files dt = dt
free_stamp (suc k) files dt =
    let later = free_stamp k files (dt + 1) in if has_stamp dt files then later else dt

-- `_rotated_outbox_path`; one more than the latest name bounds the search.
abbrev pub rotated_outbox_path : List (ℕ × List ℕ) → ℕ → ℕ
rotated_outbox_path files now = free_stamp (suc (latest_stamp files)) files now

-- `os.rename`, which replaces a file of that name.
abbrev pub rename_to : ℕ → Outbox → Outbox
rename_to stamp b = record {
  current = none;
  rotated = (stamp, content b.current) ∷ select_rows (λ f. not (f.0 == stamp)) b.rotated;
}

abbrev member : ℕ → List ℕ → Bool
member n = any (λ m. m == n)

-- `_prune_rotated_outboxes`
unfoldable pub prune_rotated_outboxes : Disk → ℕ → Outbox → Outbox
prune_rotated_outboxes d keep b =
    let stamps = order_by leb (map (λ (f : ℕ × List ℕ). f.0) b.rotated) in
    let unlinked = take (length stamps - keep) stamps in
    if d.list_fails then b else record b {
      rotated = select_rows (λ f. not (member f.0 unlinked && not (d.unlink_fails f.0))) b.rotated;
    }

abbrev pub reaching : Option ℕ → List ℕ → List ℕ
reaching none bytes = bytes
reaching (some n) bytes = take n bytes

abbrev pub append_bytes : Disk → List ℕ → Outbox → Outbox
append_bytes d bytes b = record b { current = some (content b.current ++ reaching d.cut bytes) }

abbrev pub reopen : Opening → Disk → List ℕ → Outbox → Outbox
reopen opened d bytes b = append_bytes d bytes (touch b)
reopen kept_rotating d bytes b = b
reopen open_fails d bytes b = b

-- `max_bytes > 0 and size > 0 and size + len(bytes) > max_bytes`
abbrev pub is_past : ℕ → ℕ → ℕ → Bool
is_past max_bytes size added = ltb 0 max_bytes && ltb 0 size && ltb max_bytes (size + added)

abbrev pub rotate : Disk → ℕ → ℕ → Outbox → Outbox
rotate d keep now b =
    let renamed = rename_to (rotated_outbox_path b.rotated now) b in
    if ltb 0 keep then prune_rotated_outboxes d keep renamed else renamed

abbrev pub append_to : Disk → ℕ → ℕ → ℕ → List ℕ → Outbox → Outbox
append_to d max_bytes keep now bytes b =
    if is_past max_bytes (length (content b.current)) (length bytes)
    then (if d.rename_fails
        then append_bytes d bytes b
        else reopen d.second_open d bytes (rotate d keep now b))
    else append_bytes d bytes b

abbrev pub after_open : Opening → Disk → ℕ → ℕ → ℕ → List ℕ → Outbox → Outbox
after_open opened d max_bytes keep now bytes b = append_to d max_bytes keep now bytes (touch b)
after_open kept_rotating d max_bytes keep now bytes b = b
after_open open_fails d max_bytes keep now bytes b = b

unfoldable pub append_outbox_entry : Disk → ℕ → ℕ → ℕ → List ℕ → Outbox → Outbox
append_outbox_entry d max_bytes keep now bytes b =
    if d.mkdir_fails then b else after_open d.first_open d max_bytes keep now bytes b

pub record SendParams : Type 0 where
  pub to : Text
  pub subject : Text
  pub body : Text
  pub content_type : Text
  pub priority : Text
  pub reply_to : Option Text
  pub outbox_path : Option Text
  pub in_reply_to : Option Text
  pub hops : ℤ
  pub origin : Option Text
  pub outbox_max_bytes : ℤ
  pub outbox_keep : ℤ

-- What a `send` published, and the outbox after it.
pub record Sent : Type 0 where
  pub topic : Text
  pub msg : AgentMessage
  pub retain : Bool
  pub outbox : Outbox

abbrev pub at_least_0 : ℤ → Result ℕ
at_least_0 (pos n) = ok n
at_least_0 (negsuc n) = err value_error

abbrev is_given : Option Text → Bool
is_given none = false
is_given (some []) = false
is_given (some (ch ∷ path)) = true

-- `strftime` and `encode` for the minute of a time and the bytes of a text.
module _ (c : Codec) (minute : DateTime → Text) (encode : Text → List ℕ) where
  abbrev pub outbox_entry : AgentMessage → Text
  outbox_entry m =
      codes "\n## ["
      ++ minute m.ts
      ++ codes "] To: "
      ++ m.to
      ++ codes " | "
      ++ m.subject
      ++ codes "\n"
      ++ m.body
      ++ codes "\n"

  -- `send` of an agent that publishes with `retain`. The outbox is the one at the path.
  unfoldable pub send :
      TopicMap → Text → Bool → Text → DateTime → Bool → Disk → ℕ → SendParams → Outbox → Result Sent
  send topics agent_id retain fresh now publish_fails d clock a box = do
    max_bytes ← at_least_0 a.outbox_max_bytes
    keep ← at_least_0 a.outbox_keep
    m ←
        create c fresh now agent_id a.to a.subject a.body a.content_type a.priority a.reply_to
          a.in_reply_to a.hops a.origin
    raise_if publish_fails mqtt_error
    ok (record {
      topic = route topics a.to;
      msg = m;
      retain = retain;
      outbox =
          if is_given a.outbox_path
          then append_outbox_entry d max_bytes keep clock (encode (outbox_entry m)) box
          else box;
    })
