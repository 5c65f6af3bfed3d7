-- ===== src/Archive/Bucket.antt =====
-- The token bucket of `_admit_in` in src/swarmbus/archive.py. The source keeps tokens as floats and
-- forgives 1e-9 of a token; in units of 1/60000000 of a token a clock of whole microseconds refills
-- whole units, and the test `tokens >= 1 - 1e-9` is exact.
use swarmbus.Base.{
  ℕ, ◌+◌, ◌-◌, ◌*◌, ◌≤◌, Bool, Option, none, some, List, [], ◌∷◌, min, leb, if◌then◌else◌,
}
use swarmbus.Archive.Rows.{rate_window}

-- The units of one token.
abbrev pub token : ℕ
token = rate_window

pub record Bucket : Type 0 where
  pub tokens : ℕ
  pub updated_at : ℕ

-- A bucket that does not exist yet is full.
abbrev pub bucket_or_full : ℕ → ℕ → Option Bucket → Bucket
bucket_or_full rate_limit now none = record { tokens = rate_limit * token; updated_at = now }
bucket_or_full rate_limit now (some b) = b

unfoldable pub refill : ℕ → ℕ → Bucket → ℕ
refill rate_limit now b = min (rate_limit * token) (b.tokens + (now - b.updated_at) * rate_limit)

-- The bucket after a message at `now`, and whether it has a token for the message.
unfoldable pub draw : ℕ → ℕ → Bucket → Bucket × Bool
draw rate_limit now b =
    let tokens = refill rate_limit now b in
    let admit = leb token tokens in
    (record { tokens = if admit then tokens - token else tokens; updated_at = now }, admit)

-- A run of messages at the given times: the bucket at the end, and how many were let through.
unfoldable pub draw_all : ℕ → List ℕ → Bucket → Bucket × ℕ
draw_all rate_limit [] b = (b, 0)
draw_all rate_limit (now ∷ times) b =
    let (b', admit) = draw rate_limit now b in
    let (last, n) = draw_all rate_limit times b' in (last, if admit then n + 1 else n)

-- The clock does not go back.
abbrev pub IsOrdered : ℕ → List ℕ → Type 0
IsOrdered t [] = Unit {0}
IsOrdered t (now ∷ times) = (t ≤ now) × IsOrdered now times
