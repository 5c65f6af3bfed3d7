-- ===== src/Archive/Inbox/Loop.antt =====
-- `read` ends, within its limit.
use swarmbus.Base.{
  every, ℕ, zero, suc, ◌≡◌, refl, ◌≤◌, ◌<◌, arith, Bool-cases, inl, inr, tests, length-take,
  length-append, ◌==◌, ◌+◌, ◌-◌, Bool, true, false, List, [], ◌∷◌, Text, ltb, leb, some, length,
  take, any,
}
use swarmbus.Base.Result.{Result, ok, err}
use swarmbus.Base.Table.{count_rows, select_rows}
use swarmbus.Message.Json.{Fields, DateTime, Codec}
use swarmbus.Archive.Inbox.{InboxRow, QuarantineRow, Mailbox}
use swarmbus.Archive.Inbox.Read.{
  Progress, read_batch, is_waiting, fetch, last_rowid, is_empty, read_loop, read, sort_row,
  deserialize_row,
}

length-sort_row :
    (c : Codec) (fresh : Text) (now : DateTime) (r : InboxRow) (p : Progress) (m : Result Fields)
    → length (sort_row c fresh now r p m).messages ≤ suc (length p.messages)
length-sort_row c fresh now r p (ok m) = omega (arith, length-append p.messages (m ∷ []))
length-sort_row c fresh now r p (err e) = omega arith

length-read_batch :
    (c : Codec) (fresh : Text) (now : DateTime) (rows : List InboxRow) (p : Progress)
    → length (read_batch c fresh now rows p).messages ≤ length p.messages + length rows
unfolding read_batch
length-read_batch c fresh now [] p = omega arith
length-read_batch c fresh now (r ∷ rows) p =
    let m = deserialize_row c fresh now r in
    omega (
      arith,
      length-sort_row c fresh now r p m,
      length-read_batch c fresh now rows (sort_row c fresh now r p m),
    )

abbrev after : ℕ → List InboxRow → ℕ
after last inbox = count_rows (λ r. ltb last r.rowid) inbox

after_le : (a b : ℕ) (inbox : List InboxRow) → a ≤ b → after b inbox ≤ after a inbox
unfolding count_rows
after_le a b [] h = omega arith
after_le a b (r ∷ rs) h = ground (arith, after_le a b rs)

after_lt :
    (a b : ℕ) (inbox : List InboxRow)
    → a < b
    → any (λ r. r.rowid == b) inbox ≡ true
    → after b inbox < after a inbox
unfolding count_rows
after_lt a b [] h k = cc
after_lt a b (r ∷ rs) h k = ground (arith, after_lt a b rs h, after_le a b rs)

abbrev every_past : ℕ → List InboxRow → Bool
every_past last = every (λ r. ltb last r.rowid)

-- The last row of a batch is a row of the table, past the row where the batch began.
last_of_batch :
    (last : ℕ) (d : ℕ) (rows : List InboxRow)
    → every_past last rows ≡ true
    → is_empty rows ≡ false
    → (last < last_rowid d rows) × (any (λ r. r.rowid == last_rowid d rows) rows ≡ true)
last_of_batch last d [] h k = cc
last_of_batch last d (r ∷ []) h k = (ground arith, ground arith)
last_of_batch last d (r ∷ s ∷ rows) h k =
    let (l, m) = last_of_batch last r.rowid (s ∷ rows) (ground arith) refl in (l, ground (arith, m))

any_of_take :
    (p : InboxRow → Bool) (n : ℕ) (xs : List InboxRow) → any p (take n xs) ≡ true → any p xs ≡ true
any_of_take p zero xs h = cc
any_of_take p (suc n) [] h = cc
any_of_take p (suc n) (x ∷ xs) h = ground (arith, any_of_take p n xs)

any_of_rows :
    (p q : InboxRow → Bool) (xs : List InboxRow) → any p (select_rows q xs) ≡ true → any p xs ≡ true
unfolding select_rows
any_of_rows p q [] h = cc
any_of_rows p q (x ∷ xs) h = ground (arith, any_of_rows p q xs)

past_take :
    (last n : ℕ) (xs : List InboxRow)
    → every_past last xs ≡ true
    → every_past last (take n xs) ≡ true
past_take last zero xs h = refl
past_take last (suc n) [] h = refl
past_take last (suc n) (x ∷ xs) h = ground (arith, past_take last n xs)

past_waiting :
    (last : ℕ) (q : List QuarantineRow) (xs : List InboxRow)
    → every_past last (select_rows (is_waiting last q) xs) ≡ true
unfolding select_rows
past_waiting last q [] = refl
past_waiting last q (x ∷ xs) = ground (arith, past_waiting last q xs)

loop :
    (c : Codec) (fresh : Text) (now : DateTime) (fuel most last : ℕ) (inbox : List InboxRow)
    (p : Progress)
    → after last inbox < fuel
    → length p.messages ≤ most
    → (q : Progress) × (read_loop c fresh now fuel most inbox last p ≡ some q)
      × (length q.messages ≤ most)
unfolding read_loop fetch
loop c fresh now zero most last inbox p f l = absurd (omega arith)
loop c fresh now (suc fuel) most last inbox p f l =
    elim (Bool-cases (leb most (length p.messages))) [
      | inl e ↦ rw e (p, refl, l)
      | inr e ↦ elim (Bool-cases (is_empty rows)) [
        | inl n ↦ rw (e, n) (p, refl, l)
        | inr n ↦
            let (past, there) =
              last_of_batch last last rows
                (past_take last room (select_rows (is_waiting last p.quarantined) inbox)
                  (past_waiting last p.quarantined inbox))
                n in
            let shrinks = after_lt last (last_rowid last rows) inbox past (
              any_of_rows (λ r. r.rowid == last_rowid last rows) (is_waiting last p.quarantined)
                inbox
                (any_of_take (λ r. r.rowid == last_rowid last rows) room
                  (select_rows (is_waiting last p.quarantined) inbox) there)) in
            rw (e, n)
              (loop c fresh now fuel most (last_rowid last rows) inbox
                (read_batch c fresh now rows p) (omega (arith, shrinks))
                (omega (
                  tests,
                  length-read_batch c fresh now rows p,
                  length-take room (select_rows (is_waiting last p.quarantined) inbox),
                  e,
                )))
      ]
    ]
  where
    room : ℕ
    room = most - length p.messages

    rows : List InboxRow
    rows = take room (select_rows (is_waiting last p.quarantined) inbox)

after-length : (last : ℕ) (inbox : List InboxRow) → after last inbox ≤ length inbox
unfolding count_rows
after-length last [] = omega arith
after-length last (r ∷ rs) = ground (arith, after-length last rs)

-- For every limit of at least one and every inbox, `read` ends within the fuel it is given and returns at
-- most as many messages as the limit; it changes no row of inbox_messages and nothing in the hold store.
pub read_total :
    (c : Codec) (fresh : Text) (now : DateTime) (most : ℕ) (mb : Mailbox)
    → 1 ≤ most
    → (mb' : Mailbox) × (ms : List Fields) × (read c fresh now most mb ≡ some (mb', ok ms))
      × (length ms ≤ most)
      × (mb'.inbox ≡ mb.inbox)
      × (mb'.store_ ≡ mb.store_)
unfolding read
read_total c fresh now most mb h =
    let (q, e, l) =
      loop c fresh now (length mb.inbox + 2) most 0 mb.inbox
        (record { messages = []; quarantined = mb.quarantine })
        (omega (arith, after-length 0 mb.inbox)) (omega arith) in
    let small : ltb most 1 ≡ false = ground arith in
    (record mb { quarantine = q.quarantined }, q.messages, rw (small, e) refl, l, refl, refl)
