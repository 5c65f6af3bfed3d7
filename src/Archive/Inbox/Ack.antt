-- ===== src/Archive/Inbox/Ack.antt =====
-- `ack` of src/swarmbus/archive.py.
use swarmbus.Base.{
  ap, All, ℕ, ◌≡◌, refl, arith, Bool-cases, inl, inr, ◌+◌, Bool, false, not, ◌&&◌, List, [], ◌∷◌,
  ◌++◌, Text, text_eq, some, if◌then◌else◌, any,
}
use swarmbus.Base.Result.{Result, ok, err, value_error, ◌>>◌, raise_if}
use swarmbus.Base.Table.{count_rows, update_rows}
use swarmbus.Archive.Inbox.{InboxRow, QuarantineRow, Mailbox, is_quarantined, is_acknowledged}

-- The ids without those that came before; an empty one is refused.
unfoldable pub unique_ids : List Text → List Text → Result (List Text)
unique_ids [] seen = ok seen
unique_ids (id ∷ ids) seen = do
  raise_if (text_eq id []) value_error
  unique_ids ids (if any (text_eq id) seen then seen else seen ++ id ∷ [])

abbrev pub takes_ack : List QuarantineRow → Text → InboxRow → Bool
takes_ack q id r =
    text_eq r.columns.id id && (not (is_acknowledged r) && not (is_quarantined q r.columns.id))

-- One UPDATE for each id, and the sum of their row counts.
unfoldable pub ack_ids : Text → List QuarantineRow → List Text → List InboxRow → List InboxRow × ℕ
ack_ids at q [] inbox = (inbox, 0)
ack_ids at q (id ∷ ids) inbox =
    let (rest, n) =
      ack_ids at q ids
        (update_rows (takes_ack q id) (λ r. record r { acknowledged_at = some at }) inbox) in
    (rest, count_rows (takes_ack q id) inbox + n)

abbrev ack_unique : Text → Mailbox → Result (List Text) → Mailbox × Result ℕ
ack_unique at mb (err e) = (mb, err e)
ack_unique at mb (ok ids) =
    let (inbox, n) = ack_ids at mb.quarantine ids mb.inbox in (record mb { inbox = inbox }, ok n)

unfoldable pub ack : Text → List Text → Mailbox → Mailbox × Result ℕ
ack at ids mb = ack_unique at mb (unique_ids ids [])

abbrev stamp_row : Text → InboxRow → InboxRow
stamp_row at r = record r { acknowledged_at = some at }

abbrev stamp_id : Text → List QuarantineRow → Text → List InboxRow → List InboxRow
stamp_id at q id = update_rows (takes_ack q id) (stamp_row at)

abbrev pending : List QuarantineRow → Text → List InboxRow → ℕ
pending q id = count_rows (takes_ack q id)

row_marked :
    (at : Text) (q : List QuarantineRow) (i id : Text) (r : InboxRow)
    → takes_ack q i r ≡ false
    → takes_ack q i (if takes_ack q id r then stamp_row at r else r) ≡ false
row_marked at q i id r h = ground arith

stamp_id_keeps :
    (at : Text) (q : List QuarantineRow) (i id : Text) (inbox : List InboxRow)
    → pending q i inbox ≡ 0
    → pending q i (stamp_id at q id inbox) ≡ 0
unfolding count_rows update_rows
stamp_id_keeps at q i id [] h = refl
stamp_id_keeps at q i id (r ∷ rs) h = elim (Bool-cases (takes_ack q i r)) [
  | inl e ↦ absurd (ground arith)
  | inr e ↦ rw (row_marked at q i id r e) (stamp_id_keeps at q i id rs (ground arith))
]

row_taken :
    (at : Text) (q : List QuarantineRow) (id : Text) (r : InboxRow)
    → takes_ack q id (if takes_ack q id r then stamp_row at r else r) ≡ false
row_taken at q id r = ground arith

stamp_id_takes :
    (at : Text) (q : List QuarantineRow) (id : Text) (inbox : List InboxRow)
    → pending q id (stamp_id at q id inbox) ≡ 0
unfolding count_rows update_rows
stamp_id_takes at q id [] = refl
stamp_id_takes at q id (r ∷ rs) = rw (row_taken at q id r) (stamp_id_takes at q id rs)

mark_none :
    (at : Text) (q : List QuarantineRow) (id : Text) (inbox : List InboxRow)
    → pending q id inbox ≡ 0
    → stamp_id at q id inbox ≡ inbox
unfolding count_rows update_rows
mark_none at q id [] h = refl
mark_none at q id (r ∷ rs) h = elim (Bool-cases (takes_ack q id r)) [
  | inl e ↦ absurd (ground arith)
  | inr e ↦ rw e (ap (λ (xs : List InboxRow). r ∷ xs) (mark_none at q id rs (ground arith)))
]

ack_ids_keeps :
    (at : Text) (q : List QuarantineRow) (i : Text) (ids : List Text) (inbox : List InboxRow)
    → pending q i inbox ≡ 0
    → pending q i (ack_ids at q ids inbox).0 ≡ 0
unfolding ack_ids
ack_ids_keeps at q i [] inbox h = h
ack_ids_keeps at q i (id ∷ ids) inbox h =
    ack_ids_keeps at q i ids (stamp_id at q id inbox) (stamp_id_keeps at q i id inbox h)

abbrev Done : List QuarantineRow → List InboxRow → List Text → Type 0
Done q inbox = All (λ id. pending q id inbox ≡ 0)

ack_ids-Done :
    (at : Text) (q : List QuarantineRow) (ids : List Text) (inbox : List InboxRow)
    → Done q (ack_ids at q ids inbox).0 ids
unfolding ack_ids
ack_ids-Done at q [] inbox = tt
ack_ids-Done at q (id ∷ ids) inbox = (
  ack_ids_keeps at q id ids (stamp_id at q id inbox) (stamp_id_takes at q id inbox),
  ack_ids-Done at q ids (stamp_id at q id inbox),
)

ack_ids_idle :
    (at : Text) (q : List QuarantineRow) (ids : List Text) (inbox : List InboxRow)
    → Done q inbox ids
    → ack_ids at q ids inbox ≡ (inbox, 0)
unfolding ack_ids
ack_ids_idle at q [] inbox d = refl
ack_ids_idle at q (id ∷ ids) inbox (e, d) =
    rw (mark_none at q id inbox e, e, ack_ids_idle at q ids inbox d) refl

-- If an acknowledgement succeeds, then the same ids acknowledged again, at any time, count 0 and leave
-- everything as it is, the time of the first acknowledgement included.
pub ack_twice :
    (at later : Text) (ids : List Text) (mb : Mailbox) {n : ℕ}
    → (ack at ids mb).1 ≡ ok n
    → ack later ids (ack at ids mb).0 ≡ ((ack at ids mb).0, ok 0)
unfolding ack
ack_twice at later ids mb h = again (unique_ids ids []) h
  where
    again :
        (u : Result (List Text)) {m : ℕ}
        → (ack_unique at mb u).1 ≡ ok m
        → ack_unique later (ack_unique at mb u).0 u ≡ ((ack_unique at mb u).0, ok 0)
    again (err e) k = cc
    again (ok us) k =
        rw
          (ack_ids_idle later mb.quarantine us (ack_ids at mb.quarantine us mb.inbox).0
            (ack_ids-Done at mb.quarantine us mb.inbox))
          refl
