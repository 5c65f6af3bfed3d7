-- ===== src/Archive/Caps.antt =====
-- `_prune_admitted`, `_cap_conflicts` and `_cap_held` of src/swarmbus/archive.py.
use swarmbus.Base.{
  ℕ, ◌-◌, ◌≤◌, ◌≡◌, refl, Bool, true, not, Text, text_eq, arith, ltb, any, ◌∙◌, List, ap,
}
use swarmbus.Base.Table.{
  count_rows, select_rows, delete_rows, drop_oldest, count-drop_oldest, select-drop_oldest,
}
use swarmbus.Archive.Rows.{
  Database, HeldRow, TripRow, admitted_retention, conflicts_max_rows, held_max_rows,
}

unfoldable pub prune_admitted : ℕ → Database → Database
unfolding select_rows
prune_admitted now db = record db {
  admitted_messages =
      delete_rows (λ r. ltb r.seen_at (now - admitted_retention)) db.admitted_messages;
}

unfoldable pub cap_conflicts : Database → Database
unfolding drop_oldest count_rows
cap_conflicts db = record db {
  conflicts =
      drop_oldest (count_rows (λ r. true) db.conflicts - conflicts_max_rows) (λ r. true)
        (λ r. r.recorded_at) db.conflicts;
}

-- A held message that tripped its sender.
abbrev pub is_protected : List TripRow → Text → Bool
is_protected trips id = any (λ t. text_eq t.message_id id) trips

abbrev pub unprotected : Database → HeldRow → Bool
unprotected db r = not (is_protected db.hop_trips r.id)

unfoldable pub cap_held : Database → Database
unfolding drop_oldest count_rows text_eq
cap_held db =
    let excess = count_rows (unprotected db) db.held_messages - held_max_rows in
    record db {
      held_messages = drop_oldest excess (unprotected db) (λ r. r.held_at) db.held_messages;
    }

-- After `_cap_held` at most 10000 held messages are ones that tripped nobody; every message that
-- tripped a sender is still held, in the same order; and with at most 10000 unprotected messages
-- before, nothing is dropped.
pub cap_held_lem :
    (db : Database)
    → (count_rows (unprotected db) (cap_held db).held_messages ≤ held_max_rows)
      × (select_rows (λ r. is_protected db.hop_trips r.id) (cap_held db).held_messages
          ≡ select_rows (λ r. is_protected db.hop_trips r.id) db.held_messages)
      × (count_rows (unprotected db) db.held_messages ≤ held_max_rows
          → (cap_held db).held_messages ≡ db.held_messages)
unfolding cap_held
cap_held_lem db = (
  omega (arith, count-drop_oldest excess (unprotected db) (λ r. r.held_at) db.held_messages),
  select-drop_oldest excess (unprotected db) (λ r. r.held_at) (λ r. is_protected db.hop_trips r.id)
      db.held_messages (λ r h. ground arith),
  λ h.
      let none_over : excess ≡ 0 = omega arith in
      ap (λ n. drop_oldest n (unprotected db) (λ r. r.held_at) db.held_messages) none_over
      ∙ unfold drop_oldest in refl,
)
  where
    excess : ℕ
    excess = count_rows (unprotected db) db.held_messages - held_max_rows

-- At most 200 id conflicts are kept.
pub cap_conflicts_lem :
    (db : Database) → count_rows (λ r. true) (cap_conflicts db).conflicts ≤ conflicts_max_rows
unfolding cap_conflicts
cap_conflicts_lem db = omega (
  arith,
  count-drop_oldest (count_rows (λ r. true) db.conflicts - conflicts_max_rows) (λ r. true)
      (λ r. r.recorded_at) db.conflicts,
)
