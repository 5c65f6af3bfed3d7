-- ===== src/Archive/Compat.antt =====
-- `SQLiteArchive` of src/swarmbus/archive.py: the table messages, one row an id. The file is made when it
-- is missing.
use swarmbus.Base.{
  ◌≡◌, ◌≢◌, refl, sym, ◌∙◌, true, false, List, [], ◌∷◌, ◌++◌, Text, codes, text_eq, text_eq_refl,
  text_eq→≡, Option, none, some, arith, Bool-cases, inl, inr,
}
use swarmbus.Base.Table.{find_row, select_rows, delete_rows, find_append}
use swarmbus.Message.Json.{Codec}
use swarmbus.Message.Envelope.{AgentMessage}
use swarmbus.Archive.Inbox.{Columns, columns_of}

pub record ArchiveRow : Type 0 where
  pub columns : Columns
  pub direction : Text
  pub error : Option Text

abbrev pub archive_row : Codec → AgentMessage → Text → Option Text → ArchiveRow
archive_row c m direction error = record {
  columns = columns_of c m;
  direction = direction;
  error = error;
}

-- `INSERT OR REPLACE INTO messages`
unfoldable pub archive :
    Codec → AgentMessage → Text → Option Text → List ArchiveRow → List ArchiveRow
archive c m direction error rows =
    delete_rows (λ r. text_eq r.columns.id m.id) rows ++ archive_row c m direction error ∷ []

unfoldable pub handle : Codec → AgentMessage → List ArchiveRow → List ArchiveRow
handle c m = archive c m (codes "received") none

abbrev pub find_archived : Text → List ArchiveRow → Option ArchiveRow
find_archived id = find_row (λ r. text_eq r.columns.id id)

find-delete_self :
    (id : Text) (rows : List ArchiveRow)
    → find_archived id (delete_rows (λ r. text_eq r.columns.id id) rows) ≡ none
unfolding find_row select_rows
find-delete_self id [] = refl
find-delete_self id (r ∷ rows) = ground (arith, find-delete_self id rows)

other_id : (i j k : Text) → text_eq i j ≡ true → j ≢ k → text_eq i k ≡ false
other_id i j k h n = elim (Bool-cases (text_eq i k)) [
  | inr e ↦ e
  | inl e ↦ absurd (n (sym (text_eq→≡ i j h) ∙ text_eq→≡ i k e))
]

find_other :
    (id other : Text) (rows : List ArchiveRow) (new : ArchiveRow)
    → id ≢ other
    → new.columns.id ≡ id
    → find_archived other (delete_rows (λ r. text_eq r.columns.id id) rows ++ new ∷ [])
      ≡ find_archived other rows
unfolding find_row select_rows
find_other id other [] new n e =
    rw (other_id new.columns.id id other (rw e (text_eq_refl id)) n) refl
find_other id other (r ∷ rows) new n e = elim (Bool-cases (text_eq r.columns.id id)) [
  | inl t ↦ rw (t, other_id r.columns.id id other t n) (find_other id other rows new n e)
  | inr t ↦ rw (t, find_other id other rows new n e) refl
]

-- After `archive` the row under the message's id is the one of this message, whatever was there before,
-- and the row under every other id is as it was.
pub archive_lem :
    (c : Codec) (m : AgentMessage) (direction : Text) (error : Option Text) (rows : List ArchiveRow)
    (other : Text)
    → m.id ≢ other
    → (find_archived m.id (archive c m direction error rows)
        ≡ some (archive_row c m direction error))
      × (find_archived other (archive c m direction error rows) ≡ find_archived other rows)
unfolding archive
archive_lem c m direction error rows other n = (
  find_append _ _ (archive_row c m direction error) (find-delete_self m.id rows)
      (text_eq_refl m.id),
  find_other m.id other rows (archive_row c m direction error) n refl,
)
