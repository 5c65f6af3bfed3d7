-- ===== src/Archive/Reports/Counts.antt =====
-- The counts in a report of held messages.
use swarmbus.Base.{
  ltb, ℕ, suc, ◌+◌, ◌≡◌, refl, sym, subst, ◌∙◌, Bool, Text, List, [], ◌∷◌, min, length, length-take,
  length-map, take, arith, ap,
}
use swarmbus.Base.Int.{pos}
use swarmbus.Base.Result.{ok, bind_cases}
use swarmbus.Message.Json.{Codec}
use swarmbus.Archive.Rows.{Database, HeldRow}
use swarmbus.Archive.Reports.{
  HeldSummary, held_summaries, get_loaded, count_sender, group_senders, busier, by_sender,
  held_senders, HoldsReport, list_holds,
}
use swarmbus.Base.Sort.{insert_by, order_by, length-order_by}
use swarmbus.Base.{codes}

-- The sum of the counts.
abbrev pub total : List (Text × ℕ) → ℕ
total [] = 0
total (g ∷ gs) = g.1 + total gs

total-count_sender : (s : Text) (gs : List (Text × ℕ)) → total (count_sender s gs) ≡ suc (total gs)
unfolding count_sender
total-count_sender s [] = refl
total-count_sender s ((t, n) ∷ gs) = ground (arith, total-count_sender s gs)

total-group_senders : (ss : List Text) → total (group_senders ss) ≡ length ss
unfolding group_senders
total-group_senders [] = refl
total-group_senders (s ∷ ss) =
    total-count_sender s (group_senders ss) ∙ ap suc (total-group_senders ss)

total-insert_by :
    (before : Text × ℕ → Text × ℕ → Bool) (g : Text × ℕ) (gs : List (Text × ℕ))
    → total (insert_by before g gs) ≡ g.1 + total gs
unfolding insert_by
total-insert_by before g [] = refl
total-insert_by before g (h ∷ gs) = ground (arith, total-insert_by before g gs)

total-order_by :
    (before : Text × ℕ → Text × ℕ → Bool) (gs : List (Text × ℕ))
    → total (order_by before gs) ≡ total gs
unfolding order_by
total-order_by before [] = refl
total-order_by before (g ∷ gs) =
    omega (arith, total-insert_by before g (order_by before gs), total-order_by before gs)

ok-injective : {A : Type 0} {x y : A} → ok x ≡ ok y → x ≡ y
ok-injective h = cc

length-held_summaries :
    (c : Codec) (rows : List HeldRow) {out : List HeldSummary}
    → held_summaries c rows ≡ ok out
    → length out ≡ length rows
unfolding held_summaries
length-held_summaries c [] h = ap (λ (xs : List HeldSummary). length xs) (sym (ok-injective h))
length-held_summaries c (r ∷ rows) h =
    bind_cases (get_loaded (codes "subject") (c.loads r.envelope)) _ h λ s _ h.
      bind_cases (held_summaries c rows) _ h λ rest e same.
        ap (λ (xs : List HeldSummary). length xs) (sym (ok-injective same))
        ∙ ap suc (length-held_summaries c rows e)

-- What a report says of the held messages.
abbrev Counts : Database → ℕ → HoldsReport → Type 0
Counts db n r =
    (r.held_count ≡ length db.held_messages)
    × (total r.held_by_sender ≡ r.held_count)
    × (length r.held ≡ min n r.held_count)

-- In a report of `list_holds` with limit n the held messages are counted whole, the counts by sender
-- add up to that number, and n of the messages are listed, or all if there are fewer.
pub list_holds_lem :
    (c : Codec) (now n : ℕ) (db : Database) {r : HoldsReport}
    → list_holds c now (pos n) db ≡ ok r
    → (r.held_count ≡ length db.held_messages)
      × (total r.held_by_sender ≡ r.held_count)
      × (length r.held ≡ min n r.held_count)
unfolding list_holds by_sender
list_holds_lem c now n db h = bind_cases (held_summaries c (take n rows)) _ h λ held e same.
    subst (Counts db n) (ok-injective same) (
      refl,
      total-order_by busier (group_senders (held_senders db))
          ∙ total-group_senders (held_senders db)
          ∙ length-map (λ (m : HeldRow). m.from_agent) db.held_messages,
      length-held_summaries c (take n rows) e
          ∙ length-take n rows
          ∙ ap (min n) (length-order_by newest db.held_messages),
    )
  where
    newest : HeldRow → HeldRow → Bool
    newest x y = ltb y.held_at x.held_at

    rows : List HeldRow
    rows = order_by newest db.held_messages
