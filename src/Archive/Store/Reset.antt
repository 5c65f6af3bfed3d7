-- ===== src/Archive/Store/Reset.antt =====
-- What `reset_trips` clears, and what it leaves.
use swarmbus.Base.{
  ◌≡◌, ◌≢◌, refl, Bool, false, ◌||◌, Text, text_eq, text_eq→≡, some, arith, ap, sym, ◌∙◌,
  Bool-cases, inl, inr, List, [], ◌∷◌, any,
}
use swarmbus.Base.Table.{select_rows, delete_rows}
use swarmbus.Archive.Rows.{Database}
use swarmbus.Archive.Statements.{is_tripped}
use swarmbus.Archive.Store.{Store, reset_trips}

abbrev pub is_cooling : Database → Text → Bool
is_cooling db sender = any (λ r. text_eq r.sender sender) db.rate_holds

abbrev pub has_bucket : Database → Text → Bool
has_bucket db sender = any (λ r. text_eq r.sender sender) db.rate_buckets

other_sender : (a b : Text) → a ≢ b → text_eq a b ≡ false
other_sender a b h = elim (Bool-cases (text_eq a b)) [
  | inl e ↦ absurd (h (text_eq→≡ a b e))
  | inr e ↦ e
]

module _ {ℓ} {A : Type ℓ} (key : A → Text) where
  -- Deleting the rows of one sender leaves none of them, and all others.
  any-delete_self :
      (s : Text) (xs : List A)
      → any (λ r. text_eq (key r) s) (delete_rows (λ r. text_eq (key r) s) xs) ≡ false
  unfolding select_rows
  any-delete_self s [] = refl
  any-delete_self s (x ∷ xs) = ground (arith, any-delete_self s xs)

  any-delete_other :
      (s t : Text) (xs : List A)
      → t ≢ s
      → any (λ r. text_eq (key r) t) (delete_rows (λ r. text_eq (key r) s) xs)
        ≡ any (λ r. text_eq (key r) t) xs
  unfolding select_rows
  any-delete_other s t [] h = refl
  any-delete_other s t (x ∷ xs) h = elim (Bool-cases (text_eq (key x) s)) [
    | inl e ↦
        let differs : text_eq (key x) t ≡ false =
          other_sender (key x) t (λ p. h (sym p ∙ text_eq→≡ (key x) s e)) in
        rw (e, differs) (any-delete_other s t xs h)
    | inr e ↦ rw e (ap (λ (b : Bool). text_eq (key x) t || b) (any-delete_other s t xs h))
  ]

-- After a reset of one sender it is neither tripped nor cooling down, and has no token bucket; every
-- other sender is tripped, cooling or metered as before; and no held, admitted or conflicting
-- message is touched.
pub reset_trips_lem :
    (s : Store) (sender other : Text)
    → other ≢ sender
    → let t = (reset_trips (some sender) s).0 in
      (is_tripped t.db sender ≡ false)
      × (is_cooling t.db sender ≡ false)
      × (has_bucket t.db sender ≡ false)
      × (is_tripped t.db other ≡ is_tripped s.db other)
      × (is_cooling t.db other ≡ is_cooling s.db other)
      × (has_bucket t.db other ≡ has_bucket s.db other)
      × (t.db.held_messages ≡ s.db.held_messages)
      × (t.db.admitted_messages ≡ s.db.admitted_messages)
      × (t.db.conflicts ≡ s.db.conflicts)
unfolding reset_trips
reset_trips_lem s sender other h = (
  any-delete_self (λ r. r.sender) sender s.db.hop_trips,
  any-delete_self (λ r. r.sender) sender s.db.rate_holds,
  any-delete_self (λ r. r.sender) sender s.db.rate_buckets,
  any-delete_other (λ r. r.sender) sender other s.db.hop_trips h,
  any-delete_other (λ r. r.sender) sender other s.db.rate_holds h,
  any-delete_other (λ r. r.sender) sender other s.db.rate_buckets h,
  refl,
  refl,
  refl,
)
