-- ===== src/Bus/Outbox/Lossless.antt =====
-- An outbox that keeps every rotated file loses nothing.
use swarmbus.Base.{
  ℕ, zero, suc, ◌+◌, ◌<◌, ◌≡◌, refl, sym, ap, false, not, ◌⊎◌, inl, inr, List, [], ◌∷◌, ◌++◌,
  length, if◌then◌else◌, ◌==◌, Bool-cases, arith, append-nil,
}
use swarmbus.Base.Table.{select_rows}
use swarmbus.Bus.Outbox.{
  Outbox, Opening, opened, kept_rotating, open_fails, Disk, content, touch, has_stamp, latest_stamp,
  free_stamp, rotated_outbox_path, rename_to, reaching, reopen, is_past, rotate, after_open,
  append_outbox_entry,
}

latest_lem :
    (files : List (ℕ × List ℕ)) (dt : ℕ) → latest_stamp files < dt → has_stamp dt files ≡ false
unfolding has_stamp latest_stamp
latest_lem [] dt h = refl
latest_lem ((s, bytes) ∷ files) dt h = ground (arith, latest_lem files dt)

free_stamp_lem :
    (k : ℕ) (files : List (ℕ × List ℕ)) (dt : ℕ)
    → latest_stamp files < dt + k
    → has_stamp (free_stamp k files dt) files ≡ false
unfolding free_stamp
free_stamp_lem zero files dt h = latest_lem files dt (omega arith)
free_stamp_lem (suc k) files dt h = elim (Bool-cases (has_stamp dt files)) [
  | inl e ↦ rw e (free_stamp_lem k files (dt + 1) (omega arith))
  | inr e ↦ rw e e
]

unnamed :
    (stamp : ℕ) (files : List (ℕ × List ℕ))
    → has_stamp stamp files ≡ false
    → select_rows (λ (f : ℕ × List ℕ). not (f.0 == stamp)) files ≡ files
unfolding has_stamp select_rows
unnamed stamp [] h = refl
unnamed stamp ((s, bytes) ∷ files) h = ground (arith, unnamed stamp files)

-- What of a write a handle lets through.
abbrev pub through : Opening → List ℕ → List ℕ
through opened bytes = bytes
through kept_rotating bytes = []
through open_fails bytes = []

-- The file at the path is the old one with what was written at its end, and the rotated files are the old ones.
abbrev pub IsLonger : Disk → List ℕ → Outbox → Outbox → Type 0
IsLonger d bytes b b₁ =
    (content b₁.current
      ≡ content b.current
        ++ (if d.mkdir_fails then [] else through d.first_open (reaching d.cut bytes)))
    × (b₁.rotated ≡ b.rotated)

-- The old file has a name that no file had, and the file at the path is what was written.
abbrev pub IsRotated : Disk → List ℕ → Outbox → Outbox → Type 0
IsRotated d bytes b b₁ =
    (stamp : ℕ) × (has_stamp stamp b.rotated ≡ false)
    × (b₁.rotated ≡ (stamp, content b.current) ∷ b.rotated)
    × (content b₁.current ≡ through d.second_open (reaching d.cut bytes))

abbrev pub IsLossless : Disk → List ℕ → Outbox → Outbox → Type 0
IsLossless d bytes b b₁ = IsLonger d bytes b b₁ ⊎ IsRotated d bytes b b₁

renamed-rotated :
    (now : ℕ) (b : Outbox)
    → (rename_to (rotated_outbox_path b.rotated now) b).rotated
      ≡ (rotated_outbox_path b.rotated now, content b.current) ∷ b.rotated
renamed-rotated now b =
    let stamp = rotated_outbox_path b.rotated now in
    ap (λ files. (stamp, content b.current) ∷ files)
      (unnamed stamp b.rotated
        (free_stamp_lem (suc (latest_stamp b.rotated)) b.rotated now (omega arith)))

reopen-IsRotated :
    (o : Opening) (d : Disk) (now : ℕ) (bytes : List ℕ) (b : Outbox)
    → (content (reopen o d bytes (rotate d 0 now (touch b))).current
        ≡ through o (reaching d.cut bytes))
      × ((reopen o d bytes (rotate d 0 now (touch b))).rotated
          ≡ (rotated_outbox_path b.rotated now, content b.current) ∷ b.rotated)
reopen-IsRotated opened d now bytes b = (refl, renamed-rotated now (touch b))
reopen-IsRotated kept_rotating d now bytes b = (refl, renamed-rotated now (touch b))
reopen-IsRotated open_fails d now bytes b = (refl, renamed-rotated now (touch b))

after_open-IsLossless :
    (o : Opening) (d : Disk) (max_bytes now : ℕ) (bytes : List ℕ) (b : Outbox)
    → ((content (after_open o d max_bytes 0 now bytes b).current
          ≡ content b.current ++ through o (reaching d.cut bytes))
        × ((after_open o d max_bytes 0 now bytes b).rotated ≡ b.rotated))
      ⊎ IsRotated d bytes b (after_open o d max_bytes 0 now bytes b)
after_open-IsLossless opened d max_bytes now bytes b =
    elim (Bool-cases (is_past max_bytes (length (content b.current)) (length bytes))) [
      | inr e ↦ rw e (inl (refl, refl))
      | inl e ↦ elim (Bool-cases d.rename_fails) [
        | inl f ↦ simp (e, f) (inl (refl, refl))
        | inr f ↦
            let (new, old) = reopen-IsRotated d.second_open d now bytes b in
            let fresh = free_stamp_lem (suc (latest_stamp b.rotated)) b.rotated now (omega arith) in
            simp (e, f) (inr (rotated_outbox_path b.rotated now, fresh, old, new))
      ]
    ]
after_open-IsLossless kept_rotating d max_bytes now bytes b =
    inl (sym (append-nil (content b.current)), refl)
after_open-IsLossless open_fails d max_bytes now bytes b =
    inl (sym (append-nil (content b.current)), refl)

-- Where an outbox keeps every rotated file, an append loses nothing, whatever the file system does: either the file at
-- the path has the entry at its end, or as much of it as reached the file, and the rotated files are as they were; or
-- the old file is there whole under a name that no rotated file had, beside all of those, and the file at the path has
-- only the entry, or as much of it as reached the file.
pub append_outbox_entry-IsLossless :
    (d : Disk) (max_bytes now : ℕ) (bytes : List ℕ) (b : Outbox)
    → IsLossless d bytes b (append_outbox_entry d max_bytes 0 now bytes b)
unfolding append_outbox_entry
append_outbox_entry-IsLossless d max_bytes now bytes b = elim (Bool-cases d.mkdir_fails) [
  | inl e ↦ simp e (inl (sym (append-nil (content b.current)), refl))
  | inr e ↦ simp e (after_open-IsLossless d.first_open d max_bytes now bytes b)
]
