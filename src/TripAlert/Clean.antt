-- ===== src/TripAlert/Clean.antt =====
-- What the alert command can read of a trip.
use swarmbus.Base.{
  ℕ, zero, suc, ◌≤◌, ◌≡◌, refl, true, not, ◌&&◌, List, [], ◌∷◌, map, take, length, length-map,
  length-take, Text, starts_with, Option, All, arith, leb, Bool-cases, inl, inr,
}
use swarmbus.Base.Table.{select_rows}
use swarmbus.Message.Unicode.{is_hidden, is_hidden-ascii}
use swarmbus.Message.Sanitize.{sanitize_field, sanitize_field-IsVisible, IsVisible}
use swarmbus.Registry.Cache.{set_entry}
use swarmbus.Registry.Reachable.{All-set_entry}
use swarmbus.Archive.Rows.{TripEvent}
use swarmbus.TripAlert.{
  max_field, trip_prefix, replace_surrogate, clean, update_env, is_inherited, trip_vars, trip_env,
}

-- One line of at most 256 characters, none of them hidden.
abbrev pub IsClean : Text → Type 0
IsClean s = (length s ≤ max_field) × IsVisible s

take-IsVisible : (n : ℕ) (s : Text) → IsVisible s → IsVisible (take n s)
take-IsVisible zero s h = refl
take-IsVisible (suc n) [] h = refl
take-IsVisible (suc n) (c ∷ s) h = ground (arith, take-IsVisible n s)

replaced : (c : ℕ) → not (is_hidden c) ≡ true → not (is_hidden (replace_surrogate c)) ≡ true
replaced c h = elim (Bool-cases (leb 0xd800 c && leb c 0xdfff)) [
  | inl e ↦ rw e (rw (is_hidden-ascii b'?' (omega arith) (omega arith)) refl)
  | inr e ↦ rw e h
]

map-IsVisible : (s : Text) → IsVisible s → IsVisible (map replace_surrogate s)
map-IsVisible [] h = refl
map-IsVisible (c ∷ s) h = ground (arith, replaced c, map-IsVisible s)

clean-IsClean : (v : Option Text) → IsClean (clean v)
unfolding clean
clean-IsClean v =
    let shown = sanitize_field v in
    (
      omega
          (arith, length-map replace_surrogate (take max_field shown), length-take max_field shown),
      map-IsVisible (take max_field shown)
          (take-IsVisible max_field shown (sanitize_field-IsVisible v)),
    )

module _ (iso : ℕ → Text) where
  -- A variable of a trip is clean, and a wake variable is gone.
  abbrev IsSafe : Text × Text → Type 0
  IsSafe e = starts_with e.0 trip_prefix ≡ true → IsClean e.1

  inherited-IsSafe : (e : Text × Text) → is_inherited iso e ≡ true → IsSafe e
  inherited-IsSafe e h k = absurd (ground arith)

  environ-IsSafe :
      (environ : List (Text × Text)) → All IsSafe (select_rows (is_inherited iso) environ)
  unfolding select_rows
  environ-IsSafe [] = tt
  environ-IsSafe (e ∷ es) = elim (Bool-cases (is_inherited iso e)) [
    | inl k ↦ simp k (inherited-IsSafe e k, environ-IsSafe es)
    | inr k ↦ simp k (environ-IsSafe es)
  ]

  update-IsSafe :
      (vars : List (Text × Option Text)) (env : List (Text × Text))
      → All IsSafe env
      → All IsSafe (update_env iso env vars)
  update-IsSafe [] env h = h
  update-IsSafe ((k, v) ∷ vars) env h =
      update-IsSafe vars (set_entry k (clean v) env)
        (All-set_entry IsSafe k (clean v) env (λ _. clean-IsClean v) h)

  -- In the environment of the alert command every variable whose name begins with SWARMBUS_TRIP_ has one line of at most 256
  -- characters, with no control, format or separator character, whatever the sender wrote and whatever the
  -- environment held before.
  pub trip_env-IsClean :
      (environ : List (Text × Text)) (trip : TripEvent) (agent_id listener : Text)
      → All
          (λ (e : Text × Text). starts_with e.0 trip_prefix ≡ true → IsClean e.1)
          (trip_env iso environ trip agent_id listener)
  unfolding trip_env
  trip_env-IsClean environ trip agent_id listener =
      update-IsSafe (trip_vars iso trip agent_id listener) (select_rows (is_inherited iso) environ)
        (environ-IsSafe environ)
