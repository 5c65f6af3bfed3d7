-- ===== src/Config/Checked.antt =====
-- What a config file that loads has been checked for.
use swarmbus.Base.{
  ℕ, ◌⊎◌, ◌%◌, ◌≡◌, refl, subst, ap, Bool, true, false, not, ◌&&◌, ◌||◌, List, [], ◌∷◌, ◌++◌, Text,
  codes, text_eq, Option, none, some, All, any, if◌then◌else◌, arith, ◌==◌, Bool-cases, inl, inr,
}
use swarmbus.Base.Int.{ℤ, pos, ltb_ℤ}
use swarmbus.Base.Result.{
  Result, ok, err, config_error, value_error, ◌>>=◌, raise_if-eq-ok, bind_cases, ok-injective,
}
use swarmbus.Registry.Cache.{has_entry, lookup}
use swarmbus.Registry.Reachable.{All-set_entry}
use swarmbus.Config.{
  Number, Reader, Kind, string_kind, path_kind, integer_kind, port_kind, number_kind, boolean_kind,
  Value, text_value, int_value, number_value, bool_value, Key, known_keys, checked_int,
  checked_number, checked_bool, is_bad_port, convert, Loaded, nothing_loaded, find_key,
  as_config_error, keep_value, load_value, load_items, load_sections, File, read_sections,
  load_config, boolean_states, unknown_section,
}

-- A value in the range of its kind.
abbrev pub is_checked : Kind → Value → Bool
is_checked string_kind (text_value s) = true
is_checked path_kind (text_value s) = true
is_checked integer_kind (int_value z) = not (ltb_ℤ z (pos 0))
is_checked port_kind (int_value z) = not (ltb_ℤ z (pos 1)) && not (ltb_ℤ (pos 65535) z)
is_checked number_kind (number_value n) = n.is_finite && not n.is_negative
is_checked boolean_kind (bool_value b) = true
is_checked k v = false

abbrev pub IsChecked : Text × (Kind × Value) → Type 0
IsChecked e = is_checked e.1.0 e.1.1 ≡ true

-- The branch that the test takes.
taken {ℓ} : {A : Type ℓ} (b : Bool) (x y : A) {z : A} → b ≡ true → (if b then x else y) ≡ z → x ≡ z
taken b x y {z} e h = subst (λ b. (if b then x else y) ≡ z) e h

skipped {ℓ} :
    {A : Type ℓ} (b : Bool) (x y : A) {z : A} → b ≡ false → (if b then x else y) ≡ z → y ≡ z
skipped b x y {z} e h = subst (λ b. (if b then x else y) ≡ z) e h

checked_int_lem :
    (bad : ℤ → Bool) (o : Option ℤ) {v : Value}
    → checked_int bad o ≡ ok v
    → (z : ℤ) × (int_value z ≡ v) × (bad z ≡ false)
checked_int_lem bad none h = cc
checked_int_lem bad (some z) h = elim (Bool-cases (bad z)) [
  | inl e ↦ cc
  | inr e ↦ (z, ok-injective (skipped (bad z) (err value_error) (ok (int_value z)) e h), e)
]

checked_number_lem :
    (o : Option Number) {v : Value} → checked_number o ≡ ok v → is_checked number_kind v ≡ true
checked_number_lem none h = cc
checked_number_lem (some n) h = elim (Bool-cases (not n.is_finite || n.is_negative)) [
  | inl e ↦ cc
  | inr e ↦
      let same =
        ok-injective (
          skipped (not n.is_finite || n.is_negative) (err value_error) (ok (number_value n)) e h) in
      subst (λ v. is_checked number_kind v ≡ true) same (ground arith)
]

checked_bool_lem :
    (o : Option Bool) {v : Value} → checked_bool o ≡ ok v → is_checked boolean_kind v ≡ true
checked_bool_lem none h = cc
checked_bool_lem (some b) h = subst (λ v. is_checked boolean_kind v ≡ true) (ok-injective h) refl

convert_lem :
    (x : Reader) (k : Kind) (t : Text) {v : Value} → convert x k t ≡ ok v → is_checked k v ≡ true
unfolding convert
convert_lem x string_kind t h = subst (λ v. is_checked string_kind v ≡ true) (ok-injective h) refl
convert_lem x path_kind t h = subst (λ v. is_checked path_kind v ≡ true) (ok-injective h) refl
convert_lem x integer_kind t h =
    let (z, same, good) = checked_int_lem (λ z. ltb_ℤ z (pos 0)) (x.int_of t) h in
    subst (λ v. is_checked integer_kind v ≡ true) same (ap not good)
convert_lem x port_kind t h =
    let (z, same, good) = checked_int_lem is_bad_port (x.int_of t) h in
    subst (λ v. is_checked port_kind v ≡ true) same (ground arith)
convert_lem x number_kind t h = checked_number_lem (x.float_of t) h
convert_lem x boolean_kind t h = checked_bool_lem (lookup (x.lower t) boolean_states) h

abbrev pub IsLoaded : Loaded → Type 0
IsLoaded l = All IsChecked l.params

keep_value_lem :
    (l : Loaded) (r : Key) (v : Value)
    → is_checked r.kind v ≡ true
    → IsLoaded l
    → IsLoaded (keep_value l r v)
keep_value_lem l r v good h =
    elim (Bool-cases (text_eq r.section (codes "outbox") && text_eq r.key (codes "path"))) [
      | inl e ↦ rw e h
      | inr e ↦ rw e (All-set_entry IsChecked r.param (r.kind, v) l.params good h)
    ]

converted : (o : Result Value) {v : Value} → as_config_error o ≡ ok v → o ≡ ok v
converted (err e) h = cc
converted (ok v) h = h

load_value_lem :
    (x : Reader) (s k t : Text) (l : Loaded) (o : Option Key) {l₁ : Loaded}
    → load_value x s k t l o ≡ ok l₁
    → IsLoaded l
    → IsLoaded l₁
load_value_lem x s k t l none h i = subst IsLoaded (ok-injective h) i
load_value_lem x s k t l (some r) h i =
    let next : Result Loaded =
      (as_config_error (convert x r.kind t) >>= λ v. ok (keep_value l r v)) in
    elim (Bool-cases (text_eq t [])) [
      | inl e ↦ subst IsLoaded (ok-injective (taken (text_eq t []) (ok l) next e h)) i
      | inr e ↦
          bind_cases (as_config_error (convert x r.kind t)) _
            (skipped (text_eq t []) (ok l) next e h)
            λ v c same.
              subst IsLoaded (ok-injective same)
                (keep_value_lem l r v (convert_lem x r.kind t (converted (convert x r.kind t) c)) i)
    ]

load_items_lem :
    (x : Reader) (s : Text) (items : List (Text × Text)) (l : Loaded) {l₁ : Loaded}
    → load_items x s items l ≡ ok l₁
    → IsLoaded l
    → IsLoaded l₁
unfolding load_items
load_items_lem x s [] l h i = subst IsLoaded (ok-injective h) i
load_items_lem x s ((k, t) ∷ rest) l h i =
    bind_cases (load_value x s k t l (find_key s k known_keys)) _ h λ after e h.
      load_items_lem x s rest after h (load_value_lem x s k t l (find_key s k known_keys) e i)

load_sections_lem :
    (x : Reader) (ss : List (Text × List (Text × Text))) (l : Loaded) {l₁ : Loaded}
    → load_sections x ss l ≡ ok l₁
    → IsLoaded l
    → IsLoaded l₁
unfolding load_sections
load_sections_lem x [] l h i = subst IsLoaded (ok-injective h) i
load_sections_lem x ((s, items) ∷ rest) l h i =
    let known = any (λ (r : Key). text_eq r.section s) known_keys in
    let warned =
      load_sections x rest (record l { warnings = l.warnings ++ unknown_section s ∷ [] }) in
    let next = load_items x s items l >>= load_sections x rest in
    elim (Bool-cases (not known)) [
      | inl e ↦
          load_sections_lem x rest (record l { warnings = l.warnings ++ unknown_section s ∷ [] })
            (taken (not known) warned next e h) i
      | inr e ↦
          bind_cases (load_items x s items l) _ (skipped (not known) warned next e h)
            λ after a h. load_sections_lem x rest after h (load_items_lem x s items l a i)
    ]

no_password_or_private :
    (b : Bool) (mode : ℕ) → (b && not (mode % 64 == 0)) ≡ false → (b ≡ false) ⊎ (mode % 64 ≡ 0)
no_password_or_private true mode h = inr (ground arith)
no_password_or_private false mode h = inl refl

-- Whatever the file says, a config that loads has every parameter in the range of its kind: an integer is not
-- negative, a port is from 1 to 65535, a number is finite and not negative; and no password is among the
-- parameters, or the file's mode gives group and others nothing.
pub load_config-IsChecked :
    (x : Reader) (explicit : Bool) (f : File) {l : Loaded}
    → load_config x explicit (some f) ≡ ok l
    → All IsChecked l.params × ((has_entry (codes "password") l.params ≡ false) ⊎ (f.mode % 64 ≡ 0))
unfolding load_config
load_config-IsChecked x explicit f h = bind_cases (read_sections f.sections) _ h λ ss _ h.
    bind_cases (load_sections x ss nothing_loaded) _ h λ after e h.
      let (private, same) =
        raise_if-eq-ok (has_entry (codes "password") after.params && not (f.mode % 64 == 0))
          config_error _ h in
      subst
        (λ (l : Loaded).
          All IsChecked l.params
          × ((has_entry (codes "password") l.params ≡ false) ⊎ (f.mode % 64 ≡ 0)))
        (ok-injective same)
        (
          load_sections_lem x ss nothing_loaded e tt,
          no_password_or_private (has_entry (codes "password") after.params) f.mode private,
        )
