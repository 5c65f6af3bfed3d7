-- ===== src/Message/Sanitize.antt =====
-- `sanitize_field` of src/swarmbus/message.py.
use swarmbus.Base.{
  ℕ, ◌≡◌, refl, true, not, Option, none, some, [], ◌∷◌, map, arith, Text, if◌then◌else◌, length,
  every, length-map, Bool-cases, inl, inr,
}
use swarmbus.Message.Unicode.{is_hidden, is_hidden-ascii}

unfoldable pub sanitize_char : ℕ → ℕ
sanitize_char c = if is_hidden c then b' ' else c

-- The argument is `None` or the text that `str` makes of a value.
unfoldable pub sanitize_field : Option Text → Text
unfolding sanitize_char
sanitize_field none = []
sanitize_field (some s) = map sanitize_char s

-- No control, format or separator character is left, so the text stays on one line.
abbrev pub IsVisible : Text → Type 0
IsVisible s = every (λ c. not (is_hidden c)) s ≡ true

not-hidden-sanitize_char : (c : ℕ) → not (is_hidden (sanitize_char c)) ≡ true
unfolding sanitize_char
not-hidden-sanitize_char c = elim (Bool-cases (is_hidden c)) [
  | inl e ↦ rw e (rw (is_hidden-ascii b' ' (omega arith) (omega arith)) refl)
  | inr e ↦ rw (e, e) refl
]

map-IsVisible : (s : Text) → IsVisible (map sanitize_char s)
map-IsVisible [] = refl
map-IsVisible (c ∷ s) = ground (arith, not-hidden-sanitize_char c, map-IsVisible s)

map-sanitize_char_id : (s : Text) → IsVisible s → map sanitize_char s ≡ s
unfolding sanitize_char
map-sanitize_char_id [] h = refl
map-sanitize_char_id (c ∷ s) h = ground (arith, map-sanitize_char_id s)

pub sanitize_field-IsVisible : (v : Option Text) → IsVisible (sanitize_field v)
unfolding sanitize_field
sanitize_field-IsVisible none = refl
sanitize_field-IsVisible (some s) = map-IsVisible s

pub sanitize_field_id : (s : Text) → IsVisible s → sanitize_field (some s) ≡ s
unfolding sanitize_field
sanitize_field_id s h = map-sanitize_char_id s h

pub length-sanitize_field : (s : Text) → length (sanitize_field (some s)) ≡ length s
unfolding sanitize_field
length-sanitize_field s = length-map sanitize_char s

-- For every text, `sanitize_field` returns a text of the same length in which no character is of
-- category Cc, Cf, Zl or Zp; a text that has no such character is returned unchanged, so a second
-- pass changes nothing.
pub sanitize_field_lem :
    (s : Text)
    → IsVisible (sanitize_field (some s))
      × (length (sanitize_field (some s)) ≡ length s)
      × (sanitize_field (some (sanitize_field (some s))) ≡ sanitize_field (some s))
      × (IsVisible s → sanitize_field (some s) ≡ s)
sanitize_field_lem s = (
  sanitize_field-IsVisible (some s),
  length-sanitize_field s,
  sanitize_field_id _ (sanitize_field-IsVisible (some s)),
  sanitize_field_id s,
)
