-- ===== src/Message/AgentId.antt =====
-- `_validate_agent_id` and `_validate_registered_agent_id` of src/swarmbus/message.py. The pattern is
-- `^[a-z0-9_-]{1,64}$`, matched by `re.match`: its `$` also matches before a newline at the end.
use swarmbus.Base.{
  ℕ, ◌≤◌, ◌≡◌, refl, ◌↔◌, ◌⊎◌, inl, inr, ap, Bool, true, false, ◌&&◌, ◌||◌, [], ◌∷◌, ◌++◌, arith,
  Text, codes, text_eq, text_eq→≡, leb, ◌==◌, if◌then◌else◌, length, every, Bool-cases,
}
use swarmbus.Base.Result.{Result, ok, err, value_error}

-- `[a-z0-9_-]`
unfoldable pub is_id_char : ℕ → Bool
is_id_char c = leb b'a' c && leb c b'z' || (leb b'0' c && leb c b'9' || (c == b'_' || c == b'-'))

-- The text before the point where `$` matches.
unfoldable pub before_end : Text → Text
before_end [] = []
before_end (c ∷ []) = if c == 10 then [] else c ∷ []
before_end (c ∷ d ∷ s) = c ∷ before_end (d ∷ s)

abbrev pub fits_pattern : Text → Bool
fits_pattern s = leb 1 (length s) && (leb (length s) 64 && every is_id_char s)

unfoldable pub matches_agent_id : Text → Bool
unfolding before_end is_id_char
matches_agent_id v = fits_pattern (before_end v)

unfoldable pub validate_agent_id : Text → Result Text
unfolding matches_agent_id
validate_agent_id v = if matches_agent_id v then ok v else err value_error

unfoldable pub is_reserved : Text → Bool
is_reserved v = text_eq v (codes "broadcast") || text_eq v (codes "system")

unfoldable pub validate_registered_agent_id : Text → Result Text
unfolding validate_agent_id is_reserved
validate_registered_agent_id v =
    if matches_agent_id v then if is_reserved v then err value_error else ok v else err value_error

-- The documented format: one to 64 characters of the class.
pub record IsAgentId (s : Text) : Type 0 where
  pub nonempty : 1 ≤ length s
  pub bounded : length s ≤ 64
  pub class : every is_id_char s ≡ true

abbrev pub newline : Text
newline = 10 ∷ []

pub IsAgentId-fits : (s : Text) → (fits_pattern s ≡ true) ↔ IsAgentId s
IsAgentId-fits s = (
  λ h. record { nonempty = ground arith; bounded = ground arith; class = ground arith },
  λ i. ground arith,
)

before_end_cases : (v : Text) → (v ≡ before_end v) ⊎ (v ≡ before_end v ++ newline)
unfolding before_end
before_end_cases [] = inl refl
before_end_cases (c ∷ []) = elim (Bool-cases (c == 10)) [
  | inl e ↦ inr (ground arith)
  | inr e ↦ inl (rw e)
]
before_end_cases (c ∷ d ∷ s) = elim (before_end_cases (d ∷ s)) [
  | inl e ↦ inl (ap (λ (t : Text). c ∷ t) e)
  | inr e ↦ inr (ap (λ (t : Text). c ∷ t) e)
]

before_end-newline : (s : Text) → before_end (s ++ newline) ≡ s
unfolding before_end
before_end-newline [] = refl
before_end-newline (c ∷ []) = refl
before_end-newline (c ∷ d ∷ s) = ap (λ (t : Text). c ∷ t) (before_end-newline (d ∷ s))

before_end_class : (s : Text) → every is_id_char s ≡ true → before_end s ≡ s
unfolding before_end is_id_char
before_end_class [] h = refl
before_end_class (c ∷ []) h = ground arith
before_end_class (c ∷ d ∷ s) h = ap (λ (t : Text). c ∷ t) (before_end_class (d ∷ s) (ground arith))

pub matches_of_IsAgentId : (s : Text) → IsAgentId s → matches_agent_id s ≡ true
unfolding matches_agent_id
matches_of_IsAgentId s i = rw (before_end_class s i.class) ((IsAgentId-fits s).1 i)

pub matches-newline : (s : Text) → IsAgentId s → matches_agent_id (s ++ newline) ≡ true
unfolding matches_agent_id
matches-newline s i = rw (before_end-newline s) ((IsAgentId-fits s).1 i)

pub matches_cases :
    (v : Text)
    → matches_agent_id v ≡ true
    → (s : Text) × IsAgentId s × ((v ≡ s) ⊎ (v ≡ s ++ newline))
unfolding matches_agent_id
matches_cases v h = (before_end v, (IsAgentId-fits (before_end v)).0 h, before_end_cases v)

pub validate_agent_id_ok : (v : Text) → matches_agent_id v ≡ true → validate_agent_id v ≡ ok v
unfolding validate_agent_id
validate_agent_id_ok v h = rw h

pub validate_agent_id_inv :
    (v : Text) {w : Text} → validate_agent_id v ≡ ok w → (w ≡ v) × (matches_agent_id v ≡ true)
unfolding validate_agent_id
validate_agent_id_inv v h = ground arith

-- `_validate_agent_id` returns its argument exactly when that is a text of the documented format,
-- alone or followed by one newline.
pub validate_agent_id_iff :
    (v : Text)
    → (validate_agent_id v ≡ ok v) ↔ ((s : Text) × IsAgentId s × ((v ≡ s) ⊎ (v ≡ s ++ newline)))
validate_agent_id_iff v = (
  λ h. matches_cases v (validate_agent_id_inv v h).1,
  λ (s, i, e).
      validate_agent_id_ok v
        (elim e [ inl p ↦ rw p (matches_of_IsAgentId s i) | inr p ↦ rw p (matches-newline s i) ]),
)

class-newline : (s : Text) → every is_id_char (s ++ newline) ≡ false
unfolding is_id_char
class-newline [] = refl
class-newline (c ∷ s) = ground (arith, class-newline s)

not-reserved-newline : (s : Text) → is_reserved (s ++ newline) ≡ false
unfolding is_reserved is_id_char
not-reserved-newline s = elim (Bool-cases (is_reserved (s ++ newline))) [
  | inr e ↦ e
  | inl e ↦ ground (
    arith,
    text_eq→≡ (s ++ newline) (codes "broadcast"),
    text_eq→≡ (s ++ newline) (codes "system"),
    class-newline s,
    broadcast_class,
    system_class,
  )
]
  where
    broadcast_class : every is_id_char (codes "broadcast") ≡ true
    broadcast_class = refl

    system_class : every is_id_char (codes "system") ≡ true
    system_class = refl

-- A text of the documented format is accepted as an agent's own id exactly when it is no reserved
-- word; with a newline at its end it is accepted in every case, the reserved words included.
pub validate_registered_agent_id-newline :
    (s : Text)
    → IsAgentId s
    → (validate_registered_agent_id s ≡ (if is_reserved s then err value_error else ok s))
      × (validate_registered_agent_id (s ++ newline) ≡ ok (s ++ newline))
unfolding validate_registered_agent_id
validate_registered_agent_id-newline s i =
    (rw (matches_of_IsAgentId s i), rw (matches-newline s i, not-reserved-newline s))
