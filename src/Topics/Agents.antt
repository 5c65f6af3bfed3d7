-- ===== src/Topics/Agents.antt =====
-- The parsers of agent topics are inverse to the builders.
use swarmbus.Base.{
  ◌-◌, ◌≡◌, refl, sym, ap, ◌∙◌, ◌↔◌, ◌⊎◌, inl, inr, true, false, not, ◌||◌, [], ◌∷◌, ◌++◌,
  append_assoc, Text, text_eq, starts_with, starts_with-append, append-drop, ends_with,
  ends_with-append, ends_with→append, length, length-append, take-append, drop, drop-append,
  any-append, arith, ◌==◌, every,
}
use swarmbus.Base.Result.{ok, value_error, raise_if-eq-ok}
use swarmbus.Message.AgentId.{
  validate_agent_id_ok, validate_agent_id_inv, matches_agent_id, matches_cases, IsAgentId,
  is_id_char, newline,
}
use swarmbus.Topics.{
  TopicMap, slash, has_slash, one_agent_segment, agents_prefix, registry_prefix, presence, registry,
  registry_agent, presence_agent, leaf, presence_leaf,
}

class_no_slash : (s : Text) → every is_id_char s ≡ true → has_slash s ≡ false
unfolding is_id_char
class_no_slash [] h = refl
class_no_slash (c ∷ s) h = ground (arith, class_no_slash s)

one_segment :
    (s : Text)
    → IsAgentId s
    → (a : Text) → (a ≡ s) ⊎ (a ≡ s ++ newline)
    → (has_slash a || text_eq a []) ≡ false
unfolding text_eq
one_segment [] i a e = absurd (omega (arith, i.nonempty))
one_segment (c ∷ s) i a (inl e) = rw (e, class_no_slash (c ∷ s) i.class) refl
one_segment (c ∷ s) i a (inr e) =
    rw (e, any-append (λ d. d == b'/') (c ∷ s) newline, class_no_slash (c ∷ s) i.class) refl

-- An accepted id is one non-empty topic segment.
pub matches_one_segment :
    (a : Text) → matches_agent_id a ≡ true → (has_slash a || text_eq a []) ≡ false
matches_one_segment a h = let (s, i, e) = matches_cases a h in one_segment s i a e

pub one_agent_segment-append :
    (prefix a : Text)
    → matches_agent_id a ≡ true
    → one_agent_segment (prefix ++ slash ++ a) prefix ≡ ok a
unfolding one_agent_segment
one_agent_segment-append prefix a h =
    rw
      (
        starts_with-append (prefix ++ slash) a,
        drop-append (prefix ++ slash) a,
        matches_one_segment a h,
      )
      (validate_agent_id_ok a h)

pub one_agent_segment_inv :
    (candidate prefix : Text) {a : Text}
    → one_agent_segment candidate prefix ≡ ok a
    → (candidate ≡ prefix ++ slash ++ a) × (matches_agent_id a ≡ true)
unfolding one_agent_segment
one_agent_segment_inv candidate prefix h =
    let (under, h') =
      raise_if-eq-ok (not (starts_with candidate (prefix ++ slash))) value_error _ h in
    let (_, h'') =
      raise_if-eq-ok
        (has_slash (drop (length (prefix ++ slash)) candidate)
          || text_eq (drop (length (prefix ++ slash)) candidate) [])
        value_error _ h' in
    let (e, m) = validate_agent_id_inv (drop (length (prefix ++ slash)) candidate) h'' in
    (append-drop candidate (prefix ++ slash) (ground arith) ∙ rw e, rw e m)

-- For every map, topic and id: `registry_agent` returns the id from the topic exactly when the id is
-- one that `_validate_agent_id` accepts and the topic is the one that `registry` builds for it.
pub registry_agent_iff :
    (t : TopicMap) (topic a : Text)
    → (registry_agent t topic ≡ ok a) ↔ ((topic ≡ registry t a) × (matches_agent_id a ≡ true))
unfolding registry_agent registry
registry_agent_iff t topic a = (
  one_agent_segment_inv topic (registry_prefix t),
  λ (e, m). rw e (one_agent_segment-append (registry_prefix t) a m),
)

presence-eq : (t : TopicMap) (a : Text) → presence t a ≡ (agents_prefix t ++ slash ++ a) ++ leaf
unfolding presence
presence-eq t a = append_assoc (agents_prefix t ++ slash ++ a) slash presence_leaf

has_suffix :
    (t : TopicMap) (topic : Text) {a : Text}
    → presence_agent t topic ≡ ok a
    → ends_with topic leaf ≡ true
unfolding presence_agent
has_suffix t topic h =
    let (e, _) = raise_if-eq-ok (not (ends_with topic leaf)) value_error _ h in ground arith

presence_agent-append :
    (t : TopicMap) (s : Text) → presence_agent t (s ++ leaf) ≡ one_agent_segment s (agents_prefix t)
unfolding presence_agent
presence_agent-append t s =
    let e : length (s ++ leaf) - length leaf ≡ length s = omega (arith, length-append s leaf) in
    rw (ends_with-append s leaf, e, take-append s leaf)

-- For every map, topic and id: `presence_agent` returns the id from the topic exactly when the id is
-- one that `_validate_agent_id` accepts and the topic is the one that `presence` builds for it.
pub presence_agent_iff :
    (t : TopicMap) (topic a : Text)
    → (presence_agent t topic ≡ ok a) ↔ ((topic ≡ presence t a) × (matches_agent_id a ≡ true))
presence_agent_iff t topic a = (parsed, built)
  where
    parsed : presence_agent t topic ≡ ok a → (topic ≡ presence t a) × (matches_agent_id a ≡ true)
    parsed h =
        let (s, e) = ends_with→append topic leaf (has_suffix t topic h) in
        let (p, m) =
          one_agent_segment_inv s (agents_prefix t)
            (sym (presence_agent-append t s) ∙ (rw e at h)) in
        (e ∙ ap (λ (u : Text). u ++ leaf) p ∙ sym (presence-eq t a), m)

    built : (topic ≡ presence t a) × (matches_agent_id a ≡ true) → presence_agent t topic ≡ ok a
    built (e, m) =
        rw (e, presence-eq t a, presence_agent-append t (agents_prefix t ++ slash ++ a))
          (one_agent_segment-append (agents_prefix t) a m)
