-- ===== src/Topics/Routes.antt =====
-- Messages to different receivers go to different topics.
use swarmbus.Base.{
  ◌-◌, ◌≡◌, refl, sym, ap, ◌∙◌, true, false, ◌++◌, append_assoc, Text, text_eq, text_eq→≡,
  ends_with, ends_with-append, length, length-append, take, take-append, drop, drop-append, arith,
  Bool-cases, inl, inr,
}
use swarmbus.Topics.{
  TopicMap, slash, inbox, inbox_leaf, agents_prefix, route, broadcast_agent_id, broadcast_topic,
}

abbrev tail : Text
tail = slash ++ inbox_leaf

inbox-eq : (t : TopicMap) (a : Text) → inbox t a ≡ (agents_prefix t ++ slash) ++ (a ++ tail)
unfolding inbox
inbox-eq t a =
    append_assoc (agents_prefix t ++ slash ++ a) slash inbox_leaf
    ∙ append_assoc (agents_prefix t ++ slash) a tail

append_cancel_left : (p s t : Text) → p ++ s ≡ p ++ t → s ≡ t
append_cancel_left p s t e = sym (drop-append p s) ∙ ap (drop (length p)) e ∙ drop-append p t

append_cancel_right : (s t q : Text) → s ++ q ≡ t ++ q → s ≡ t
append_cancel_right s t q e =
    sym (front s) ∙ ap (λ (u : Text). take (length u - length q) u) e ∙ front t
  where
    front : (u : Text) → take (length (u ++ q) - length q) (u ++ q) ≡ u
    front u =
        let n : length (u ++ q) - length q ≡ length u = omega (arith, length-append u q) in
        rw (n, take-append u q)

inbox-injective : (t : TopicMap) (a b : Text) → inbox t a ≡ inbox t b → a ≡ b
inbox-injective t a b e =
    append_cancel_right a b tail
      (append_cancel_left (agents_prefix t ++ slash) _ _ (sym (inbox-eq t a) ∙ e ∙ inbox-eq t b))

broadcast_no_inbox : ends_with broadcast_topic tail ≡ false
unfolding ends_with text_eq
broadcast_no_inbox = refl

inbox_suffix : (t : TopicMap) (a : Text) → ends_with (inbox t a) tail ≡ true
inbox_suffix t a =
    let e : inbox t a ≡ (agents_prefix t ++ slash ++ a) ++ tail =
      inbox-eq t a ∙ sym (append_assoc (agents_prefix t ++ slash) a tail) in
    rw e (ends_with-append (agents_prefix t ++ slash ++ a) tail)

inbox-ne-broadcast : (t : TopicMap) (a : Text) → ¬ (inbox t a ≡ broadcast_topic)
inbox-ne-broadcast t a e =
    ground (arith, inbox_suffix t a, broadcast_no_inbox, ap (λ (u : Text). ends_with u tail) e)

-- For every root: two receivers with the same topic are the same receiver; so no inbox is the
-- broadcast topic, and no two agents share an inbox.
pub route-injective : (t : TopicMap) (a b : Text) → route t a ≡ route t b → a ≡ b
unfolding route
route-injective t a b e = elim (Bool-cases (text_eq a broadcast_agent_id)) [
  | inl p ↦ elim (Bool-cases (text_eq b broadcast_agent_id)) [
    | inl q ↦ text_eq→≡ a broadcast_agent_id p ∙ sym (text_eq→≡ b broadcast_agent_id q)
    | inr q ↦ absurd (inbox-ne-broadcast t b (ground arith))
  ]
  | inr p ↦ elim (Bool-cases (text_eq b broadcast_agent_id)) [
    | inl q ↦ absurd (inbox-ne-broadcast t a (ground arith))
    | inr q ↦ inbox-injective t a b (ground arith)
  ]
]
