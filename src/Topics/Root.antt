-- ===== src/Topics/Root.antt =====
-- The roots that `TopicMap` accepts.
use swarmbus.Base.{
  ◌≡◌, sym, ap, ◌↔◌, false, [], ◌∷◌, Text, codes, starts_with, has_code, has_text, strip,
  strip-IsTrimmed, IsTrimmed, subst,
}
use swarmbus.Base.Result.{ok, value_error, raise_if-eq-ok}
use swarmbus.Topics.{TopicMap, topic_map, is_padding}

-- No padding at either end, no wildcard, no empty segment, and not in the broker's own namespace.
pub record IsCleanRoot (root : Text) : Type 0 where
  pub trimmed : IsTrimmed is_padding root
  pub no_plus : has_code b'+' root ≡ false
  pub no_hash : has_code b'#' root ≡ false
  pub not_reserved : starts_with root (b'$' ∷ []) ≡ false
  pub no_empty_segment : has_text (codes "//") root ≡ false

root-injective : {s t : TopicMap} → ok s ≡ ok t → s ≡ t
root-injective h = cc

topic_map_clean :
    (root : Text) {t : TopicMap}
    → topic_map root ≡ ok t
    → (t.root ≡ strip is_padding root) × IsCleanRoot t.root
unfolding topic_map
topic_map_clean root {t} h =
    let s : Text = strip is_padding root in
    let (plus, h1) = raise_if-eq-ok (has_code b'+' s) value_error _ h in
    let (hash, h2) = raise_if-eq-ok (has_code b'#' s) value_error _ h1 in
    let (reserved, h3) = raise_if-eq-ok (starts_with s (b'$' ∷ [])) value_error _ h2 in
    let (empty, h4) = raise_if-eq-ok (has_text (codes "//") s) value_error _ h3 in
    let e : record { root = s } ≡ t = root-injective h4 in
    let root_eq : s ≡ t.root = ap (λ (m : TopicMap). m.root) e in
    (
      sym root_eq,
      subst IsCleanRoot root_eq (record {
        trimmed = strip-IsTrimmed is_padding root;
        no_plus = plus;
        no_hash = hash;
        not_reserved = reserved;
        no_empty_segment = empty;
      }),
    )

topic_map_of_strip :
    (root s : Text)
    → s ≡ strip is_padding root
    → IsCleanRoot s
    → topic_map root ≡ ok (record { root = s })
unfolding topic_map
topic_map_of_strip root s e c = rw (← e, c.no_plus, c.no_hash, c.not_reserved, c.no_empty_segment)

topic_map_of_clean : (s : Text) → IsCleanRoot s → topic_map s ≡ ok (record { root = s })
unfolding topic_map strip
topic_map_of_clean s c =
    rw (c.trimmed.0, c.trimmed.1, c.no_plus, c.no_hash, c.not_reserved, c.no_empty_segment)

-- `TopicMap(root)` succeeds with map `t` exactly when the root of `t` is the text stripped of padding
-- (blanks, tabs, line ends and slashes) at both ends, and holds no wildcard, no empty segment and no
-- `$` at its start; building a map again from that root gives the same map.
pub topic_map_lem :
    (root : Text) (t : TopicMap)
    → ((topic_map root ≡ ok t) ↔ ((t.root ≡ strip is_padding root) × IsCleanRoot t.root))
      × (topic_map root ≡ ok t → topic_map t.root ≡ ok t)
topic_map_lem root t = (
  (topic_map_clean root, λ (e, c). topic_map_of_strip root t.root e c),
  λ h. topic_map_of_clean t.root (topic_map_clean root h).1,
)
