-- ===== src/Registry/Listing.antt =====
-- The two listings of a `RegistryCache` of src/swarmbus/registry.py.
use swarmbus.Base.{
  text_le, ◌≡◌, refl, ap, true, false, not, ◌&&◌, ◌||◌, List, [], ◌∷◌, ◌++◌, map, Text, text_eq,
  text_eq_refl, Option, none, some, All, All-append, any, arith, Bool-cases, Option-cases, inl, inr,
}
use swarmbus.Base.Int.{ℤ, pos, leb_ℤ}
use swarmbus.Base.Result.{Result, ok, err}
use swarmbus.Message.Json.{DateTime}
use swarmbus.Registry.Records.{RegistryRecord, is_aware}
use swarmbus.Registry.Presence.{PresenceRecord}
use swarmbus.Registry.Decide.{Evidence, presence_evidence, seen_online, seen_offline, unconfirmed}
use swarmbus.Registry.Collect.{Weighed, evidence-Weighed, State-cases}
use swarmbus.Registry.Cache.{
  RegistryCache, AgentState, lookup, keys, has_entry, cache_evidence, is_seen_online, is_online,
  insert_text, sorted_set, agent_ids, filter_online, online_agent_ids, state_of, get_state,
  get_states, filter_states, list_states,
}
use swarmbus.Registry.Reachable.{IsSound, IsRegistryEntry}

lookup-is_aware :
    (k : Text) (d : List (Text × RegistryRecord)) {r : RegistryRecord}
    → All IsRegistryEntry d
    → lookup k d ≡ some r
    → is_aware r.last_seen ≡ true
unfolding lookup
lookup-is_aware k [] h e = cc
lookup-is_aware k ((j, b) ∷ d) (q, h) e = elim (Bool-cases (text_eq j k)) [
  | inl t ↦ let same = rw t at e in cc (q.1)
  | inr t ↦ lookup-is_aware k d h (rw t at e)
]

pub ok_of_Weighed :
    (m : Result Evidence) (p : Option PresenceRecord) → Weighed m p → (e : Evidence) × (m ≡ ok e)
ok_of_Weighed (ok e) p w = (e, refl)
ok_of_Weighed (err e) p w = absurd w

pub unaged :
    (p : Option PresenceRecord) (now : DateTime) (stale_after : ℤ)
    → leb_ℤ stale_after (pos 0) ≡ false
    → is_aware now ≡ true
    → (e : Evidence) × (presence_evidence none p now stale_after ≡ ok e)
unfolding presence_evidence
unaged none now stale_after h k = rw (h, k) (unconfirmed, refl)
unaged (some p) now stale_after h k = elim (State-cases p.state) [
  | inl e ↦ rw (h, k, e) (seen_online, refl)
  | inr e ↦ rw (h, k, e) (seen_offline, refl)
]

-- A sound cache weighs every agent without an error.
cache_evidence_ok :
    (a : Text) (now : DateTime) (s : RegistryCache)
    → IsSound s
    → is_aware now ≡ true
    → (e : Evidence) × (cache_evidence a now s ≡ ok e)
unfolding cache_evidence
cache_evidence_ok a now s i n = elim (Option-cases (lookup a s.registry)) [
  | inl e ↦ rw e (unaged (lookup a s.presence) now s.stale_after i.stale_positive n)
  | inr (r, e) ↦ rw e (
      ok_of_Weighed _ (lookup a s.presence) (
        evidence-Weighed r (lookup a s.presence) now s.stale_after i.stale_positive n
          (lookup-is_aware a s.registry i.registry_keys e)))
]

abbrev HasEntry : RegistryCache → Text → Type 0
HasEntry s a = (has_entry a s.registry || has_entry a s.presence) ≡ true

module _ {ℓ} {A : Type ℓ} where
  All-imp : (P Q : A → Type 0) (xs : List A) → ((x : A) → P x → Q x) → All P xs → All Q xs
  All-imp P Q [] f h = tt
  All-imp P Q (x ∷ xs) f (p, h) = (f x p, All-imp P Q xs f h)

All-any : (ks : List Text) → All (λ k. any (λ j. text_eq j k) ks ≡ true) ks
All-any [] = tt
All-any (k ∷ ks) = (
  rw (text_eq_refl k) refl,
  All-imp (λ i. any (λ j. text_eq j i) ks ≡ true) (λ i. any (λ j. text_eq j i) (k ∷ ks) ≡ true) ks
      (λ i h. ground arith) (All-any ks),
)

All-insert_text :
    (P : Text → Type 0) (s : Text) (ts : List Text) → P s → All P ts → All P (insert_text s ts)
unfolding insert_text
All-insert_text P s [] p h = (p, tt)
All-insert_text P s (t ∷ ts) p (q, h) = elim (Bool-cases (text_eq s t)) [
  | inl e ↦ rw e (q, h)
  | inr e ↦ elim (Bool-cases (text_le s t)) [
    | inl l ↦ rw (e, l) (p, (q, h))
    | inr l ↦ rw (e, l) (q, All-insert_text P s ts p h)
  ]
]

pub All-sorted_set : (P : Text → Type 0) (ts : List Text) → All P ts → All P (sorted_set ts)
unfolding sorted_set
All-sorted_set P [] h = tt
All-sorted_set P (t ∷ ts) (p, h) = All-insert_text P t (sorted_set ts) p (All-sorted_set P ts h)

agent_ids-HasEntry : (s : RegistryCache) → All (HasEntry s) (agent_ids s)
unfolding agent_ids
agent_ids-HasEntry s = All-sorted_set (HasEntry s) (keys s.presence ++ keys s.registry) (
    All-append (HasEntry s) (keys s.presence) (keys s.registry)
      (All-imp (λ a. has_entry a s.presence ≡ true) (HasEntry s) (keys s.presence)
        (λ a h. ground arith) (All-any (keys s.presence)))
      (All-imp (λ a. has_entry a s.registry ≡ true) (HasEntry s) (keys s.registry)
        (λ a h. ground arith) (All-any (keys s.registry))))

state_fields :
    (a : Text) (e : Evidence) (r : Option RegistryRecord) (p : Option PresenceRecord)
    → ((state_of a e r p).agent_id ≡ a) × ((state_of a e r p).online_now ≡ is_seen_online e)
state_fields a e none p = (refl, refl)
state_fields a e (some r) p = (refl, refl)

get_state_ok :
    (a : Text) (now : DateTime) (s : RegistryCache) (e : Evidence)
    → HasEntry s a
    → cache_evidence a now s ≡ ok e
    → get_state a now s ≡ ok (state_of a e (lookup a s.registry) (lookup a s.presence))
unfolding get_state
get_state_ok a now s e h k =
    let present : (not (has_entry a s.registry) && not (has_entry a s.presence)) ≡ false =
      ground arith in
    rw (present, k) refl

abbrev names : List AgentState → List Text
names = map (λ (st : AgentState). st.agent_id)

abbrev onlines : List AgentState → List AgentState
onlines = filter_states (λ st. st.online_now)

agree :
    (now : DateTime) (s : RegistryCache) (ids : List Text)
    → IsSound s
    → is_aware now ≡ true
    → All (HasEntry s) ids
    → (states : List AgentState) × (get_states now s ids ≡ ok states)
      × (names states ≡ ids)
      × (filter_online now s ids ≡ ok (names (onlines states)))
unfolding get_states filter_online filter_states is_online
agree now s [] i n h = ([], refl, refl, refl)
agree now s (a ∷ ids) i n (p, h) =
    let (e, k) = cache_evidence_ok a now s i n in
    let (states, g, l, f) = agree now s ids i n h in
    let st : AgentState = state_of a e (lookup a s.registry) (lookup a s.presence) in
    let (named, seen) = state_fields a e (lookup a s.registry) (lookup a s.presence) in
    (
      st ∷ states,
      rw (get_state_ok a now s e p k, g) refl,
      rw (named, l) refl,
      elim (Bool-cases (is_seen_online e)) [
        | inl b ↦ rw (k, f, seen, b, named) refl
        | inr b ↦ rw (k, f, seen, b) refl
      ],
    )

filter_states_all : (xs : List AgentState) → filter_states (λ st. true) xs ≡ xs
unfolding filter_states
filter_states_all [] = refl
filter_states_all (x ∷ xs) = ap (λ (ys : List AgentState). x ∷ ys) (filter_states_all xs)

-- On a sound cache and with an aware clock reading both listings return a result: `list_states` without
-- the offline agents lists exactly the agents of `online_agent_ids`, in the same order, and with them every
-- agent that has a record.
pub list_states_lem :
    (now : DateTime) (s : RegistryCache)
    → IsSound s
    → is_aware now ≡ true
    → (all shown : List AgentState) × (list_states true none now s ≡ ok all)
      × (map (λ (st : AgentState). st.agent_id) all ≡ agent_ids s)
      × (list_states false none now s ≡ ok shown)
      × (online_agent_ids now s ≡ ok (map (λ (st : AgentState). st.agent_id) shown))
unfolding list_states online_agent_ids
list_states_lem now s i n =
    let (states, g, l, f) = agree now s (agent_ids s) i n (agent_ids-HasEntry s) in
    (
      states,
      onlines states,
      rw (g, filter_states_all states, filter_states_all states) refl,
      l,
      rw (g, filter_states_all states) refl,
      f,
    )
