-- ===== src/Bus/Agents.antt =====
-- `list_agents` of src/swarmbus/bus.py, on the presence messages that come in during the window. `zero` says which
-- float literals are falsy.
use swarmbus.Base.{
  ◌≡◌, refl, sym, ◌∙◌, ap, Bool, true, false, not, ◌||◌, List, [], ◌∷◌, ◌++◌, Text, text_eq,
  text_le, text_eq_refl, text_eq→≡, codes, Option, none, some, any, if◌then◌else◌, arith,
  Bool-cases, inl, inr, any-append, ◌==◌,
}
use swarmbus.Base.Int.{pos, negsuc}
use swarmbus.Base.Result.{Result, ok, err}
use swarmbus.Base.Table.{delete_rows, select_rows}
use swarmbus.Message.Json.{
  Json, null, bool, int, real, str, arr, obj, nil, cons, Fields, end, field, Codec, get,
}
use swarmbus.Topics.{TopicMap, presence_agent}
use swarmbus.Registry.Cache.{insert_text, sorted_set}
use swarmbus.Maintenance.Snapshot.{Delivery}

-- `bool(value)`
abbrev pub truthy : (Text → Bool) → Json → Bool
truthy zero null = false
truthy zero (bool b) = b
truthy zero (int (pos n)) = not (n == 0)
truthy zero (int (negsuc n)) = true
truthy zero (real r) = not (zero r)
truthy zero (str []) = false
truthy zero (str (c ∷ s)) = true
truthy zero (arr nil) = false
truthy zero (arr (cons j js)) = true
truthy zero (obj end) = false
truthy zero (obj (field k j fs)) = true

-- `payload.get(first) or payload.get(second)`
abbrev get_or : (Text → Bool) → Option Json → Option Json → Option Json
get_or zero none b = b
get_or zero (some j) b = if truthy zero j then some j else b

abbrev pub is_online_text : Option Json → Bool
is_online_text (some (str s)) = text_eq s (codes "online")
is_online_text _ = false

abbrev add_name : Text → List Text → List Text
add_name name names = if any (λ n. text_eq n name) names then names else names ++ name ∷ []

abbrev discard_name : Text → List Text → List Text
discard_name name names = delete_rows (λ n. text_eq n name) names

module _ (zero : Text → Bool) (c : Codec) (t : TopicMap) where
  abbrev says_online : Fields → Bool
  says_online fs = is_online_text (get_or zero (get (codes "state") fs) (get (codes "status") fs))

  abbrev named_reading : Result Text → Fields → Option (Text × Bool)
  named_reading (ok name) fs = some (name, says_online fs)
  named_reading (err e) fs = none

  -- What a message says of whom, if it is a JSON object on a presence topic.
  abbrev of_payload : Text → Option Json → Option (Text × Bool)
  of_payload topic (some (obj fs)) = named_reading (presence_agent t topic) fs
  of_payload topic _ = none

  unfoldable pub reading : Delivery → Option (Text × Bool)
  reading d = of_payload d.topic (c.loads d.payload)

  abbrev mark : Option (Text × Bool) → List Text → List Text
  mark none names = names
  mark (some (name, true)) names = add_name name names
  mark (some (name, false)) names = discard_name name names

  unfoldable pub collect_online : List Text → List Delivery → List Text
  collect_online names [] = names
  collect_online names (d ∷ ds) = collect_online (mark (reading d) names) ds

  unfoldable pub list_agents : List Delivery → List Text
  list_agents ds = sorted_set (collect_online [] ds)

  -- The agent is named by a message, and how.
  abbrev names_it : Text → Option (Text × Bool) → Option Bool
  names_it name none = none
  names_it name (some (n, b)) = if text_eq n name then some b else none

  abbrev or_else : Option Bool → Option Bool → Option Bool
  or_else none b = b
  or_else (some x) b = some x

  -- The state in the last message that names the agent.
  unfoldable pub latest : Text → List Delivery → Option Bool
  latest name [] = none
  latest name (d ∷ ds) = or_else (latest name ds) (names_it name (reading d))

  abbrev pub says_yes : Option Bool → Bool
  says_yes none = false
  says_yes (some b) = b

has_name : Text → List Text → Bool
has_name name names = any (λ n. text_eq n name) names

eq_sym : (s u : Text) → text_eq s u ≡ text_eq u s
eq_sym s u = elim (Bool-cases (text_eq s u)) [
  | inl e ↦ rw (text_eq→≡ s u e) refl
  | inr e ↦ elim (Bool-cases (text_eq u s)) [
    | inl k ↦ rw (text_eq→≡ u s k) refl
    | inr k ↦ e ∙ sym k
  ]
]

discard_other :
    (name other : Text) (names : List Text)
    → text_eq other name ≡ false
    → has_name name (discard_name other names) ≡ has_name name names
unfolding has_name select_rows
discard_other name other [] h = refl
discard_other name other (n ∷ ns) h = elim (Bool-cases (text_eq n other)) [
  | inl e ↦ rw (text_eq→≡ n other e, text_eq_refl other, h) (discard_other name other ns h)
  | inr e ↦ rw e (ap (λ (b : Bool). text_eq n name || b) (discard_other name other ns h))
]

discard_self : (name : Text) (names : List Text) → has_name name (discard_name name names) ≡ false
unfolding has_name select_rows
discard_self name [] = refl
discard_self name (n ∷ ns) = elim (Bool-cases (text_eq n name)) [
  | inl e ↦ rw e (discard_self name ns)
  | inr e ↦ rw (e, e) (discard_self name ns)
]

has-insert_text :
    (name s : Text) (ts : List Text)
    → has_name name (insert_text s ts) ≡ (text_eq s name || has_name name ts)
unfolding has_name insert_text
has-insert_text name s [] = refl
has-insert_text name s (u ∷ ts) = elim (Bool-cases (text_eq s u)) [
  | inl e ↦ rw (e, text_eq→≡ s u e) (ground arith)
  | inr e ↦ elim (Bool-cases (text_le s u)) [
    | inl l ↦ rw (e, l) refl
    | inr l ↦ rw (e, l) (ground (arith, has-insert_text name s ts))
  ]
]

has-sorted_set : (name : Text) (ts : List Text) → has_name name (sorted_set ts) ≡ has_name name ts
unfolding has_name sorted_set
has-sorted_set name [] = refl
has-sorted_set name (u ∷ ts) =
    has-insert_text name u (sorted_set ts)
    ∙ ap (λ (b : Bool). text_eq u name || b) (has-sorted_set name ts)

module _ (zero : Text → Bool) (c : Codec) (t : TopicMap) where
  has-mark :
      (name : Text) (r : Option (Text × Bool)) (names : List Text)
      → has_name name (mark zero c t r names)
        ≡ says_yes zero c t
            (or_else zero c t (names_it zero c t name r) (some (has_name name names)))
  unfolding has_name
  has-mark name none names = refl
  has-mark name (some (n, true)) names = elim (Bool-cases (has_name n names)) [
    | inl e ↦ elim (Bool-cases (text_eq n name)) [
      | inl k ↦ simp (e, k) (ap (λ x. has_name x names) (sym (text_eq→≡ n name k)) ∙ e)
      | inr k ↦ simp (e, k) refl
    ]
    | inr e ↦ elim (Bool-cases (text_eq n name)) [
      | inl k ↦ simp (e, k, any-append (λ x. text_eq x name) names (n ∷ [])) (ground arith)
      | inr k ↦ simp (e, k, any-append (λ x. text_eq x name) names (n ∷ [])) (ground arith)
    ]
  ]
  has-mark name (some (n, false)) names = elim (Bool-cases (text_eq n name)) [
    | inl k ↦ simp k (
        ap (λ x. has_name name (discard_name x names)) (text_eq→≡ n name k)
        ∙ discard_self name names)
    | inr k ↦ simp k (discard_other name n names k)
  ]

  has-collect_online :
      (name : Text) (ds : List Delivery) (names : List Text)
      → has_name name (collect_online zero c t names ds)
        ≡ says_yes zero c t
            (or_else zero c t (latest zero c t name ds) (some (has_name name names)))
  unfolding collect_online latest
  has-collect_online name [] names = refl
  has-collect_online name (d ∷ ds) names =
      has-collect_online name ds (mark zero c t (reading zero c t d) names)
      ∙ joined (latest zero c t name ds)
    where
      joined :
          (o : Option Bool)
          → says_yes zero c t
              (or_else zero c t o (some (has_name name (mark zero c t (reading zero c t d) names))))
            ≡ says_yes zero c t (
                or_else zero c t
                  (or_else zero c t o (names_it zero c t name (reading zero c t d)))
                  (some (has_name name names)))
      joined (some b) = refl
      joined none = has-mark name (reading zero c t d) names

  -- `list_agents` lists an agent exactly when the last message, among those that came in, that is a JSON object
  -- on the agent's presence topic says online.
  pub list_agents_lem :
      (name : Text) (ds : List Delivery)
      → any (λ n. text_eq n name) (list_agents zero c t ds)
        ≡ says_yes zero c t (latest zero c t name ds)
  unfolding list_agents has_name
  list_agents_lem name ds =
      has-sorted_set name (collect_online zero c t [] ds)
      ∙ has-collect_online name ds []
      ∙ last (latest zero c t name ds)
    where
      last :
          (o : Option Bool)
          → says_yes zero c t (or_else zero c t o (some false)) ≡ says_yes zero c t o
      last none = refl
      last (some b) = refl
