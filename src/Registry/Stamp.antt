-- ===== src/Registry/Stamp.antt =====
-- What the first-seen-offline stamp does to a presence payload.
use Prim.Native.String.{String}
use swarmbus.Base.{
  ◌≡◌, refl, sym, subst, true, false, not, ◌&&◌, Text, codes, text_eq, text_eq_refl, text_eq→≡,
  Option, some, if◌then◌else◌, arith, Bool-cases, inl, inr,
}
use swarmbus.Base.Result.{
  Result, ok, value_error, ◌>>=◌, ◌>>◌, raise_if, raise_if-eq-ok, bind_cases,
}
use swarmbus.Message.Json.{Json, str, obj, Fields, end, field, DateTime, Codec, get}
use swarmbus.Message.Envelope.{or_raise}
use swarmbus.Topics.{TopicMap, presence_agent}
use swarmbus.Registry.Records.{is_aware, want_schema, want_agent_id}
use swarmbus.Registry.Presence.{
  PresenceRecord, State, want_state, want_datetime, want_reason, aware_if_set, validate_presence,
  has_key, carried_over, translate, presence_from_mqtt, set_field, stamp_presence_payload,
}

unequal : (i j k : Text) → text_eq i k ≡ true → text_eq k j ≡ false → text_eq i j ≡ false
unequal i j k h n = subst (λ t. text_eq t j ≡ false) (sym (text_eq→≡ i k h)) n

get-set_field_other :
    (j k : Text) (v : Json) (fs : Fields)
    → text_eq k j ≡ false
    → get j (set_field k v fs) ≡ get j fs
unfolding get set_field
get-set_field_other j k v end n = rw n refl
get-set_field_other j k v (field i w fs) n = elim (Bool-cases (text_eq i k)) [
  | inl e ↦ rw (e, unequal i j k e n) refl
  | inr e ↦ rw (e, get-set_field_other j k v fs n) refl
]

get-set_field : (k : Text) (v : Json) (fs : Fields) → get k (set_field k v fs) ≡ some v
unfolding get set_field
get-set_field k v end = rw (text_eq_refl k) refl
get-set_field k v (field i w fs) = elim (Bool-cases (text_eq i k)) [
  | inl e ↦ rw (e, e) refl
  | inr e ↦ rw (e, e) (get-set_field k v fs)
]

has_key-set_field :
    (j k : Text) (v : Json) (fs : Fields)
    → text_eq k j ≡ false
    → has_key j (set_field k v fs) ≡ has_key j fs
unfolding has_key set_field
has_key-set_field j k v end n = rw n refl
has_key-set_field j k v (field i w fs) n = elim (Bool-cases (text_eq i k)) [
  | inl e ↦ rw e refl
  | inr e ↦ rw (e, has_key-set_field j k v fs n) refl
]

abbrev stamp_key : Text
stamp_key = codes "first_seen_offline"

-- What `translate` makes of an object.
abbrev renamed : Fields → Fields
renamed fs =
    if not (has_key (codes "agent_id") fs) && has_key (codes "agent") fs
    then carried_over fs
    else fs

renamed-set_field_other :
    (v : Json) (fs : Fields)
    → (get (codes "schema_version") (renamed (set_field stamp_key v fs))
        ≡ get (codes "schema_version") (renamed fs))
      × (get (codes "agent_id") (renamed (set_field stamp_key v fs))
          ≡ get (codes "agent_id") (renamed fs))
      × (get (codes "state") (renamed (set_field stamp_key v fs))
          ≡ get (codes "state") (renamed fs))
      × (get (codes "connected_at") (renamed (set_field stamp_key v fs))
          ≡ get (codes "connected_at") (renamed fs))
      × (get (codes "reason") (renamed (set_field stamp_key v fs))
          ≡ get (codes "reason") (renamed fs))
      × (get stamp_key (renamed (set_field stamp_key v fs)) ≡ some v)
unfolding carried_over get text_eq
renamed-set_field_other v fs =
    rw
      (
        has_key-set_field (codes "agent_id") stamp_key v fs refl,
        has_key-set_field (codes "agent") stamp_key v fs refl,
      )
      (elim (Bool-cases (not (has_key (codes "agent_id") fs) && has_key (codes "agent") fs)) [
        | inl e ↦
            rw
              (
                e,
                other "agent" refl,
                other "status" refl,
                other "connected_at" refl,
                other "reason" refl,
                get-set_field stamp_key v fs,
              )
              (refl, refl, refl, refl, refl, refl)
        | inr e ↦ rw e (
          other "schema_version" refl,
          other "agent_id" refl,
          other "state" refl,
          other "connected_at" refl,
          other "reason" refl,
          get-set_field stamp_key v fs,
        )
      ])
  where
    other :
        (j : String)
        → text_eq stamp_key (codes j) ≡ false
        → get (codes j) (set_field stamp_key v fs) ≡ get (codes j) fs
    other j n = get-set_field_other (codes j) stamp_key v fs n

abbrev chain :
    Result (Unit {0})
    → Result Text
    → Result State
    → Result (Option DateTime)
    → Result (Option Text)
    → Result (Option DateTime)
    → Result PresenceRecord
chain schema agent state connected reason first = do
  schema
  agent_id ← agent
  state_ ← state
  connected_at ← connected
  reason_ ← reason
  first_seen_offline ← first
  raise_if (not (aware_if_set first_seen_offline)) value_error
  ok (record {
    agent_id = agent_id;
    state = state_;
    connected_at = connected_at;
    reason = reason_;
    first_seen_offline = first_seen_offline;
  })

-- The chain of `validate_presence`, with another last field.
restamp :
    (schema : Result (Unit {0})) (agent : Result Text) (state : Result State)
    (connected : Result (Option DateTime)) (reason : Result (Option Text))
    (old : Result (Option DateTime)) (new : DateTime)
    → is_aware new ≡ true
    → (r : PresenceRecord) → chain schema agent state connected reason old ≡ ok r
    → chain schema agent state connected reason (ok (some new))
      ≡ ok (record r { first_seen_offline = some new })
restamp schema agent state connected reason old new h r e = bind_cases schema _ e λ _ e1 h1.
    bind_cases agent _ h1 λ a e2 h2. bind_cases state _ h2 λ s e3 h3.
      bind_cases connected _ h3 λ k e4 h4. bind_cases reason _ h4 λ q e5 h5.
        bind_cases old _ h5 λ o e6 h6.
          let (_, same) = raise_if-eq-ok (not (aware_if_set o)) value_error _ h6 in
          rw (e1, e2, e3, e4, e5, h) (ground arith)

stamped_validates :
    (c : Codec) (at : DateTime) (fs : Fields) (r : PresenceRecord)
    → is_aware at ≡ true
    → c.parse_datetime (str (c.isoformat at)) ≡ some at
    → validate_presence c (obj (renamed fs)) ≡ ok r
    → validate_presence c (obj (renamed (set_field stamp_key (str (c.isoformat at)) fs)))
      ≡ ok (record r { first_seen_offline = some at })
unfolding validate_presence want_datetime or_raise
stamped_validates c at fs r h p e =
    let (e1, e2, e3, e4, e5, e6) = renamed-set_field_other (str (c.isoformat at)) fs in
    rw (e1, e2, e3, e4, e5, e6, p)
      (restamp (want_schema c (get (codes "schema_version") (renamed fs)))
        (want_agent_id (get (codes "agent_id") (renamed fs)))
        (want_state (get (codes "state") (renamed fs)))
        (want_datetime c (get (codes "connected_at") (renamed fs)))
        (want_reason (get (codes "reason") (renamed fs)))
        (want_datetime c (get stamp_key (renamed fs))) at h r e)

stamped_owned :
    (topic_agent : Text) (m m' : Result PresenceRecord) (at : DateTime) (r : PresenceRecord)
    → ((q : PresenceRecord) → m ≡ ok q → m' ≡ ok (record q { first_seen_offline = some at }))
    → (do q ← m; raise_if (not (text_eq q.agent_id topic_agent)) value_error; ok q) ≡ ok r
    → (do q ← m'; raise_if (not (text_eq q.agent_id topic_agent)) value_error; ok q)
      ≡ ok (record r { first_seen_offline = some at })
stamped_owned topic_agent m m' at r f e = bind_cases m _ e λ q e1 h.
    let (t, same) = raise_if-eq-ok (not (text_eq q.agent_id topic_agent)) value_error _ h in
    rw (f q e1, t) (ground arith)

-- If a presence payload on a topic is read as `r`, then the payload that `stamp_presence_payload` makes
-- of it with an aware time, read on the same topic, is `r` with that time as its first_seen_offline and
-- nothing else changed, whether it has the present keys or the older ones. The JSON module reads back
-- the stamped object it wrote, and the ISO text of the time is read as that time.
pub stamp_presence_payload_lem :
    (c : Codec) (topics : TopicMap) (topic payload stamped : Text) (fs : Fields) (at : DateTime)
    (r : PresenceRecord)
    → c.loads (c.dumps (obj (set_field stamp_key (str (c.isoformat at)) fs)))
      ≡ some (obj (set_field stamp_key (str (c.isoformat at)) fs))
    → c.parse_datetime (str (c.isoformat at)) ≡ some at
    → c.loads payload ≡ some (obj fs)
    → stamp_presence_payload c at payload ≡ ok stamped
    → presence_from_mqtt c topics topic payload ≡ ok r
    → presence_from_mqtt c topics topic stamped ≡ ok (record r { first_seen_offline = some at })
unfolding stamp_presence_payload presence_from_mqtt translate or_raise
stamp_presence_payload_lem c topics topic payload stamped fs at r rt dt l s e =
    let (a, s') = raise_if-eq-ok (not (is_aware at)) value_error _ s in
    let same : c.dumps (obj (set_field stamp_key (str (c.isoformat at)) fs)) ≡ stamped =
      ground (arith, rw l at s') in
    bind_cases (presence_agent topics topic) _ e λ topic_agent e1 h1.
      subst
        (λ raw.
          (do
            owner ← presence_agent topics topic
            loaded ← or_raise (c.loads raw)
            translated ← translate loaded
            q ← validate_presence c translated
            raise_if (not (text_eq q.agent_id owner)) value_error
            ok q)
          ≡ ok (record r { first_seen_offline = some at }))
        same
        (rw (e1, rt)
          (stamped_owned topic_agent (validate_presence c (obj (renamed fs))) _ at r
            (λ q. stamped_validates c at fs q (ground arith) dt) (rw l at h1)))
