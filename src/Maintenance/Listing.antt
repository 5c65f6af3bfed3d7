-- ===== src/Maintenance/Listing.antt =====
-- `list_registry` of src/swarmbus/maintenance.py. Identities are sorted by agent id.
use swarmbus.Base.{
  ℕ, ◌≡◌, refl, sym, ap, ◌∙◌, inl, inr, ◌⊎◌, Bool, true, false, not, List, [], ◌∷◌, length, map,
  Text, text_le, Option, none, some, All, Bool-cases,
}
use swarmbus.Base.Int.{ℤ, pos, sub_ℕ, leb_ℤ}
use swarmbus.Base.Sort.{insert_by, order_by}
use swarmbus.Base.Result.{Result, ok, err, value_error, mqtt_error, ◌>>=◌, ◌>>◌, raise_if}
use swarmbus.Message.Json.{DateTime, Codec}
use swarmbus.Topics.{TopicMap}
use swarmbus.Registry.Records.{RegistryRecord, is_aware}
use swarmbus.Registry.Presence.{PresenceRecord, State, aware_if_set}
use swarmbus.Registry.Decide.{
  Evidence, seen_online, seen_offline, unconfirmed, presence_evidence, elapsed,
}
use swarmbus.Registry.Collect.{says_offline, Weighed, evidence-Weighed, elapsed_aware}
use swarmbus.Registry.Cache.{lookup}
use swarmbus.Registry.Reachable.{IsRegistryEntry}
use swarmbus.Maintenance.Snapshot.{
  Delivery, Snapshot, snapshot, or_lost, snapshot-IsSnapshot, IsPresenceSeen,
}
use swarmbus.Maintenance.Gc.Turns.{lookup-All}
use swarmbus.Maintenance.Forget.{observed_online}
use swarmbus.Maintenance.Orphans.{found}
use swarmbus.Maintenance.Collect.{orphans_of}
use swarmbus.Maintenance.Collect.Report.{orphans_of-HasPresence}

-- No state stands for "unknown".
pub record ListEntry : Type 0 where
  pub entry : RegistryRecord
  pub presence_state : Option State
  pub evidence : Evidence
  pub online : Option Bool
  pub offline_reason : Option Text

pub record OrphanEntry : Type 0 where
  pub agent_id : Text
  pub presence_state : State
  pub first_seen_offline : Option DateTime
  pub offline_age : Option ℤ

pub record ListReport : Type 0 where
  pub scanned : ℕ
  pub orphan_presence : ℕ
  pub malformed : ℕ
  pub identities : List ListEntry
  pub orphans : List OrphanEntry
  pub orphan_presence_agent_ids : List Text

abbrev pub state_seen : Option PresenceRecord → Option State
state_seen none = none
state_seen (some p) = some p.state

abbrev reason_seen : Option PresenceRecord → Option Text
reason_seen none = none
reason_seen (some p) = p.reason

abbrev orphan_age : DateTime → Option DateTime → Result (Option ℤ)
orphan_age now none = ok none
orphan_age now (some at) = do age ← elapsed now at; ok (some age)

unfoldable pub join_entries :
    DateTime
    → ℤ
    → List (Text × PresenceRecord)
    → List (Text × RegistryRecord)
    → Result (List ListEntry)
join_entries now stale_after d [] = ok []
join_entries now stale_after d ((id, r) ∷ rs) = do
  e ← presence_evidence (some r) (lookup id d) now stale_after
  rest ← join_entries now stale_after d rs
  ok (
      record {
        entry = r;
        presence_state = state_seen (lookup id d);
        evidence = e;
        online = observed_online e;
        offline_reason = reason_seen (lookup id d);
      }
      ∷ rest)

unfoldable pub orphan_entries :
    DateTime → List (Text × PresenceRecord) → List Text → Result (List OrphanEntry)
orphan_entries now d [] = ok []
orphan_entries now d (id ∷ ids) = do
  p ← found (lookup id d)
  age ← orphan_age now p.first_seen_offline
  rest ← orphan_entries now d ids
  ok (
      record {
        agent_id = id;
        presence_state = p.state;
        first_seen_offline = p.first_seen_offline;
        offline_age = age;
      }
      ∷ rest)

abbrev by_agent_id : ListEntry → ListEntry → Bool
by_agent_id a b = text_le a.entry.agent_id b.entry.agent_id

abbrev list_report : Snapshot → List ListEntry → List OrphanEntry → ListReport
list_report s identities orphans = record {
  scanned = length s.records;
  orphan_presence = length (orphans_of s);
  malformed = s.invalid_messages;
  identities = order_by by_agent_id identities;
  orphans = orphans;
  orphan_presence_agent_ids = orphans_of s;
}

unfoldable pub list_registry :
    Codec → TopicMap → DateTime → ℤ → Option (List Delivery) → Result ListReport
list_registry c t now stale_after first = do
  raise_if (leb_ℤ stale_after (pos 0)) value_error
  raise_if (not (is_aware now)) value_error
  deliveries ← or_lost first
  let s = snapshot c t deliveries
  identities ← join_entries now stale_after s.presence s.records
  orphans ← orphan_entries now s.presence (orphans_of s)
  ok (list_report s identities orphans)

module _ {A : Type 0} (P : A → Type 0) (before : A → A → Bool) where
  All-insert_by : (x : A) (xs : List A) → P x → All P xs → All P (insert_by before x xs)
  unfolding insert_by
  All-insert_by x [] p h = (p, tt)
  All-insert_by x (y ∷ ys) p (q, h) = elim (Bool-cases (before x y)) [
    | inl e ↦ rw e (p, (q, h))
    | inr e ↦ rw e (q, All-insert_by x ys p h)
  ]

  All-order_by : (xs : List A) → All P xs → All P (order_by before xs)
  unfolding order_by
  All-order_by [] h = tt
  All-order_by (x ∷ xs) (p, h) = All-insert_by x (order_by before xs) p (All-order_by xs h)

abbrev pub says_no : Option Bool → Bool
says_no none = false
says_no (some b) = not b

-- Sorting entries by the agent id of their records sorts the records.
abbrev pub by_id : RegistryRecord → RegistryRecord → Bool
by_id r q = text_le r.agent_id q.agent_id

abbrev pub record_of : ListEntry → RegistryRecord
record_of e = e.entry

map-insert_by :
    (x : ListEntry) (xs : List ListEntry)
    → map record_of (insert_by by_agent_id x xs) ≡ insert_by by_id x.entry (map record_of xs)
unfolding insert_by
map-insert_by x [] = refl
map-insert_by x (y ∷ ys) = elim (Bool-cases (by_agent_id x y)) [
  | inl e ↦ rw e refl
  | inr e ↦ rw e (ap (λ (l : List RegistryRecord). y.entry ∷ l) (map-insert_by x ys))
]

map-order_by :
    (xs : List ListEntry)
    → map record_of (order_by by_agent_id xs) ≡ order_by by_id (map record_of xs)
unfolding order_by
map-order_by [] = refl
map-order_by (x ∷ xs) =
    map-insert_by x (order_by by_agent_id xs) ∙ ap (insert_by by_id x.entry) (map-order_by xs)

-- An entry that shows the presence state of its agent, and is not online exactly when the presence record says
-- offline.
abbrev pub IsJoined : List (Text × PresenceRecord) → ListEntry → Type 0
IsJoined d e =
    (says_no e.online ≡ says_offline (lookup e.entry.agent_id d))
    × (e.presence_state ≡ state_seen (lookup e.entry.agent_id d))

joined :
    (now : DateTime) (stale_after : ℤ) (d : List (Text × PresenceRecord))
    (rs : List (Text × RegistryRecord))
    → leb_ℤ stale_after (pos 0) ≡ false
    → is_aware now ≡ true
    → All IsRegistryEntry rs
    → (es : List ListEntry) × (join_entries now stale_after d rs ≡ ok es)
      × (map record_of es ≡ map (λ (r : Text × RegistryRecord). r.1) rs)
      × All (IsJoined d) es
unfolding join_entries
joined now stale_after d [] h k a = ([], refl, refl, tt)
joined now stale_after d ((id, r) ∷ rs) h k ((own, aware), a) =
    let (es, e, n, q) = joined now stale_after d rs h k a in
    weighed es e n q (presence_evidence (some r) (lookup id d) now stale_after)
      (evidence-Weighed r (lookup id d) now stale_after h k aware)
  where
    row : Evidence → ListEntry
    row e = record {
      entry = r;
      presence_state = state_seen (lookup id d);
      evidence = e;
      online = observed_online e;
      offline_reason = reason_seen (lookup id d);
    }

    says : (e : Evidence) → Weighed (ok e) (lookup id d) → IsJoined d (row e)
    says seen_online w = rw own (sym w, refl)
    says seen_offline w = rw own (sym w, refl)
    says unconfirmed w = rw own (sym w, refl)

    weighed :
        (es : List ListEntry)
        → join_entries now stale_after d rs ≡ ok es
        → map record_of es ≡ map (λ (r : Text × RegistryRecord). r.1) rs
        → All (IsJoined d) es
        → (m : Result Evidence) → Weighed m (lookup id d)
        → (out : List ListEntry) × ((m >>= λ e.
              join_entries now stale_after d rs >>= λ rest. ok (row e ∷ rest))
            ≡ ok out)
          × (map record_of out ≡ r ∷ map (λ (r : Text × RegistryRecord). r.1) rs)
          × All (IsJoined d) out
    weighed es e n q (err x) w = absurd w
    weighed es e n q (ok v) w =
        (row v ∷ es, simp e refl, ap (λ (l : List RegistryRecord). r ∷ l) n, (says v w, q))

orphans_listed :
    (now : DateTime) (d : List (Text × PresenceRecord)) (ids : List Text)
    → is_aware now ≡ true
    → All IsPresenceSeen d
    → All (λ id. (p : PresenceRecord) × (lookup id d ≡ some p)) ids
    → (os : List OrphanEntry) × (orphan_entries now d ids ≡ ok os)
      × (map (λ (o : OrphanEntry). o.agent_id) os ≡ ids)
unfolding orphan_entries
orphans_listed now d [] k seen h = ([], refl, refl)
orphans_listed now d (id ∷ ids) k seen ((p, e), h) =
    let (os, e2, n) = orphans_listed now d ids k seen h in
    let (age, e3) = aged p.first_seen_offline (lookup-All IsPresenceSeen id d seen e).1 in
    (
      record {
        agent_id = id;
        presence_state = p.state;
        first_seen_offline = p.first_seen_offline;
        offline_age = age;
      }
          ∷ os,
      simp (e, e2, e3) refl,
      ap (λ (l : List Text). id ∷ l) n,
    )
  where
    aged :
        (o : Option DateTime)
        → aware_if_set o ≡ true
        → (age : Option ℤ) × (orphan_age now o ≡ ok age)
    aged none a = (none, refl)
    aged (some at) a = (some (sub_ℕ now.instant at.instant), rw (elapsed_aware now at k a) refl)

-- For a positive staleness limit and an aware clock reading, `list_registry` raises MqttError when its snapshot fails, and
-- otherwise returns a report: its identities are the records that were scanned, in the order of their agent ids, each with
-- the presence state of its agent, and as not online exactly when the presence record of its agent says
-- offline; and its orphans are the agents with a presence and no record, in the order of their ids.
pub list_registry-IsJoined :
    (c : Codec) (t : TopicMap) (now : DateTime) (stale_after : ℤ) (first : Option (List Delivery))
    → leb_ℤ stale_after (pos 0) ≡ false
    → is_aware now ≡ true
    → ((first ≡ none) × (list_registry c t now stale_after first ≡ err mqtt_error))
      ⊎ ((deliveries : List Delivery) × (first ≡ some deliveries)
          × (out : ListReport) × (list_registry c t now stale_after first ≡ ok out)
          × (out.scanned ≡ length (snapshot c t deliveries).records)
          × (map record_of out.identities
              ≡ order_by by_id
                  (map (λ (r : Text × RegistryRecord). r.1) (snapshot c t deliveries).records))
          × All (IsJoined (snapshot c t deliveries).presence) out.identities
          × (map (λ (o : OrphanEntry). o.agent_id) out.orphans
              ≡ orphans_of (snapshot c t deliveries)))
unfolding list_registry
list_registry-IsJoined c t now stale_after none h k = inl (refl, simp (h, k) refl)
list_registry-IsJoined c t now stale_after (some deliveries) h k =
    let s = snapshot c t deliveries in
    let i = snapshot-IsSnapshot c t deliveries in
    let (es, e, n, q) = joined now stale_after s.presence s.records h k i.registry_keys in
    let (os, e2, m) =
      orphans_listed now s.presence (orphans_of s) k i.presence_keys (orphans_of-HasPresence s) in
    inr (
      deliveries,
      refl,
      list_report s es os,
      simp (h, k, e, e2) refl,
      refl,
      map-order_by es ∙ ap (order_by by_id) n,
      All-order_by (IsJoined s.presence) by_agent_id es q,
      m,
    )
