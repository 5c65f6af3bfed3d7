-- ===== src/Maintenance/Forget/Outcome.antt =====
-- That `forget` returns, and what the report of a call says of the messages that it published.
use swarmbus.Base.{
  ◌≡◌, refl, ◌⊎◌, inl, inr, Bool, true, false, not, ◌&&◌, List, [], ◌∷◌, length, Text, none, some,
  if◌then◌else◌, Bool-cases, Option-cases, ◌==◌,
}
use swarmbus.Base.Int.{ℤ, pos, leb_ℤ}
use swarmbus.Base.Result.{ok}
use swarmbus.Message.Json.{DateTime, Codec}
use swarmbus.Message.AgentId.{validate_registered_agent_id}
use swarmbus.Topics.{TopicMap, registry, presence}
use swarmbus.Registry.Records.{is_aware}
use swarmbus.Registry.Decide.{Evidence, presence_evidence}
use swarmbus.Registry.Collect.{evidence-Weighed}
use swarmbus.Registry.Cache.{lookup}
use swarmbus.Registry.Listing.{ok_of_Weighed, unaged}
use swarmbus.Registry.Reachable.{IsRegistryEntry}
use swarmbus.Maintenance.Snapshot.{Delivery, snapshot, snapshot-IsSnapshot}
use swarmbus.Maintenance.Gc.{Turn, Tombstone, publish_tombstones, is_offline}
use swarmbus.Maintenance.Gc.Turns.{lookup-All}
use swarmbus.Maintenance.Forget.{
  ForgetReport, Forgetting, is_absent, report_of, record_outcome, retire, act, recheck, forget,
  refuse, refusal,
}

-- The deletions of an agent's retained messages on its own session, in order.
abbrev pub both : TopicMap → Text → List Tombstone
both t id =
    record { topic = presence t id; session = true }
    ∷ record { topic = registry t id; session = true }
    ∷ []

-- A report that says what was published.
abbrev pub Told : TopicMap → Text → ForgetReport × List Tombstone → Type 0
Told t id (r, sent) =
    ((r.deleted ≡ true) × (r.failed ≡ false) × (r.refused ≡ none) × (sent ≡ both t id))
    ⊎ ((r.deleted ≡ false)
        × (r.failed ≡ true)
        × (r.refused ≡ none)
        × (r.partial ≡ (length sent == 2)))
    ⊎ ((r.deleted ≡ false) × (r.failed ≡ false) × (sent ≡ []))

-- A report before anything is done.
abbrev Fresh : ForgetReport → Type 0
Fresh r = (r.deleted ≡ false) × (r.failed ≡ false) × (r.refused ≡ none) × (r.partial ≡ false)

if-Told :
    (t : TopicMap) (id : Text) (b : Bool) (x y : ForgetReport × List Tombstone)
    → Told t id x
    → Told t id y
    → Told t id (if b then x else y)
if-Told t id true x y h k = h
if-Told t id false x y h k = k

module _ (c : Codec) (t : TopicMap) (now : DateTime) where
  published-Told :
      (id : Text) (turn : Turn) (r : ForgetReport)
      → Fresh r
      → Told t id (
        record_outcome c t now r (publish_tombstones t id true turn).1,
        (publish_tombstones t id true turn).0,
      )
  unfolding publish_tombstones
  published-Told id turn r (d, f, n, p) = elim (Bool-cases turn.agent_connects) [
    | inr e ↦ simp e (inr (inl (d, refl, n, refl)))
    | inl e ↦ elim (Bool-cases turn.presence_published) [
      | inr g ↦ simp (e, g) (inr (inl (d, refl, n, refl)))
      | inl g ↦ elim (Bool-cases turn.registry_published) [
        | inr h ↦ simp (e, g, h) (inr (inl (d, refl, n, refl)))
        | inl h ↦ elim (Bool-cases turn.agent_closes) [
          | inr k ↦ simp (e, g, h, k) (inr (inl (d, refl, n, refl)))
          | inl k ↦ simp (e, g, h, k) (inl (refl, f, n, refl))
        ]
      ]
    ]
  ]

  retire-Told :
      (id : Text) (turn : Turn) (r : ForgetReport) → Fresh r → Told t id (retire c t now id turn r)
  unfolding retire
  retire-Told id turn r (d, f, n, p) =
      if-Told t id (not turn.audits) _ _ (inr (inl (d, refl, n, p)))
        (published-Told id turn r (d, f, n, p))

  act-Told :
      (f : Forgetting) (absent gone : Bool) (e : Evidence) (turn : Turn) (r : ForgetReport)
      → Fresh r
      → Told t f.agent_id (act c t now f absent gone e turn r)
  unfolding act
  act-Told f absent gone e turn r (d, b, n, p) =
      if-Told t f.agent_id gone _ _ (inr (inr (d, b, refl))) (
        if-Told t f.agent_id (not f.force_online && absent) _ _ (inr (inr (d, b, refl))) (
          if-Told t f.agent_id (not f.force_online && not (is_offline e)) _ _
            (inr (inr (d, b, refl)))
            (if-Told t f.agent_id f.dry_run _ _ (inr (inr (d, b, refl)))
              (retire-Told f.agent_id turn r (d, b, n, p)))))

  weighed :
      (id : Text) (ds : List Delivery) (stale_after : ℤ)
      → leb_ℤ stale_after (pos 0) ≡ false
      → is_aware now ≡ true
      → (e : Evidence) × (presence_evidence
            (lookup id (snapshot c t ds).records)
            (lookup id (snapshot c t ds).presence)
            now
            stale_after
          ≡ ok e)
  weighed id ds stale_after h k = elim (Option-cases (lookup id (snapshot c t ds).records)) [
    | inl e ↦ simp e (unaged (lookup id (snapshot c t ds).presence) now stale_after h k)
    | inr (r, e) ↦
        let entry : IsRegistryEntry (id, r) =
          lookup-All IsRegistryEntry id _ (snapshot-IsSnapshot c t ds).registry_keys e in
        simp e (
          ok_of_Weighed _ (lookup id (snapshot c t ds).presence)
            (evidence-Weighed r (lookup id (snapshot c t ds).presence) now stale_after h k entry.1))
  ]

  recheck-Told :
      (f : Forgetting) (absent : Bool) (turn : Turn)
      → leb_ℤ f.stale_after (pos 0) ≡ false
      → is_aware now ≡ true
      → turn.connects ≡ true
      → turn.closes ≡ true
      → (out : ForgetReport × List Tombstone) × (recheck c t now f absent turn ≡ ok out)
        × Told t f.agent_id out
  unfolding recheck
  recheck-Told f absent turn h k p q =
      let (e, w) = weighed f.agent_id turn.deliveries f.stale_after h k in
      let gone = absent && is_absent f.agent_id (snapshot c t turn.deliveries) in
      let r = report_of f (lookup f.agent_id (snapshot c t turn.deliveries).records) e true gone in
      (
        act c t now f absent gone e turn r,
        simp (p, q, w) refl,
        act-Told f absent gone e turn r (refl, refl, refl, refl),
      )

  -- For an agent id that may be registered, a positive staleness limit, an aware clock reading and two
  -- snapshots that are read, `forget` returns a report, whatever else fails, and the report is one of three:
  -- deleted, with the presence and then the registry message deleted on the agent's own session;
  -- failed, and partial exactly when both deletions were sent; or neither, and nothing was
  -- published. A refusal is not deleted and not failed.
  pub forget-Told :
      (f : Forgetting) (first : List Delivery) (turn : Turn)
      → validate_registered_agent_id f.agent_id ≡ ok f.agent_id
      → leb_ℤ f.stale_after (pos 0) ≡ false
      → is_aware now ≡ true
      → turn.connects ≡ true
      → turn.closes ≡ true
      → (out : ForgetReport × List Tombstone) × (forget c t now f (some first) turn ≡ ok out)
        × Told t f.agent_id out
  unfolding forget
  forget-Told f first turn v h k p q =
      let (e, w) = weighed f.agent_id first f.stale_after h k in
      let absent = is_absent f.agent_id (snapshot c t first) in
      elim (Bool-cases (not f.force_online && not absent && not (is_offline e))) [
        | inl b ↦ (
          (
            refuse (report_of f (lookup f.agent_id (snapshot c t first).records) e false false)
                (refusal e),
            [],
          ),
          simp (v, h, k, w, b) refl,
          inr (inr (refl, refl, refl)),
        )
        | inr b ↦
            let (out, done, told) = recheck-Told f absent turn h k p q in
            (out, simp (v, h, k, w, b) done, told)
      ]
