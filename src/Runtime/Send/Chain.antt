-- ===== src/Runtime/Send/Chain.antt =====
-- A chain of answers counts its hops, and the hop limit ends it.
use swarmbus.Base.{
  ℕ, ◌+◌, ◌≤◌, ◌≡◌, sym, subst, ap, ◌∙◌, Bool, false, not, ◌∷◌, Text, codes, Option, none, some,
  arith,
}
use swarmbus.Base.Int.{pos}
use swarmbus.Base.Result.{ok, runtime_error, raise_if-eq-ok, bind_cases, ok-injective}
use swarmbus.Message.Json.{DateTime, Codec}
use swarmbus.Message.Envelope.{create}
use swarmbus.Archive.Rows.{Database, Limits}
use swarmbus.Archive.Reports.{Found, lookup_message}
use swarmbus.Archive.Statements.{is_held, is_tripped, find_admitted}
use swarmbus.Archive.Admit.{Arrival, Decision, admit_in, pruned, is_broadcast}
use swarmbus.Archive.Admit.HopLimit.{Trips, admit_in-Trips}
use swarmbus.Runtime.State.{Runtime}
use swarmbus.Runtime.Send.{
  SendArgs, Publish, send_message, create_chain, origin_text, reply_origin, chain_of, chain_after,
}

module _ (zero : Text → Bool) (c : Codec) where
  -- An answer to a message that the store knows has one hop more, names it, and keeps its origin.
  send_chain :
      (fresh : Text) (now : DateTime) (r : Runtime) (a : SendArgs) (x : ℕ) (id : Text) (p : Found)
      {out : Publish}
      → lookup_message c (x ∷ id) r.mailbox.store_.db ≡ ok (some p)
      → send_message zero c fresh now r (record a { in_reply_to = some (x ∷ id) }) ≡ ok out
      → (out.msg.hops ≡ p.hops + 1)
        × (out.msg.in_reply_to ≡ some (x ∷ id))
        × (o : Text) × (reply_origin zero c p ≡ ok o)
        × (out.msg.origin ≡ some o)
  unfolding send_message
  send_chain fresh now r a x id p {out} known h =
      let (_, h1) = raise_if-eq-ok (not r.has_client) runtime_error _ h in
      bind_cases (chain_of zero c r (some (x ∷ id))) _ h1 λ chain e h.
        bind_cases (lookup_message c (x ∷ id) r.mailbox.store_.db) _ e λ parent e1 e.
          let found : parent ≡ some p = ok-injective (sym e1 ∙ known) in
          bind_cases (reply_origin zero c p) _
            (subst (λ q. chain_after zero c q ≡ ok chain) found e)
            λ o e2 e3.
              bind_cases
                (create c fresh now r.agent_id a.to a.subject a.body a.content_type (codes "normal")
                  none (some (x ∷ id)) (pos chain.0) chain.1)
                _ h
                λ m made last.
                  let (n, i, k) =
                    create_chain c fresh now r.agent_id a.to a.subject a.body a.content_type
                      (codes "normal") none (some (x ∷ id)) chain.0 chain.1 made in
                  let sent = ok-injective last in
                  (
                    ap (λ (q : Publish). q.msg.hops) (sym sent)
                        ∙ n
                        ∙ ap (λ (q : ℕ × Option Text). q.0) (sym (ok-injective e3)),
                    ap (λ (q : Publish). q.msg.in_reply_to) (sym sent) ∙ i,
                    o,
                    e2,
                    ap (λ (q : Publish). q.msg.origin) (sym sent)
                        ∙ k
                        ∙ ap (λ (q : ℕ × Option Text). some (origin_text r.agent_id q.1))
                            (sym (ok-injective e3)),
                  )

  -- The answer that `send_message` makes to a message that its store knows has one hop more than it, names it and keeps its
  -- origin. So if that message has as many hops as the hop limit of a receiver or more, then a directed answer, that is
  -- new to the receiver and from a sender not tripped there, is refused by the receiver: it is held, and
  -- its sender is tripped and reported.
  pub send_message-Trips :
      (fresh : Text) (now : DateTime) (r : Runtime) (a : SendArgs) (x : ℕ) (id : Text) (p : Found)
      {out : Publish} (sha256 : Text → Text) (limits : Limits) (count : ℕ) (topic : Text) (at : ℕ)
      (db : Database)
      → lookup_message c (x ∷ id) r.mailbox.store_.db ≡ ok (some p)
      → send_message zero c fresh now r (record a { in_reply_to = some (x ∷ id) }) ≡ ok out
      → let arrival : Arrival = record { msg = out.msg; source_topic = topic; now = at } in
        is_held (pruned count arrival db) out.msg.id ≡ false
        → is_tripped (pruned count arrival db) out.msg.from_agent ≡ false
        → find_admitted (pruned count arrival db) out.msg.id ≡ none
        → is_broadcast arrival ≡ false
        → limits.hop_limit ≤ p.hops
        → (out.msg.hops ≡ p.hops + 1)
          × (out.msg.in_reply_to ≡ some (x ∷ id))
          × ((o : Text) × (reply_origin zero c p ≡ ok o) × (out.msg.origin ≡ some o))
          × (d : Decision) × (admit_in c sha256 limits count arrival db ≡ ok d)
          × Trips arrival d
  send_message-Trips fresh now r a x id p {out} sha256 limits count topic at db known sent held free
        new directed over =
      let (n, i, o, e, k) = send_chain fresh now r a x id p known sent in
      let (d, done, trips) =
        admit_in-Trips c sha256 limits count
          (record { msg = out.msg; source_topic = topic; now = at }) db held free new
          (omega (arith, n, over)) directed in
      (n, i, (o, e, k), d, done, trips)
