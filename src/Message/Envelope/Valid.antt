-- ===== src/Message/Envelope/Valid.antt =====
-- What holds of every envelope that `from_json` lets through.
use swarmbus.Base.{
  ℕ, ◌≤◌, ◌⊎◌, ◌++◌, length, codes, subst, ◌≡◌, true, not, Text, Option, none, some, arith,
  Option-cases, inl, inr,
}
use swarmbus.Base.Result.{ok, value_error, ◌>>◌, raise_if, bind_cases, raise_if-eq-ok}
use swarmbus.Message.AgentId.{
  validate_agent_id_inv, matches_agent_id, matches_cases, IsAgentId, newline,
}
use swarmbus.Message.Json.{Json, obj, Fields, DateTime, Codec, get}
use swarmbus.Message.Envelope.{
  AgentMessage, validate_loaded, valid_id, valid_subject, valid_metadata, valid_body, utf8_size,
  validate_fields, from_json, is_valid, want_agent, want_id, want_ts, want_text, want_optional,
  want_hops, want_version, either,
}

want_agent_matches : (j : Option Json) {v : Text} → want_agent j ≡ ok v → matches_agent_id v ≡ true
unfolding want_agent
want_agent_matches none h = cc
want_agent_matches (some (Json.str s)) h = ground (arith, validate_agent_id_inv s h)
want_agent_matches (some _) h = cc

-- The envelope passed the field tests, and both addresses the id pattern.
pub record IsChecked (c : Codec) (m : AgentMessage) : Type 0 where
  pub fields : is_valid c m ≡ true
  pub sender : matches_agent_id m.from_agent ≡ true
  pub receiver : matches_agent_id m.to ≡ true

ok-injective : {m n : AgentMessage} → ok m ≡ ok n → m ≡ n
ok-injective h = cc

IsChecked-last :
    (c : Codec) (n : AgentMessage) {m : AgentMessage}
    → matches_agent_id n.from_agent ≡ true
    → matches_agent_id n.to ≡ true
    → (raise_if (not (is_valid c n)) value_error >> ok n) ≡ ok m
    → IsChecked c m
IsChecked-last c n sender receiver h =
    let (e, k) = raise_if-eq-ok (not (is_valid c n)) value_error (ok n) h in
    subst (IsChecked c) (ok-injective k)
      (record { fields = ground arith; sender = sender; receiver = receiver })

pub validate_fields-IsChecked :
    (c : Codec) (fresh : Text) (now : DateTime) (fs : Fields) {m : AgentMessage}
    → validate_fields c fresh now fs ≡ ok m
    → IsChecked c m
unfolding validate_fields
validate_fields-IsChecked c fresh now fs h =
    bind_cases (want_id (get (codes "id") fs) fresh) _ h λ id _ h.
      bind_cases (want_agent (either (get (codes "from") fs) (get (codes "from_agent") fs))) _ h
        λ from_agent sender h. bind_cases (want_agent (get (codes "to") fs)) _ h λ to receiver h.
          bind_cases (want_ts c (get (codes "ts") fs) now) _ h λ ts _ h.
            bind_cases (want_text (get (codes "subject") fs) none) _ h λ subject _ h.
              bind_cases (want_text (get (codes "body") fs) none) _ h λ body _ h.
                bind_cases (want_text (get (codes "content_type") fs) (some (codes "text/plain"))) _
                  h
                  λ content_type _ h.
                    bind_cases (want_text (get (codes "priority") fs) (some (codes "normal"))) _ h
                      λ priority _ h.
                        bind_cases (want_optional (get (codes "reply_to") fs)) _ h λ reply_to _ h.
                          bind_cases (want_optional (get (codes "in_reply_to") fs)) _ h
                            λ in_reply_to _ h.
                              bind_cases (want_hops (get (codes "hops") fs)) _ h λ hops _ h.
                                bind_cases (want_optional (get (codes "origin") fs)) _ h
                                  λ origin _ h.
                                    bind_cases (want_version c (get (codes "envelope_version") fs))
                                      _ h
                                      λ envelope_version _ h.
                                        IsChecked-last c _ (want_agent_matches _ sender)
                                          (want_agent_matches _ receiver) h

validate_loaded-IsChecked :
    (c : Codec) (fresh : Text) (now : DateTime) (j : Option Json) {m : AgentMessage}
    → validate_loaded c fresh now j ≡ ok m
    → IsChecked c m
unfolding validate_loaded
validate_loaded-IsChecked c fresh now (some (obj fs)) h = validate_fields-IsChecked c fresh now fs h
validate_loaded-IsChecked c fresh now _ h = cc

-- The documented bounds of an envelope.
pub record IsWellFormed (m : AgentMessage) : Type 0 where
  pub id_nonempty : 1 ≤ length m.id
  pub id_bounded : length m.id ≤ 128
  pub subject_bounded : length m.subject ≤ 1024
  pub content_type_bounded : length m.content_type ≤ 64
  pub priority_bounded : length m.priority ≤ 64
  pub body_bounded : (n : ℕ) × (utf8_size m.body ≡ some n) × (n ≤ 65536)
  pub sender : (s : Text) × IsAgentId s × ((m.from_agent ≡ s) ⊎ (m.from_agent ≡ s ++ newline))
  pub receiver : (s : Text) × IsAgentId s × ((m.to ≡ s) ⊎ (m.to ≡ s ++ newline))

body_size : (v : Text) → valid_body v ≡ true → (n : ℕ) × (utf8_size v ≡ some n) × (n ≤ 65536)
unfolding valid_body
body_size v h = elim (Option-cases (utf8_size v)) [
  | inl e ↦ absurd (ground arith)
  | inr (n, e) ↦ (n, e, ground arith)
]

pub IsChecked-IsWellFormed : (c : Codec) (m : AgentMessage) → IsChecked c m → IsWellFormed m
unfolding is_valid valid_id valid_subject valid_metadata
IsChecked-IsWellFormed c m k = record {
  id_nonempty = ground (arith, k.fields);
  id_bounded = ground (arith, k.fields);
  subject_bounded = ground (arith, k.fields);
  content_type_bounded = ground (arith, k.fields);
  priority_bounded = ground (arith, k.fields);
  body_bounded = body_size m.body (ground (arith, k.fields));
  sender = matches_cases m.from_agent k.sender;
  receiver = matches_cases m.to k.receiver;
}

-- Every envelope that `from_json` returns, whatever text it is given, has an id of 1 to 128
-- characters, a subject of at most 1024, a content type and a priority of at most 64, a body of at
-- most 65536 bytes of UTF-8, and a sender and a receiver of the documented format, up to one newline
-- at the end.
pub from_json-IsWellFormed :
    (c : Codec) (fresh : Text) (now : DateTime) (raw : Text) {m : AgentMessage}
    → from_json c fresh now raw ≡ ok m
    → IsWellFormed m
from_json-IsWellFormed c fresh now raw {m} h =
    IsChecked-IsWellFormed c m
      (unfold from_json in validate_loaded-IsChecked c fresh now (c.loads raw) h)
