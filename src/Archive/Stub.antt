-- ===== src/Archive/Stub.antt =====
-- The envelope text that `_hold_sender_message` keeps (src/swarmbus/archive.py): whole for the first
-- 50 messages, and then a stub without the body.
use swarmbus.Base.{
  true, [], ◌∷◌, List, Text, codes, text_eq, take, Option, none, some, if◌then◌else◌,
}
use swarmbus.Base.Result.{Result, ok, err, value_error, type_error, ◌>>=◌}
use swarmbus.Message.Json.{Json, bool, str, obj, Fields, end, field, Codec, get}
use swarmbus.Message.Envelope.{AgentMessage, to_json}
use swarmbus.Archive.Rows.{stub_subject_chars}

abbrev stub_keys : List Text
stub_keys =
    codes "id"
    ∷ codes "from"
    ∷ codes "to"
    ∷ codes "ts"
    ∷ codes "subject"
    ∷ codes "hops"
    ∷ codes "origin"
    ∷ codes "in_reply_to"
    ∷ []

-- `{k: data[k] for k in keys if k in data}`
unfoldable pub keep : List Text → Fields → Fields
unfolding get
keep [] fs = end
keep (k ∷ ks) fs =
    let rest = keep ks fs in elim (get k fs) [ none ↦ rest | some v ↦ field k v rest ]

-- `d[k] = v`
unfoldable pub put : Text → Json → Fields → Fields
unfolding text_eq
put k v end = field k v end
put k v (field j w fs) = if text_eq j k then field j v fs else field j w (put k v fs)

-- `str(kept.get("subject", ""))`; `to_json` writes a text there.
unfoldable pub subject_text : Option Json → Result Text
subject_text none = ok []
subject_text (some (str s)) = ok s
subject_text (some _) = err type_error

unfoldable pub stub_of : Codec → Option Json → Result Text
unfolding keep put subject_text
stub_of c (some (obj fields)) = do
  let kept = keep stub_keys fields
  subject ← subject_text (get (codes "subject") kept)
  ok (
      c.dumps (
        obj (
          put (codes "stub") (bool true)
            (put (codes "subject") (str (take stub_subject_chars subject)) kept))))
stub_of c _ = err value_error

unfoldable pub stub_envelope : Codec → AgentMessage → Result Text
unfolding stub_of
stub_envelope c m = stub_of c (c.loads (to_json c m))
