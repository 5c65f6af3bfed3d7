-- ===== src/Tests.antt =====
-- Concrete inputs, and the theorems applied to them.
mod Admission
mod Inboxes
mod Envelopes
mod TopicStrings
mod Presence
mod Upkeep
mod Buses
mod Runtimes
mod Settings
use swarmbus.Base.{
  true, ℕ, ◌+◌, ◌*◌, leb, Text, codes, List, [], ◌∷◌, Option, none, some, text_eq, if◌then◌else◌,
}
use swarmbus.Base.Int.{ℤ, pos}
use swarmbus.Message.Json.{Json, null, str, int, obj, Fields, DateTime, Codec}
use swarmbus.Message.Envelope.{AgentMessage, dump}
use swarmbus.Archive.Rows.{Limits, second}
use swarmbus.Archive.Admit.{Arrival}

abbrev pub noon : DateTime
noon = record { instant = 1000 * second; utcoffset = some (pos 0) }

abbrev pub noon_text : Text
noon_text = codes "2026-01-01T12:00:00+00:00"

abbrev pub sample : AgentMessage
sample = record {
  id = codes "m1";
  from_agent = codes "alice";
  to = codes "bob";
  ts = noon;
  subject = codes "hi";
  body = codes "hello";
  content_type = codes "text/plain";
  priority = codes "normal";
  reply_to = none;
  in_reply_to = none;
  hops = 3;
  origin = some (codes "alice");
  envelope_version = pos 2;
}

abbrev pub codec_of : Fields → Codec
codec_of fs = record {
  dumps = λ j. codes "{…}";
  loads = λ t. some (obj fs);
  isoformat = λ d. noon_text;
  parse_datetime = λ j. some noon;
  coerce_int = λ j. some (pos 2);
  is_literal_one = λ j. true;
  parse_json = λ t. some (obj fs);
  write_datetime = λ d. noon_text;
  is_printable = λ ch. leb 32 ch;
}

-- A codec that reads the sample.
abbrev pub codec : Codec
codec = codec_of (dump (codec_of Fields.end) sample)

abbrev pub digest : Text → Text
digest t = codes "5d41402a"

abbrev pub limits : Limits
limits = record { hop_limit = 8; rate_limit = 10; rate_cooldown = 60 * second }

abbrev pub arrival : Arrival
arrival = record { msg = sample; source_topic = codes "agents/bob/inbox"; now = 2000 * second }

-- The sample after too many hops.
abbrev pub looping : Arrival
looping = record {
  msg = record sample { hops = 9 };
  source_topic = codes "agents/bob/inbox";
  now = 2000 * second;
}
