-- ===== src/Topics.antt =====
-- src/swarmbus/topics.py: the topic strings of the bus, built and parsed under an optional root.

pub mod Agents
pub mod Root
pub mod Routes
use swarmbus.Base.{
  ℕ, ◌+◌, ◌-◌, ◌≡◌, Bool, not, ◌&&◌, ◌||◌, List, [], ◌∷◌, ◌++◌, Text, codes, text_eq, starts_with,
  ends_with, has_code, has_text, strip, length, take, drop, ◌==◌, if◌then◌else◌,
}
use swarmbus.Base.Result.{Result, ok, err, value_error, ◌>>=◌, ◌>>◌, raise_if}
use swarmbus.Message.AgentId.{validate_agent_id}

abbrev pub agents_segment : Text
agents_segment = codes "agents"

abbrev pub registry_segment : Text
registry_segment = codes "swarmbus/registry"

abbrev pub inbox_leaf : Text
inbox_leaf = codes "inbox"

abbrev pub presence_leaf : Text
presence_leaf = codes "presence"

abbrev pub broadcast_agent_id : Text
broadcast_agent_id = codes "broadcast"

abbrev pub slash : Text
slash = b'/' ∷ []

abbrev pub broadcast_topic : Text
broadcast_topic = agents_segment ++ slash ++ broadcast_agent_id

abbrev pub wildcard : Text
wildcard = b'+' ∷ []

abbrev pub has_slash : Text → Bool
has_slash = has_code b'/'

-- `agent_id` of a topic whose part before the leaf is `candidate`.
unfoldable pub one_agent_segment : Text → Text → Result Text
one_agent_segment candidate prefix = do
  let head = prefix ++ slash
  raise_if (not (starts_with candidate head)) value_error
  let agent_id = drop (length head) candidate
  raise_if (has_slash agent_id || text_eq agent_id []) value_error
  validate_agent_id agent_id

pub record TopicMap : Type 0 where
  pub root : Text

-- The characters that `__post_init__` strips from the ends of a root.
abbrev pub is_padding : ℕ → Bool
is_padding c = c == b' ' || (c == 9 || (c == 10 || (c == 13 || c == b'/')))

-- `TopicMap(root=root)`
unfoldable pub topic_map : Text → Result TopicMap
topic_map root = do
  let normalized = strip is_padding root
  raise_if (has_code b'+' normalized) value_error
  raise_if (has_code b'#' normalized) value_error
  raise_if (starts_with normalized (b'$' ∷ [])) value_error
  raise_if (has_text (codes "//") normalized) value_error
  ok (record { root = normalized })

abbrev pub under : Text → Text → Text
under [] segment = segment
under (c ∷ root) segment = (c ∷ root) ++ slash ++ segment

unfoldable pub rooted : TopicMap → Text → Text
rooted t segment = under t.root segment

unfoldable pub agents_prefix : TopicMap → Text
agents_prefix t = rooted t agents_segment

unfoldable pub registry_prefix : TopicMap → Text
registry_prefix t = rooted t registry_segment

unfoldable pub inbox : TopicMap → Text → Text
inbox t agent_id = agents_prefix t ++ slash ++ agent_id ++ slash ++ inbox_leaf

unfoldable pub presence : TopicMap → Text → Text
presence t agent_id = agents_prefix t ++ slash ++ agent_id ++ slash ++ presence_leaf

unfoldable pub registry : TopicMap → Text → Text
registry t agent_id = registry_prefix t ++ slash ++ agent_id

-- The root plays no part.
abbrev pub broadcast : TopicMap → Text
broadcast t = broadcast_topic

unfoldable pub route : TopicMap → Text → Text
route t to = if text_eq to broadcast_agent_id then broadcast t else inbox t to

unfoldable pub any_presence_filter : TopicMap → Text
any_presence_filter t = agents_prefix t ++ slash ++ wildcard ++ slash ++ presence_leaf

unfoldable pub any_registry_filter : TopicMap → Text
any_registry_filter t = registry_prefix t ++ slash ++ wildcard

unfoldable pub is_registry_topic : TopicMap → Text → Bool
is_registry_topic t topic = starts_with topic (registry_prefix t ++ slash)

unfoldable pub is_presence_topic : TopicMap → Text → Bool
is_presence_topic t topic =
    starts_with topic (agents_prefix t ++ slash) && ends_with topic (slash ++ presence_leaf)

unfoldable pub is_message_topic : TopicMap → Text → Text → Bool
is_message_topic t topic agent_id = text_eq topic (inbox t agent_id) || text_eq topic (broadcast t)

unfoldable pub registry_agent : TopicMap → Text → Result Text
registry_agent t topic = one_agent_segment topic (registry_prefix t)

abbrev pub leaf : Text
leaf = slash ++ presence_leaf

unfoldable pub presence_agent : TopicMap → Text → Result Text
presence_agent t topic = do
  raise_if (not (ends_with topic leaf)) value_error
  one_agent_segment (take (length topic - length leaf) topic) (agents_prefix t)

-- The root-less map.
abbrev pub default_topics : TopicMap
default_topics = record { root = [] }
