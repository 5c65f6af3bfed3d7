-- ===== src/Tests/TopicStrings.antt =====
-- Topics, under the root "team".
use swarmbus.Base.{true, ◌≡◌, refl, ◌↔◌, codes, strip}
use swarmbus.Base.Result.{ok}
use swarmbus.Message.AgentId.{matches_agent_id}
use swarmbus.Topics.{TopicMap, topic_map, is_padding, presence, presence_agent}
use swarmbus.Topics.Agents.{presence_agent_iff}
use swarmbus.Topics.Root.{IsCleanRoot, topic_map_lem}
use swarmbus.Topics.Routes.{route-injective}

abbrev team : TopicMap
team = record { root = codes "team" }

presence_agent_iff_example :
    (presence_agent team (codes "team/agents/bob/presence") ≡ ok (codes "bob")) ↔ (
      (codes "team/agents/bob/presence" ≡ presence team (codes "bob"))
      × (matches_agent_id (codes "bob") ≡ true))
presence_agent_iff_example =
    presence_agent_iff team (codes "team/agents/bob/presence") (codes "bob")

topic_map_lem_example :
    ((topic_map (codes " team/") ≡ ok team)
      ↔ ((codes "team" ≡ strip is_padding (codes " team/")) × IsCleanRoot (codes "team")))
    × (topic_map (codes " team/") ≡ ok team → topic_map (codes "team") ≡ ok team)
topic_map_lem_example = topic_map_lem (codes " team/") team

route-injective_example : codes "bob" ≡ codes "bob"
route-injective_example = route-injective team (codes "bob") (codes "bob") refl
