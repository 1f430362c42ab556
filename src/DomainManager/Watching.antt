-- ===== src/DomainManager/Watching.antt =====
-- NewUpdateManager, WatchEvents, Dispose and SetCallback of updatem/domain/update_manager.go, and those of
-- updatem/orchestration/update_manager.go, which call them for every domain.
use update_manager.Base.{
  ◌*◌, String, Bool, true, false, Option, none, some, List, [], ◌∷◌, ℤ, pos, if◌then◌else◌,
  string_eq,
}
use update_manager.Util.{parse_duration}
use update_manager.Config.{UpdateManagerConfig}
use update_manager.Mqtt.Clients.{MqttClient, Token, new_internal_client}
use update_manager.Mqtt.Subscriber.{Subscriber, new_subscriber, start_states, stop_states}

-- The manager of a domain with its client; `callback` says whether there is one.
pub record DomainAgent : Type 0 where
  pub name : String
  pub client : MqttClient
  pub subscriber : Subscriber
  pub read_timeout : ℤ
  pub callback : Bool

-- The clients that an agent's client can be; the clients of messages take the connection of the first two.
pub data AgentClient : Type 0 where
  update_agent_client update_agent_things_client unexpected : AgentClient

-- getMQTTClient; the result says whether there is a client.
unfoldable pub get_mqtt_client : AgentClient → Bool
get_mqtt_client update_agent_client = true
get_mqtt_client update_agent_things_client = true
get_mqtt_client unexpected = false

module _ (parse : String → Option ℤ) (topic : String → String) where
  -- The topics of a client of messages, on the connection of the agent's client. `topic` is domainAsTopic.
  unfoldable pub new_desired_state_client : AgentClient → String → Option MqttClient
  unfolding get_mqtt_client
  new_desired_state_client agent domain =
      if get_mqtt_client agent then some (new_internal_client (topic domain)) else none

  -- One minute is the default, in nanoseconds.
  unfoldable pub new_domain_manager : String → MqttClient → UpdateManagerConfig → DomainAgent
  unfolding parse_duration
  new_domain_manager domain client config = record {
    name = domain;
    client = client;
    subscriber = new_subscriber;
    read_timeout =
        parse_duration parse config.read_timeout (pos (60 * 1000000000)) (pos (60 * 1000000000));
    callback = false;
  }

  abbrev pub set_callback : Bool → DomainAgent → DomainAgent
  set_callback callback agent = record agent { callback = callback }

  unfoldable pub new_domain_agents :
      AgentClient → List (String × UpdateManagerConfig) → Option (List (String × DomainAgent))
  unfolding new_desired_state_client new_domain_manager
  new_domain_agents agent [] = some []
  new_domain_agents agent ((name, config) ∷ m) =
      let rest = new_domain_agents agent m in
      elim (new_desired_state_client agent name) [
        | none ↦ none
        | some client ↦ elim rest [
          | none ↦ none
          | some agents ↦
              some ((name, set_callback true (new_domain_manager name client config)) ∷ agents)
        ]
      ]

-- An error of the subscription only goes to the log.
unfoldable pub watch_events : Token → DomainAgent → DomainAgent
unfolding start_states
watch_events token agent = record agent {
  subscriber = (start_states agent.client token agent.subscriber).0;
}

unfoldable pub dispose : Token → DomainAgent → DomainAgent × Bool
unfolding stop_states
dispose token agent =
    let (t, failed) = stop_states agent.client token agent.subscriber in
    (record agent { subscriber = t }, failed)

-- The tokens of the domains, by their names.
module _ (tokens : String → Token) where
  unfoldable pub watch_all : List (String × DomainAgent) → List (String × DomainAgent)
  unfolding watch_events
  watch_all [] = []
  watch_all ((name, agent) ∷ m) = (name, watch_events (tokens name) agent) ∷ watch_all m

  unfoldable pub dispose_all : List (String × DomainAgent) → List (String × DomainAgent)
  unfolding dispose
  dispose_all [] = []
  dispose_all ((name, agent) ∷ m) = (name, (dispose (tokens name) agent).0) ∷ dispose_all m
