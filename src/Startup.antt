-- ===== src/Startup.antt =====
-- The functions main and initUpdateManager of cmd/update-manager/main.go, with the constructors of the owner
-- consent clients in mqtt and NewUpdateOrchestrator of updatem/orchestration/update_orchestrator.go.
use update_manager.Base.{
  ◌*◌, ℕ, String, not, null, [], Bool, Option, none, some, List, ℤ, pos, if◌then◌else◌,
}
use update_manager.Util.{parse_duration}
use update_manager.Config.{UpdateManagerConfig}
use update_manager.Config.Agents.{Agents}
use update_manager.Config.Loading.{Loaded, fails, exits, loads}
use update_manager.Logger.{setup_logger}
use update_manager.Mqtt.Clients.{MqttClient, new_internal_client}
use update_manager.DomainManager.Watching.{
  AgentClient, update_agent_client, update_agent_things_client, get_mqtt_client, DomainAgent,
  new_domain_agents,
}

pub data ConsentClient : Type 0 where
  owner_consent_client : MqttClient → ConsentClient
  owner_consent_things_client : ConsentClient

-- `topic` is domainAsTopic.
unfoldable pub new_owner_consent_client :
    (String → String) → String → AgentClient → Option ConsentClient
unfolding get_mqtt_client
new_owner_consent_client topic domain agent =
    if get_mqtt_client agent
    then some (owner_consent_client (new_internal_client (topic domain)))
    else none

unfoldable pub new_owner_consent_things_client : AgentClient → Option ConsentClient
new_owner_consent_things_client update_agent_things_client = some owner_consent_things_client
new_owner_consent_things_client _ = none

pub record Timeouts : Type 0 where
  pub phase_timeout : ℤ
  pub owner_consent_timeout : ℤ

-- The timeouts of the orchestrator, in nanoseconds: ten minutes and thirty by default.
unfoldable pub new_update_orchestrator : (String → Option ℤ) → String → String → Timeouts
unfolding parse_duration
new_update_orchestrator parse phase_timeout owner_consent_timeout = record {
  phase_timeout =
      parse_duration parse phase_timeout (pos (600 * 1000000000)) (pos (600 * 1000000000));
  owner_consent_timeout =
      parse_duration parse owner_consent_timeout (pos (1800 * 1000000000))
        (pos (1800 * 1000000000));
}

-- What the program starts with.
pub record Setup : Type 0 where
  pub agent_client : AgentClient
  pub consent_client : Option ConsentClient
  pub domain_agents : List (String × DomainAgent)

-- The client of the owner's consent where there are commands that want it; the outer `none` is an error.
unfoldable pub new_consent_client :
    (String → String) → Bool → Bool → String → AgentClient → Option (Option ConsentClient)
unfolding new_owner_consent_client new_owner_consent_things_client
new_consent_client topic things_enabled has_commands domain agent =
    if has_commands
    then elim (if things_enabled
        then new_owner_consent_things_client agent
        else new_owner_consent_client topic domain agent) [
          | none ↦ none
          | some client ↦ some (some client)
        ]
    else some none

-- `created` is false for an error of the constructor of the agent's client.
unfoldable pub init_update_manager :
    (String → Option ℤ)
    → (String → String)
    → Bool
    → Bool
    → Bool
    → String
    → List (String × UpdateManagerConfig)
    → Option Setup
unfolding new_consent_client new_domain_agents
init_update_manager parse topic created things_enabled has_commands domain agents =
    let uac = if things_enabled then update_agent_things_client else update_agent_client in
    if created
    then elim (new_consent_client topic things_enabled has_commands domain uac) [
      | none ↦ none
      | some occ ↦ elim (new_domain_agents parse topic uac agents) [
        | none ↦ none
        | some m ↦ some (record { agent_client = uac; consent_client = occ; domain_agents = m })
      ]
    ]
    else none

-- A nil map has no agents.
abbrev agents_of : Option Agents → Agents
agents_of none = []
agents_of (some m) = m

-- What the program makes of its surroundings: the parameters of initUpdateManager and of SetupLogger, and
-- whether Launch has an error.
pub record Surroundings : Type 0 where
  pub parse : String → Option ℤ
  pub topic : String → String
  pub to_upper : String → String
  pub has_log_directory : Bool
  pub client_is_created : Bool
  pub launch_fails : Setup → Bool

-- The function main on what LoadConfig gives: the status of its exit, or `none` where LoadConfig has ended the
-- program itself.
unfoldable pub run_main : Surroundings → Loaded → Option ℕ
unfolding setup_logger init_update_manager
run_main w fails = some 1
run_main w exits = none
run_main w (loads cfg) = elim (setup_logger w.to_upper w.has_log_directory cfg.manager.base.log) [
  | none ↦ some 1
  | some logger_out ↦
      elim (init_update_manager w.parse w.topic w.client_is_created cfg.manager.base.things_enabled
        (not (null cfg.owner_consent_commands)) cfg.manager.base.domain (agents_of cfg.agents)) [
          | none ↦ some 1
          | some setup ↦ if w.launch_fails setup then some 1 else some 0
        ]
]
