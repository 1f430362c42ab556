-- ===== src/Config/Flags.antt =====
-- config/flags.go and the flags of config/flags_internal.go: the flags with the values that they have unless
-- the arguments of the program set them. The environment and `strconv` come as arguments.
use update_manager.Base.{
  String, Bool, true, Option, none, some, List, [], ◌∷◌, ◌++◌, ℤ, pos, ◌==◌, string_eq,
  if◌then◌else◌,
}
use Prim.Native.String.{◌++◌ as cat}
use update_manager.Config.{UpdateManagerConfig}
use update_manager.Mqtt.Subscriber.{ConnectionConfig}

-- The environment: os.LookupEnv, and strconv.ParseBool and strconv.ParseInt.
pub record Env : Type 0 where
  pub lookup_env : String → Option String
  pub parse_bool : String → Option Bool
  pub parse_int : String → Option ℤ

-- A variable that is read as a value; one that cannot be read counts as absent.
abbrev read_env {ℓ} : {A : Type ℓ} → (String → Option A) → Option String → A → A
read_env parse none value = value
read_env parse (some text) value = elim (parse text) [ none ↦ value | some v ↦ v ]

module _ (env : Env) where
  unfoldable pub env_to_string : String → String → String
  env_to_string key value = elim (env.lookup_env key) [ none ↦ value | some v ↦ v ]

  unfoldable pub env_to_bool : String → Bool → Bool
  env_to_bool key value = read_env env.parse_bool (env.lookup_env key) value

  unfoldable pub env_to_int : String → ℤ → ℤ
  env_to_int key value = read_env env.parse_int (env.lookup_env key) value

-- A flag with its value; the descriptions are not modelled.
pub data Flag : Type 0 where
  string_var : String → String → Flag
  bool_var : String → Bool → Flag
  int_var : String → ℤ → Flag

pub record LogConfig : Type 0 where
  pub log_file : String
  pub log_level : String
  pub log_file_size : ℤ
  pub log_file_count : ℤ
  pub log_file_max_age : ℤ

pub record BaseConfig : Type 0 where
  pub log : LogConfig
  pub mqtt : ConnectionConfig
  pub domain : String
  pub things_enabled : Bool

unfoldable pub default_domain_config : ConnectionConfig → String → BaseConfig
default_domain_config new_default_config domain = record {
  log = record {
    log_file = "";
    log_level = "INFO";
    log_file_size = pos 2;
    log_file_count = pos 5;
    log_file_max_age = pos 28;
  };
  mqtt = new_default_config;
  domain = domain;
  things_enabled = true;
}

-- The texts and the switch of the configuration that flags set.
pub record ManagerConfig : Type 0 where
  pub base : BaseConfig
  pub reboot_enabled : Bool
  pub reboot_after : String
  pub report_feedback_interval : String
  pub current_state_delay : String
  pub phase_timeout : String
  pub owner_consent_timeout : String

unfoldable pub new_default_config : ConnectionConfig → ManagerConfig
unfolding default_domain_config
new_default_config connection = record {
  base = default_domain_config connection "device";
  reboot_enabled = true;
  reboot_after = "30s";
  report_feedback_interval = "1m";
  current_state_delay = "30s";
  phase_timeout = "10m";
  owner_consent_timeout = "30m";
}

-- `variable` is the name of the agent with ToUpper and with underscores for dashes.
module _ (env : Env) (variable : String → String) where
  text : String → String → String → Flag
  unfolding env_to_string
  text name key value = string_var name (env_to_string env key value)

  unfoldable pub setup_flags : BaseConfig → List Flag
  unfolding text env_to_int env_to_bool
  setup_flags cfg =
      string_var "config-file" ""
      ∷ text "log-level" "LOG_LEVEL" cfg.log.log_level
      ∷ text "log-file" "LOG_FILE" cfg.log.log_file
      ∷ int_var "log-file-size" (env_to_int env "LOG_FILE_SIZE" cfg.log.log_file_size)
      ∷ int_var "log-file-count" (env_to_int env "LOG_FILE_COUNT" cfg.log.log_file_count)
      ∷ int_var "log-file-max-age" (env_to_int env "LOG_FILE_MAX_AGE" cfg.log.log_file_max_age)
      ∷ text "mqtt-conn-broker" "MQTT_CONN_BROKER" cfg.mqtt.broker
      ∷ text "mqtt-conn-keep-alive" "MQTT_CONN_KEEP_ALIVE" cfg.mqtt.keep_alive
      ∷ text "mqtt-conn-disconnect-timeout" "MQTT_CONN_DISCONNECT_TIMEOUT"
          cfg.mqtt.disconnect_timeout
      ∷ text "mqtt-conn-username" "MQTT_CONN_USERNAME" cfg.mqtt.username
      ∷ text "mqtt-conn-password" "MQTT_CONN_PASSWORD" cfg.mqtt.password
      ∷ text "mqtt-conn-connect-timeout" "MQTT_CONN_CONNECT_TIMEOUT" cfg.mqtt.connect_timeout
      ∷ text "mqtt-conn-ack-timeout" "MQTT_CONN_ACK_TIMEOUT" cfg.mqtt.acknowledge_timeout
      ∷ text "mqtt-conn-sub-timeout" "MQTT_CONN_SUB_TIMEOUT" cfg.mqtt.subscribe_timeout
      ∷ text "mqtt-conn-unsub-timeout" "MQTT_CONN_UNSUB_TIMEOUT" cfg.mqtt.unsubscribe_timeout
      ∷ text "mqtt-conn-ca-cert" "MQTT_CONN_CA_CERT" cfg.mqtt.ca_cert
      ∷ text "mqtt-conn-cert" "MQTT_CONN_CERT" cfg.mqtt.cert
      ∷ text "mqtt-conn-key" "MQTT_CONN_KEY" cfg.mqtt.key
      ∷ text "domain" "DOMAIN" cfg.domain
      ∷ bool_var "things-enabled" (env_to_bool env "THINGS_ENABLED" cfg.things_enabled)
      ∷ []

  unfoldable pub setup_agents_config_flags : List (String × UpdateManagerConfig) → List Flag
  unfolding text env_to_bool
  setup_agents_config_flags [] = []
  setup_agents_config_flags ((key, agent) ∷ m) =
      let rto_def = if agent.read_timeout == "" then "1m" else agent.read_timeout in
      bool_var (cat agent.name "-reboot-required")
        (env_to_bool env (cat (variable agent.name) "_REBOOT_REQUIRED") agent.reboot_required)
      ∷ text (cat agent.name "-read-timeout") (cat (variable agent.name) "_READ_TIMEOUT") rto_def
      ∷ setup_agents_config_flags m

  unfoldable pub setup_all_update_manager_flags :
      ManagerConfig → List (String × UpdateManagerConfig) → List Flag
  unfolding text env_to_bool setup_flags setup_agents_config_flags
  setup_all_update_manager_flags cfg agents =
      setup_flags cfg.base
      ++ (string_var "domains" ""
          ∷ bool_var "reboot-enabled" (env_to_bool env "REBOOT_ENABLED" cfg.reboot_enabled)
          ∷ text "reboot-after" "REBOOT_AFTER" cfg.reboot_after
          ∷ text "phase-timeout" "PHASE_TIMEOUT" cfg.phase_timeout
          ∷ text "report-feedback-interval" "REPORT_FEEDBACK_INTERVAL" cfg.report_feedback_interval
          ∷ text "current-state-delay" "CURRENT_STATE_DELAY" cfg.current_state_delay
          ∷ text "owner-consent-timeout" "OWNER_CONSENT_TIMEOUT" cfg.owner_consent_timeout
          ∷ [])
      ++ setup_agents_config_flags agents
