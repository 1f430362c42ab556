-- ===== src/Config/Loading/Precedence.antt =====
-- Where each value of the configuration comes from.
use update_manager.Base.{
  String, Bool, if◌then◌else◌, ◌≡◌, refl, ◌∙◌, ◌==◌, ◌⊎◌, inl, inr, some, List, ℤ, string_eq, arith,
  Option-cases, Bool-cases, eq_iff,
}
use update_manager.Types.{CommandType}
use update_manager.Config.Agents.{
  Agents, prepare_agents_config, parse_domains_flag, parse_owner_consent_commands_flag,
}
use update_manager.Config.Flags.{
  Env, env_to_string, env_to_bool, env_to_int, Flag, ManagerConfig, BaseConfig,
}
use update_manager.Config.Binding.{
  Given, text_or, switch_or, number_or, text_flag, bound, bound_agents,
}
use update_manager.Config.Loading.{
  Library, Settings, Texts, loads, all_flags, settings_of, early_flag, parse_flags, Files,
  default_settings, parse_config_file_path, load_config_from_file, load_config,
}
use update_manager.Mqtt.Subscriber.{ConnectionConfig}

module _ (env : Env) (given : Given) where
  -- The argument, else the variable of the environment, else the value.
  abbrev pub chosen_text : String → String → String → String
  chosen_text name key value = text_or given name (env_to_string env key value)

  abbrev pub chosen_switch : String → String → Bool → Bool
  chosen_switch name key value = switch_or given name (env_to_bool env key value)

  abbrev pub chosen_number : String → String → ℤ → ℤ
  chosen_number name key value = number_or given name (env_to_int env key value)

  abbrev pub chosen_base : BaseConfig → BaseConfig
  chosen_base cfg = record {
    log = record {
      log_file = chosen_text "log-file" "LOG_FILE" cfg.log.log_file;
      log_level = chosen_text "log-level" "LOG_LEVEL" cfg.log.log_level;
      log_file_size = chosen_number "log-file-size" "LOG_FILE_SIZE" cfg.log.log_file_size;
      log_file_count = chosen_number "log-file-count" "LOG_FILE_COUNT" cfg.log.log_file_count;
      log_file_max_age =
          chosen_number "log-file-max-age" "LOG_FILE_MAX_AGE" cfg.log.log_file_max_age;
    };
    mqtt = record {
      broker = chosen_text "mqtt-conn-broker" "MQTT_CONN_BROKER" cfg.mqtt.broker;
      keep_alive = chosen_text "mqtt-conn-keep-alive" "MQTT_CONN_KEEP_ALIVE" cfg.mqtt.keep_alive;
      disconnect_timeout =
          chosen_text "mqtt-conn-disconnect-timeout" "MQTT_CONN_DISCONNECT_TIMEOUT"
            cfg.mqtt.disconnect_timeout;
      username = chosen_text "mqtt-conn-username" "MQTT_CONN_USERNAME" cfg.mqtt.username;
      password = chosen_text "mqtt-conn-password" "MQTT_CONN_PASSWORD" cfg.mqtt.password;
      connect_timeout =
          chosen_text "mqtt-conn-connect-timeout" "MQTT_CONN_CONNECT_TIMEOUT"
            cfg.mqtt.connect_timeout;
      acknowledge_timeout =
          chosen_text "mqtt-conn-ack-timeout" "MQTT_CONN_ACK_TIMEOUT" cfg.mqtt.acknowledge_timeout;
      subscribe_timeout =
          chosen_text "mqtt-conn-sub-timeout" "MQTT_CONN_SUB_TIMEOUT" cfg.mqtt.subscribe_timeout;
      unsubscribe_timeout =
          chosen_text "mqtt-conn-unsub-timeout" "MQTT_CONN_UNSUB_TIMEOUT"
            cfg.mqtt.unsubscribe_timeout;
      ca_cert = chosen_text "mqtt-conn-ca-cert" "MQTT_CONN_CA_CERT" cfg.mqtt.ca_cert;
      cert = chosen_text "mqtt-conn-cert" "MQTT_CONN_CERT" cfg.mqtt.cert;
      key = chosen_text "mqtt-conn-key" "MQTT_CONN_KEY" cfg.mqtt.key;
    };
    domain = chosen_text "domain" "DOMAIN" cfg.domain;
    things_enabled = chosen_switch "things-enabled" "THINGS_ENABLED" cfg.things_enabled;
  }

  abbrev pub chosen : ManagerConfig → ManagerConfig
  chosen cfg = record {
    base = chosen_base cfg.base;
    reboot_enabled = chosen_switch "reboot-enabled" "REBOOT_ENABLED" cfg.reboot_enabled;
    reboot_after = chosen_text "reboot-after" "REBOOT_AFTER" cfg.reboot_after;
    report_feedback_interval =
        chosen_text "report-feedback-interval" "REPORT_FEEDBACK_INTERVAL"
          cfg.report_feedback_interval;
    current_state_delay =
        chosen_text "current-state-delay" "CURRENT_STATE_DELAY" cfg.current_state_delay;
    phase_timeout = chosen_text "phase-timeout" "PHASE_TIMEOUT" cfg.phase_timeout;
    owner_consent_timeout =
        chosen_text "owner-consent-timeout" "OWNER_CONSENT_TIMEOUT" cfg.owner_consent_timeout;
  }

  bound-chosen :
      (variable : String → String) (cfg : ManagerConfig) (agents : Agents)
      → bound given (all_flags env variable cfg agents) ≡ chosen cfg
  unfolding bound all_flags
  bound-chosen variable cfg agents = refl

-- The commands of a list, or those of before where it is empty.
abbrev pub chosen_commands : Texts → String → List CommandType → List CommandType
chosen_commands x list_commands commands =
    if list_commands == ""
    then commands
    else parse_owner_consent_commands_flag x.split x.trim_space x.command_of list_commands

settings_of-loads :
    (x : Texts) (agents : Agents) (flags : List Flag) (commands : List CommandType) (given : Given)
    (t : Settings)
    → settings_of x agents flags commands given ≡ loads t
    → (t.manager ≡ bound given flags)
      × (t.agents ≡ some (bound_agents given flags agents))
      × (t.owner_consent_commands
          ≡ chosen_commands x (text_flag given "owner-consent-commands" flags) commands)
unfolding settings_of
settings_of-loads x agents flags commands given t e = (ground arith, ground arith, ground arith)

module _ (env : Env) (x : Texts) (library : Library) (args : List String) where
  -- The agents of a configuration for the domains of the argument, else of the variable DOMAINS.
  abbrev pub agents_of : Settings → Agents
  agents_of cfg = prepare_agents_config cfg.agents (
      parse_domains_flag x.split x.trim_space
        (early_flag x library args "domains" (env_to_string env "DOMAINS" "")))

  abbrev pub flags_of : Settings → List Flag
  flags_of cfg = all_flags env x.variable cfg.manager (agents_of cfg)

  -- What a configuration becomes: the choices on the arguments that the library finds.
  abbrev pub Comes : Settings → Settings → Type 0
  Comes cfg t =
      (given : Given) × (library.parse_or_exit (flags_of cfg) args ≡ some given)
      × (t.manager ≡ chosen env given cfg.manager)
      × (t.agents ≡ some (bound_agents given (flags_of cfg) (agents_of cfg)))
      × (t.owner_consent_commands
          ≡ chosen_commands x (text_flag given "owner-consent-commands" (flags_of cfg))
              cfg.owner_consent_commands)

  parse_flags-Comes :
      (cfg t : Settings) → parse_flags x library args env cfg ≡ loads t → Comes cfg t
  unfolding parse_flags
  parse_flags-Comes cfg t e = elim (Option-cases (library.parse_or_exit (flags_of cfg) args)) [
    | inl f ↦ absurd (ground arith)
    | inr (given, f) ↦
        let (manager, agents, commands) =
          settings_of-loads x (agents_of cfg) (flags_of cfg) cfg.owner_consent_commands given t
            (ground arith) in
        (
          given,
          f,
          manager ∙ bound-chosen env given x.variable cfg.manager (agents_of cfg),
          agents,
          commands,
        )
  ]

  -- The configuration that the program is started with comes from the configuration file, if one is given and can
  -- be read, else from the defaults: each value for the log, the connection, the domain, the reboot, the reports
  -- and the timeouts is that of its argument, else of its variable in the environment, else what the file or the
  -- default says; the agents are those of the file or the default, prepared for the domains of the argument, else
  -- of DOMAINS, with what their own flags are bound to; and the commands that need the owner's consent are those
  -- of the argument, else those of the file or the default.
  pub load_config-Comes :
      {Bytes : Type 0} (files : Files Bytes) (connection : ConnectionConfig) (t : Settings)
      → load_config env x library args files connection ≡ loads t
      → (cfg : Settings) × (((parse_config_file_path x library args ≡ "")
            × (cfg ≡ default_settings connection))
          ⊎ (load_config_from_file files
                (parse_config_file_path x library args)
                (default_settings connection)
              ≡ some cfg))
        × Comes cfg t
  unfolding load_config
  load_config-Comes files connection t e =
      let path = parse_config_file_path x library args in
      elim (Bool-cases (path == "")) [
        | inl without ↦ (
          default_settings connection,
          inl (ground (arith, eq_iff path ""), refl),
          parse_flags-Comes (default_settings connection) t (ground arith),
        )
        | inr path_given ↦
            elim (Option-cases (load_config_from_file files path (default_settings connection))) [
              | inl f ↦ absurd (ground arith)
              | inr (cfg, f) ↦ (cfg, inr f, parse_flags-Comes cfg t (ground arith))
            ]
      ]
