-- ===== src/Config/Binding.antt =====
-- The variables that the flags of config/flags.go and config/flags_internal.go set, once the arguments are parsed.
use update_manager.Base.{
  String, Bool, false, ◌==◌, Option, none, some, List, [], ◌∷◌, ℤ, string_eq, if◌then◌else◌, pos,
}
use Prim.Native.String.{◌++◌ as cat}
use update_manager.Config.Agents.{Agents}
use update_manager.Config.Flags.{Flag, string_var, bool_var, int_var, ManagerConfig, BaseConfig}

-- A value that an argument gives to a flag.
pub data Value : Type 0 where
  text : String → Value
  switch : Bool → Value
  number : ℤ → Value

-- The flags that are set in the arguments, with their values.
abbrev pub Given : Type 0
Given = String → Option Value

abbrev pub text_or : Given → String → String → String
text_or given name value = elim (given name) [
  | none ↦ value
  | some v ↦ elim v [ text s ↦ s | switch b ↦ value | number n ↦ value ]
]

abbrev pub switch_or : Given → String → Bool → Bool
switch_or given name value = elim (given name) [
  | none ↦ value
  | some v ↦ elim v [ text s ↦ value | switch b ↦ b | number n ↦ value ]
]

abbrev pub number_or : Given → String → ℤ → ℤ
number_or given name value = elim (given name) [
  | none ↦ value
  | some v ↦ elim v [ text s ↦ value | switch b ↦ value | number n ↦ n ]
]

-- The variable of a flag after the parse: what its arguments say, else the value of the flag.
unfoldable pub text_flag : Given → String → List Flag → String
text_flag given name [] = ""
text_flag given name (string_var n value ∷ fs) =
    if n == name then text_or given name value else text_flag given name fs
text_flag given name (bool_var n value ∷ fs) = text_flag given name fs
text_flag given name (int_var n value ∷ fs) = text_flag given name fs

unfoldable pub switch_flag : Given → String → List Flag → Bool
switch_flag given name [] = false
switch_flag given name (string_var n value ∷ fs) = switch_flag given name fs
switch_flag given name (bool_var n value ∷ fs) =
    if n == name then switch_or given name value else switch_flag given name fs
switch_flag given name (int_var n value ∷ fs) = switch_flag given name fs

unfoldable pub number_flag : Given → String → List Flag → ℤ
number_flag given name [] = pos 0
number_flag given name (string_var n value ∷ fs) = number_flag given name fs
number_flag given name (bool_var n value ∷ fs) = number_flag given name fs
number_flag given name (int_var n value ∷ fs) =
    if n == name then number_or given name value else number_flag given name fs

-- The variables that SetupFlags binds.
unfoldable pub bound_base : Given → List Flag → BaseConfig
unfolding text_flag switch_flag number_flag
bound_base given flags = record {
  log = record {
    log_file = text_flag given "log-file" flags;
    log_level = text_flag given "log-level" flags;
    log_file_size = number_flag given "log-file-size" flags;
    log_file_count = number_flag given "log-file-count" flags;
    log_file_max_age = number_flag given "log-file-max-age" flags;
  };
  mqtt = record {
    broker = text_flag given "mqtt-conn-broker" flags;
    keep_alive = text_flag given "mqtt-conn-keep-alive" flags;
    disconnect_timeout = text_flag given "mqtt-conn-disconnect-timeout" flags;
    username = text_flag given "mqtt-conn-username" flags;
    password = text_flag given "mqtt-conn-password" flags;
    connect_timeout = text_flag given "mqtt-conn-connect-timeout" flags;
    acknowledge_timeout = text_flag given "mqtt-conn-ack-timeout" flags;
    subscribe_timeout = text_flag given "mqtt-conn-sub-timeout" flags;
    unsubscribe_timeout = text_flag given "mqtt-conn-unsub-timeout" flags;
    ca_cert = text_flag given "mqtt-conn-ca-cert" flags;
    cert = text_flag given "mqtt-conn-cert" flags;
    key = text_flag given "mqtt-conn-key" flags;
  };
  domain = text_flag given "domain" flags;
  things_enabled = switch_flag given "things-enabled" flags;
}

-- The variables that SetupAllUpdateManagerFlags binds, but for those of the agents.
unfoldable pub bound : Given → List Flag → ManagerConfig
unfolding bound_base text_flag switch_flag
bound given flags = record {
  base = bound_base given flags;
  reboot_enabled = switch_flag given "reboot-enabled" flags;
  reboot_after = text_flag given "reboot-after" flags;
  report_feedback_interval = text_flag given "report-feedback-interval" flags;
  current_state_delay = text_flag given "current-state-delay" flags;
  phase_timeout = text_flag given "phase-timeout" flags;
  owner_consent_timeout = text_flag given "owner-consent-timeout" flags;
}

-- The variables that setupAgentsConfigFlags binds.
unfoldable pub bound_agents : Given → List Flag → Agents → Agents
unfolding text_flag switch_flag
bound_agents given flags [] = []
bound_agents given flags ((name, agent) ∷ m) =
    (
      name,
      record agent {
        reboot_required = switch_flag given (cat agent.name "-reboot-required") flags;
        read_timeout = text_flag given (cat agent.name "-read-timeout") flags;
      },
    )
    ∷ bound_agents given flags m
