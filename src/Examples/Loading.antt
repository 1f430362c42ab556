-- ===== src/Examples/Loading.antt =====
-- The configuration of a program that is started with a file, a variable of the environment and an argument.
use update_manager.Base.{
  String, false, ◌≡◌, refl, ◌==◌, ◌⊎◌, none, some, List, [], ◌∷◌, string_eq, if◌then◌else◌, ◌&&◌,
}
use update_manager.Types.{CommandType}
use update_manager.Config.Agents.{named, new_default_agents_config}
use update_manager.Config.Flags.{Env}
use update_manager.Config.Binding.{Given, text}
use update_manager.Config.Loading.{
  Library, Settings, Texts, loads, Files, default_settings, parse_config_file_path,
  load_config_from_file, load_config,
}
use update_manager.Config.Loading.Precedence.{chosen, Comes, load_config-Comes}
use update_manager.Mqtt.Subscriber

abbrev env : Env
env = record {
  lookup_env = λ key. if key == "LOG_LEVEL" then some "DEBUG" else none;
  parse_bool = λ s. none;
  parse_int = λ s. none;
}

abbrev texts : Texts
texts = record {
  split = λ s. s ∷ [];
  trim_space = λ s. s;
  has_prefix = λ s p. s == "--config-file=um.json" && p == "--config-file=";
  variable = λ s. "CONTAINERS";
  command_of = λ s. CommandType.other s;
}

abbrev given : Given
given name = if name == "phase-timeout" then some (text "5m") else none

abbrev library : Library
library = record {
  parse = λ flags args name. if name == "config-file" then some (text "um.json") else none;
  parse_or_exit = λ flags args. some given;
}

abbrev args : List String
args = "--config-file=um.json" ∷ "--phase-timeout=5m" ∷ []

abbrev read : Settings
read = record (default_settings Subscriber.new_default_config) {
  owner_consent_commands = CommandType.update ∷ [];
}

abbrev files : Files String
files = record { read_file = λ path. some path; unmarshal = λ bytes cfg. some read }

abbrev started : Settings
started = record {
  manager = chosen env given read.manager;
  agents = some (
      ("containers", record { name = "containers"; reboot_required = false; read_timeout = "1m" })
      ∷ []);
  owner_consent_commands = CommandType.update ∷ [];
}

load_config_lem :
    load_config env texts library args files Subscriber.new_default_config ≡ loads started
unfolding load_config named new_default_agents_config
load_config_lem = refl

load_config-Comes_example :
    (cfg : Settings) × (((parse_config_file_path texts library args ≡ "")
        × (cfg ≡ default_settings Subscriber.new_default_config))
      ⊎ (load_config_from_file files
            (parse_config_file_path texts library args)
            (default_settings Subscriber.new_default_config)
          ≡ some cfg))
    × Comes env texts library args cfg started
load_config-Comes_example =
    load_config-Comes env texts library args files Subscriber.new_default_config started
      load_config_lem
