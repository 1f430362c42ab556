-- ===== src/Config/Loading.antt =====
-- LoadConfig and parseFlags of config, with LoadConfigFromFile and ParseConfigFilePath: the configuration that the
-- program runs with. The file, json and the package flag come as arguments.
pub mod Precedence
use update_manager.Base.{
  String, Bool, false, ◌==◌, Option, none, some, List, [], ◌∷◌, ◌++◌, string_eq, if◌then◌else◌,
}
use update_manager.Types.{CommandType}
use update_manager.Config.Agents.{
  Agents, prepare_agents_config, parse_domains_flag, parse_owner_consent_commands_flag,
  get_flag_args,
}
use update_manager.Config.Flags.{
  Env, env_to_string, Flag, string_var, bool_var, ManagerConfig, new_default_config,
  setup_all_update_manager_flags,
}
use update_manager.Config.Binding.{Given, text_flag, switch_flag, bound, bound_agents}
use update_manager.Mqtt.Subscriber.{ConnectionConfig}

-- FlagSet.Parse: what a set of flags takes from arguments, before an error if there is one; and with
-- ExitOnError, where `none` is the exit of the program.
pub record Library : Type 0 where
  pub parse : List Flag → List String → Given
  pub parse_or_exit : List Flag → List String → Option Given

-- Config, with a nil map of agents as `none`.
pub record Settings : Type 0 where
  pub manager : ManagerConfig
  pub agents : Option Agents
  pub owner_consent_commands : List CommandType

-- What the program goes on with.
pub data Loaded : Type 0 where
  -- An error of the file.
  fails : Loaded
  -- The version is printed, or the arguments are refused.
  exits : Loaded
  loads : Settings → Loaded

-- The functions of `strings`, and the conversion to CommandType of a text in upper case.
pub record Texts : Type 0 where
  pub split : String → List String
  pub trim_space : String → String
  pub has_prefix : String → String → Bool
  pub variable : String → String
  pub command_of : String → CommandType

-- The flags of the program.
unfoldable pub all_flags : Env → (String → String) → ManagerConfig → Agents → List Flag
unfolding setup_all_update_manager_flags
all_flags env variable manager agents =
    setup_all_update_manager_flags env variable manager agents
    ++ bool_var "version" false ∷ string_var "owner-consent-commands" "" ∷ []

-- The end of parseFlags, after the arguments are parsed.
unfoldable pub settings_of : Texts → Agents → List Flag → List CommandType → Given → Loaded
unfolding bound bound_agents parse_owner_consent_commands_flag
settings_of x agents flags commands given =
    let list_commands = text_flag given "owner-consent-commands" flags in
    if switch_flag given "version" flags
    then exits
    else loads (record {
      manager = bound given flags;
      agents = some (bound_agents given flags agents);
      owner_consent_commands =
          if list_commands == ""
          then commands
          else parse_owner_consent_commands_flag x.split x.trim_space x.command_of list_commands;
    })

module _ (x : Texts) (library : Library) (args : List String) where
  -- The value of one flag that is looked for before the others.
  unfoldable pub early_flag : String → String → String
  unfolding text_flag get_flag_args
  early_flag name value =
      text_flag (library.parse (string_var name value ∷ []) (get_flag_args x.has_prefix name args))
        name (string_var name value ∷ [])

  unfoldable pub parse_config_file_path : String
  unfolding early_flag
  parse_config_file_path = early_flag "config-file" ""

  unfoldable pub parse_flags : Env → Settings → Loaded
  unfolding early_flag parse_domains_flag prepare_agents_config all_flags settings_of
  parse_flags env cfg =
      let list_domains = early_flag "domains" (env_to_string env "DOMAINS" "") in
      let agents =
        prepare_agents_config cfg.agents (parse_domains_flag x.split x.trim_space list_domains) in
      let flags = all_flags env x.variable cfg.manager agents in
      elim (library.parse_or_exit flags args) [
        | none ↦ exits
        | some given ↦ settings_of x agents flags cfg.owner_consent_commands given
      ]

-- os.ReadFile and json.Unmarshal into a configuration; `none` is an error.
pub record Files (Bytes : Type 0) : Type 0 where
  pub read_file : String → Option Bytes
  pub unmarshal : Bytes → Settings → Option Settings

unfoldable pub load_config_from_file :
    {Bytes : Type 0} → Files Bytes → String → Settings → Option Settings
load_config_from_file files path config = elim (files.read_file path) [
  | none ↦ none
  | some bytes ↦ files.unmarshal bytes config
]

abbrev pub default_settings : ConnectionConfig → Settings
default_settings connection = record {
  manager = new_default_config connection;
  agents = none;
  owner_consent_commands = [];
}

unfoldable pub load_config :
    {Bytes : Type 0} → Env → Texts → Library → List String → Files Bytes → ConnectionConfig → Loaded
unfolding parse_config_file_path load_config_from_file parse_flags
load_config env x library args files connection =
    let path = parse_config_file_path x library args in
    if path == ""
    then parse_flags x library args env (default_settings connection)
    else elim (load_config_from_file files path (default_settings connection)) [
      | none ↦ fails
      | some cfg ↦ parse_flags x library args env cfg
    ]
