-- ===== src/Config/Agents.antt =====
-- The agents of the configuration: config/config_internal.go and the flag of the domains in
-- config/flags_internal.go. The functions of `strings` come as arguments.
use update_manager.Base.{
  String, Bool, true, false, ◌||◌, ◌==◌, Option, none, some, List, [], ◌∷◌, null, insert, erase,
  has_key, string_eq, if◌then◌else◌,
}
use Prim.Native.String.{◌++◌ as cat}
use update_manager.Types.{CommandType}
use update_manager.Config.{UpdateManagerConfig}

abbrev pub Agents : Type 0
Agents = List (String × UpdateManagerConfig)

abbrev pub Domains : Type 0
Domains = List (String × Bool)

abbrev pub new_agent : String → UpdateManagerConfig
new_agent name = record { name = name; reboot_required = false; read_timeout = "1m" }

unfoldable pub add_agent_config : Agents → String → Agents
add_agent_config config name = insert name (new_agent name) config

unfoldable pub new_default_agents_config : Agents
unfolding add_agent_config insert
new_default_agents_config = add_agent_config [] "containers"

-- `agent.Name = name` for every agent; the pointers of the map are distinct and not nil.
unfoldable pub name_agents : Agents → Agents
name_agents [] = []
name_agents ((name, agent) ∷ m) = (name, record agent { name = name }) ∷ name_agents m

-- The loop over the agents that deletes from both maps. `m` is the map that is left to range over.
unfoldable pub sweep : Agents → Agents → Domains → Agents × Domains
sweep [] agents domains = (agents, domains)
sweep ((name, agent) ∷ m) agents domains =
    if has_key name domains
    then sweep m agents (erase name domains)
    else sweep m (erase name agents) domains

unfoldable pub add_agents : Domains → Agents → Agents
add_agents [] agents = agents
add_agents ((name, listed) ∷ m) agents = add_agents m (add_agent_config agents name)

-- The agents before the domains are looked at; `none` is a nil map.
unfoldable pub named : Option Agents → Agents
named none = new_default_agents_config
named (some m) = name_agents m

unfoldable pub prepare_agents_config : Option Agents → Domains → Agents
prepare_agents_config agents domains =
    if null domains
    then named agents
    else let (kept, unknown) = sweep (named agents) (named agents) domains in
      add_agents unknown kept

module _ (split : String → List String) (trim_space : String → String) where
  unfoldable pub add_domains : List String → Domains → Domains
  add_domains [] result = result
  add_domains (d ∷ ds) result =
      let domain = trim_space d in
      add_domains ds (if domain == "" then result else insert domain true result)

  -- The list is the value that the flag, or else the variable DOMAINS, has. A nil map is the empty one.
  unfoldable pub parse_domains_flag : String → Domains
  parse_domains_flag list_domains =
      if list_domains == "" then [] else add_domains (split list_domains) []

  -- `command_of` is the conversion to the type CommandType of the text in upper case.
  unfoldable pub parse_commands : (String → CommandType) → List String → List CommandType
  parse_commands command_of [] = []
  parse_commands command_of (command ∷ cs) =
      let c = trim_space command in
      let rest = parse_commands command_of cs in if c == "" then rest else command_of c ∷ rest

  unfoldable pub parse_owner_consent_commands_flag :
      (String → CommandType) → String → List CommandType
  parse_owner_consent_commands_flag command_of list_commands =
      parse_commands command_of (split list_commands)

-- The arguments of the program that a flag takes; `has_prefix arg p` is strings.HasPrefix(arg, p).
unfoldable pub get_flag_args : (String → String → Bool) → String → List String → List String
get_flag_args has_prefix flag [] = []
get_flag_args has_prefix flag (arg ∷ args) =
    let flag1 = cat "-" flag in
    let flag2 = cat "--" flag in
    let rest = get_flag_args has_prefix flag args in
    if has_prefix arg (cat flag1 "=") || has_prefix arg (cat flag2 "=")
    then arg ∷ []
    else if arg == flag1 || arg == flag2
    then elim args [ [] ↦ rest | next ∷ more ↦ arg ∷ next ∷ [] ]
    else rest
