-- ===== src/Examples/Settings.antt =====
-- The agents of a configuration at concrete inputs.
use update_manager.Base.{
  ◌≡◌, refl, String, true, false, not, List, [], ◌∷◌, none, some, lookup, any, if◌then◌else◌,
  string_eq, ◌==◌,
}
use update_manager.Config.Agents.{
  Agents, named, name_agents, parse_domains_flag, prepare_agents_config,
}
use update_manager.Config.Preparation.{Distinct, parts, lists, or_new, parse_domains_flag-agents}

-- Two agents, of which the list of domains has one and another name.
abbrev agents : Agents
agents =
    ("containers", record { name = ""; reboot_required = true; read_timeout = "5s" })
    ∷ ("safety-app", record { name = ""; reboot_required = false; read_timeout = "" })
    ∷ []

abbrev split : String → List String
split s = "containers" ∷ "" ∷ "os" ∷ []

abbrev trim_space : String → String
trim_space s = s

named-Distinct : Distinct (named (some agents))
unfolding named name_agents
named-Distinct = (refl, (refl, tt))

parse_domains_flag-agents_example :
    lookup "os"
      (prepare_agents_config (some agents) (parse_domains_flag split trim_space "containers,,os"))
    ≡ (if not (any (λ d. not (trim_space d == "")) (parts split trim_space "containers,,os"))
        then lookup "os" (named (some agents))
        else if lists split trim_space (parts split trim_space "containers,,os") "os"
        then some (or_new "os" (lookup "os" (named (some agents))))
        else none)
parse_domains_flag-agents_example =
    parse_domains_flag-agents split trim_space (some agents) "containers,,os" "os" named-Distinct
