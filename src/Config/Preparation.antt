-- ===== src/Config/Preparation.antt =====
-- The agents that the configuration has in the end.
use update_manager.Base.{
  String, Bool, true, false, ◌≡◌, refl, ◌&&◌, ◌||◌, ◌==◌, not, Option, none, some, List, [], ◌∷◌,
  null, any, lookup, insert, erase, has_key, lookup-insert, lookup-erase, string_eq, if◌then◌else◌,
  arith, eq_iff,
}
use update_manager.Config.{UpdateManagerConfig}
use update_manager.Config.Agents.{
  add_agent_config, sweep, add_agents, named, prepare_agents_config, add_domains,
  parse_domains_flag, new_agent,
}

module _ {V : Type 0} where
  -- No key is twice in a map.
  abbrev pub Distinct : List (String × V) → Type 0
  Distinct [] = Unit
  Distinct ((k, v) ∷ m) = (has_key k m ≡ false) × Distinct m

-- What the loop over the agents leaves of them: those that it does not visit, and the domains.
sweep-lookup :
    (m agents : List (String × UpdateManagerConfig)) (domains : List (String × Bool)) (j : String)
    → Distinct m
    → (lookup j (sweep m agents domains).0
        ≡ (if has_key j m && not (has_key j domains) then none else lookup j agents))
      × (lookup j (sweep m agents domains).1 ≡ (if has_key j m then none else lookup j domains))
unfolding sweep
sweep-lookup [] agents domains j h = (refl, refl)
sweep-lookup ((k, v) ∷ m) agents domains j (fresh, h) = ground (
  arith,
  eq_iff k j,
  lookup-erase k j domains,
  lookup-erase k j agents,
  sweep-lookup m agents (erase k domains) j h,
  sweep-lookup m (erase k agents) domains j h,
)

add_agents-lookup :
    (m : List (String × Bool)) (agents : List (String × UpdateManagerConfig)) (j : String)
    → lookup j (add_agents m agents) ≡ (if has_key j m then some (new_agent j) else lookup j agents)
unfolding add_agents add_agent_config
add_agents-lookup [] agents j = refl
add_agents-lookup ((k, v) ∷ m) agents j = ground (
  arith,
  eq_iff k j,
  lookup-insert k j (new_agent k) agents,
  add_agents-lookup m (insert k (new_agent k) agents) j,
)

abbrev pub or_new : String → Option UpdateManagerConfig → UpdateManagerConfig
or_new name none = new_agent name
or_new name (some agent) = agent

prepare_agents_config-lookup :
    (agents : Option (List (String × UpdateManagerConfig))) (domains : List (String × Bool))
    (j : String)
    → Distinct (named agents)
    → lookup j (prepare_agents_config agents domains) ≡ (
        if null domains
        then lookup j (named agents)
        else if has_key j domains
        then some (or_new j (lookup j (named agents)))
        else none)
unfolding prepare_agents_config
prepare_agents_config-lookup agents domains j h =
    let (kept, unknown) = sweep (named agents) (named agents) domains in
    ground (
      arith,
      sweep-lookup (named agents) (named agents) domains j h,
      add_agents-lookup unknown kept j,
    )

module _ (split : String → List String) (trim_space : String → String) where
  -- A list of domains as it is written, and whether a name is in it.
  abbrev pub parts : String → List String
  parts list_domains = if list_domains == "" then [] else split list_domains

  abbrev pub lists : List String → String → Bool
  lists ds j = any (λ d. trim_space d == j && not (j == "")) ds

  add_domains-has_key :
      (ds : List String) (result : List (String × Bool)) (j : String)
      → has_key j (add_domains split trim_space ds result) ≡ (lists ds j || has_key j result)
  unfolding add_domains
  add_domains-has_key [] result j = refl
  add_domains-has_key (d ∷ ds) result j = ground (
    arith,
    eq_iff (trim_space d) j,
    eq_iff (trim_space d) "",
    eq_iff j "",
    lookup-insert (trim_space d) j true result,
    add_domains-has_key ds result j,
    add_domains-has_key ds (insert (trim_space d) true result) j,
  )

  null-insert : (k : String) (m : List (String × Bool)) → null (insert k true m) ≡ false
  unfolding insert
  null-insert k [] = refl
  null-insert k ((i, w) ∷ m) = ground arith

  add_domains-null :
      (ds : List String) (result : List (String × Bool))
      → null (add_domains split trim_space ds result)
        ≡ (not (any (λ d. not (trim_space d == "")) ds) && null result)
  unfolding add_domains
  add_domains-null [] result = refl
  add_domains-null (d ∷ ds) result = ground (
    arith,
    null-insert (trim_space d) result,
    add_domains-null ds result,
    add_domains-null ds (insert (trim_space d) true result),
  )

  -- Where the configuration names every agent once: if no part of the list of domains has a name, the agents
  -- are those of the configuration (the agent of the containers where it has none), each named by its key;
  -- otherwise they are the listed names, each with what the configuration says of it or with the default.
  pub parse_domains_flag-agents :
      (agents : Option (List (String × UpdateManagerConfig))) (list_domains j : String)
      → Distinct (named agents)
      → lookup j (prepare_agents_config agents (parse_domains_flag split trim_space list_domains))
        ≡ (if not (any (λ d. not (trim_space d == "")) (parts list_domains))
            then lookup j (named agents)
            else if lists (parts list_domains) j
            then some (or_new j (lookup j (named agents)))
            else none)
  unfolding parse_domains_flag
  parse_domains_flag-agents agents list_domains j h = ground (
    arith,
    add_domains-has_key (split list_domains) [] j,
    add_domains-null (split list_domains) [],
    prepare_agents_config-lookup agents (parse_domains_flag split trim_space list_domains) j h,
  )
