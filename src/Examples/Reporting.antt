-- ===== src/Examples/Reporting.antt =====
-- The data types, the agent, the domain's manager and the aggregating manager on small inputs.
use update_manager.Base.{
  String, Bool, true, false, ◌≡◌, refl, ◌↔◌, none, some, List, [], ◌∷◌, Eq, lookup, pos, string_eq,
  eq_iff, arith, str_eq,
}
use native.Mathlib.Decide.{ℕ_discrete}
use update_manager.Types.{
  completed, Action, ActionStatusType, DesiredStateFeedback, DesiredState, Domain, Inventory,
  SoftwareNode, SoftwareType, KeyValuePair,
}
use update_manager.Types.Split.{state_for, split_per_domains, last_domain, split_per_domains-lookup}
use update_manager.Agent.FeedbackNotifier.{IsCurrent, new_feedback_notifier, steps-new-IsCurrent}
use update_manager.Agent.FeedbackNotifier
use update_manager.Agent.Callbacks.{
  UpdateAgent, Sent, state_fires, handle_current_state_event, handle_current_state_events,
  state_fires-coalesced,
}
use update_manager.Orchestration.Inventories.{
  to_full_inventory, all_associations, to_full_inventory-contents,
}
use update_manager.Orchestration.Manager.{
  UpdateManager, Call, Alternates, current_activity, steps-Alternates,
}
use update_manager.Orchestration.Manager

decide_by : {A : Type 0} (b : Bool) → ((b ≡ true) ↔ A) → Dec A
decide_by true h = yes (h.0 refl)
decide_by false h = no (λ a. ground (arith, h.1 a))

string_discrete : Discrete String
string_discrete a b = decide_by (str_eq a b) (eq_iff a b)

actions_discrete : Discrete (List Action)
actions_discrete = hlevel (string_discrete, ℕ_discrete)

abbrev is_yes : {A : Type 0} → Dec A → Bool
is_yes (yes a) = true
is_yes (no n) = false

is_yes_iff : {A : Type 0} (d : Dec A) → (is_yes d ≡ true) ↔ A
is_yes_iff (yes a) = (λ _. a, λ _. refl)
is_yes_iff (no n) = (λ e. cc, λ a. absurd (n a))

-- `reflect.DeepEqual`
instance abbrev actions_eq : Eq (List Action)
actions_eq = record {
  test = λ a b. is_yes (actions_discrete a b);
  agrees = λ a b. is_yes_iff (actions_discrete a b);
}

abbrev containers : Domain
containers = record { id = "containers"; config = []; components = [] }

abbrev desired : DesiredState
desired = record {
  baselines =
      record {
        title = "base";
        description = "";
        preconditions = "";
        components = "containers:influxdb" ∷ "self-update:os" ∷ [];
      }
      ∷ [];
  domains = containers ∷ record { id = "self-update"; config = []; components = [] } ∷ [];
}

split_per_domains-lookup_example :
    lookup "containers" (split_per_domains desired) ≡ some (state_for desired containers)
unfolding last_domain
split_per_domains-lookup_example = split_per_domains-lookup desired "containers"

abbrev no_inventory : Inventory
no_inventory = record { hardware_nodes = []; software_nodes = []; associations = [] }

abbrev actions : ActionStatusType → List Action
actions status =
    record {
      component = some (record { id = "influxdb"; version = "2" });
      status = status;
      progress = 50;
      message = "";
    }
    ∷ []

abbrev notifier_calls : List FeedbackNotifier.Call
notifier_calls =
    FeedbackNotifier.sets "activity" (actions ActionStatusType.downloading)
    ∷ FeedbackNotifier.sets "activity" (actions ActionStatusType.updating)
    ∷ FeedbackNotifier.stops
    ∷ FeedbackNotifier.sets "next" (actions ActionStatusType.downloading)
    ∷ FeedbackNotifier.sets "next" (actions ActionStatusType.updating)
    ∷ FeedbackNotifier.fires
    ∷ []

steps-new-IsCurrent_example : IsCurrent (some (actions ActionStatusType.updating)) (
    FeedbackNotifier.steps notifier_calls
      (record { notifier = new_feedback_notifier (pos 60); published = [] }))
steps-new-IsCurrent_example = steps-new-IsCurrent (pos 60) notifier_calls

abbrev agent : UpdateAgent
agent = record {
  feedback_interval = pos 60;
  current_state_delay = pos 30;
  feedback_notifier = none;
  state_notifier = none;
  sent = [];
}

abbrev final_feedback : DesiredStateFeedback
final_feedback = record { baseline = ""; status = completed; message = ""; actions = [] }

-- An agent whose timer runs, with actions that it has not reported.
abbrev reporting : UpdateAgent
reporting = record agent {
  feedback_notifier = some (record {
    internal_timer = true;
    interval = pos 60;
    activity_id = "activity";
    actions = actions ActionStatusType.updating;
    reported_actions = actions ActionStatusType.downloading;
  });
}

state_fires-coalesced_example :
    (state_fires (
      handle_current_state_event ""
        (some no_inventory)
        (handle_current_state_events (none ∷ none ∷ []) agent))).sent
    ≡ Sent.current_state "" (some no_inventory) ∷ []
state_fires-coalesced_example =
    state_fires-coalesced (none ∷ none ∷ []) (some no_inventory) agent refl

abbrev software : String → List KeyValuePair → SoftwareNode
software id parameters = record {
  node = record { id = id; version = ""; name = id; parameters = parameters };
  type = SoftwareType.application;
}

abbrev root : SoftwareNode
root = software "containers-agent" (record { key = "domain"; value = "containers" } ∷ [])

abbrev domain_inventory : Inventory
domain_inventory = record {
  hardware_nodes = [];
  software_nodes = software "influxdb" [] ∷ root ∷ [];
  associations = record { source_id = "containers-agent"; target_id = "influxdb" } ∷ [];
}

abbrev inventories : List (String × Inventory)
inventories = ("containers", domain_inventory) ∷ ("self-update", no_inventory) ∷ []

to_full_inventory-contents_example :
    ((to_full_inventory root inventories).software_nodes
      ≡ root ∷ software "influxdb" [] ∷ root ∷ [])
    × ((to_full_inventory root inventories).hardware_nodes ≡ [])
    × ((to_full_inventory root inventories).associations ≡ all_associations root inventories)
to_full_inventory-contents_example = to_full_inventory-contents root inventories

abbrev manager : UpdateManager
manager = record {
  name = "device";
  version = "1";
  cfg = record {
    domain = "device";
    agents = [];
    reboot_enabled = true;
    owner_consent_commands = [];
  };
  in_progress = false;
  activity_in_progress = "";
  domains_inventory = [];
  has_callback = true;
  sent = [];
}

abbrev calls : List Call
calls =
    Manager.begins "first"
    ∷ Manager.begins "second"
    ∷ Manager.ends "first" true (("containers", some domain_inventory) ∷ [])
    ∷ Manager.begins "third"
    ∷ []

steps-Alternates_example :
    Alternates (current_activity (Manager.steps calls manager)) (Manager.steps calls manager).sent
steps-Alternates_example = steps-Alternates calls manager refl refl
