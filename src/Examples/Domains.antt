-- ===== src/Examples/Domains.antt =====
-- The managers of the domains, and what the aggregating manager makes of their answers, on small inputs.
use update_manager.Base.{
  ℕ, String, true, false, ◌≡◌, ◌≢◌, refl, ◌⊎◌, Option, none, some, List, [], ◌∷◌, returns, pos,
  string_eq, eq_iff, arith, All,
}
use mathlib.Core.List.Permᴰ
use update_manager.Types.{
  completed, DesiredStateFeedback, DesiredState, Inventory, SoftwareNode, SoftwareType, CommandType,
  DesiredStateCommand,
}
use update_manager.Util.{contains}
use update_manager.DomainManager.Clock.{IsUpTo}
use update_manager.DomainManager.Requests.Calls.{
  latest, IsFaithful, Serves, Ignores, fresh, steps-IsFaithful,
}
use update_manager.DomainManager.Requests
use update_manager.DomainManager.Requests.Calls
use update_manager.DomainManager.State.{
  CurrentState, Report, ComesFrom, is_outdated, handle_current_state, handle_reports,
  handle_reports-latest, begin_get, end_get, received,
}
use update_manager.DomainManager.State.Waiting.{answered, get-waits}
use update_manager.Orchestration.Inventories.Order.{IsSameGraph}
use update_manager.Orchestration.Manager.{UpdateManager, get}
use update_manager.Orchestration.Manager.Order.{get-IsSameGraph}

abbrev no_inventory : Inventory
no_inventory = record { hardware_nodes = []; software_nodes = []; associations = [] }

abbrev desired : DesiredState
desired = record { baselines = []; domains = [] }

abbrev final_feedback : DesiredStateFeedback
final_feedback = record { baseline = ""; status = completed; message = ""; actions = [] }

abbrev current : CurrentState
current = record { exp_activity_id = ""; receive_chan = none; inventory = none; timestamp = pos 0 }

abbrev report : ℕ → Report
report n = record { activity_id = ""; timestamp = pos n; inventory = no_inventory }

abbrev reported : CurrentState
reported = record {
  exp_activity_id = "";
  receive_chan = none;
  inventory = some no_inventory;
  timestamp = pos 7;
}

handle_reports-latest_example :
    All (λ r. IsUpTo r.timestamp (pos 7)) (report 5 ∷ report 7 ∷ report 6 ∷ [])
    × ComesFrom (report 5 ∷ report 7 ∷ report 6 ∷ []) current reported
unfolding handle_reports handle_current_state
handle_reports-latest_example =
    handle_reports-latest (report 5 ∷ report 7 ∷ report 6 ∷ []) current reported refl

get-waits_example :
    (t : CurrentState) × (handle_reports (report 5 ∷ []) (begin_get "activity" true current).0
      ≡ returns t)
    × (end_get received t ≡ none)
    × (((is_outdated (pos 7) t ≡ true)
          × (handle_current_state "activity" (pos 7) (some no_inventory) t ≡ returns (t, none)))
        ⊎ ((is_outdated (pos 7) t ≡ false)
            × ((u : CurrentState) × (handle_current_state "activity" (pos 7) (some no_inventory) t
                  ≡ returns (u, some ("activity", some no_inventory)))
                × (end_get received u ≡ some (answered (some no_inventory) (pos 7))))))
get-waits_example =
    get-waits "activity" current (report 5 ∷ []) (pos 7) (some no_inventory)
      (ground (arith, eq_iff "activity" "")) (ground (arith, eq_iff "" "activity"), tt)

abbrev download_command : DesiredStateCommand
download_command = record { command = CommandType.download; baseline = "" }

abbrev requests : List Calls.Call
requests =
    Calls.applies "first" desired none
    ∷ Calls.commands "first" download_command none
    ∷ Calls.applies "second" desired (some "not connected")
    ∷ Calls.commands "first" download_command none
    ∷ Calls.reports "first" final_feedback
    ∷ []

served : Requests.Manager
served = Calls.steps requests (fresh "containers")

steps-IsFaithful_example :
    IsFaithful served.sent
    × (((latest served.sent ≡ some "second")
          × Serves "containers" "second" download_command final_feedback served)
        ⊎ ((latest served.sent ≢ some "second")
            × Ignores "second" download_command none final_feedback served))
unfolding served
steps-IsFaithful_example =
    steps-IsFaithful "containers" requests "second" download_command none final_feedback

abbrev software : String → SoftwareNode
software id = record {
  node = record { id = id; version = ""; name = id; parameters = [] };
  type = SoftwareType.application;
}

abbrev inventory : String → Inventory
inventory id = record { hardware_nodes = []; software_nodes = software id ∷ []; associations = [] }

abbrev manager : UpdateManager
manager = record {
  name = "device";
  version = "1";
  cfg = record {
    domain = "device";
    agents = [];
    reboot_enabled = true;
    owner_consent_commands = [];
  };
  in_progress = false;
  activity_in_progress = "";
  domains_inventory = ("containers", inventory "old") ∷ ("self-update", inventory "os") ∷ [];
  has_callback = true;
  sent = [];
}

abbrev containers_answer : String × Option Inventory
containers_answer = ("containers", some (inventory "influxdb"))

abbrev files_answer : String × Option Inventory
files_answer = ("files", some (inventory "certificate"))

get-IsSameGraph_example : IsSameGraph (get (containers_answer ∷ files_answer ∷ []) manager) (
    get (files_answer ∷ containers_answer ∷ []) (record manager {
      domains_inventory = ("self-update", inventory "os") ∷ ("containers", inventory "old") ∷ [];
    }))
unfolding contains
get-IsSameGraph_example =
    get-IsSameGraph (containers_answer ∷ files_answer ∷ []) (files_answer ∷ containers_answer ∷ [])
      manager (("self-update", inventory "os") ∷ ("containers", inventory "old") ∷ [])
      (Permᴰ.swap refl refl) (refl, (refl, tt)) (Permᴰ.swap refl refl) (refl, (refl, tt))
