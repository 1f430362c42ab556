-- ===== src/Examples/Updating.antt =====
-- A whole update of two domains, whose agents report in another order in each phase.
use update_manager.Base.{
  String, true, false, ◌≡◌, refl, none, some, List, [], ◌∷◌, ◌++◌, All, insert, string_eq,
}
use update_manager.Types.{StatusType, CommandType, Action, ActionStatusType, DesiredState}
use update_manager.Types.Split.{split_per_domains, state_for, get_baselines_for_domain}
use update_manager.Util.{contains}
use update_manager.Orchestration.Operation.{Agent, UpdateOperation, new_update_operation}
use update_manager.Orchestration.Signals.{Texts}
use update_manager.Orchestration.Feedback.{UpdateOrchestrator, session}
use update_manager.Orchestration.System.{System}
use update_manager.Orchestration.System.Journey.{Run, Reports, IsOrder}
use update_manager.Orchestration.Apply.{Turn, apply_loop}
use update_manager.Orchestration.System.Turns.{results}
use update_manager.Orchestration.System.Simulation.{IsSeen}
use update_manager.Orchestration.System.Outcome.{
  Orders, course, all_handlers, Succeeds, orders-Succeeds,
}

abbrev texts : Texts
texts = record { phase_timeout = "10m0s"; errorf = λ m. m }

abbrev orchestrator : UpdateOrchestrator
orchestrator = record {
  cfg = record {
    domain = "device";
    agents = [];
    reboot_enabled = true;
    owner_consent_commands = CommandType.update ∷ CommandType.activate ∷ [];
  };
  operation = none;
  sent = [];
}

abbrev agents : List (String × Agent)
agents =
    ("containers", record { pointer = 1; name = "containers" })
    ∷ ("files", record { pointer = 2; name = "files" })
    ∷ []

abbrev desired : DesiredState
desired = record {
  baselines = [];
  domains =
      record { id = "containers"; config = []; components = [] }
      ∷ record { id = "files"; config = []; components = [] }
      ∷ [];
}

abbrev state_of : String → DesiredState
state_of name = record {
  baselines = [];
  domains = record { id = name; config = []; components = [] } ∷ [];
}

abbrev operation : UpdateOperation
operation = record {
  activity_id = "activity";
  status = StatusType.identifying;
  delayed_status = StatusType.other "";
  delayed_err_msg = "";
  domains = ("containers", StatusType.identifying) ∷ ("files", StatusType.identifying) ∷ [];
  actions = [];
  desired_state = some desired;
  states_per_domain =
      (1, (record { pointer = 1; name = "containers" }, state_of "containers"))
      ∷ (2, (record { pointer = 2; name = "files" }, state_of "files"))
      ∷ [];
  command_channels = record { download = none; update = none; activate = none; cleanup = none };
  done = none;
  err_chan = none;
  err_msg = "";
  owner_consented = none;
  rollback_chan = none;
  reboot_required = false;
}

operation_lem : new_update_operation agents "activity" desired ≡ some operation
unfolding new_update_operation insert split_per_domains state_for get_baselines_for_domain
operation_lem = refl

abbrev actions : List Action
actions =
    record {
      component = some (record { id = "influxdb"; version = "2" });
      status = ActionStatusType.identified;
      progress = 0;
      message = "";
    }
    ∷ []

abbrev containers_first : Reports
containers_first = ("files", actions) ∷ ("containers", actions) ∷ []

abbrev files_first : Reports
files_first = ("containers", actions) ∷ ("files", actions) ∷ []

containers_first-IsOrder : IsOrder ("containers" ∷ "files" ∷ []) containers_first
unfolding contains
containers_first-IsOrder = record {
  distinct = (refl, (refl, tt));
  within = (refl, (refl, tt));
  covers = (refl, (refl, tt));
  sound = (((_, refl), tt), (((_, refl), tt), tt));
}

files_first-IsOrder : IsOrder ("containers" ∷ "files" ∷ []) files_first
unfolding contains
files_first-IsOrder = record {
  distinct = (refl, (refl, tt));
  within = (refl, (refl, tt));
  covers = (refl, (refl, tt));
  sound = (((_, refl), tt), (((_, refl), tt), tt));
}

abbrev orders : Orders ("containers" ∷ "files" ∷ [])
orders = record {
  identification = files_first;
  downloads = containers_first;
  updates = files_first;
  activations = containers_first;
  cleanups = containers_first;
  identification_IsOrder = files_first-IsOrder;
  downloads_IsOrder = containers_first-IsOrder;
  updates_IsOrder = files_first-IsOrder;
  activations_IsOrder = containers_first-IsOrder;
  cleanups_IsOrder = containers_first-IsOrder;
  have_actions = (refl, (refl, tt));
}

orders-Succeeds_example :
    (t : System) × Run texts (session orchestrator operation) (course orchestrator.cfg orders) t
    × Succeeds ("containers" ∷ "files" ∷ []) t
    × ((turns : List Turn) × All (IsSeen texts (session orchestrator operation)) turns
        × ((more : List Turn)
            → results (apply_loop texts (session orchestrator operation) (turns ++ more))
              ≡ some (t.session.op.reboot_required, none, all_handlers)))
orders-Succeeds_example =
    orders-Succeeds texts agents "activity" desired operation orchestrator operation_lem orders
