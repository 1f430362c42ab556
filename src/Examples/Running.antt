-- ===== src/Examples/Running.antt =====
-- The goroutines of an update of one domain, up to the command UPDATE; and a whole life of a domain.
use update_manager.Base.{
  All, ◌++◌, ◌*◌, ◌≤◌, String, true, false, ◌≡◌, refl, inl, inr, none, some, List, [], ◌∷◌, returns,
  lookup, insert, keys, length, string_eq,
}
use update_manager.Types.{
  StatusType, identified, download_success, update_success, activation_success, cleanup_success,
  CommandType, command_beq, status_beq, ActionStatusType, DesiredState,
}
use update_manager.Types.Split.{split_per_domains, state_for, get_baselines_for_domain}
use update_manager.Util.{contains}
use update_manager.Orchestration.Operation.{
  Agent, UpdateOperation, new_update_operation, generate_command_channels,
}
use update_manager.Orchestration.Session.{
  Session, status_of, command_agent, domain_update_running, notify_feedback,
}
use update_manager.Orchestration.Feedback.{
  UpdateOrchestrator, session, Event, status_handler, store_actions, update_actions, handle_event,
  handle_events,
}
use update_manager.Orchestration.Feedback.Identification.{end_identification}
use update_manager.Orchestration.Feedback.Phases.{signal_running}
use update_manager.Orchestration.Feedback.Completion.{domain_update_completed}
use update_manager.Orchestration.Feedback.Barrier.{NoneBefore}
use update_manager.Orchestration.Feedback.Changes.{Runs, Runs-le}
use update_manager.Orchestration.Feedback.Lifecycle.{Past, Reaches, handle_events-Reaches}
use update_manager.Orchestration.Consent.{
  Owner, received, get_owner_consent, handle_command_signal, execute_on,
}
use update_manager.Orchestration.Signals.{Texts, signalled, wait_command_signal, wait_signal}
use update_manager.Orchestration.Apply.{Turn, apply_loop, start_apply}
use update_manager.Orchestration.System.{
  over, ends, System, event, handles, wakes, Reach, starts, then_step,
}
use update_manager.Orchestration.System.Events.{tells}
use update_manager.Orchestration.System.Simulation.{IsSeen, Reach-apply_loop}
use update_manager.Orchestration.System.Turns.{results}
use update_manager.Orchestration.System.Safety.{Reach-NoneBefore}

abbrev texts : Texts
texts = record { phase_timeout = "10m0s"; errorf = λ m. m }

abbrev owner : Owner
owner = record {
  available = false;
  start_error = none;
  send_error = none;
  answer = received;
  timeout_text = "30m";
}

abbrev orchestrator : UpdateOrchestrator
orchestrator = record {
  cfg = record {
    domain = "device";
    agents = [];
    reboot_enabled = true;
    owner_consent_commands = [];
  };
  operation = none;
  sent = [];
}

abbrev agents : List (String × Agent)
agents = ("containers", record { pointer = 1; name = "containers" }) ∷ []

abbrev desired : DesiredState
desired = record {
  baselines = [];
  domains = record { id = "containers"; config = []; components = [] } ∷ [];
}

abbrev operation : UpdateOperation
operation = record {
  activity_id = "activity";
  status = StatusType.identifying;
  delayed_status = StatusType.other "";
  delayed_err_msg = "";
  domains = ("containers", StatusType.identifying) ∷ [];
  actions = [];
  desired_state = some desired;
  states_per_domain = (1, (record { pointer = 1; name = "containers" }, desired)) ∷ [];
  command_channels = record { download = none; update = none; activate = none; cleanup = none };
  done = none;
  err_chan = none;
  err_msg = "";
  owner_consented = none;
  rollback_chan = none;
  reboot_required = false;
}

operation_lem : new_update_operation agents "activity" desired ≡ some operation
unfolding new_update_operation insert split_per_domains state_for get_baselines_for_domain
operation_lem = refl

abbrev containers_event : StatusType → Event
containers_event status = record {
  domain = "containers";
  status = status;
  message = "";
  actions =
      record {
        component = some (record { id = "influxdb"; version = "2" });
        status = ActionStatusType.identified;
        progress = 0;
        message = "";
      }
      ∷ [];
}

-- Identified, DOWNLOAD, downloaded, UPDATE.
to_update :
    (t : System) × Reach texts (session orchestrator operation) t
    × (tells CommandType.update t.session.sent ≡ true)
unfolding handle_event update_actions store_actions status_handler signal_running end_identification
    domain_update_running insert status_beq command_beq command_agent notify_feedback start_apply
    wait_command_signal wait_signal handle_command_signal get_owner_consent execute_on contains
to_update = (
  _,
  then_step
      (then_step
        (then_step
          (then_step
            (then_step (then_step starts (event (containers_event identified) _ refl refl refl))
              (wakes CommandType.download signalled _ refl refl refl))
            (handles owner [] [] CommandType.download _ refl refl refl))
          (event (containers_event download_success) _ refl refl refl))
        (wakes CommandType.update signalled _ refl refl refl))
      (handles owner [] [] CommandType.update _ refl refl refl),
  refl,
)

Reach-NoneBefore_example : NoneBefore CommandType.update to_update.0.session
Reach-NoneBefore_example =
    Reach-NoneBefore texts agents "activity" desired operation orchestrator to_update.0
      CommandType.update operation_lem refl to_update.1 (inr refl) to_update.2

abbrev begun : Session
begun = session orchestrator (record {
  activity_id = "activity";
  status = StatusType.running;
  delayed_status = StatusType.other "";
  delayed_err_msg = "";
  domains = ("containers", StatusType.identified) ∷ [];
  actions = [];
  desired_state = some desired;
  states_per_domain = (1, (record { pointer = 1; name = "containers" }, desired)) ∷ [];
  command_channels = generate_command_channels;
  done = none;
  err_chan = none;
  err_msg = "";
  owner_consented = none;
  rollback_chan = none;
  reboot_required = false;
})

-- Downloaded, updated, activated, cleaned: each of the four events changes the status.
life : (t : Session) × Runs begun 4 t
unfolding handle_event update_actions store_actions status_handler signal_running
    domain_update_running domain_update_completed insert status_beq command_beq command_agent
    notify_feedback generate_command_channels
life = (
  _,
  Runs.changes
      (Runs.changes
        (Runs.changes
          (Runs.changes Runs.starts (containers_event download_success) refl refl (λ e. cc))
          (containers_event update_success) refl refl (λ e. cc))
        (containers_event activation_success) refl refl (λ e. cc))
      (containers_event cleanup_success) refl refl (λ e. cc),
)

Runs-le_example : 4 ≤ 4 * length (keys begun.op.domains)
Runs-le_example = Runs-le begun life.0 4 (inl refl) life.1

-- The status of the domain after a download and an update, read from the handlers.
updated :
    (t : Session) × (handle_events
        (containers_event download_success ∷ containers_event update_success ∷ [])
        begun
      ≡ returns t)
    × (lookup "containers" t.op.domains ≡ some StatusType.update_success)
unfolding handle_events handle_event update_actions store_actions status_handler signal_running
    domain_update_running domain_update_completed insert status_beq command_beq command_agent
    notify_feedback generate_command_channels
updated = (_, refl, refl)

handle_events-Reaches_example :
    Reaches (status_of "containers" begun) (status_of "containers" updated.0) × Past updated.0
handle_events-Reaches_example =
    handle_events-Reaches (containers_event download_success ∷ containers_event update_success ∷ [])
      begun updated.0 "containers" (inl refl) updated.1

-- The same run to its end: updated, ACTIVATE, activated, CLEANUP, cleaned.
to_end : (t : System) × Reach texts (session orchestrator operation) t × (t.pc ≡ over false none)
unfolding handle_event update_actions store_actions status_handler signal_running end_identification
    domain_update_running domain_update_completed insert status_beq command_beq command_agent
    notify_feedback start_apply wait_command_signal wait_signal handle_command_signal
    get_owner_consent execute_on contains to_update
to_end = (
  _,
  then_step
      (then_step
        (then_step
          (then_step
            (then_step
              (then_step
                (then_step
                  (then_step to_update.1 (event (containers_event update_success) _ refl refl refl))
                  (wakes CommandType.activate signalled _ refl refl refl))
                (handles owner [] [] CommandType.activate _ refl refl refl))
              (event (containers_event activation_success) _ refl refl refl))
            (wakes CommandType.cleanup signalled _ refl refl refl))
          (handles owner [] [] CommandType.cleanup _ refl refl refl))
        (event (containers_event cleanup_success) _ refl refl refl))
      (ends signalled _ refl refl refl),
  refl,
)

Reach-apply_loop_example :
    (turns : List Turn) × All (IsSeen texts (session orchestrator operation)) turns
    × ((more : List Turn)
        → results (apply_loop texts (session orchestrator operation) (turns ++ more))
          ≡ some (false, none, to_end.0.spawned))
Reach-apply_loop_example =
    Reach-apply_loop texts (session orchestrator operation) to_end.0 false none to_end.1 to_end.2
