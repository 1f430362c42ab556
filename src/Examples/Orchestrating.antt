-- ===== src/Examples/Orchestrating.antt =====
-- The orchestrator on an update of two domains.
use update_manager.Base.{
  String, Bool, true, false, ◌≡◌, refl, ◌≢◌, ◌⊎◌, inl, Option, none, some, List, [], ◌∷◌, All, map,
  length, ◌≤◌, Outcome, returns, blocks, panics, lookup, insert, keys, string_eq, eq_iff, arith,
}
use update_manager.Types.{
  StatusType, identified, running, incomplete, completed, download_success, download_failure,
  cleanup_success, activation_success, no_status, status_eq, status_beq, CommandType, command_beq,
  Action, ActionStatusType,
}
use update_manager.Util.{contains}
use update_manager.Config.{Config}
use update_manager.Orchestration.Operation.{UpdateOperation, CommandChannels}
use update_manager.Orchestration.Session.{
  Session, Effect, consent_start, consent_stop, consent_request, domain_update_running,
  notify_feedback, command_agent, get_domain_agent, set_command_chan,
}
use update_manager.Orchestration.Feedback.{
  Event, status_handler, store_actions, update_actions, handle_event, handle_events,
}
use update_manager.Orchestration.Feedback.Identification.{end_identification}
use update_manager.Orchestration.Feedback.Phases.{signal_running}
use update_manager.Orchestration.Feedback.Completion.{domain_update_completed}
use update_manager.Orchestration.Consent.{
  Owner, received, get_owner_consent, handle_command_signal, execute_on,
}
use update_manager.Orchestration.Consent.Commands.{
  Goes, RollsBack, Fails, handle_command_signal-instructs,
}
use update_manager.Orchestration.Consent.Laws.{get_owner_consent-granted}
use update_manager.Orchestration.Signals.{
  Texts, Source, timed_out, signalled, rolled_back, wait_signal, wait_command_signal,
}
use update_manager.Orchestration.Apply.{
  Turn, Loop, Applied, wait_turn, rounds, await_done, apply_loop, start_apply,
}
use update_manager.Orchestration.Apply.Order.{Falls, apply_loop-order, rounds-rolled_back}
use update_manager.Orchestration.Apply.Progress.{IsAwaited, IsServed, apply_loop-ends}
use update_manager.Orchestration.Feedback.Barrier.{NoneBefore, handle_event-barrier}
use update_manager.Orchestration.Feedback.Ending.{
  IsDone, handle_event-done, handle_events-not_completed,
}
use update_manager.Orchestration.Feedback.Frame.{handle_event-frame}
use update_manager.Orchestration.Feedback.Blocking.{handle_event-ne-blocks}
use update_manager.Orchestration.Feedback.Stall.{IsStalled, handle_events-update_silent}

abbrev config : Config
config = record {
  domain = "device";
  agents = [];
  reboot_enabled = true;
  owner_consent_commands = CommandType.update ∷ [];
}

abbrev operation : StatusType → List (String × StatusType) → UpdateOperation
operation status domains = record {
  activity_id = "activity";
  status = status;
  delayed_status = no_status;
  delayed_err_msg = "";
  domains = domains;
  actions = [];
  desired_state = none;
  states_per_domain = [];
  command_channels = record { download = none; update = none; activate = none; cleanup = none };
  done = none;
  err_chan = none;
  err_msg = "";
  owner_consented = none;
  rollback_chan = none;
  reboot_required = false;
}

abbrev at : StatusType → List (String × StatusType) → Session
at status domains = record { cfg = config; op = operation status domains; sent = [] }

abbrev containers_action : Action
containers_action = record {
  component = some (record { id = "influxdb"; version = "2" });
  status = ActionStatusType.download_success;
  progress = 100;
  message = "";
}

-- What a call returned.
abbrev result_or : Session → Outcome Session → Session
result_or s (returns t) = t
result_or s blocks = s
result_or s panics = s

abbrev applied_or : Option Applied → Applied
applied_or none = record { reboot = false; err = none; now = at running []; spawned = [] }
applied_or (some r) = r

abbrev loop_or : Loop → Option Loop → Loop
loop_or l none = l
loop_or l (some l') = l'

-- One event; a test that unfolds it runs every handler.
play : String → StatusType → Session → Session
unfolding handle_event update_actions store_actions status_handler signal_running end_identification
    domain_update_completed domain_update_running insert status_beq command_agent
play d status s = result_or s (handle_event d status "" (containers_action ∷ []) s)

-- The same through `handle_events`.
play_all : List Event → Session → Session
unfolding handle_events play
play_all es s = result_or s (handle_events es s)

abbrev event : String → StatusType → Event
event d status = record {
  domain = d;
  status = status;
  message = "";
  actions = containers_action ∷ [];
}

abbrev downloading : Session
downloading = at running (("containers", identified) ∷ ("self-update", download_success) ∷ [])

handle_event-barrier_example :
    ((play "containers" download_success downloading).op.status ≡ running)
    × NoneBefore CommandType.update (play "containers" download_success downloading)
unfolding play
handle_event-barrier_example =
    handle_event-barrier CommandType.update "containers" download_success ""
      (containers_action ∷ []) downloading (play "containers" download_success downloading) refl
      refl refl

handle_event-frame_example :
    (lookup "self-update" (play "containers" download_success downloading).op.domains
      ≡ some download_success)
    × (keys (play "containers" download_success downloading).op.domains
        ≡ "containers" ∷ "self-update" ∷ [])
unfolding play
handle_event-frame_example =
    handle_event-frame "containers" "self-update" download_success "" (containers_action ∷ [])
      downloading (play "containers" download_success downloading) refl
      (ground (arith, eq_iff "containers" "self-update")) refl

cleaning : Session
cleaning = at running (("containers", activation_success) ∷ ("self-update", cleanup_success) ∷ [])

handle_event-done_example : IsDone (play "containers" cleanup_success cleaning)
unfolding play cleaning
handle_event-done_example =
    handle_event-done "containers" cleanup_success "" (containers_action ∷ []) cleaning
      (play "containers" cleanup_success cleaning) refl refl refl

-- A failed download, noted for the end; the other domain goes on.
abbrev failing : Session
failing = let s = downloading in record s { op = record (s.op) { delayed_status = incomplete } }

abbrev failing_events : List Event
failing_events = event "containers" download_failure ∷ event "containers" cleanup_success ∷ []

handle_events-not_completed_example :
    ((play_all failing_events failing).op.status ≢ completed)
    × (((play_all failing_events failing).op.status ≡ running)
        ⊎ ((play_all failing_events failing).op.status ≡ incomplete))
unfolding play_all
handle_events-not_completed_example =
    handle_events-not_completed failing_events failing (play_all failing_events failing) refl refl
      refl

handle_event-ne-blocks_example :
    handle_event "containers" download_success "" (containers_action ∷ []) downloading ≢ blocks
handle_event-ne-blocks_example =
    handle_event-ne-blocks "containers" download_success "" (containers_action ∷ []) downloading
      refl

-- The last domain of the download phase has failed, after the other one had succeeded.
abbrev stalled : Session
stalled = at running (("containers", download_failure) ∷ ("self-update", download_success) ∷ [])

stalled-IsStalled : IsStalled stalled
unfolding status_beq
stalled-IsStalled = record { past = inl refl; left = refl; silent = refl }

abbrev late_events : List Event
late_events = event "containers" cleanup_success ∷ event "self-update" download_success ∷ []

handle_events-update_silent_example :
    (play_all late_events stalled).op.command_channels.update ≡ none
unfolding play_all
handle_events-update_silent_example =
    handle_events-update_silent late_events stalled (play_all late_events stalled) stalled-IsStalled
      refl

-- The handler of UPDATE after every domain was downloaded, with an owner who answers.
abbrev owner : Owner
owner = record {
  available = true;
  start_error = none;
  send_error = none;
  answer = received;
  timeout_text = "30m";
}

abbrev asked : Bool → Session
asked approved =
    let s = at running (("containers", download_success) ∷ []) in
    record s { op = record (s.op) { owner_consented = some approved } }

abbrev answered : Session → List Effect → Session
answered s sent = record { cfg = s.cfg; op = record (s.op) { owner_consented = none }; sent = sent }

abbrev requests : List Effect
requests =
    consent_stop
    ∷ consent_request "activity" (record { command = CommandType.update })
    ∷ consent_start
    ∷ []

get_owner_consent-granted_example :
    (owner.available ≡ true)
    × ((asked true).op.owner_consented ≡ some true)
    × ((answered (asked true) requests).op.owner_consented ≡ none)
    × ((answered (asked true) requests).sent ≡ requests)
unfolding get_owner_consent contains command_beq
get_owner_consent-granted_example =
    get_owner_consent-granted owner CommandType.update (asked true) (answered (asked true) requests)
      refl (λ e. cc) (λ e. cc) (λ e. cc) refl

abbrev session_or : Session → Option (Outcome Session) → Session
session_or s none = s
session_or s (some blocks) = s
session_or s (some panics) = s
session_or s (some (returns s')) = s'

-- The owner refuses UPDATE, and the domain has an agent.
abbrev refusing : Session
refusing =
    let s = asked false in
    record s {
      op = record (s.op) {
        states_per_domain =
            (
              1,
              (
                record { pointer = 1; name = "containers" },
                record { baselines = []; domains = [] },
              ),
            )
            ∷ [];
      };
    }

told_back : Session
unfolding handle_command_signal get_owner_consent contains command_beq status_beq execute_on
    command_agent get_domain_agent
told_back = session_or refusing (handle_command_signal owner CommandType.update refusing)

handle_command_signal-instructs_example :
    Goes owner CommandType.update refusing told_back
    ⊎ (RollsBack owner CommandType.update refusing told_back
        ⊎ Fails owner CommandType.update refusing told_back)
unfolding told_back
handle_command_signal-instructs_example =
    handle_command_signal-instructs owner CommandType.update refusing told_back refl

abbrev texts : Texts
texts = record { phase_timeout = "10m0s"; errorf = λ m. m }

abbrev with_signal : CommandChannels → Session
with_signal c =
    let s = at running (("containers", identified) ∷ []) in
    record s { op = record (s.op) { command_channels = c } }

-- DOWNLOAD is signalled, and then the agents stay silent until the phase times out.
abbrev turns : List Turn
turns =
    (
      with_signal (record { download = some true; update = none; activate = none; cleanup = none }),
      signalled,
    )
    ∷ (downloading, timed_out)
    ∷ []

applied : Applied
unfolding apply_loop wait_turn rounds await_done wait_command_signal start_apply notify_feedback
    command_beq
applied = applied_or (apply_loop texts downloading turns)

apply_loop-order_example : Falls 4 applied.spawned
unfolding applied
apply_loop-order_example = apply_loop-order texts downloading turns applied refl

abbrev told_to_roll_back : Session
told_to_roll_back =
    let s = downloading in record s { op = record (s.op) { rollback_chan = some true } }

abbrev no_signal : CommandChannels
no_signal = record { download = none; update = none; activate = none; cleanup = none }

-- The wait for UPDATE takes a rollback, and then CLEANUP is signalled.
abbrev before_rollback : Loop
before_rollback = record {
  running = true;
  rollback = false;
  err = none;
  now = downloading;
  spawned = CommandType.download ∷ [];
  turns =
      (told_to_roll_back, rolled_back)
      ∷ (with_signal (record no_signal { cleanup = some true }), signalled)
      ∷ [];
}

rolled_back_loop : Loop
unfolding wait_turn wait_command_signal wait_signal
rolled_back_loop = loop_or before_rollback (wait_turn texts CommandType.update before_rollback)

rolled_back_end : Loop
unfolding rounds wait_turn wait_command_signal command_beq rolled_back_loop
rolled_back_end =
    loop_or rolled_back_loop
      (rounds texts (CommandType.activate ∷ CommandType.cleanup ∷ []) rolled_back_loop)

rounds-rolled_back_example :
    (rolled_back_loop.spawned ≡ CommandType.download ∷ [])
    × ((rolled_back_end.spawned ≡ CommandType.download ∷ [])
        ⊎ (rolled_back_end.spawned ≡ CommandType.cleanup ∷ CommandType.download ∷ []))
unfolding rolled_back_end rolled_back_loop
rounds-rolled_back_example =
    rounds-rolled_back texts CommandType.update before_rollback rolled_back_loop rolled_back_end
      refl refl refl

-- Every wait ends with the signal that it waits for.
abbrev signals : Source → Turn
signals (Source.command c) = (with_signal (set_command_chan c (some true) no_signal), signalled)
signals Source.done =
    (let s = downloading in record s { op = record (s.op) { done = some true } }, signalled)

signals-IsServed : IsServed texts signals
unfolding wait_signal
signals-IsServed (Source.command CommandType.download) h = λ e. cc
signals-IsServed (Source.command CommandType.update) h = λ e. cc
signals-IsServed (Source.command CommandType.activate) h = λ e. cc
signals-IsServed (Source.command CommandType.cleanup) h = λ e. cc
signals-IsServed (Source.command CommandType.rollback) h = absurd h
signals-IsServed (Source.command (CommandType.other t)) h = absurd h
signals-IsServed Source.done h = λ e. cc

apply_loop-ends_example :
    (sources : List Source) × (length sources ≤ 5)
    × All IsAwaited sources
    × ((r : Applied) × (apply_loop texts downloading (map signals sources) ≡ some r))
apply_loop-ends_example = apply_loop-ends texts downloading signals signals-IsServed
