-- ===== src/Agent/Lifecycle.antt =====
-- NewUpdateAgent, Start, Stop and the requests of api/agent/agent.go, with the options of agent_options.go, and
-- cmd/update-manager/app/launch.go. The errors of the client and the manager come as arguments, and a
-- goroutine that is started is the call that it makes.
use update_manager.Base.{◌*◌, String, Bool, true, false, Option, none, [], ℤ, pos, if◌then◌else◌}
use update_manager.Types.{DesiredState, DesiredStateCommand}
use update_manager.Util.{parse_duration}
use update_manager.Agent.Callbacks.{
  UpdateAgent, send, apply, command, set_callback, start_client, stop_client, dispose,
  stop_feedback, stop_current_state_notifier,
}

abbrev with_current_state_report_delay : ℤ → UpdateAgent → UpdateAgent
with_current_state_report_delay delay agent = record agent { current_state_delay = delay }

abbrev with_desired_state_feedback_report_interval : ℤ → UpdateAgent → UpdateAgent
with_desired_state_feedback_report_interval interval agent = record agent {
  feedback_interval = interval;
}

-- An agent before its options.
abbrev new_update_agent : UpdateAgent
new_update_agent = record {
  feedback_interval = pos 0;
  current_state_delay = pos 0;
  feedback_notifier = none;
  state_notifier = none;
  sent = [];
}

-- The result says whether the client has an error.
unfoldable pub start : Bool → UpdateAgent → UpdateAgent × Bool
start failed agent = (send start_client (send set_callback agent), failed)

-- `not_disposed` and `failed` are the errors of the manager and of the client.
unfoldable pub stop : Bool → Bool → UpdateAgent → UpdateAgent × Bool
unfolding stop_current_state_notifier
stop not_disposed failed agent =
    let t = send dispose (stop_feedback (stop_current_state_notifier agent)) in
    if not_disposed then (t, true) else (send stop_client t, failed)

unfoldable pub apply_desired_state : String → DesiredState → UpdateAgent → UpdateAgent
apply_desired_state activity_id state agent = send (apply activity_id state) agent

unfoldable pub command_desired_state : String → DesiredStateCommand → UpdateAgent → UpdateAgent
command_desired_state activity_id c agent = send (command activity_id c) agent

-- The timestamp only goes to the log.
unfoldable pub handle_desired_state : String → ℤ → DesiredState → UpdateAgent → UpdateAgent
unfolding apply_desired_state
handle_desired_state activity_id timestamp state agent = apply_desired_state activity_id state agent

unfoldable pub handle_desired_state_command :
    String → ℤ → DesiredStateCommand → UpdateAgent → UpdateAgent
unfolding command_desired_state
handle_desired_state_command activity_id timestamp c agent =
    command_desired_state activity_id c agent

-- The durations of the configuration are in nanoseconds; an empty text is no delay and no reports.
unfoldable pub init_component : (String → Option ℤ) → String → String → UpdateAgent
unfolding parse_duration
init_component parse current_state_delay report_feedback_interval =
    with_desired_state_feedback_report_interval
      (parse_duration parse report_feedback_interval (pos (60 * 1000000000)) (pos 0))
      (with_current_state_report_delay
        (parse_duration parse current_state_delay (pos (30 * 1000000000)) (pos 0)) new_update_agent)

-- Launch. `run` is what the agent does until the signal of the operating system; an error of Stop only goes to
-- the log.
unfoldable pub launch :
    Bool → Bool → Bool → (UpdateAgent → UpdateAgent) → UpdateAgent → UpdateAgent × Bool
unfolding start stop
launch failed not_disposed not_stopped run agent =
    let (t, err) = start failed agent in
    if err then (t, true) else ((stop not_disposed not_stopped (run t)).0, false)
