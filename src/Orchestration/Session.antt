-- ===== src/Orchestration/Session.antt =====
-- What the handlers of the orchestrator work on while an operation is active: the configuration, the
-- operation, and the calls made so far on the callback and the agents, newest first.
use update_manager.Base.{
  ℕ, String, Bool, true, false, ◌==◌, Option, none, some, List, [], ◌∷◌, lookup, insert, Outcome,
  returns, blocks, ◌++◌, map, string_eq, if◌then◌else◌,
}
use update_manager.Types.{
  StatusType, no_status, CommandType, DesiredStateCommand, Action, DesiredState, OwnerConsent,
}
use update_manager.Util.{fix_incomplete_inconsistent_status, fix_activation_action_status}
use update_manager.Config.{Config}
use update_manager.Orchestration.Operation.{Agent, Chan, CommandChannels, UpdateOperation}

-- A call that leaves the orchestrator.
pub data Effect : Type 0 where
  -- desiredStateCallback.HandleDesiredStateFeedbackEvent
  feedback : String → String → String → StatusType → String → List Action → Effect
  -- Command and Apply of an agent
  command : Agent → String → DesiredStateCommand → Effect
  apply : Agent → String → DesiredState → Effect
  -- Start, Stop and SendOwnerConsent of the owner consent client
  consent_start consent_stop : Effect
  consent_request : String → OwnerConsent → Effect

pub record Session : Type 0 where
  pub cfg : Config
  pub op : UpdateOperation
  pub sent : List Effect

abbrev pub emit : Effect → Session → Session
emit e s = record s { sent = e ∷ s.sent }

abbrev pub with_op : Session → UpdateOperation → Session
with_op s op = record s { op = op }

-- A send to a full buffer waits.
abbrev pub send_err : Session → Outcome Session
send_err s = elim s.op.err_chan [
  | none ↦ returns (with_op s (record s.op { err_chan = some true }))
  | some _ ↦ blocks
]

abbrev pub send_done : Session → Outcome Session
send_done s = elim s.op.done [
  | none ↦ returns (with_op s (record s.op { done = some true }))
  | some _ ↦ blocks
]

abbrev pub send_rollback : Session → Outcome Session
send_rollback s = elim s.op.rollback_chan [
  | none ↦ returns (with_op s (record s.op { rollback_chan = some true }))
  | some _ ↦ blocks
]

-- The keys of `commandChannels`.
abbrev pub has_command_chan : CommandType → Bool
has_command_chan CommandType.download = true
has_command_chan CommandType.update = true
has_command_chan CommandType.activate = true
has_command_chan CommandType.cleanup = true
has_command_chan _ = false

-- The buffer of `commandChannels[command]`. Nothing is ever received from a missing key's nil channel.
abbrev pub command_chan : CommandType → CommandChannels → Chan
command_chan CommandType.download c = c.download
command_chan CommandType.update c = c.update
command_chan CommandType.activate c = c.activate
command_chan CommandType.cleanup c = c.cleanup
command_chan _ c = none

abbrev pub set_command_chan : CommandType → Chan → CommandChannels → CommandChannels
set_command_chan CommandType.download v c = record c { download = v }
set_command_chan CommandType.update v c = record c { update = v }
set_command_chan CommandType.activate v c = record c { activate = v }
set_command_chan CommandType.cleanup v c = record c { cleanup = v }
set_command_chan _ v c = c

-- A missing key gives the nil channel, on which every send waits for ever.
abbrev pub send_command : CommandType → Bool → Session → Outcome Session
send_command c v s = elim (has_command_chan c) [
  | false ↦ blocks
  | true ↦ elim (command_chan c s.op.command_channels) [
    | none ↦ returns (
        with_op s
          (record s.op { command_channels = set_command_chan c (some v) s.op.command_channels }))
    | some _ ↦ blocks
  ]
]

abbrev pub values {ℓ κ} : {K : Type ℓ} {V : Type κ} → List (K × V) → List V
values [] = []
values ((k, v) ∷ m) = v ∷ values m

-- A read of `domains`; a missing key gives the zero value.
abbrev pub status_of : String → Session → StatusType
status_of d s = elim (lookup d s.op.domains) [ none ↦ no_status | some status ↦ status ]

abbrev pub set_domain : String → StatusType → Session → Session
set_domain d status s = with_op s (record s.op { domains = insert d status s.op.domains })

abbrev pub set_status : StatusType → Session → Session
set_status status s = with_op s (record s.op { status = status })

abbrev pub set_err_msg : String → Session → Session
set_err_msg m s = with_op s (record s.op { err_msg = m })

abbrev pub delay_incomplete : Session → Session
delay_incomplete s = with_op s (record s.op { delayed_status = StatusType.incomplete })

all_actions : List (String × List (String × Action)) → List Action
all_actions [] = []
all_actions ((d, entries) ∷ m) = map fix_activation_action_status (values entries) ++ all_actions m

unfoldable pub to_actions_list : Session → List Action
unfolding all_actions
to_actions_list s = all_actions s.op.actions

unfoldable pub notify_feedback : StatusType → String → Session → Session
notify_feedback status message s =
    emit
      (feedback s.cfg.domain s.op.activity_id "" (fix_incomplete_inconsistent_status status) message
        (to_actions_list s))
      s

unfoldable pub domain_update_running : Session → Session
unfolding notify_feedback
domain_update_running s = notify_feedback StatusType.running "" s

find_agent : String → List (ℕ × (Agent × DesiredState)) → Option Agent
find_agent name [] = none
find_agent name ((p, (agent, state)) ∷ m) =
    if agent.name == name then some agent else find_agent name m

unfoldable pub get_domain_agent : String → Session → Option Agent
unfolding find_agent
get_domain_agent name s = find_agent name s.op.states_per_domain

-- `orchestrator.command`
unfoldable pub command_agent : String → String → CommandType → Session → Session
unfolding get_domain_agent
command_agent activity_id domain c s = elim (get_domain_agent domain s) [
  | none ↦ s
  | some agent ↦ emit (command agent activity_id (record { command = c; baseline = "" })) s
]
