-- ===== src/Orchestration/Operation.antt =====
-- updatem/orchestration/update_operation.go: the state of one update activity.
use update_manager.Base.{
  ℕ, String, Bool, false, Option, none, some, List, [], ◌∷◌, lookup, insert, nat_eq, string_eq,
  if◌then◌else◌, null,
}
use update_manager.Types.{StatusType, no_status, Action, DesiredState}
use update_manager.Types.Split.{split_per_domains}

-- A channel of capacity 1: its buffer.
abbrev pub Chan : Type 0
Chan = Option Bool

-- An api.UpdateManager behind its interface: the pointer, by which maps compare it, and its name.
pub record Agent : Type 0 where
  pub pointer : ℕ
  pub name : String

-- The map of the command channels, which has the four ordered commands as keys.
pub record CommandChannels : Type 0 where
  pub download : Chan
  pub update : Chan
  pub activate : Chan
  pub cleanup : Chan

pub record UpdateOperation : Type 0 where
  pub activity_id : String
  pub status : StatusType
  pub delayed_status : StatusType
  pub delayed_err_msg : String
  pub domains : List (String × StatusType)
  pub actions : List (String × List (String × Action))
  pub desired_state : Option DesiredState
  pub states_per_domain : List (ℕ × (Agent × DesiredState))
  pub command_channels : CommandChannels
  pub done : Chan
  pub err_chan : Chan
  pub err_msg : String
  pub owner_consented : Chan
  pub rollback_chan : Chan
  pub reboot_required : Bool

unfoldable pub generate_command_channels : CommandChannels
generate_command_channels = record {
  download = none;
  update = none;
  activate = none;
  cleanup = none;
}

-- What the loop over the split gathers: `statesPerDomain`, keyed by the agent's pointer, and
-- `domainStatuses`.
pub record Gathered : Type 0 where
  pub states : List (ℕ × (Agent × DesiredState))
  pub statuses : List (String × StatusType)

unfoldable pub gather : List (String × Agent) → List (String × DesiredState) → Gathered → Gathered
gather domain_agents [] g = g
gather domain_agents ((domain, state) ∷ split) g =
    gather domain_agents split (elim (lookup domain domain_agents) [
      | none ↦ g
      | some agent ↦ record {
        states = insert agent.pointer (agent, state) g.states;
        statuses = insert domain StatusType.identifying g.statuses;
      }
    ])

abbrev pub gathered : List (String × Agent) → DesiredState → Gathered
gathered domain_agents s =
    gather domain_agents (split_per_domains s) (record { states = []; statuses = [] })

-- `none` is the error "the desired state manifest does not contain any supported domain".
unfoldable pub new_update_operation :
    List (String × Agent) → String → DesiredState → Option UpdateOperation
unfolding gather generate_command_channels
new_update_operation domain_agents activity_id s =
    let g = gathered domain_agents s in
    if null g.states
    then none
    else some (record {
      activity_id = activity_id;
      status = StatusType.identifying;
      delayed_status = no_status;
      delayed_err_msg = "";
      domains = g.statuses;
      actions = [];
      desired_state = some s;
      states_per_domain = g.states;
      command_channels = generate_command_channels;
      done = none;
      err_chan = none;
      err_msg = "";
      owner_consented = none;
      rollback_chan = none;
      reboot_required = false;
    })

pub update_status : StatusType → UpdateOperation → UpdateOperation
update_status status op = record op { status = status }
