-- ===== src/Orchestration/System/Safety.antt =====
-- When the agents are told a command, whatever the order of the goroutines.
use update_manager.Base.{String, true, ◌≡◌, some, List, [], arith}
use update_manager.Types.{CommandType, DesiredState}
use update_manager.Orchestration.Operation.{
  Agent, UpdateOperation, new_update_operation, generate_command_channels,
}
use update_manager.Orchestration.Feedback.{UpdateOrchestrator, session}
use update_manager.Orchestration.Feedback.Barrier.{NoneBefore}
use update_manager.Orchestration.Signals.{Texts}
use update_manager.Orchestration.System.{System, Reach}
use update_manager.Orchestration.System.Events.{IsEarly, tells}
use update_manager.Orchestration.System.Reached.{Reach-Inv}

new_update_operation-channels :
    (agents : List (String × Agent)) (a : String) (state : DesiredState) (op : UpdateOperation)
    → new_update_operation agents a state ≡ some op
    → op.command_channels ≡ generate_command_channels
unfolding new_update_operation
new_update_operation-channels agents a state op e = ground arith

-- From the start of a new operation, in every order of events, handlers, answers and waits: once some
-- agent was told DOWNLOAD, no domain is identifying, and once some agent was told UPDATE, no domain is
-- identified or downloading.
pub Reach-NoneBefore :
    (x : Texts) (agents : List (String × Agent)) (a : String) (state : DesiredState)
    (op : UpdateOperation) (o : UpdateOrchestrator) (t : System) (c : CommandType)
    → new_update_operation agents a state ≡ some op
    → o.sent ≡ []
    → Reach x (session o op) t
    → IsEarly c
    → tells c t.session.sent ≡ true
    → NoneBefore c t.session
Reach-NoneBefore x agents a state op o t c e quiet r early told =
    let i =
      Reach-Inv c x (session o op) early
        (record {
          channels = new_update_operation-channels agents a state op e;
          quiet = λ k. rw quiet;
        })
        r in
    (i.closed (i.told told)).1
