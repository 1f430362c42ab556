-- ===== src/DomainManager/Requests.antt =====
-- Apply, Command and the feedback of update_manager.go and update_manager_handler.go.
pub mod Calls
use update_manager.Base.{
  String, ◌==◌, not, Option, none, some, List, [], ◌∷◌, if◌then◌else◌, string_eq,
}
use Prim.Native.String.{◌++◌ as cat}
use update_manager.Types.{
  StatusType, incomplete, Action, DesiredState, DesiredStateCommand, DesiredStateFeedback,
}

-- Calls of the client and of the event callback.
pub data Effect : Type 0 where
  send_desired_state : String → DesiredState → Effect
  send_command : String → DesiredStateCommand → Effect
  feedback_event : String → String → String → StatusType → String → List Action → Effect

-- The fields that the requests use; `update_operation` holds the activity's ID.
pub record Manager : Type 0 where
  pub name : String
  pub update_operation : Option String
  pub sent : List Effect

abbrev emit : Effect → Manager → Manager
emit e m = record m { sent = e ∷ m.sent }

-- The report of a request that could not be sent; `error` is the client's.
report_error : String → String → String → Manager → Manager
report_error activity_id what error m =
    emit
      (feedback_event m.name activity_id "" incomplete
        (cat error (cat ". cannot send " (cat what (cat " to domain " m.name)))) [])
      m

-- `result` is the error of SendDesiredState.
unfoldable pub apply : String → DesiredState → Option String → Manager → Manager
unfolding report_error
apply activity_id state result m =
    let t =
      emit (send_desired_state activity_id state)
        (record m { update_operation = some activity_id }) in
    elim result [
      | none ↦ t
      | some error ↦ report_error activity_id "desired state manifest" error t
    ]

-- `result` is the error of SendDesiredStateCommand.
unfoldable pub command : String → DesiredStateCommand → Option String → Manager → Manager
unfolding report_error
command activity_id c result m = elim m.update_operation [
  | none ↦ m
  | some expected ↦
      if not (expected == activity_id)
      then m
      else let t = emit (send_command activity_id c) m in
        elim result [
          | none ↦ t
          | some error ↦ report_error activity_id "desired state command" error t
        ]
]

-- HandleDesiredStateFeedback
unfoldable pub handle_desired_state_feedback : String → DesiredStateFeedback → Manager → Manager
handle_desired_state_feedback activity_id f m = elim m.update_operation [
  | none ↦ m
  | some expected ↦
      if not (expected == activity_id)
      then m
      else emit (feedback_event m.name activity_id f.baseline f.status f.message f.actions) m
]
