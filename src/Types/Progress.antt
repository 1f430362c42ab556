-- ===== src/Types/Progress.antt =====
-- ActionStatusType, Action and DesiredStateFeedback of api/types/desired_state_feedback.go.
use update_manager.Base.{ℕ, String, Option, List}
use update_manager.Types.Status.{StatusType}

pub data ActionStatusType : Type 0 where
  identified downloading download_failure download_success : ActionStatusType
  updating update_failure update_success : ActionStatusType
  removing removal_failure removal_success : ActionStatusType
  activating activation_failure activation_success : ActionStatusType
  other : String → ActionStatusType

pub record Component : Type 0 where
  pub id : String
  pub version : String

-- `component` is a pointer, which the decoder leaves nil if the field is missing; `progress` is a
-- uint8 that the code only copies.
pub record Action : Type 0 where
  pub component : Option Component
  pub status : ActionStatusType
  pub progress : ℕ
  pub message : String

pub record DesiredStateFeedback : Type 0 where
  pub baseline : String
  pub status : StatusType
  pub message : String
  pub actions : List Action
