-- ===== src/Orchestration/Feedback.antt =====
-- update_orchestrator_feedback.go: a feedback event of an agent, and the table of its handlers.
pub mod Identification
pub mod Phases
pub mod Completion
pub mod Plan
pub mod Frame
pub mod Lifecycle
pub mod Changes
pub mod Barrier
pub mod Ending
pub mod Stall
pub mod Blocking
use update_manager.Base.{
  String, Bool, false, ◌==◌, not, Option, none, some, List, [], ◌∷◌, Outcome, returns, panics,
  ◌>>=◌, lookup, insert, has_key, string_eq, if◌then◌else◌,
}
use update_manager.Types.{StatusType, Action}
use update_manager.Config.{Config}
use update_manager.Orchestration.Operation.{UpdateOperation}
use update_manager.Orchestration.Session.{Session, Effect, with_op}
use Identification.{handle_domain_identified, handle_domain_identification_failed}
use Phases.{
  handle_domain_downloading, handle_domain_download_success, handle_domain_download_failure,
  handle_domain_updating, handle_domain_update_success, handle_domain_update_failure,
  handle_domain_activating, handle_domain_activation_success, handle_domain_activation_failure,
  handle_domain_rollback, handle_domain_rollback_success, handle_domain_rollback_failure,
}
use Completion.{
  handle_domain_completed_event, handle_domain_incomplete, handle_domain_cleanup,
  handle_domain_cleanup_success, handle_domain_cleanup_failure,
}

-- The orchestrator between two calls; `none` is the nil operation.
pub record UpdateOrchestrator : Type 0 where
  pub cfg : Config
  pub operation : Option UpdateOperation
  pub sent : List Effect

abbrev pub session : UpdateOrchestrator → UpdateOperation → Session
session o op = record { cfg = o.cfg; op = op; sent = o.sent }

abbrev pub leave : Session → UpdateOrchestrator
leave s = record { cfg = s.cfg; operation = some s.op; sent = s.sent }

-- The map `statusHandlers`; a status that is no key changes nothing.
unfoldable pub status_handler :
    StatusType → String → String → List Action → Session → Outcome Session
unfolding handle_domain_identified handle_domain_identification_failed handle_domain_completed_event
    handle_domain_incomplete handle_domain_downloading handle_domain_download_success
    handle_domain_download_failure handle_domain_updating handle_domain_update_success
    handle_domain_update_failure handle_domain_activating handle_domain_activation_success
    handle_domain_activation_failure handle_domain_cleanup handle_domain_cleanup_success
    handle_domain_cleanup_failure handle_domain_rollback handle_domain_rollback_success
    handle_domain_rollback_failure
status_handler StatusType.identified = handle_domain_identified
status_handler StatusType.identification_failed = handle_domain_identification_failed
status_handler StatusType.completed = handle_domain_completed_event
status_handler StatusType.incomplete = handle_domain_incomplete
status_handler StatusType.downloading = handle_domain_downloading
status_handler StatusType.download_success = handle_domain_download_success
status_handler StatusType.download_failure = handle_domain_download_failure
status_handler StatusType.updating = handle_domain_updating
status_handler StatusType.update_success = handle_domain_update_success
status_handler StatusType.update_failure = handle_domain_update_failure
status_handler StatusType.activating = handle_domain_activating
status_handler StatusType.activation_success = handle_domain_activation_success
status_handler StatusType.activation_failure = handle_domain_activation_failure
status_handler StatusType.cleanup = handle_domain_cleanup
status_handler StatusType.cleanup_success = handle_domain_cleanup_success
status_handler StatusType.cleanup_failure = handle_domain_cleanup_failure
status_handler StatusType.rollback = handle_domain_rollback
status_handler StatusType.rollback_success = handle_domain_rollback_success
status_handler StatusType.rollback_failure = handle_domain_rollback_failure
status_handler _ = λ domain message actions s. returns s

unfoldable pub validate_activity : String → String → UpdateOperation → Bool
validate_activity domain activity_id op =
    if not (op.activity_id == activity_id) then false else has_key domain op.domains

-- The loop of updateActions: an action without a component is a nil dereference.
unfoldable pub store_actions :
    List (String × Action) → List Action → Outcome (List (String × Action))
store_actions m [] = returns m
store_actions m (a ∷ rest) = elim a.component [
  | none ↦ panics
  | some c ↦ store_actions (insert c.id a m) rest
]

unfoldable pub domain_actions : String → Session → List (String × Action)
domain_actions domain s = elim (lookup domain s.op.actions) [ none ↦ [] | some m ↦ m ]

unfoldable pub update_actions : String → List Action → Session → Outcome Session
unfolding domain_actions
update_actions domain actions s = do
  m ← store_actions (domain_actions domain s) actions
  returns (with_op s (record s.op { actions = insert domain m s.op.actions }))

-- The body of HandleDesiredStateFeedbackEvent once the activity is valid.
unfoldable pub handle_event : String → StatusType → String → List Action → Session → Outcome Session
handle_event domain status message actions s = do
  s ← update_actions domain actions s
  status_handler status domain message actions s

pub record Event : Type 0 where
  pub domain : String
  pub status : StatusType
  pub message : String
  pub actions : List Action

-- A sequence of valid events, one at a time under the operation's lock.
unfoldable pub handle_events : List Event → Session → Outcome Session
handle_events [] s = returns s
handle_events (e ∷ es) s = handle_event e.domain e.status e.message e.actions s >>= handle_events es

-- The baseline of the event only goes to the log.
unfoldable pub handle_desired_state_feedback_event :
    String
    → String
    → StatusType
    → String
    → List Action
    → UpdateOrchestrator
    → Outcome UpdateOrchestrator
unfolding validate_activity
handle_desired_state_feedback_event domain activity_id status message actions o = elim o.operation [
  | none ↦ returns o
  | some op ↦
      if not (validate_activity domain activity_id op)
      then returns o
      else handle_event domain status message actions (session o op) >>= λ s. returns (leave s)
]
