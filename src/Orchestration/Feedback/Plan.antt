-- ===== src/Orchestration/Feedback/Plan.antt =====
-- The handlers of update_orchestrator_feedback.go as one table: each status stands for a plan, and six
-- plans serve the nineteen handlers.
use update_manager.Base.{
  String, Bool, true, false, ◌≡◌, refl, ◌==◌, ◌||◌, not, List, Outcome, returns, any, null,
  if◌then◌else◌, sym, ◌∙◌, insert, string_eq, >>=-eq-returns,
}
use update_manager.Types.{
  StatusType, identifying, identified, identification_failed, running, completed, incomplete,
  download_success, download_failure, update_success, update_failure, activation_success,
  activation_failure, rollback_success, rollback_failure, cleanup_success, cleanup_failure,
  status_eq, CommandType, Action,
}
use update_manager.Orchestration.Session.{
  Session, status_of, set_domain, delay_incomplete, values, domain_update_running, command_agent,
  with_op,
}
use update_manager.Orchestration.Feedback.Identification.{
  check_identification_status, end_identification, update_status_identification_failed,
}
use update_manager.Orchestration.Feedback.Phases.{
  in_download, in_update, in_activation, in_rollback, signal_running,
}
use update_manager.Orchestration.Feedback.Completion.{is_over, in_cleanup, domain_update_completed}
use update_manager.Orchestration.Feedback.{
  status_handler, store_actions, domain_actions, update_actions, handle_event,
}

pub data Plan : Type 0 where
  -- The event changes nothing.
  ignore : Plan
  -- The domain is identified; or its identification has failed.
  identify fail_identification : Plan
  -- A domain of a phase ends it well; after the last one a command is signalled.
  succeed : (StatusType → Bool) → StatusType → CommandType → Plan
  -- A domain of a phase fails, and is sent a cleanup.
  fail : (StatusType → Bool) → StatusType → Plan
  -- A domain is at work; the first argument says whether the operation has to be running.
  report : Bool → (StatusType → Bool) → Plan
  -- A domain is done, unless it is in a status to skip; the last argument is for a failure.
  finish : (StatusType → Bool) → StatusType → Bool → Plan

abbrev pub skips_cleanup : StatusType → Bool
skips_cleanup d = not (in_cleanup d || d == completed || d == incomplete)

abbrev pub plan : StatusType → Plan
plan StatusType.identified = identify
plan StatusType.identification_failed = fail_identification
plan StatusType.completed = finish is_over cleanup_success false
plan StatusType.incomplete = finish is_over cleanup_failure true
plan StatusType.downloading = report true in_download
plan StatusType.download_success = succeed in_download download_success CommandType.update
plan StatusType.download_failure = fail in_download download_failure
plan StatusType.updating = report true in_update
plan StatusType.update_success = succeed in_update update_success CommandType.activate
plan StatusType.update_failure = fail in_update update_failure
plan StatusType.activating = report true in_activation
plan StatusType.activation_success = succeed in_activation activation_success CommandType.cleanup
plan StatusType.activation_failure = fail in_activation activation_failure
plan StatusType.cleanup = report false in_cleanup
plan StatusType.cleanup_success = finish skips_cleanup cleanup_success false
plan StatusType.cleanup_failure = finish skips_cleanup cleanup_failure false
plan StatusType.rollback = report true in_rollback
plan StatusType.rollback_success = succeed in_rollback rollback_success CommandType.cleanup
plan StatusType.rollback_failure = fail in_rollback rollback_failure
plan _ = ignore

abbrev pub identify_status : List Action → StatusType
identify_status actions = if null actions then cleanup_success else identified

unfoldable pub run : Plan → String → String → List Action → Session → Outcome Session
run ignore d m actions s = returns s
run identify d m actions s =
    if not (check_identification_status d s)
    then returns s
    else let s = set_domain d (identify_status actions) s in
      if any (λ d. d == identifying) (values s.op.domains)
      then returns s
      else end_identification d s
run fail_identification d m actions s =
    if not (check_identification_status d s)
    then returns s
    else let s = set_domain d identification_failed s in
      if any (λ d. d == identifying) (values s.op.domains)
      then returns s
      else update_status_identification_failed d m s
run (succeed phase status c) d m actions s =
    if not (s.op.status == running)
    then returns s
    else if not (phase (status_of d s))
    then returns s
    else let s = set_domain d status s in
      if any phase (values s.op.domains) then returns s else signal_running c s
run (fail phase status) d m actions s =
    if not (s.op.status == running)
    then returns s
    else if not (phase (status_of d s))
    then returns s
    else let s = set_domain d status (delay_incomplete s) in
      returns (command_agent s.op.activity_id d CommandType.cleanup s)
run (report true phase) d m actions s =
    if not (s.op.status == running)
    then returns s
    else if not (phase (status_of d s))
    then returns s
    else returns (domain_update_running s)
run (report false phase) d m actions s =
    if not (phase (status_of d s)) then returns s else returns (domain_update_running s)
run (finish skipped status true) d m actions s =
    if skipped (status_of d s)
    then returns s
    else domain_update_completed (set_domain d status (delay_incomplete s))
run (finish skipped status false) d m actions s =
    if skipped (status_of d s) then returns s else domain_update_completed (set_domain d status s)

-- The handler of a status does what the status's plan says.
pub status_handler-run :
    (status : StatusType) (d m : String) (actions : List Action) (s : Session)
    → status_handler status d m actions s ≡ run (plan status) d m actions s
unfolding status_handler run
status_handler-run identified d m actions s = refl
status_handler-run _ d m actions s = refl

-- The session once the actions of an event are stored.
abbrev pub with_actions : Session → List (String × List (String × Action)) → Session
with_actions s actions = with_op s (record s.op { actions = actions })

pub update_actions-with_actions :
    (d : String) (actions : List Action) (s t : Session)
    → update_actions d actions s ≡ returns t
    → (stored : List (String × List (String × Action))) × (t ≡ with_actions s stored)
unfolding update_actions
update_actions-with_actions d actions s t e =
    let (inner, e₁, e₂) =
      >>=-eq-returns (store_actions (domain_actions d s) actions)
        (λ m. returns (with_actions s (insert d m s.op.actions))) e in
    (insert d inner s.op.actions, cc)

-- An event stores its actions, and then the plan of its status runs.
pub handle_event-run :
    (d : String) (status : StatusType) (m : String) (actions : List Action) (s s' : Session)
    → handle_event d status m actions s ≡ returns s'
    → (stored : List (String × List (String × Action))) × (run
          (plan status)
          d
          m
          actions
          (with_actions s stored)
        ≡ returns s')
unfolding handle_event
handle_event-run d status m actions s s' e =
    let (t, e₁, e₂) =
      >>=-eq-returns (update_actions d actions s) (λ s. status_handler status d m actions s) e in
    let (stored, e₃) = update_actions-with_actions d actions s t e₁ in
    (stored, sym (status_handler-run status d m actions _) ∙ rw (← e₃) e₂)
