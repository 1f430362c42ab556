-- ===== src/Orchestration/Feedback/Completion.antt =====
-- The ends of a domain's update, in update_orchestrator_feedback.go: completed, incomplete and the
-- cleanup events, with domainUpdateCompleted.
use update_manager.Base.{
  String, Bool, true, false, ◌==◌, ◌&&◌, ◌||◌, not, none, some, List, Outcome, returns, any, null,
  lookup, string_eq, if◌then◌else◌,
}
use Prim.Native.String.{◌++◌ as cat}
use update_manager.Types.{
  StatusType, completed, incomplete, cleanup_success, cleanup_failure, download_failure,
  update_failure, activation_failure, activation_success, status_eq, Action,
}
use update_manager.Config.{Config}
use update_manager.Orchestration.Session.{
  Session, status_of, set_domain, set_status, set_err_msg, delay_incomplete, values, with_op,
  send_err, send_done, domain_update_running,
}

-- A domain that the cleanup has left.
abbrev pub is_cleaned : StatusType → Bool
is_cleaned d = d == cleanup_success || d == cleanup_failure

-- The loop over `operation.actions`: a domain that took actions and whose agent asks for a reboot.
unfoldable pub asks_reboot : Config → String × List (String × Action) → Bool
asks_reboot cfg (domain, actions) = elim (lookup domain cfg.agents) [
  | none ↦ false
  | some agent ↦ not (null actions) && agent.reboot_required
]

abbrev pub note_reboot : Session → Session
note_reboot s =
    if any (asks_reboot s.cfg) s.op.actions
    then with_op s (record s.op { reboot_required = true })
    else s

abbrev pub incomplete_msg : String → String
incomplete_msg delayed =
    if delayed == ""
    then "the update process is incompleted"
    else cat "the update process is incompleted" (cat ": " delayed)

unfoldable pub domain_update_completed : Session → Outcome Session
unfolding asks_reboot
domain_update_completed s =
    if any (λ d. not (is_cleaned d)) (values s.op.domains)
    then returns s
    else let s = note_reboot s in
      if s.op.delayed_status == incomplete
      then send_err (set_err_msg (incomplete_msg s.op.delayed_err_msg) (set_status incomplete s))
      else send_done (set_status completed s)

-- The statuses after which COMPLETED and INCOMPLETE are ignored.
abbrev pub is_over : StatusType → Bool
is_over d = d == completed || d == incomplete || d == cleanup_success || d == cleanup_failure

unfoldable pub handle_domain_completed_event :
    String → String → List Action → Session → Outcome Session
handle_domain_completed_event domain message actions s =
    if is_over (status_of domain s)
    then returns s
    else domain_update_completed (set_domain domain cleanup_success s)

unfoldable pub handle_domain_incomplete : String → String → List Action → Session → Outcome Session
handle_domain_incomplete domain message actions s =
    if is_over (status_of domain s)
    then returns s
    else domain_update_completed (set_domain domain cleanup_failure (delay_incomplete s))

-- The statuses that a running cleanup leaves.
abbrev pub in_cleanup : StatusType → Bool
in_cleanup d =
    d == activation_success
    || d == download_failure
    || d == update_failure
    || d == activation_failure

unfoldable pub handle_domain_cleanup_success :
    String → String → List Action → Session → Outcome Session
handle_domain_cleanup_success domain message actions s =
    let d = status_of domain s in
    if not (in_cleanup d || d == completed || d == incomplete)
    then returns s
    else domain_update_completed (set_domain domain cleanup_success s)

unfoldable pub handle_domain_cleanup_failure :
    String → String → List Action → Session → Outcome Session
handle_domain_cleanup_failure domain message actions s =
    let d = status_of domain s in
    if not (in_cleanup d || d == completed || d == incomplete)
    then returns s
    else domain_update_completed (set_domain domain cleanup_failure s)

unfoldable pub handle_domain_cleanup : String → String → List Action → Session → Outcome Session
unfolding domain_update_running
handle_domain_cleanup domain message actions s =
    if not (in_cleanup (status_of domain s)) then returns s else returns (domain_update_running s)
