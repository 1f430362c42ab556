-- ===== src/Orchestration/Feedback/Phases.antt =====
-- The download, update, activation and rollback events, in update_orchestrator_feedback.go.
use update_manager.Base.{
  String, Bool, true, ◌==◌, ◌||◌, not, List, Outcome, returns, ◌>>=◌, any, string_eq, if◌then◌else◌,
}
use update_manager.Types.{
  StatusType, identified, running, downloading, download_success, download_failure, updating,
  update_success, update_failure, activating, activation_success, activation_failure, rollback,
  rollback_success, rollback_failure, status_eq, CommandType, Action,
}
use update_manager.Orchestration.Session.{
  Session, status_of, set_domain, delay_incomplete, values, send_command, domain_update_running,
  command_agent,
}

-- The statuses in which a domain takes part in a phase.
abbrev pub in_download : StatusType → Bool
in_download d = d == identified || d == downloading

abbrev pub in_update : StatusType → Bool
in_update d = d == download_success || d == updating

abbrev pub in_activation : StatusType → Bool
in_activation d = d == update_success || d == activating

abbrev pub in_rollback : StatusType → Bool
in_rollback d = d == download_success || d == update_success || d == rollback

-- `commandChannels[c] <- true` and domainUpdateRunning.
unfoldable pub signal_running : CommandType → Session → Outcome Session
signal_running c s = do s ← send_command c true s; returns (domain_update_running s)

unfoldable pub handle_domain_download_success :
    String → String → List Action → Session → Outcome Session
unfolding domain_update_running
handle_domain_download_success domain message actions s =
    if not (s.op.status == running)
    then returns s
    else if not (in_download (status_of domain s))
    then returns s
    else let s = set_domain domain download_success s in
      if any in_download (values s.op.domains)
      then returns s
      else signal_running CommandType.update s

unfoldable pub handle_domain_download_failure :
    String → String → List Action → Session → Outcome Session
unfolding command_agent
handle_domain_download_failure domain message actions s =
    if not (s.op.status == running)
    then returns s
    else if not (in_download (status_of domain s))
    then returns s
    else let s = set_domain domain download_failure (delay_incomplete s) in
      returns (command_agent s.op.activity_id domain CommandType.cleanup s)

unfoldable pub handle_domain_downloading : String → String → List Action → Session → Outcome Session
unfolding domain_update_running
handle_domain_downloading domain message actions s =
    if not (s.op.status == running)
    then returns s
    else if not (in_download (status_of domain s))
    then returns s
    else returns (domain_update_running s)

unfoldable pub handle_domain_update_success :
    String → String → List Action → Session → Outcome Session
unfolding domain_update_running
handle_domain_update_success domain message actions s =
    if not (s.op.status == running)
    then returns s
    else if not (in_update (status_of domain s))
    then returns s
    else let s = set_domain domain update_success s in
      if any in_update (values s.op.domains)
      then returns s
      else signal_running CommandType.activate s

unfoldable pub handle_domain_update_failure :
    String → String → List Action → Session → Outcome Session
unfolding command_agent
handle_domain_update_failure domain message actions s =
    if not (s.op.status == running)
    then returns s
    else if not (in_update (status_of domain s))
    then returns s
    else let s = set_domain domain update_failure (delay_incomplete s) in
      returns (command_agent s.op.activity_id domain CommandType.cleanup s)

unfoldable pub handle_domain_updating : String → String → List Action → Session → Outcome Session
unfolding domain_update_running
handle_domain_updating domain message actions s =
    if not (s.op.status == running)
    then returns s
    else if not (in_update (status_of domain s))
    then returns s
    else returns (domain_update_running s)

unfoldable pub handle_domain_activation_success :
    String → String → List Action → Session → Outcome Session
unfolding domain_update_running
handle_domain_activation_success domain message actions s =
    if not (s.op.status == running)
    then returns s
    else if not (in_activation (status_of domain s))
    then returns s
    else let s = set_domain domain activation_success s in
      if any in_activation (values s.op.domains)
      then returns s
      else signal_running CommandType.cleanup s

unfoldable pub handle_domain_activation_failure :
    String → String → List Action → Session → Outcome Session
unfolding command_agent
handle_domain_activation_failure domain message actions s =
    if not (s.op.status == running)
    then returns s
    else if not (in_activation (status_of domain s))
    then returns s
    else let s = set_domain domain activation_failure (delay_incomplete s) in
      returns (command_agent s.op.activity_id domain CommandType.cleanup s)

unfoldable pub handle_domain_activating : String → String → List Action → Session → Outcome Session
unfolding domain_update_running
handle_domain_activating domain message actions s =
    if not (s.op.status == running)
    then returns s
    else if not (in_activation (status_of domain s))
    then returns s
    else returns (domain_update_running s)

unfoldable pub handle_domain_rollback_success :
    String → String → List Action → Session → Outcome Session
unfolding domain_update_running
handle_domain_rollback_success domain message actions s =
    if not (s.op.status == running)
    then returns s
    else if not (in_rollback (status_of domain s))
    then returns s
    else let s = set_domain domain rollback_success s in
      if any in_rollback (values s.op.domains)
      then returns s
      else signal_running CommandType.cleanup s

unfoldable pub handle_domain_rollback_failure :
    String → String → List Action → Session → Outcome Session
unfolding command_agent
handle_domain_rollback_failure domain message actions s =
    if not (s.op.status == running)
    then returns s
    else if not (in_rollback (status_of domain s))
    then returns s
    else let s = set_domain domain rollback_failure (delay_incomplete s) in
      returns (command_agent s.op.activity_id domain CommandType.cleanup s)

unfoldable pub handle_domain_rollback : String → String → List Action → Session → Outcome Session
unfolding domain_update_running
handle_domain_rollback domain message actions s =
    if not (s.op.status == running)
    then returns s
    else if not (in_rollback (status_of domain s))
    then returns s
    else returns (domain_update_running s)
