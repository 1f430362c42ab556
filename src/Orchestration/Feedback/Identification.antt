-- ===== src/Orchestration/Feedback/Identification.antt =====
-- The identification phase, in update_orchestrator_feedback.go.
use update_manager.Base.{
  String, Bool, true, false, ◌==◌, ◌||◌, not, List, Outcome, returns, any, null, string_eq,
  if◌then◌else◌,
}
use Prim.Native.String.{◌++◌ as cat}
use update_manager.Types.{
  identifying, identified, identification_failed, running, completed, cleanup_success, status_eq,
  CommandType, Action,
}
use update_manager.Orchestration.Session.{
  Session, status_of, set_domain, set_status, set_err_msg, values, send_err, send_command,
  notify_feedback, domain_update_running,
}

unfoldable pub check_identification_status : String → Session → Bool
check_identification_status domain s =
    let o = s.op.status in
    if not (o == identifying || o == identified || o == identification_failed)
    then false
    else let d = status_of domain s in
      if d == identified then false else if d == identification_failed then false else true

unfoldable pub update_status_identification_failed : String → String → Session → Outcome Session
update_status_identification_failed domain err_msg s =
    send_err
      (set_err_msg (cat "[" (cat domain (cat "]: " err_msg))) (set_status identification_failed s))

-- What follows the loop of handleDomainIdentified once no domain is identifying.
unfoldable pub end_identification : String → Session → Outcome Session
unfolding update_status_identification_failed domain_update_running notify_feedback
end_identification domain s =
    let statuses = values s.op.domains in
    if any (λ d. d == identification_failed) statuses
    then update_status_identification_failed domain "" s
    else let s = notify_feedback identified "" s in
      if any (λ d. d == identified) statuses
      then send_command CommandType.download true (set_status running (domain_update_running s))
      else send_command CommandType.download false (set_status completed s)

unfoldable pub handle_domain_identified : String → String → List Action → Session → Outcome Session
unfolding check_identification_status
handle_domain_identified domain message actions s =
    if not (check_identification_status domain s)
    then returns s
    else let s = set_domain domain (if null actions then cleanup_success else identified) s in
      if any (λ d. d == identifying) (values s.op.domains)
      then returns s
      else end_identification domain s

unfoldable pub handle_domain_identification_failed :
    String → String → List Action → Session → Outcome Session
unfolding check_identification_status update_status_identification_failed
handle_domain_identification_failed domain message actions s =
    if not (check_identification_status domain s)
    then returns s
    else let s = set_domain domain identification_failed s in
      if any (λ d. d == identifying) (values s.op.domains)
      then returns s
      else update_status_identification_failed domain message s
