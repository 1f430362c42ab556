-- ===== src/Orchestration/Feedback/Frame.antt =====
-- What an event leaves alone: the statuses of the other domains, and the set of domains.
use update_manager.Base.{
  String, true, false, ◌≡◌, ap, ◌∙◌, ◌≢◌, ◌⊎◌, inl, inr, List, returns, lookup, insert,
  lookup-insert, keys-insert, keys, has_key, string_eq, eq_iff, arith,
}
use update_manager.Types.{StatusType, no_status, identification_failed, CommandType, Action}
use update_manager.Orchestration.Session.{
  Session, set_domain, delay_incomplete, domain_update_running, command_agent,
}
use update_manager.Orchestration.Feedback.Identification.{
  end_identification, update_status_identification_failed,
}
use update_manager.Orchestration.Feedback.Phases.{signal_running}
use update_manager.Orchestration.Feedback.Completion.{domain_update_completed}
use update_manager.Orchestration.Feedback.Plan.{
  Plan, ignore, identify, fail_identification, succeed, fail, report, finish, identify_status, run,
  plan, with_actions, handle_event-run,
}
use update_manager.Orchestration.Feedback.{handle_event}

-- The status that a plan writes to its domain.
abbrev pub written : Plan → List Action → StatusType
written identify actions = identify_status actions
written fail_identification actions = identification_failed
written (succeed phase status c) actions = status
written (fail phase status) actions = status
written (finish skipped status delay) actions = status
written _ actions = no_status

abbrev Writes : String → StatusType → Session → Session → Type 0
Writes d status s s' =
    (s'.op.domains ≡ s.op.domains) ⊎ (s'.op.domains ≡ insert d status s.op.domains)

signal_running-Writes :
    (c : CommandType) (s s' : Session)
    → signal_running c s ≡ returns s'
    → s'.op.domains ≡ s.op.domains
unfolding signal_running domain_update_running
signal_running-Writes c s s' e = ground arith

end_identification-Writes :
    (d : String) (s s' : Session)
    → end_identification d s ≡ returns s'
    → s'.op.domains ≡ s.op.domains
unfolding end_identification
end_identification-Writes d s s' e = ground arith

domain_update_completed-Writes :
    (s s' : Session) → domain_update_completed s ≡ returns s' → s'.op.domains ≡ s.op.domains
unfolding domain_update_completed
domain_update_completed-Writes s s' e = ground arith

run-Writes :
    (p : Plan) (d m : String) (actions : List Action) (s s' : Session)
    → run p d m actions s ≡ returns s'
    → Writes d (written p actions) s s'
unfolding run
run-Writes ignore d m actions s s' e = ground arith
run-Writes identify d m actions s s' e =
    ground (arith, end_identification-Writes d (set_domain d (identify_status actions) s) s')
run-Writes fail_identification d m actions s s' e =
    unfold update_status_identification_failed in ground arith
run-Writes (succeed phase status c) d m actions s s' e =
    ground (arith, signal_running-Writes c (set_domain d status s) s')
run-Writes (fail phase status) d m actions s s' e = unfold command_agent in ground arith
run-Writes (report true phase) d m actions s s' e = unfold domain_update_running in ground arith
run-Writes (report false phase) d m actions s s' e = unfold domain_update_running in ground arith
run-Writes (finish skipped status true) d m actions s s' e =
    ground (arith, domain_update_completed-Writes (set_domain d status (delay_incomplete s)) s')
run-Writes (finish skipped status false) d m actions s s' e =
    ground (arith, domain_update_completed-Writes (set_domain d status s) s')

Writes-frame :
    (d j : String) (status : StatusType) (s s' : Session)
    → Writes d status s s'
    → d ≢ j
    → has_key d s.op.domains ≡ true
    → (lookup j s'.op.domains ≡ lookup j s.op.domains) × (keys s'.op.domains ≡ keys s.op.domains)
Writes-frame d j status s s' (inl e) n h = (ap (lookup j) e, ap keys e)
Writes-frame d j status s s' (inr e) n h = (
  ap (lookup j) e ∙ lookup-insert d j status s.op.domains ∙ (ground (arith, eq_iff d j)),
  ap keys e ∙ keys-insert d status s.op.domains h,
)

-- An event of a domain of the operation that is handled to the end changes the status of no other
-- domain, and adds or removes none.
pub handle_event-frame :
    (d j : String) (status : StatusType) (m : String) (actions : List Action) (s s' : Session)
    → has_key d s.op.domains ≡ true
    → d ≢ j
    → handle_event d status m actions s ≡ returns s'
    → (lookup j s'.op.domains ≡ lookup j s.op.domains) × (keys s'.op.domains ≡ keys s.op.domains)
handle_event-frame d j status m actions s s' h n e =
    let (stored, e') = handle_event-run d status m actions s s' e in
    Writes-frame d j (written (plan status) actions) (with_actions s stored) s'
      (run-Writes (plan status) d m actions (with_actions s stored) s' e') n h
