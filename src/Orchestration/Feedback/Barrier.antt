-- ===== src/Orchestration/Feedback/Barrier.antt =====
-- When an event gives the signal for a command.
use update_manager.Base.{
  String, Bool, true, false, ◌≡◌, refl, ◌==◌, none, some, List, [], ◌∷◌, returns, any, arith,
}
use update_manager.Types.{
  StatusType, identifying, running, update_success, status_eq, status_beq_iff, CommandType, Action,
}
use update_manager.Orchestration.Session.{
  Session, set_domain, delay_incomplete, values, command_chan, domain_update_running, command_agent,
}
use update_manager.Orchestration.Feedback.Identification.{
  end_identification, update_status_identification_failed,
}
use update_manager.Orchestration.Feedback.Phases.{
  in_download, in_update, in_activation, in_rollback, signal_running,
}
use update_manager.Orchestration.Feedback.Completion.{domain_update_completed}
use update_manager.Orchestration.Feedback.Plan.{
  Plan, ignore, identify, fail_identification, succeed, fail, report, finish, identify_status, run,
  plan, with_actions, handle_event-run,
}
use update_manager.Orchestration.Feedback.{handle_event}

-- The statuses that every domain has left when a command is signalled.
abbrev pub in_phase_before : CommandType → StatusType → Bool
in_phase_before CommandType.download d = d == identifying
in_phase_before CommandType.update d = in_download d
in_phase_before CommandType.activate d = in_update d
in_phase_before CommandType.cleanup d = d == update_success
in_phase_before _ d = false

-- No domain is left in the phase before a command.
abbrev pub NoneBefore : CommandType → Session → Type 0
NoneBefore c s = any (in_phase_before c) (values s.op.domains) ≡ false

no_update_success-activation :
    (l : List StatusType)
    → any in_activation l ≡ false
    → any (in_phase_before CommandType.cleanup) l ≡ false
no_update_success-activation [] h = refl
no_update_success-activation (d ∷ l) h = ground (arith, no_update_success-activation l)

no_update_success-rollback :
    (l : List StatusType)
    → any in_rollback l ≡ false
    → any (in_phase_before CommandType.cleanup) l ≡ false
no_update_success-rollback [] h = refl
no_update_success-rollback (d ∷ l) h = ground (arith, no_update_success-rollback l)

-- The plans whose phase ends before the command that they signal.
abbrev EndsPhase : Plan → Type 0
EndsPhase (succeed phase status c) =
    (l : List StatusType) → any phase l ≡ false → any (in_phase_before c) l ≡ false
EndsPhase _ = Unit

plan-EndsPhase : (status : StatusType) → EndsPhase (plan status)
plan-EndsPhase StatusType.download_success = λ l h. h
plan-EndsPhase StatusType.update_success = λ l h. h
plan-EndsPhase StatusType.activation_success = no_update_success-activation
plan-EndsPhase StatusType.rollback_success = no_update_success-rollback
plan-EndsPhase _ = tt

-- Only the named signal is given, and the domains and the status stay.
signal_running_lem :
    (c₀ c : CommandType) (s s' : Session)
    → signal_running c₀ s ≡ returns s'
    → command_chan c s.op.command_channels ≡ none
    → command_chan c s'.op.command_channels ≡ some true
    → (c ≡ c₀) × (s'.op.status ≡ s.op.status) × (s'.op.domains ≡ s.op.domains)
unfolding signal_running domain_update_running
signal_running_lem CommandType.download c s s' e n f = ground arith
signal_running_lem CommandType.update c s s' e n f = ground arith
signal_running_lem CommandType.activate c s s' e n f = ground arith
signal_running_lem CommandType.cleanup c s s' e n f = ground arith
signal_running_lem CommandType.rollback c s s' e n f = ground arith
signal_running_lem (CommandType.other _) c s s' e n f = ground arith

-- The end of the identification gives the download signal only, with `true` if it goes on.
end_identification_lem :
    (c : CommandType) (d : String) (s s' : Session)
    → end_identification d s ≡ returns s'
    → command_chan c s.op.command_channels ≡ none
    → command_chan c s'.op.command_channels ≡ some true
    → (c ≡ CommandType.download) × (s'.op.status ≡ running) × (s'.op.domains ≡ s.op.domains)
unfolding end_identification
end_identification_lem c d s s' e n f = ground arith

domain_update_completed-quiet :
    (s s' : Session)
    → domain_update_completed s ≡ returns s'
    → s'.op.command_channels ≡ s.op.command_channels
unfolding domain_update_completed
domain_update_completed-quiet s s' e = ground arith

command_agent-quiet :
    (a d : String) (c : CommandType) (s : Session) → (command_agent a d c s).op ≡ s.op
unfolding command_agent
command_agent-quiet a d c s = ground arith

run-barrier :
    (p : Plan) (c : CommandType) (d m : String) (actions : List Action) (s s' : Session)
    → EndsPhase p
    → run p d m actions s ≡ returns s'
    → command_chan c s.op.command_channels ≡ none
    → command_chan c s'.op.command_channels ≡ some true
    → (s'.op.status ≡ running) × NoneBefore c s'
unfolding run
run-barrier ignore c d m actions s s' w e n f = ground arith
run-barrier identify c d m actions s s' w e n f =
    ground (arith, end_identification_lem c d (set_domain d (identify_status actions) s) s')
run-barrier fail_identification c d m actions s s' w e n f =
    unfold update_status_identification_failed in ground arith
run-barrier (succeed phase status c₀) c d m actions s s' w e n f = ground (
  arith,
  status_beq_iff s.op.status running,
  signal_running_lem c₀ c (set_domain d status s) s',
  w (values (set_domain d status s).op.domains),
)
run-barrier (fail phase status) c d m actions s s' w e n f = ground (
  arith,
  command_agent-quiet s.op.activity_id d CommandType.cleanup
      (set_domain d status (delay_incomplete s)),
)
run-barrier (report true phase) c d m actions s s' w e n f =
    unfold domain_update_running in ground arith
run-barrier (report false phase) c d m actions s s' w e n f =
    unfold domain_update_running in ground arith
run-barrier (finish skipped status true) c d m actions s s' w e n f =
    ground (arith, domain_update_completed-quiet (set_domain d status (delay_incomplete s)) s')
run-barrier (finish skipped status false) c d m actions s s' w e n f =
    ground (arith, domain_update_completed-quiet (set_domain d status s) s')

-- If an event puts `true` into the channel of a command that was empty before, then the operation
-- is running and no domain is left in the phase before that command: none is identifying when
-- DOWNLOAD is signalled, none is identified or downloading at UPDATE, none has downloaded or is
-- updating at ACTIVATE, and none has only been updated at CLEANUP.
pub handle_event-barrier :
    (c : CommandType) (d : String) (status : StatusType) (m : String) (actions : List Action)
    (s s' : Session)
    → handle_event d status m actions s ≡ returns s'
    → command_chan c s.op.command_channels ≡ none
    → command_chan c s'.op.command_channels ≡ some true
    → (s'.op.status ≡ running) × NoneBefore c s'
handle_event-barrier c d status m actions s s' e n f =
    let (stored, e') = handle_event-run d status m actions s s' e in
    run-barrier (plan status) c d m actions (with_actions s stored) s' (plan-EndsPhase status) e' n
      f
