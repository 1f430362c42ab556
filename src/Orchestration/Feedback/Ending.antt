-- ===== src/Orchestration/Feedback/Ending.antt =====
-- How an operation ends: the delayed failure, and the two signals of domainUpdateCompleted.
use update_manager.Base.{
  String, Bool, true, false, ◌≡◌, ◌≢◌, ◌⊎◌, inl, inr, not, Option, none, some, List, [], ◌∷◌,
  returns, >>=-eq-returns, any, arith, Bool-cases,
}
use update_manager.Types.{
  StatusType, running, completed, incomplete, status_eq, status_beq, status_beq_iff, CommandType,
  Action,
}
use update_manager.Orchestration.Session.{
  Session, status_of, set_domain, delay_incomplete, values, domain_update_running, command_agent,
}
use update_manager.Orchestration.Feedback.Identification.{
  check_identification_status, end_identification, update_status_identification_failed,
}
use update_manager.Orchestration.Feedback.Phases.{signal_running}
use update_manager.Orchestration.Feedback.Completion.{domain_update_completed, is_cleaned}
use update_manager.Orchestration.Feedback.Plan.{
  Plan, ignore, identify, fail_identification, succeed, fail, report, finish, identify_status, run,
  plan, with_actions, handle_event-run,
}
use update_manager.Orchestration.Feedback.{Event, handle_event, handle_events}

-- A failure of some domain was noted for the end of the operation.
abbrev pub IsDelayed : Session → Type 0
IsDelayed s = s.op.delayed_status ≡ incomplete

-- The operation is past its identification, and has not completed.
abbrev pub IsPast : Session → Type 0
IsPast s = (s.op.status ≡ running) ⊎ (s.op.status ≡ incomplete)

abbrev pub IsLatched : Session → Type 0
IsLatched s = IsDelayed s × IsPast s

signal_running-IsLatched :
    (c : CommandType) (s s' : Session)
    → IsLatched s
    → signal_running c s ≡ returns s'
    → IsLatched s'
unfolding signal_running domain_update_running
signal_running-IsLatched c s s' h e = (ground arith, ground arith)

domain_update_completed-IsLatched :
    (s s' : Session) → IsLatched s → domain_update_completed s ≡ returns s' → IsLatched s'
unfolding domain_update_completed
domain_update_completed-IsLatched s s' h e =
    ground (arith, status_beq_iff s.op.delayed_status incomplete)

check-past : (d : String) (s : Session) → IsPast s → check_identification_status d s ≡ false
unfolding check_identification_status status_beq
check-past d s (inl r) = ground arith
check-past d s (inr r) = ground arith

command_agent-op :
    (a d : String) (c : CommandType) (s : Session) → (command_agent a d c s).op ≡ s.op
unfolding command_agent
command_agent-op a d c s = ground arith

run-IsLatched :
    (p : Plan) (d m : String) (actions : List Action) (s s' : Session)
    → IsLatched s
    → run p d m actions s ≡ returns s'
    → IsLatched s'
unfolding run
run-IsLatched ignore d m actions s s' h e = (ground arith, ground arith)
run-IsLatched identify d m actions s s' h e =
    (ground (arith, check-past d s h.1), ground (arith, check-past d s h.1))
run-IsLatched fail_identification d m actions s s' h e =
    (ground (arith, check-past d s h.1), ground (arith, check-past d s h.1))
run-IsLatched (succeed phase status c) d m actions s s' h e =
    ground (arith, signal_running-IsLatched c (set_domain d status s) s')
run-IsLatched (fail phase status) d m actions s s' h e = ground (
  arith,
  command_agent-op s.op.activity_id d CommandType.cleanup
      (set_domain d status (delay_incomplete s)),
)
run-IsLatched (report true phase) d m actions s s' h e =
    unfold domain_update_running in (ground arith, ground arith)
run-IsLatched (report false phase) d m actions s s' h e =
    unfold domain_update_running in (ground arith, ground arith)
run-IsLatched (finish skipped status true) d m actions s s' h e =
    ground (arith, domain_update_completed-IsLatched (set_domain d status (delay_incomplete s)) s')
run-IsLatched (finish skipped status false) d m actions s s' h e =
    ground (arith, domain_update_completed-IsLatched (set_domain d status s) s')

handle_event-IsLatched :
    (d : String) (status : StatusType) (m : String) (actions : List Action) (s s' : Session)
    → IsLatched s
    → handle_event d status m actions s ≡ returns s'
    → IsLatched s'
handle_event-IsLatched d status m actions s s' h e =
    let (stored, e') = handle_event-run d status m actions s s' e in
    run-IsLatched (plan status) d m actions (with_actions s stored) s' h e'

handle_events-IsLatched :
    (es : List Event) (s s' : Session)
    → IsLatched s
    → handle_events es s ≡ returns s'
    → IsLatched s'
unfolding handle_events
handle_events-IsLatched [] s s' h e = (ground arith, ground arith)
handle_events-IsLatched (v ∷ es) s s' h e =
    let (t, e₁, e₂) =
      >>=-eq-returns (handle_event v.domain v.status v.message v.actions s) (handle_events es) e in
    handle_events-IsLatched es t s'
      (handle_event-IsLatched v.domain v.status v.message v.actions s t h e₁) e₂

-- Once a failure is noted in a running operation (its delayed status is INCOMPLETE), no sequence
-- of events that are handled to the end makes it completed: it stays running or is incomplete.
pub handle_events-not_completed :
    (es : List Event) (s s' : Session)
    → s.op.delayed_status ≡ incomplete
    → s.op.status ≡ running
    → handle_events es s ≡ returns s'
    → (s'.op.status ≢ completed) × ((s'.op.status ≡ running) ⊎ (s'.op.status ≡ incomplete))
handle_events-not_completed es s s' h r e =
    let (_, past) = handle_events-IsLatched es s s' (h, inl r) e in (ground arith, past)

-- What the two ends of an operation leave.
domain_update_completed-ends :
    (s s' : Session)
    → domain_update_completed s ≡ returns s'
    → s.op.done ≡ none
    → s'.op.done ≡ some true
    → (s'.op.status ≡ completed)
      × (s'.op.delayed_status ≢ incomplete)
      × (any (λ d. not (is_cleaned d)) (values s'.op.domains) ≡ false)
unfolding domain_update_completed
domain_update_completed-ends s s' e n f = (
  ground (arith, status_beq_iff s.op.delayed_status incomplete),
  (λ h. ground (arith, status_beq_iff s.op.delayed_status incomplete)),
  ground (arith, status_beq_iff s.op.delayed_status incomplete),
)

signal_running-done :
    (c : CommandType) (s s' : Session) → signal_running c s ≡ returns s' → s'.op.done ≡ s.op.done
unfolding signal_running domain_update_running
signal_running-done c s s' e = ground arith

end_identification-done :
    (d : String) (s s' : Session) → end_identification d s ≡ returns s' → s'.op.done ≡ s.op.done
unfolding end_identification
end_identification-done d s s' e = ground arith

-- The operation is done: completed, with no noted failure and every domain through its cleanup.
abbrev pub IsDone : Session → Type 0
IsDone s =
    (s.op.status ≡ completed)
    × (s.op.delayed_status ≢ incomplete)
    × (any (λ d. not (is_cleaned d)) (values s.op.domains) ≡ false)

not-set : {A : Type 0} (x y : Option Bool) → y ≡ x → x ≡ none → y ≡ some true → A
not-set x y e n f = cc

run-done :
    (p : Plan) (d m : String) (actions : List Action) (s s' : Session)
    → run p d m actions s ≡ returns s'
    → s.op.done ≡ none
    → s'.op.done ≡ some true
    → IsDone s'
unfolding run
run-done ignore d m actions s s' e n f = not-set s.op.done s'.op.done (ground arith) n f
run-done identify d m actions s s' e n f =
    not-set s.op.done s'.op.done
      (ground (arith, end_identification-done d (set_domain d (identify_status actions) s) s')) n f
run-done fail_identification d m actions s s' e n f =
    not-set s.op.done s'.op.done (unfold update_status_identification_failed in ground arith) n f
run-done (succeed phase status c) d m actions s s' e n f =
    not-set s.op.done s'.op.done (ground (arith, signal_running-done c (set_domain d status s) s'))
      n f
run-done (fail phase status) d m actions s s' e n f =
    not-set s.op.done s'.op.done (unfold command_agent in ground arith) n f
run-done (report true phase) d m actions s s' e n f =
    not-set s.op.done s'.op.done (unfold domain_update_running in ground arith) n f
run-done (report false phase) d m actions s s' e n f =
    not-set s.op.done s'.op.done (unfold domain_update_running in ground arith) n f
run-done (finish skipped status true) d m actions s s' e n f =
    elim (Bool-cases (skipped (status_of d s))) [
      | inl skip ↦ not-set s.op.done s'.op.done (ground arith) n f
      | inr go ↦
          domain_update_completed-ends (set_domain d status (delay_incomplete s)) s' (ground arith)
            n f
    ]
run-done (finish skipped status false) d m actions s s' e n f =
    elim (Bool-cases (skipped (status_of d s))) [
      | inl skip ↦ not-set s.op.done s'.op.done (ground arith) n f
      | inr go ↦ domain_update_completed-ends (set_domain d status s) s' (ground arith) n f
    ]

-- If an event puts `true` into the channel `done` that was empty before, then the status is
-- COMPLETED, no failure is noted, and every domain is in CLEANUP_SUCCESS or CLEANUP_FAILURE.
pub handle_event-done :
    (d : String) (status : StatusType) (m : String) (actions : List Action) (s s' : Session)
    → handle_event d status m actions s ≡ returns s'
    → s.op.done ≡ none
    → s'.op.done ≡ some true
    → IsDone s'
handle_event-done d status m actions s s' e n f =
    let (stored, e') = handle_event-run d status m actions s s' e in
    run-done (plan status) d m actions (with_actions s stored) s' e' n f
