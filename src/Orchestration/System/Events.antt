-- ===== src/Orchestration/System/Events.antt =====
-- What an event does to the two early commands: the phase that is over stays over, the channel is filled
-- only when it is over, and no agent is told.
use update_manager.Base.{
  String, Bool, true, false, ◌≡◌, refl, ◌⊎◌, inl, inr, ◌==◌, ◌||◌, none, some, List, [], ◌∷◌,
  returns, string_eq, arith,
}
use update_manager.Types.{
  StatusType, status_eq, status_beq, CommandType, command_eq, command_beq, Action,
}
use update_manager.Orchestration.Session.{
  Session, Effect, command, status_of, set_domain, delay_incomplete, command_chan,
  domain_update_running, command_agent,
}
use update_manager.Orchestration.Feedback.Identification.{
  end_identification, update_status_identification_failed,
}
use update_manager.Orchestration.Feedback.Phases.{signal_running}
use update_manager.Orchestration.Feedback.Completion.{domain_update_completed}
use update_manager.Orchestration.Feedback.Plan.{
  Plan, ignore, identify, fail_identification, succeed, fail, report, finish, identify_status, run,
  plan, with_actions, handle_event-run,
}
use update_manager.Orchestration.Feedback.Frame.{written}
use update_manager.Orchestration.Feedback.Barrier.{
  in_phase_before, NoneBefore, handle_event-barrier,
}
use update_manager.Orchestration.Feedback.Stall.{any-insert}
use update_manager.Orchestration.Feedback.Lifecycle.{
  Advances, downloads, fails_download, updates, fails_update, activates, fails_activation,
  rolls_back, fails_rollback, is_clean, is_dirty, Past, Moved, handle_event-Moved, plan-Advances,
}
use update_manager.Orchestration.Feedback.{Event, handle_event}

-- The commands whose phase before is closed once it is over.
abbrev pub IsEarly : CommandType → Type 0
IsEarly c = (c ≡ CommandType.download) ⊎ (c ≡ CommandType.update)

-- The operation is past its identification, and no domain is left in the phase before the command.
abbrev pub IsClosed : CommandType → Session → Type 0
IsClosed c s = Past s × NoneBefore c s

Advances-download :
    {d e : StatusType} → Advances d e → in_phase_before CommandType.download e ≡ false
unfolding status_beq
Advances-download (downloads h) = refl
Advances-download (fails_download h) = refl
Advances-download (updates h) = refl
Advances-download (fails_update h) = refl
Advances-download (activates h) = refl
Advances-download (fails_activation h) = refl
Advances-download (rolls_back h) = refl
Advances-download (fails_rollback h) = refl
Advances-download (is_clean h) = refl
Advances-download (is_dirty h) = refl

Advances-update : {d e : StatusType} → Advances d e → in_phase_before CommandType.update e ≡ false
unfolding status_beq
Advances-update (downloads h) = refl
Advances-update (fails_download h) = refl
Advances-update (updates h) = refl
Advances-update (fails_update h) = refl
Advances-update (activates h) = refl
Advances-update (fails_activation h) = refl
Advances-update (rolls_back h) = refl
Advances-update (fails_rollback h) = refl
Advances-update (is_clean h) = refl
Advances-update (is_dirty h) = refl

Advances-early :
    {d e : StatusType} (c : CommandType) → IsEarly c → Advances d e → in_phase_before c e ≡ false
Advances-early {d} {e} c (inl h) a = rw h (Advances-download a)
Advances-early {d} {e} c (inr h) a = rw h (Advances-update a)

pub handle_event-IsClosed :
    (c : CommandType) (v : Event) (s t : Session)
    → IsEarly c
    → handle_event v.domain v.status v.message v.actions s ≡ returns t
    → IsClosed c s
    → IsClosed c t
handle_event-IsClosed c v s t early e (past, none_left) = go (handle_event-Moved v s t past e)
  where
    go : Moved (plan v.status) v.domain v.actions s t → IsClosed c t
    go (past', inl same) = (past', rw same none_left)
    go (past', inr (write, g)) = (
      past',
      rw write (
          any-insert (in_phase_before c) v.domain (written (plan v.status) v.actions) s.op.domains
            (Advances-early c early (plan-Advances v.status v.actions (status_of v.domain s) g))
            none_left),
    )

-- A value in a channel was there before, or the channel was empty.
abbrev Filled : CommandType → Session → Session → Type 0
Filled c s s' =
    command_chan c s'.op.command_channels ≡ some true
    → (command_chan c s.op.command_channels ≡ none)
      ⊎ (command_chan c s.op.command_channels ≡ some true)

signal_running-Filled :
    (c₀ c : CommandType) (s s' : Session) → signal_running c₀ s ≡ returns s' → Filled c s s'
unfolding signal_running domain_update_running
signal_running-Filled c₀ c s s' e f = ground arith

end_identification-Filled :
    (c : CommandType) (d : String) (s s' : Session)
    → end_identification d s ≡ returns s'
    → Filled c s s'
unfolding end_identification
end_identification-Filled c d s s' e f = ground arith

domain_update_completed-quiet :
    (s s' : Session)
    → domain_update_completed s ≡ returns s'
    → (s'.op.command_channels ≡ s.op.command_channels) × (s'.sent ≡ s.sent)
unfolding domain_update_completed
domain_update_completed-quiet s s' e = ground arith

command_agent-op :
    (a d : String) (c : CommandType) (s : Session) → (command_agent a d c s).op ≡ s.op
unfolding command_agent
command_agent-op a d c s = ground arith

run-Filled :
    (p : Plan) (c : CommandType) (d m : String) (actions : List Action) (s s' : Session)
    → run p d m actions s ≡ returns s'
    → Filled c s s'
unfolding run
run-Filled ignore c d m actions s s' e f = ground arith
run-Filled identify c d m actions s s' e f =
    ground (arith, end_identification-Filled c d (set_domain d (identify_status actions) s) s')
run-Filled fail_identification c d m actions s s' e f =
    unfold update_status_identification_failed in ground arith
run-Filled (succeed phase status c₀) c d m actions s s' e f =
    ground (arith, signal_running-Filled c₀ c (set_domain d status s) s')
run-Filled (fail phase status) c d m actions s s' e f = ground (
  arith,
  command_agent-op s.op.activity_id d CommandType.cleanup
      (set_domain d status (delay_incomplete s)),
)
run-Filled (report true phase) c d m actions s s' e f = unfold domain_update_running in ground arith
run-Filled (report false phase) c d m actions s s' e f =
    unfold domain_update_running in ground arith
run-Filled (finish skipped status true) c d m actions s s' e f =
    ground (arith, domain_update_completed-quiet (set_domain d status (delay_incomplete s)) s')
run-Filled (finish skipped status false) c d m actions s s' e f =
    ground (arith, domain_update_completed-quiet (set_domain d status s) s')

-- A channel that is full after an event was full before, or was filled now that its phase is over.
pub handle_event-signals :
    (c : CommandType) (v : Event) (s t : Session)
    → handle_event v.domain v.status v.message v.actions s ≡ returns t
    → command_chan c t.op.command_channels ≡ some true
    → (command_chan c s.op.command_channels ≡ some true) ⊎ IsClosed c t
handle_event-signals c v s t e f =
    let (stored, e') = handle_event-run v.domain v.status v.message v.actions s t e in
    elim (run-Filled (plan v.status) c v.domain v.message v.actions (with_actions s stored) t e'
      f) [
        | inl empty ↦
            let (r, n) =
              handle_event-barrier c v.domain v.status v.message v.actions s t e empty f in
            inr (inl r, n)
        | inr full ↦ inl full
      ]

-- Whether some agent was told a command.
abbrev pub tells : CommandType → List Effect → Bool
tells c [] = false
tells c (command agent activity_id k ∷ es) = k.command == c || tells c es
tells c (_ ∷ es) = tells c es

signal_running-tells :
    (c₀ c : CommandType) (s s' : Session)
    → signal_running c₀ s ≡ returns s'
    → tells c s'.sent ≡ tells c s.sent
unfolding signal_running domain_update_running
signal_running-tells c₀ c s s' e = ground arith

end_identification-tells :
    (c : CommandType) (d : String) (s s' : Session)
    → end_identification d s ≡ returns s'
    → tells c s'.sent ≡ tells c s.sent
unfolding end_identification
end_identification-tells c d s s' e = ground arith

run-tells :
    (p : Plan) (c : CommandType) (d m : String) (actions : List Action) (s s' : Session)
    → command_beq CommandType.cleanup c ≡ false
    → run p d m actions s ≡ returns s'
    → tells c s'.sent ≡ tells c s.sent
unfolding run
run-tells ignore c d m actions s s' n e = ground arith
run-tells identify c d m actions s s' n e =
    ground (arith, end_identification-tells c d (set_domain d (identify_status actions) s) s')
run-tells fail_identification c d m actions s s' n e =
    unfold update_status_identification_failed in ground arith
run-tells (succeed phase status c₀) c d m actions s s' n e =
    ground (arith, signal_running-tells c₀ c (set_domain d status s) s')
run-tells (fail phase status) c d m actions s s' n e = unfold command_agent in ground arith
run-tells (report true phase) c d m actions s s' n e = unfold domain_update_running in ground arith
run-tells (report false phase) c d m actions s s' n e = unfold domain_update_running in ground arith
run-tells (finish skipped status true) c d m actions s s' n e =
    ground (arith, domain_update_completed-quiet (set_domain d status (delay_incomplete s)) s')
run-tells (finish skipped status false) c d m actions s s' n e =
    ground (arith, domain_update_completed-quiet (set_domain d status s) s')

-- A handler of an event tells no agent an early command.
pub handle_event-tells :
    (c : CommandType) (v : Event) (s t : Session)
    → IsEarly c
    → handle_event v.domain v.status v.message v.actions s ≡ returns t
    → tells c t.sent ≡ tells c s.sent
unfolding command_beq
handle_event-tells c v s t early e =
    let (stored, e') = handle_event-run v.domain v.status v.message v.actions s t e in
    run-tells (plan v.status) c v.domain v.message v.actions (with_actions s stored) t
      (ground arith) e'
