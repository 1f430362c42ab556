-- ===== src/Orchestration/Feedback/Stall.antt =====
-- A download phase that is over without its signal: the last domain to leave it did not succeed.
use update_manager.Base.{
  String, Bool, true, false, ◌≡◌, refl, sym, subst, if◌then◌else◌, ◌⊎◌, inl, inr, none, some, List,
  [], ◌∷◌, returns, >>=-eq-returns, any, insert, lookup, string_eq, arith,
}
use update_manager.Types.{
  StatusType, running, completed, incomplete, status_eq, status_beq, no_status, CommandType,
  command_beq, Action,
}
use update_manager.Orchestration.Session.{
  Session, status_of, set_domain, delay_incomplete, values, domain_update_running, command_agent,
}
use update_manager.Orchestration.Feedback.Identification.{check_identification_status}
use update_manager.Orchestration.Feedback.Phases.{in_download, signal_running}
use update_manager.Orchestration.Feedback.Completion.{domain_update_completed}
use update_manager.Orchestration.Feedback.Plan.{
  Plan, ignore, identify, fail_identification, succeed, fail, report, finish, run, plan,
  with_actions, handle_event-run,
}
use update_manager.Orchestration.Feedback.{Event, handle_event, handle_events}

-- Past the identification, with no domain in the download phase and UPDATE not signalled.
pub record IsStalled (s : Session) : Type 0 where
  pub past : (s.op.status ≡ running) ⊎ ((s.op.status ≡ incomplete) ⊎ (s.op.status ≡ completed))
  pub left : any in_download (values s.op.domains) ≡ false
  pub silent : s.op.command_channels.update ≡ none

pub any-insert :
    (p : StatusType → Bool) (d : String) (status : StatusType) (m : List (String × StatusType))
    → p status ≡ false
    → any p (values m) ≡ false
    → any p (values (insert d status m)) ≡ false
unfolding insert
any-insert p d status [] h k = ground arith
any-insert p d status ((j, w) ∷ m) h k = ground (arith, any-insert p d status m h)

any-values :
    (p : StatusType → Bool) (s : Session) (d : String)
    → p no_status ≡ false
    → any p (values s.op.domains) ≡ false
    → p (status_of d s) ≡ false
any-values p s d h k = go s.op.domains k
  where
    go :
        (m : List (String × StatusType))
        → any p (values m) ≡ false
        → p (elim (lookup d m) [ none ↦ no_status | some status ↦ status ]) ≡ false
    go [] k = h
    go ((j, w) ∷ m) k = ground (arith, go m)

-- What the plans write is no status of the download phase, and only the download phase signals UPDATE.
abbrev LeavesDownload : Plan → Type 0
LeavesDownload (succeed phase status c) =
    (in_download status ≡ false)
    × (((d : StatusType) → phase d ≡ true → in_download d ≡ true)
        ⊎ (command_beq CommandType.update c ≡ false))
LeavesDownload (fail phase status) = in_download status ≡ false
LeavesDownload (finish skipped status delay) = in_download status ≡ false
LeavesDownload _ = Unit

plan-LeavesDownload : (status : StatusType) → LeavesDownload (plan status)
unfolding status_beq command_beq
plan-LeavesDownload StatusType.download_success = (refl, inl (λ d h. h))
plan-LeavesDownload StatusType.update_success = (refl, inr refl)
plan-LeavesDownload StatusType.activation_success = (refl, inr refl)
plan-LeavesDownload StatusType.rollback_success = (refl, inr refl)
plan-LeavesDownload StatusType.completed = refl
plan-LeavesDownload StatusType.incomplete = refl
plan-LeavesDownload StatusType.cleanup_success = refl
plan-LeavesDownload StatusType.cleanup_failure = refl
plan-LeavesDownload StatusType.download_failure = refl
plan-LeavesDownload StatusType.update_failure = refl
plan-LeavesDownload StatusType.activation_failure = refl
plan-LeavesDownload StatusType.rollback_failure = refl
plan-LeavesDownload _ = tt

set_domain-IsStalled :
    (d : String) (status : StatusType) (s : Session)
    → in_download status ≡ false
    → IsStalled s
    → IsStalled (set_domain d status s)
set_domain-IsStalled d status s h k = record {
  past = k.past;
  left = any-insert in_download d status s.op.domains h k.left;
  silent = k.silent;
}

signal_running-past :
    (c : CommandType) (s s' : Session)
    → command_beq CommandType.update c ≡ false
    → IsStalled s
    → signal_running c s ≡ returns s'
    → IsStalled s'
unfolding signal_running domain_update_running
signal_running-past CommandType.update s s' n h e = unfold command_beq in ground arith
signal_running-past _ s s' n h e = ground arith

domain_update_completed-IsStalled :
    (s s' : Session) → IsStalled s → domain_update_completed s ≡ returns s' → IsStalled s'
unfolding domain_update_completed
domain_update_completed-IsStalled s s' h e = record {
  past = ground arith;
  left = ground arith;
  silent = ground arith;
}

check-past :
    (d : String) (s : Session)
    → (s.op.status ≡ running) ⊎ ((s.op.status ≡ incomplete) ⊎ (s.op.status ≡ completed))
    → check_identification_status d s ≡ false
unfolding check_identification_status status_beq
check-past d s (inl r) = ground arith
check-past d s (inr (inl r)) = ground arith
check-past d s (inr (inr r)) = ground arith

copy-IsStalled : (s s' : Session) → s'.op ≡ s.op → IsStalled s → IsStalled s'
copy-IsStalled s s' e h = record { past = ground arith; left = ground arith; silent = ground arith }

run-succeed :
    (phase : StatusType → Bool) (status : StatusType) (c : CommandType) (d m : String)
    (actions : List Action) (s s' : Session)
    → run (succeed phase status c) d m actions s ≡ returns s'
    → ((s' ≡ s) ⊎ (s' ≡ set_domain d status s))
      ⊎ ((signal_running c (set_domain d status s) ≡ returns s') × (phase (status_of d s) ≡ true))
unfolding run
run-succeed phase status c d m actions s s' e = ground arith

succeed-IsStalled :
    (phase : StatusType → Bool) (status : StatusType) (c : CommandType) (d : String)
    (s s' : Session)
    → LeavesDownload (succeed phase status c)
    → IsStalled s
    → ((s' ≡ s) ⊎ (s' ≡ set_domain d status s))
      ⊎ ((signal_running c (set_domain d status s) ≡ returns s') × (phase (status_of d s) ≡ true))
    → IsStalled s'
unfolding status_beq
succeed-IsStalled phase status c d s s' w h (inl (inl e)) = subst IsStalled (sym e) h
succeed-IsStalled phase status c d s s' w h (inl (inr e)) =
    subst IsStalled (sym e) (set_domain-IsStalled d status s w.0 h)
succeed-IsStalled phase status c d s s' (new, inl only) h (inr (e, t)) =
    absurd (ground (arith, only (status_of d s) t, any-values in_download s d refl h.left))
succeed-IsStalled phase status c d s s' (new, inr other) h (inr (e, t)) =
    signal_running-past c (set_domain d status s) s' other (set_domain-IsStalled d status s new h) e

run-finish :
    (skipped : StatusType → Bool) (status : StatusType) (b : Bool) (d m : String)
    (actions : List Action) (s s' : Session)
    → run (finish skipped status b) d m actions s ≡ returns s'
    → (s' ≡ s)
      ⊎ (domain_update_completed (set_domain d status (if b then delay_incomplete s else s))
          ≡ returns s')
unfolding run
run-finish skipped status true d m actions s s' e = ground arith
run-finish skipped status false d m actions s s' e = ground arith

finish-IsStalled :
    (status : StatusType) (b : Bool) (d : String) (s s' : Session)
    → in_download status ≡ false
    → IsStalled s
    → (s' ≡ s)
      ⊎ (domain_update_completed (set_domain d status (if b then delay_incomplete s else s))
          ≡ returns s')
    → IsStalled s'
finish-IsStalled status b d s s' n h (inl e) = subst IsStalled (sym e) h
finish-IsStalled status true d s s' n h (inr e) =
    domain_update_completed-IsStalled _ s'
      (set_domain-IsStalled d status (delay_incomplete s) n
        (record { past = h.past; left = h.left; silent = h.silent }))
      e
finish-IsStalled status false d s s' n h (inr e) =
    domain_update_completed-IsStalled _ s' (set_domain-IsStalled d status s n h) e

run-fail :
    (phase : StatusType → Bool) (status : StatusType) (d m : String) (actions : List Action)
    (s s' : Session)
    → run (fail phase status) d m actions s ≡ returns s'
    → (s' ≡ s) ⊎ (s'.op ≡ (set_domain d status (delay_incomplete s)).op)
unfolding run command_agent
run-fail phase status d m actions s s' e = ground arith

fail-IsStalled :
    (status : StatusType) (d : String) (s s' : Session)
    → in_download status ≡ false
    → IsStalled s
    → (s' ≡ s) ⊎ (s'.op ≡ (set_domain d status (delay_incomplete s)).op)
    → IsStalled s'
fail-IsStalled status d s s' n h (inl e) = subst IsStalled (sym e) h
fail-IsStalled status d s s' n h (inr e) =
    copy-IsStalled (set_domain d status (delay_incomplete s)) s' e (
      set_domain-IsStalled d status (delay_incomplete s) n
        (record { past = h.past; left = h.left; silent = h.silent }))

run-IsStalled :
    (p : Plan) (d m : String) (actions : List Action) (s s' : Session)
    → LeavesDownload p
    → IsStalled s
    → run p d m actions s ≡ returns s'
    → IsStalled s'
run-IsStalled ignore d m actions s s' w h e = copy-IsStalled s s' (unfold run in ground arith) h
run-IsStalled identify d m actions s s' w h e =
    copy-IsStalled s s' (unfold run in ground (arith, check-past d s h.past)) h
run-IsStalled fail_identification d m actions s s' w h e =
    copy-IsStalled s s' (unfold run in ground (arith, check-past d s h.past)) h
run-IsStalled (succeed phase status c) d m actions s s' w h e =
    succeed-IsStalled phase status c d s s' w h (run-succeed phase status c d m actions s s' e)
run-IsStalled (fail phase status) d m actions s s' w h e =
    fail-IsStalled status d s s' w h (run-fail phase status d m actions s s' e)
run-IsStalled (report true phase) d m actions s s' w h e =
    copy-IsStalled s s' (unfold run domain_update_running in ground arith) h
run-IsStalled (report false phase) d m actions s s' w h e =
    copy-IsStalled s s' (unfold run domain_update_running in ground arith) h
run-IsStalled (finish skipped status b) d m actions s s' w h e =
    finish-IsStalled status b d s s' w h (run-finish skipped status b d m actions s s' e)

handle_event-IsStalled :
    (d : String) (status : StatusType) (m : String) (actions : List Action) (s s' : Session)
    → IsStalled s
    → handle_event d status m actions s ≡ returns s'
    → IsStalled s'
handle_event-IsStalled d status m actions s s' h e =
    let (stored, e') = handle_event-run d status m actions s s' e in
    run-IsStalled (plan status) d m actions (with_actions s stored) s' (plan-LeavesDownload status)
      (record { past = h.past; left = h.left; silent = h.silent }) e'

-- Once an operation is running, incomplete or completed, no domain of it is identified or
-- downloading, and UPDATE is not signalled, no sequence of events that are handled to the end
-- signals UPDATE.
pub handle_events-update_silent :
    (es : List Event) (s s' : Session)
    → IsStalled s
    → handle_events es s ≡ returns s'
    → s'.op.command_channels.update ≡ none
unfolding handle_events
handle_events-update_silent [] s s' h e = ground (arith, h.silent)
handle_events-update_silent (v ∷ es) s s' h e =
    let (t, e₁, e₂) =
      >>=-eq-returns (handle_event v.domain v.status v.message v.actions s) (handle_events es) e in
    handle_events-update_silent es t s'
      (handle_event-IsStalled v.domain v.status v.message v.actions s t h e₁) e₂
