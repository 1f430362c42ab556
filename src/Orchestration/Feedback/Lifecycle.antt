-- ===== src/Orchestration/Feedback/Lifecycle.antt =====
-- The life of one domain once the operation is past its identification: a graph of statuses, which is
-- all that the handlers of update_orchestrator_feedback.go let an agent do to its domain's status.
use update_manager.Base.{
  String, true, false, ◌≡◌, ap, subst, ◌⊎◌, inl, inr, none, some, List, [], ◌∷◌, returns,
  >>=-eq-returns, insert, lookup-insert, string_eq, eq_iff, arith, Option, Bool-cases, ◌==◌,
}
use update_manager.Types.{
  StatusType, identified, running, completed, incomplete, download_success, download_failure,
  update_success, update_failure, activation_success, activation_failure, rollback_success,
  rollback_failure, cleanup_success, cleanup_failure, status_eq, status_beq, no_status, CommandType,
  Action,
}
use update_manager.Orchestration.Session.{
  Session, status_of, set_domain, delay_incomplete, domain_update_running, command_agent,
}
use update_manager.Orchestration.Feedback.Identification.{check_identification_status}
use update_manager.Orchestration.Feedback.Phases.{
  in_download, in_update, in_activation, in_rollback, signal_running,
}
use update_manager.Orchestration.Feedback.Completion.{is_cleaned, domain_update_completed}
use update_manager.Orchestration.Feedback.Plan.{
  Plan, ignore, identify, fail_identification, succeed, fail, report, finish, run, plan,
  skips_cleanup, with_actions, handle_event-run,
}
use update_manager.Orchestration.Feedback.Frame.{written}
use update_manager.Orchestration.Feedback.{Event, handle_event, handle_events}

-- One step of a domain. A step into a cleanup is open to every domain that has not had one.
pub data Advances (d : StatusType) : StatusType → Type 0 where
  downloads : in_download d ≡ true → Advances d download_success
  fails_download : in_download d ≡ true → Advances d download_failure
  updates : in_update d ≡ true → Advances d update_success
  fails_update : in_update d ≡ true → Advances d update_failure
  activates : in_activation d ≡ true → Advances d activation_success
  fails_activation : in_activation d ≡ true → Advances d activation_failure
  rolls_back : in_rollback d ≡ true → Advances d rollback_success
  fails_rollback : in_rollback d ≡ true → Advances d rollback_failure
  is_clean : is_cleaned d ≡ false → Advances d cleanup_success
  is_dirty : is_cleaned d ≡ false → Advances d cleanup_failure

pub data Reaches (d : StatusType) : StatusType → Type 0 where
  stays : Reaches d d
  goes : {e f : StatusType} → Reaches d e → Advances e f → Reaches d f

-- The operation is past its identification.
abbrev pub Past : Session → Type 0
Past s = (s.op.status ≡ running) ⊎ ((s.op.status ≡ incomplete) ⊎ (s.op.status ≡ completed))

-- What holds of the old status where a plan writes a new one.
abbrev pub Guards : Plan → StatusType → Type 0
Guards (succeed phase status c) d = phase d ≡ true
Guards (fail phase status) d = phase d ≡ true
Guards (finish skipped status delay) d = skipped d ≡ false
Guards _ d = ⊥

-- A status that waits for its cleanup is no status after it.
skips_cleanup-is_cleaned : (d : StatusType) → skips_cleanup d ≡ false → is_cleaned d ≡ false
unfolding status_beq
skips_cleanup-is_cleaned identified h = cc
skips_cleanup-is_cleaned _ h = ground arith

pub plan-Advances :
    (status : StatusType) (actions : List Action) (d : StatusType)
    → Guards (plan status) d
    → Advances d (written (plan status) actions)
unfolding status_beq
plan-Advances StatusType.download_success actions d g = downloads g
plan-Advances StatusType.download_failure actions d g = fails_download g
plan-Advances StatusType.update_success actions d g = updates g
plan-Advances StatusType.update_failure actions d g = fails_update g
plan-Advances StatusType.activation_success actions d g = activates g
plan-Advances StatusType.activation_failure actions d g = fails_activation g
plan-Advances StatusType.rollback_success actions d g = rolls_back g
plan-Advances StatusType.rollback_failure actions d g = fails_rollback g
plan-Advances StatusType.completed actions d g = is_clean (ground arith)
plan-Advances StatusType.incomplete actions d g = is_dirty (ground arith)
plan-Advances StatusType.cleanup_success actions d g = is_clean (skips_cleanup-is_cleaned d g)
plan-Advances StatusType.cleanup_failure actions d g = is_dirty (skips_cleanup-is_cleaned d g)
plan-Advances _ actions d g = elim g [ ]

check-Past : (d : String) (s : Session) → Past s → check_identification_status d s ≡ false
unfolding check_identification_status status_beq
check-Past d s (inl r) = ground arith
check-Past d s (inr (inl r)) = ground arith
check-Past d s (inr (inr r)) = ground arith

-- What a handler leaves: still past the identification, and the statuses of the domains as they were,
-- or with one step of its own domain.
abbrev pub Moved : Plan → String → List Action → Session → Session → Type 0
Moved p d actions s s' =
    Past s'
    × ((s'.op.domains ≡ s.op.domains)
        ⊎ ((s'.op.domains ≡ insert d (written p actions) s.op.domains) × Guards p (status_of d s)))

signal_running-keeps :
    (c : CommandType) (s s' : Session)
    → signal_running c s ≡ returns s'
    → (s'.op.domains ≡ s.op.domains) × (s'.op.status ≡ s.op.status)
unfolding signal_running domain_update_running
signal_running-keeps CommandType.download s s' e = ground arith
signal_running-keeps CommandType.update s s' e = ground arith
signal_running-keeps CommandType.activate s s' e = ground arith
signal_running-keeps CommandType.cleanup s s' e = ground arith
signal_running-keeps CommandType.rollback s s' e = ground arith
signal_running-keeps (CommandType.other _) s s' e = ground arith

domain_update_completed-keeps :
    (s s' : Session)
    → Past s
    → domain_update_completed s ≡ returns s'
    → (s'.op.domains ≡ s.op.domains) × Past s'
unfolding domain_update_completed
domain_update_completed-keeps s s' h e = ground arith

run-Moved :
    (p : Plan) (d m : String) (actions : List Action) (s s' : Session)
    → Past s
    → run p d m actions s ≡ returns s'
    → Moved p d actions s s'
unfolding run
run-Moved ignore d m actions s s' h e = ground arith
run-Moved identify d m actions s s' h e = ground (arith, check-Past d s h)
run-Moved fail_identification d m actions s s' h e = ground (arith, check-Past d s h)
run-Moved (succeed phase status c) d m actions s s' h e =
    ground (arith, signal_running-keeps c (set_domain d status s) s')
run-Moved (fail phase status) d m actions s s' h e = unfold command_agent in ground arith
run-Moved (report true phase) d m actions s s' h e = unfold domain_update_running in ground arith
run-Moved (report false phase) d m actions s s' h e = unfold domain_update_running in ground arith
run-Moved (finish skipped status true) d m actions s s' h e =
    ground (arith, domain_update_completed-keeps (set_domain d status (delay_incomplete s)) s')
run-Moved (finish skipped status false) d m actions s s' h e =
    ground (arith, domain_update_completed-keeps (set_domain d status s) s')

pub handle_event-Moved :
    (v : Event) (s s' : Session)
    → Past s
    → handle_event v.domain v.status v.message v.actions s ≡ returns s'
    → Moved (plan v.status) v.domain v.actions s s'
handle_event-Moved v s s' h e =
    let (stored, e') = handle_event-run v.domain v.status v.message v.actions s s' e in
    run-Moved (plan v.status) v.domain v.message v.actions (with_actions s stored) s' h e'

-- The status that a lookup gives, where a missing key gives the zero value.
abbrev pub or_none : Option StatusType → StatusType
or_none none = no_status
or_none (some status) = status

Moved-status :
    (v : Event) (j : String) (s s' : Session)
    → Moved (plan v.status) v.domain v.actions s s'
    → (status_of j s' ≡ status_of j s) ⊎ Advances (status_of j s) (status_of j s')
Moved-status v j s s' (past, inl e) = inl (ground arith)
Moved-status v j s s' (past, inr (e, g)) = elim (Bool-cases (v.domain == j)) [
  | inr other ↦
      inl
        (ground (arith, lookup-insert v.domain j (written (plan v.status) v.actions) s.op.domains))
  | inl same ↦
      let old : status_of v.domain s ≡ status_of j s =
        ap (λ k. status_of k s) ((eq_iff v.domain j).0 same) in
      let new : written (plan v.status) v.actions ≡ status_of j s' =
        ground (arith, lookup-insert v.domain j (written (plan v.status) v.actions) s.op.domains) in
      inr (
        subst (λ a. Advances a (status_of j s')) old
          (subst (Advances (status_of v.domain s)) new
            (plan-Advances v.status v.actions (status_of v.domain s) g)))
]

Reaches-trans : {a b c : StatusType} → Reaches a b → Reaches b c → Reaches a c
Reaches-trans r stays = r
Reaches-trans r (goes q a) = goes (Reaches-trans r q) a

-- In an operation past its identification, any sequence of events that are handled to the end leads the
-- status of every domain along the graph `Advances`, and leaves the operation past its identification.
pub handle_events-Reaches :
    (es : List Event) (s s' : Session) (j : String)
    → Past s
    → handle_events es s ≡ returns s'
    → Reaches (status_of j s) (status_of j s') × Past s'
unfolding handle_events
handle_events-Reaches [] s s' j h e = (
  subst (λ t. Reaches (status_of j s) (status_of j t)) {x = s} {y = s'} (ground arith) stays,
  ground arith,
)
handle_events-Reaches (v ∷ es) s s' j h e =
    let (t, e₁, e₂) =
      >>=-eq-returns (handle_event v.domain v.status v.message v.actions s) (handle_events es) e in
    let moved = handle_event-Moved v s t h e₁ in
    let (rest, past) = handle_events-Reaches es t s' j moved.0 e₂ in
    (
      elim (Moved-status v j s t moved) [
        | inl same ↦ subst (λ a. Reaches a (status_of j s')) same rest
        | inr step ↦ Reaches-trans (goes stays step) rest
      ],
      past,
    )
