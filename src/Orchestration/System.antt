-- ===== src/Orchestration/System.antt =====
-- The goroutines of one update together: the main loop of update_orchestrator_apply.go, the handlers of
-- the commands that it starts, the events of the agents and the answers of the owner, in any order. The
-- operation's lock makes an event and a handler one step each; what the main loop does while a handler
-- waits for the owner is a step before it or after it.
pub mod Simulation
pub mod Orders
pub mod Success
pub mod Finishing
pub mod Journey
pub mod Beginning
pub mod Granting
pub mod Completion
pub mod Stages
pub mod Outcome
pub mod Events
pub mod Handlers
pub mod Waits
pub mod Invariant
pub mod Reached
pub mod Safety
pub mod Turns
use update_manager.Base.{
  String, Bool, true, false, ◌≡◌, Option, none, some, List, [], ◌∷◌, ◌++◌, returns, has_key,
  string_eq, if◌then◌else◌,
}
use update_manager.Types.{status_eq, CommandType, command_eq, OwnerConsentFeedback}
use update_manager.Orchestration.Operation.{UpdateOperation}
use update_manager.Orchestration.Session.{Session, with_op}
use update_manager.Orchestration.Feedback.{Event, handle_event}
use update_manager.Orchestration.Consent.{
  Owner, handle_command_signal, handle_owner_consent_feedback,
}
use update_manager.Orchestration.Signals.{
  Wake, Texts, Signalled, Waited, done, wait_signal, wait_command_signal,
}
use update_manager.Orchestration.Apply.{start_apply, reboots}

-- Where the main loop stands: in the wait for a command, in the wait for the end, or past both with the
-- results of `apply`.
pub data Pc : Type 0 where
  at : CommandType → Pc
  at_done : Pc
  over : Bool → Option String → Pc

pub record System : Type 0 where
  pub session : Session
  pub pc : Pc
  -- The handlers that were started, latest first, and those of them that have not run.
  pub spawned : List CommandType
  pub pending : List CommandType

-- The next wait of the loop over `orderedCommands`; a rollback goes on with CLEANUP.
abbrev pub next_pc : CommandType → Bool → Pc
next_pc CommandType.download rollback =
    if rollback then at CommandType.cleanup else at CommandType.update
next_pc CommandType.update rollback =
    if rollback then at CommandType.cleanup else at CommandType.activate
next_pc CommandType.activate rollback = at CommandType.cleanup
next_pc _ rollback = at_done

-- An error of the first wait returns `false` at once.
abbrev pub reboots_after : CommandType → Session → Bool
reboots_after CommandType.download s = false
reboots_after _ s = reboots s

abbrev pub proceed : CommandType → Signalled → Pc
proceed c r = elim r.err [
  | some m ↦ over (reboots_after c r.after) r.err
  | none ↦ if r.running then next_pc c r.rollback else over (reboots r.after) none
]

abbrev pub after_wake : CommandType → Signalled → System → System
after_wake c r s = record {
  session = r.after;
  pc = proceed c r;
  spawned = if r.spawned then c ∷ s.spawned else s.spawned;
  pending = if r.spawned then c ∷ s.pending else s.pending;
}

pub data Step (x : Texts) (s u : System) : Type 0 where
  -- An agent reports about its domain.
  event :
      (v : Event) (t : Session)
      → has_key v.domain s.session.op.domains ≡ true
      → handle_event v.domain v.status v.message v.actions s.session ≡ returns t
      → u ≡ record s { session = t }
      → Step x s u
  -- A handler that was started runs.
  handles :
      (o : Owner) (before after : List CommandType) (c : CommandType) (t : Session)
      → s.pending ≡ before ++ c ∷ after
      → handle_command_signal o c s.session ≡ some (returns t)
      → u ≡ record s { session = t; pending = before ++ after }
      → Step x s u
  -- The owner answers.
  answers :
      (activity_id : String) (f : Option OwnerConsentFeedback) (op : UpdateOperation)
      → handle_owner_consent_feedback activity_id f (some s.session.op) ≡ returns (some op)
      → u ≡ record s { session = with_op s.session op }
      → Step x s u
  -- A wait for a command ends.
  wakes :
      (c : CommandType) (w : Wake) (r : Signalled)
      → s.pc ≡ at c
      → wait_command_signal x c w s.session ≡ some r
      → u ≡ after_wake c r s
      → Step x s u
  -- The wait for the end ends.
  ends :
      (w : Wake) (r : Waited)
      → s.pc ≡ at_done
      → wait_signal x done w s.session ≡ some r
      → u ≡ record s { session = r.after; pc = over (reboots r.after) r.err }
      → Step x s u

abbrev pub init : Session → System
init s = record {
  session = start_apply s;
  pc = at CommandType.download;
  spawned = [];
  pending = [];
}

pub data Reach (x : Texts) (s : Session) : System → Type 0 where
  starts : Reach x s (init s)
  then_step : {t u : System} → Reach x s t → Step x t u → Reach x s u
