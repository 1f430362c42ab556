-- ===== src/Orchestration/Apply.antt =====
-- The main loop of an update: apply of update_orchestrator_apply.go, and Apply with its deferred end.
pub mod Order
pub mod Progress
use update_manager.Base.{
  ℕ, String, Bool, true, false, ◌==◌, ◌&&◌, not, Option, none, some, List, [], ◌∷◌, if◌then◌else◌,
}
use mathlib.Core.Option
use update_manager.Types.{
  no_status, identifying, completed, incomplete, status_eq, CommandType, command_eq, DesiredState,
}
use update_manager.Orchestration.Operation.{
  Agent, UpdateOperation, new_update_operation, generate_command_channels,
}
use update_manager.Orchestration.Session.{Session, apply, emit, notify_feedback}
use update_manager.Orchestration.Signals.{
  Wake, done, Texts, Signalled, Waited, wait_signal, wait_command_signal,
}
use update_manager.Orchestration.Feedback.{UpdateOrchestrator, session}

abbrev pub ordered_commands : List CommandType
ordered_commands =
    CommandType.download ∷ CommandType.update ∷ CommandType.activate ∷ CommandType.cleanup ∷ []

-- One wait of the main goroutine: the session that the other goroutines have left when it wakes, and
-- the case that runs.
abbrev pub Turn : Type 0
Turn = Session × Wake

-- The variables of `apply`; `spawned` has the commands whose handler was started, latest first, and
-- `turns` the waits to come.
pub record Loop : Type 0 where
  pub running : Bool
  pub rollback : Bool
  pub err : Option String
  pub now : Session
  pub spawned : List CommandType
  pub turns : List Turn

unfoldable pub after_signal : CommandType → Loop → List Turn → Signalled → Loop
after_signal c l turns r = record {
  running = r.running;
  rollback = r.rollback;
  err = r.err;
  now = r.after;
  spawned = if r.spawned then c ∷ l.spawned else l.spawned;
  turns = turns;
}

unfoldable pub next_turn : Texts → CommandType → Loop → List Turn → Option Loop
next_turn x c l [] = none
next_turn x c l ((s, wake) ∷ turns) =
    Option.map (after_signal c l turns) (wait_command_signal x c wake s)

-- waitCommandSignal on the next turn; `none` while it waits.
unfoldable pub wait_turn : Texts → CommandType → Loop → Option Loop
unfolding next_turn after_signal
wait_turn x c l = next_turn x c l l.turns

-- The `for` loop over the commands after DOWNLOAD.
unfoldable pub rounds : Texts → List CommandType → Loop → Option Loop
rounds x [] l = some l
rounds x (c ∷ cs) l = elim l.running [
  | false ↦ some l
  | true ↦ elim (l.rollback && not (c == CommandType.cleanup)) [
    | true ↦ rounds x cs l
    | false ↦ elim (wait_turn x c l) [ none ↦ none | some l' ↦ rounds x cs l' ]
  ]
]

-- The results of `apply`, and where it ends.
pub record Applied : Type 0 where
  pub reboot : Bool
  pub err : Option String
  pub now : Session
  pub spawned : List CommandType

abbrev pub reboots : Session → Bool
reboots s = s.op.reboot_required && s.op.status == completed

abbrev pub finished : Loop → Applied
finished l = record { reboot = reboots l.now; err = l.err; now = l.now; spawned = l.spawned }

unfoldable pub after_done : Loop → Waited → Applied
after_done l w = record {
  reboot = reboots w.after;
  err = w.err;
  now = w.after;
  spawned = l.spawned;
}

unfoldable pub last_turn : Texts → Loop → List Turn → Option Applied
last_turn x l [] = none
last_turn x l ((s, wake) ∷ turns) = Option.map (after_done l) (wait_signal x done wake s)

-- After the loop: the wait for the last command to finish.
unfoldable pub await_done : Texts → Loop → Option Applied
unfolding last_turn after_done
await_done x l = if l.running then last_turn x l l.turns else some (finished l)

unfoldable pub after_download : Texts → Loop → Option Applied
after_download x l = elim l.err [
  | some m ↦ some (record { reboot = false; err = l.err; now = l.now; spawned = l.spawned })
  | none ↦
      elim (rounds x (CommandType.update ∷ CommandType.activate ∷ CommandType.cleanup ∷ []) l) [
        | none ↦ none
        | some l' ↦ await_done x l'
      ]
]

unfoldable pub send_all : List (ℕ × (Agent × DesiredState)) → Session → Session
send_all [] s = s
send_all ((p, (agent, state)) ∷ m) s = send_all m (emit (apply agent s.op.activity_id state) s)

-- The session once `apply` has told the callback and started the goroutines of the agents.
unfoldable pub start_apply : Session → Session
unfolding send_all
start_apply s = let t = notify_feedback identifying "" s in send_all t.op.states_per_domain t

-- The first turn goes on from what `start_apply` has left; `none` while the main goroutine waits.
unfoldable pub apply_loop : Texts → Session → List Turn → Option Applied
unfolding after_download
apply_loop x s turns =
    elim (wait_turn x CommandType.download (record {
      running = true;
      rollback = false;
      err = none;
      now = start_apply s;
      spawned = [];
      turns = turns;
    })) [ none ↦ none | some l ↦ after_download x l ]

-- The operation that setupUpdateOperation leaves behind an error. Its channels are nil, so that a send waits for
-- ever: full buffers, from which nothing is received, since `apply` does not run.
unfoldable pub failed_operation : UpdateOperation
failed_operation = record {
  activity_id = "";
  status = incomplete;
  delayed_status = no_status;
  delayed_err_msg = "";
  domains = [];
  actions = [];
  desired_state = none;
  states_per_domain = [];
  command_channels = record {
    download = some false;
    update = some false;
    activate = some false;
    cleanup = some false;
  };
  done = some false;
  err_chan = some false;
  err_msg = "";
  owner_consented = some false;
  rollback_chan = some false;
  reboot_required = false;
}

unfoldable pub setup_update_operation :
    List (String × Agent) → String → DesiredState → UpdateOperation × Option String
setup_update_operation agents activity_id state =
    elim (new_update_operation agents activity_id state) [
      | none ↦ (
        failed_operation,
        some "the desired state manifest does not contain any supported domain",
      )
      | some op ↦ (op, none)
    ]

-- The deferred function: the last feedback, with the final status, and the end of the operation.
unfoldable pub end_apply : Option String → Session → UpdateOrchestrator
end_apply err s =
    let message : String = elim err [ none ↦ "" | some m ↦ m ] in
    let t = notify_feedback s.op.status message s in
    record { cfg = t.cfg; operation = none; sent = t.sent }

-- The orchestrator's Apply; `none` while the main goroutine waits.
unfoldable pub orchestrator_apply :
    Texts
    → List (String × Agent)
    → String
    → DesiredState
    → List Turn
    → UpdateOrchestrator
    → Option (Bool × UpdateOrchestrator)
unfolding setup_update_operation
orchestrator_apply x agents activity_id state turns o =
    let (op, err) = setup_update_operation agents activity_id state in
    elim err [
      | some m ↦ some (false, end_apply (some m) (session o op))
      | none ↦ elim (apply_loop x (session o op) turns) [
        | none ↦ none
        | some r ↦ some (r.reboot, end_apply r.err r.now)
      ]
    ]
