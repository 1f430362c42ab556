-- ===== src/Orchestration/Signals.antt =====
-- waitSignal and waitCommandSignal of update_orchestrator_apply.go. Which ready case of the `select`
-- runs is an argument.
use update_manager.Base.{
  String, Bool, true, false, ◌==◌, ◌&&◌, not, Option, none, some, if◌then◌else◌,
}
use Prim.Native.String.{◌++◌ as cat}
use update_manager.Types.{identification_failed, incomplete, CommandType, command_eq}
use update_manager.Orchestration.Operation.{Chan}
use update_manager.Orchestration.Session.{
  Session, with_op, set_status, command_chan, set_command_chan,
}

-- The case of the `select` that runs.
pub data Wake : Type 0 where
  timed_out failed rolled_back signalled terminated : Wake

-- The channel that is waited for.
pub data Source : Type 0 where
  command : CommandType → Source
  done : Source

abbrev pub source_chan : Source → Session → Chan
source_chan (command c) s = command_chan c s.op.command_channels
source_chan done s = s.op.done

abbrev pub drain : Source → Session → Session
drain (command c) s =
    with_op s (record s.op { command_channels = set_command_chan c none s.op.command_channels })
drain done s = with_op s (record s.op { done = none })

-- The results of waitSignal, and the session that it leaves.
pub record Waited : Type 0 where
  pub value : Bool
  pub rollback : Bool
  pub timeout : Bool
  pub err : Option String
  pub after : Session

-- What the standard library and the configuration bring in: the text of the phase timeout, and
-- `fmt.Errorf` of a text that it takes for a format.
pub record Texts : Type 0 where
  pub phase_timeout : String
  pub errorf : String → String

-- `none` if the chosen case is not ready.
unfoldable pub wait_signal : Texts → Source → Wake → Session → Option Waited
wait_signal x source timed_out s = some (record {
  value = false;
  rollback = false;
  timeout = true;
  err = some (cat "not received in " x.phase_timeout);
  after = s;
})
wait_signal x source failed s = elim s.op.err_chan [
  | none ↦ none
  | some _ ↦ some (record {
    value = false;
    rollback = false;
    timeout = false;
    err = some (x.errorf s.op.err_msg);
    after = with_op s (record s.op { err_chan = none });
  })
]
wait_signal x source rolled_back s = elim s.op.rollback_chan [
  | none ↦ none
  | some _ ↦ some (record {
    value = true;
    rollback = true;
    timeout = false;
    err = none;
    after = with_op s (record s.op { rollback_chan = none });
  })
]
wait_signal x source signalled s = elim (source_chan source s) [
  | none ↦ none
  | some v ↦
      some (record {
        value = v;
        rollback = false;
        timeout = false;
        err = none;
        after = drain source s;
      })
]
wait_signal x source terminated s = some (record {
  value = false;
  rollback = false;
  timeout = false;
  err = some "the update manager instance is terminated";
  after = set_status incomplete s;
})

-- The text of a command.
abbrev pub command_text : CommandType → String
command_text CommandType.download = "DOWNLOAD"
command_text CommandType.update = "UPDATE"
command_text CommandType.activate = "ACTIVATE"
command_text CommandType.rollback = "ROLLBACK"
command_text CommandType.cleanup = "CLEANUP"
command_text (CommandType.other s) = s

-- The results of waitCommandSignal; `spawned` says whether `go handle(...)` ran.
pub record Signalled : Type 0 where
  pub running : Bool
  pub rollback : Bool
  pub err : Option String
  pub spawned : Bool
  pub after : Session

unfoldable pub wait_failure : CommandType → Waited → String → Signalled
wait_failure c w m = record {
  running = false;
  rollback = false;
  err = some (cat "failed to wait for command '" (cat (command_text c) (cat "' signal: " m)));
  spawned = false;
  after =
      if w.timeout
      then set_status (if c == CommandType.download then identification_failed else incomplete)
          w.after
      else w.after;
}

unfoldable pub wait_success : Waited → Signalled
wait_success w = record {
  running = w.value;
  rollback = w.rollback;
  err = none;
  spawned = w.value && not w.rollback;
  after = w.after;
}

unfoldable pub wait_command_signal : Texts → CommandType → Wake → Session → Option Signalled
unfolding wait_signal wait_failure wait_success
wait_command_signal x c wake s = elim (wait_signal x (command c) wake s) [
  | none ↦ none
  | some w ↦ some (elim w.err [ some m ↦ wait_failure c w m | none ↦ wait_success w ])
]
