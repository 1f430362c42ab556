-- ===== src/Orchestration/System/Waits.antt =====
-- What the end of a wait of the main loop leaves alone.
use update_manager.Base.{true, false, ◌≡◌, ◌≢◌, ◌⊎◌, none, some, arith}
use update_manager.Types.{incomplete, CommandType, command_eq, command_beq_iff}
use update_manager.Orchestration.Operation.{CommandChannels}
use update_manager.Orchestration.Session.{Session, command_chan, set_command_chan}
use update_manager.Orchestration.Signals.{
  Wake, timed_out, signalled, Texts, Signalled, Waited, done, wait_signal, wait_command_signal,
}

drained :
    (c k : CommandType) (v : CommandChannels)
    → command_chan k (set_command_chan c none v) ≡ some true
    → command_chan k v ≡ some true
drained CommandType.download CommandType.download v h = cc
drained CommandType.update CommandType.update v h = cc
drained CommandType.activate CommandType.activate v h = cc
drained CommandType.cleanup CommandType.cleanup v h = cc
drained _ _ v h = ground arith

-- The domains and the calls stay, and no channel is filled.
pub record Waiting (k : CommandType) (s t : Session) : Type 0 where
  pub domains : t.op.domains ≡ s.op.domains
  pub sent : t.sent ≡ s.sent
  pub channel :
      command_chan k t.op.command_channels ≡ some true
      → command_chan k s.op.command_channels ≡ some true

pub wait_command_signal-Waiting :
    (k : CommandType) (x : Texts) (c : CommandType) (w : Wake) (s : Session) (r : Signalled)
    → wait_command_signal x c w s ≡ some r
    → Waiting k s r.after
unfolding wait_command_signal
wait_command_signal-Waiting k x c signalled s r e = record {
  domains = ground arith;
  sent = ground arith;
  channel = λ f. ground (arith, drained c k s.op.command_channels);
}
wait_command_signal-Waiting k x c w s r e = record {
  domains = ground arith;
  sent = ground arith;
  channel = λ f. ground arith;
}

-- A wait without an error leaves the status, and starts a handler only on a signal; one with an error
-- starts none, and marks the operation incomplete, or its identification failed if DOWNLOAD was awaited.
pub wait_command_signal-cases :
    (x : Texts) (c : CommandType) (w : Wake) (s : Session) (r : Signalled)
    → wait_command_signal x c w s ≡ some r
    → ((r.err ≡ none) × (r.after.op.status ≡ s.op.status))
      ⊎ ((r.err ≢ none)
          × (r.spawned ≡ false)
          × ((r.after.op.status ≡ s.op.status)
              ⊎ ((r.after.op.status ≡ incomplete) ⊎ (c ≡ CommandType.download))))
unfolding wait_command_signal
wait_command_signal-cases x c timed_out s r e =
    ground (arith, command_beq_iff c CommandType.download)
wait_command_signal-cases x c w s r e = ground arith

pub wait_command_signal-spawned :
    (x : Texts) (c : CommandType) (w : Wake) (s : Session) (r : Signalled)
    → wait_command_signal x c w s ≡ some r
    → r.spawned ≡ true
    → command_chan c s.op.command_channels ≡ some true
unfolding wait_command_signal
wait_command_signal-spawned x c timed_out s r e f = ground arith
wait_command_signal-spawned x c w s r e f = ground arith

pub wait_done-keeps :
    (x : Texts) (w : Wake) (s : Session) (r : Waited)
    → wait_signal x done w s ≡ some r
    → (r.after.op.domains ≡ s.op.domains)
      × (r.after.sent ≡ s.sent)
      × ((r.after.op.status ≡ s.op.status) ⊎ (r.after.op.status ≡ incomplete))
unfolding wait_signal
wait_done-keeps x timed_out s r e = ground arith
wait_done-keeps x w s r e = ground arith
