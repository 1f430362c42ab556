-- ===== src/Orchestration/System/Reached.antt =====
-- What every reachable state of the goroutines keeps.
use update_manager.Base.{
  ℕ, true, false, ◌≡◌, refl, sym, subst, inl, inr, some, List, [], ◌∷◌, arith,
}
use update_manager.Types.{CommandType, command_eq, DesiredState}
use update_manager.Orchestration.Operation.{Agent, generate_command_channels}
use update_manager.Orchestration.Session.{Session, command_chan, notify_feedback}
use update_manager.Orchestration.Signals.{Texts}
use update_manager.Orchestration.Apply.{start_apply, send_all}
use update_manager.Orchestration.System.{
  System, Step, event, handles, answers, wakes, ends, init, Reach, starts, then_step,
}
use update_manager.Orchestration.System.Events.{IsEarly, tells}
use update_manager.Orchestration.System.Invariant.{
  Inv, event-Inv, handles-Inv, answers-Inv, wakes-Inv, ends-Inv,
}

Step-Inv : (k : CommandType) (x : Texts) (s u : System) → IsEarly k → Inv k s → Step x s u → Inv k u
Step-Inv k x s u early i (event v t h e q) = subst (Inv k) (sym q) (event-Inv k s v t early e i)
Step-Inv k x s u early i (handles o before after c t p e q) =
    subst (Inv k) (sym q) (handles-Inv k s o before after c t early p e i)
Step-Inv k x s u early i (answers a f op e q) = subst (Inv k) (sym q) (answers-Inv k s a f op e i)
Step-Inv k x s u early i (wakes c w r p e q) = subst (Inv k) (sym q) (wakes-Inv k x c w s r p e i)
Step-Inv k x s u early i (ends w r p e q) = subst (Inv k) (sym q) (ends-Inv k x w s r e i)

send_all-keeps :
    (k : CommandType) (m : List (ℕ × (Agent × DesiredState))) (s : Session)
    → ((send_all m s).op ≡ s.op) × (tells k (send_all m s).sent ≡ tells k s.sent)
unfolding send_all
send_all-keeps k [] s = (refl, refl)
send_all-keeps k ((p, (agent, state)) ∷ m) s = send_all-keeps k m _

pub start_apply-keeps :
    (k : CommandType) (s : Session)
    → ((start_apply s).op ≡ s.op) × (tells k (start_apply s).sent ≡ tells k s.sent)
unfolding start_apply notify_feedback
start_apply-keeps k s = send_all-keeps k s.op.states_per_domain _

-- An operation that no event has reached, in a session that has told no agent.
pub record IsFresh (s : Session) : Type 0 where
  pub channels : s.op.command_channels ≡ generate_command_channels
  pub quiet : (k : CommandType) → tells k s.sent ≡ false

init-Inv : (k : CommandType) (s : Session) → IsEarly k → IsFresh s → Inv k (init s)
unfolding generate_command_channels
init-Inv k s early h = record {
  signalled = λ go full. absurd (empty early (start_apply-keeps k s).0 full);
  closed = λ has. cc;
  first = λ _. refl;
  started = λ c has. cc;
  told = λ has. ground (arith, start_apply-keeps k s, h.quiet k);
}
  where
    empty :
        IsEarly k
        → (start_apply s).op ≡ s.op
        → command_chan k (start_apply s).op.command_channels ≡ some true
        → ⊥
    empty (inl e) same full = ground (arith, h.channels)
    empty (inr e) same full = ground (arith, h.channels)

pub Reach-Inv :
    (k : CommandType) (x : Texts) (s : Session) {t : System}
    → IsEarly k
    → IsFresh s
    → Reach x s t
    → Inv k t
Reach-Inv k x s early h starts = init-Inv k s early h
Reach-Inv k x s early h (then_step {t} {u} r st) =
    Step-Inv k x t u early (Reach-Inv k x s early h r) st
