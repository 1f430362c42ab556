-- ===== src/Orchestration/System/Simulation.antt =====
-- The main loop among the other goroutines is the function `apply` of update_orchestrator_apply.go: its waits
-- are the turns that `apply_loop` takes.
use update_manager.Base.{
  All, String, Bool, true, false, ◌≡◌, refl, sym, ap, subst, Option, none, some, List, [], ◌∷◌,
  ◌++◌, if◌then◌else◌, arith,
}
use std.Path.{fun_ext}
use update_manager.Types.{status_eq, CommandType, command_eq}
use update_manager.Orchestration.Session.{Session}
use update_manager.Orchestration.Signals.{Texts}
use update_manager.Orchestration.Apply.{Turn, start_apply, reboots, apply_loop}
use update_manager.Orchestration.System.{
  Pc, over, System, Step, event, handles, answers, wakes, ends, Reach, starts, then_step, proceed,
}
use update_manager.Orchestration.System.Turns.{
  results, Stands, signalled-stops, wake-Stands, end-Stands,
}

append-last : (ts us : List Turn) (t : Turn) → (ts ++ t ∷ []) ++ us ≡ ts ++ t ∷ us
append-last [] us t = refl
append-last (s ∷ ts) us t = ap (λ l. s ∷ l) (append-last ts us t)

-- `apply` on some turns and those to come.
abbrev Taken : Texts → Session → List Turn → Pc → List CommandType → Type 0
Taken x s turns pc spawned = Stands x (λ ts. apply_loop x s (turns ++ ts)) pc spawned

Taken-snoc :
    (x : Texts) (s : Session) (turns : List Turn) (t : Turn) (pc : Pc) (spawned : List CommandType)
    → Stands x (λ ts. apply_loop x s (turns ++ t ∷ ts)) pc spawned
    → Taken x s (turns ++ t ∷ []) pc spawned
Taken-snoc x s turns t pc spawned h =
    subst (λ k. Stands x k pc spawned)
      (fun_ext (λ ts. ap (apply_loop x s) (sym (append-last turns ts t)))) h

-- The main loop wakes in a reachable state.
abbrev pub IsSeen : Texts → Session → Turn → Type 0
IsSeen x s turn = (u : System) × Reach x s u × (u.session ≡ turn.0)

All-snoc : (P : Turn → Type 0) (ts : List Turn) (t : Turn) → All P ts → P t → All P (ts ++ t ∷ [])
All-snoc P [] t h p = (p, tt)
All-snoc P (s ∷ ts) t (q, h) p = (q, All-snoc P ts t h p)

abbrev Follows : Texts → Session → System → Type 0
Follows x s t = (turns : List Turn) × All (IsSeen x s) turns × Taken x s turns t.pc t.spawned

step-Follows :
    (x : Texts) (s : Session) (u t : System)
    → Reach x s u
    → Step x u t
    → Follows x s u
    → Follows x s t
step-Follows x s u t reached (event v s' i e same) f = subst (Follows x s) (sym same) f
step-Follows x s u t reached (handles o before after c s' i e same) f =
    subst (Follows x s) (sym same) f
step-Follows x s u t reached (answers a answer op e same) f = subst (Follows x s) (sym same) f
step-Follows x s u t reached (wakes c w r p e same) (turns, seen, h) =
    subst (Follows x s) (sym same) (
      turns ++ (u.session, w) ∷ [],
      All-snoc (IsSeen x s) turns (u.session, w) seen (u, reached, refl),
      Taken-snoc x s turns (u.session, w) (proceed c r)
          (if r.spawned then c ∷ u.spawned else u.spawned)
          (wake-Stands x (λ ts. apply_loop x s (turns ++ ts)) u.spawned u.session w c r.running
            r.rollback r.spawned r.err r.after (subst (λ pc. Taken x s turns pc u.spawned) p h) e
            (signalled-stops x c w u.session r e)),
    )
step-Follows x s u t reached (ends w r p e same) (turns, seen, h) = subst (Follows x s) (sym same) (
  turns ++ (u.session, w) ∷ [],
  All-snoc (IsSeen x s) turns (u.session, w) seen (u, reached, refl),
  Taken-snoc x s turns (u.session, w) (over (reboots r.after) r.err) u.spawned
      (end-Stands x (λ ts. apply_loop x s (turns ++ ts)) u.spawned u.session w r
        (subst (λ pc. Taken x s turns pc u.spawned) p h) e),
)

Reach-Follows : (x : Texts) (s : Session) (t : System) → Reach x s t → Follows x s t
unfolding apply_loop
Reach-Follows x s t starts = (
  [],
  tt,
  (
    record {
      running = true;
      rollback = false;
      err = none;
      now = start_apply s;
      spawned = [];
      turns = [];
    },
    (refl, refl),
    λ ts. ground arith,
  ),
)
Reach-Follows x s t (then_step {t = u} r step) = step-Follows x s u t r step (Reach-Follows x s u r)

-- However the main loop, the handlers, the agents and the owner alternate: where the main loop has ended, its
-- results and the handlers that it has started are those of `apply` on some sequence of turns, in each of which
-- it wakes in a reachable state, whatever turns would follow.
pub Reach-apply_loop :
    (x : Texts) (s : Session) (t : System) (reboot : Bool) (err : Option String)
    → Reach x s t
    → t.pc ≡ over reboot err
    → (turns : List Turn) × All (IsSeen x s) turns
      × ((more : List Turn)
          → results (apply_loop x s (turns ++ more)) ≡ some (reboot, err, t.spawned))
Reach-apply_loop x s t reboot err r p =
    let (turns, seen, h) = Reach-Follows x s t r in
    (turns, seen, subst (λ pc. Taken x s turns pc t.spawned) p h)
