-- ===== src/Orchestration/System/Turns.antt =====
-- One wait of the main loop, as a step of the goroutines and as a turn that `apply_loop` takes.
use update_manager.Base.{
  String, Bool, true, false, ◌≡◌, refl, ◌⊎◌, inl, inr, Option, none, some, List, [], ◌∷◌,
  if◌then◌else◌, arith,
}
use update_manager.Types.{status_eq, CommandType, command_eq, command_beq}
use update_manager.Orchestration.Session.{Session}
use update_manager.Orchestration.Signals.{
  Wake, Texts, Signalled, Waited, done, wait_signal, wait_command_signal, wait_failure,
  wait_success,
}
use update_manager.Orchestration.Apply.{
  Turn, Loop, Applied, reboots, rounds, wait_turn, next_turn, after_signal, await_done, last_turn,
  after_done, after_download,
}
use update_manager.Orchestration.System.{Pc, at, at_done, over, proceed}

-- The commands of the waits from one on.
abbrev pub remaining : CommandType → List CommandType
remaining CommandType.update = CommandType.update ∷ CommandType.activate ∷ CommandType.cleanup ∷ []
remaining CommandType.activate = CommandType.activate ∷ CommandType.cleanup ∷ []
remaining CommandType.cleanup = CommandType.cleanup ∷ []
remaining _ = []

abbrev pub finish : Texts → Option Loop → Option Applied
finish x none = none
finish x (some l) = await_done x l

abbrev pub first : Texts → Option Loop → Option Applied
first x none = none
first x (some l) = after_download x l

-- What is left of `apply` at a wait.
abbrev pub resume : Texts → Pc → Loop → Option Applied
resume x (at CommandType.download) l = first x (wait_turn x CommandType.download l)
resume x (at c) l = finish x (rounds x (remaining c) l)
resume x at_done l = await_done x l
resume x (over b e) l = none

-- What `apply` returns, and the handlers that it has started.
abbrev pub results : Option Applied → Option (Bool × Option String × List CommandType)
results none = none
results (some a) = some (a.reboot, a.err, a.spawned)

abbrev pub with_turns : Loop → List Turn → Loop
with_turns l ts = record l { turns = ts }

-- The variables of the loop where it waits. A rollback leaves the wait for CLEANUP alone.
abbrev pub Waits : Pc → List CommandType → Loop → Type 0
Waits (at CommandType.download) spawned l = (l.running ≡ true) × (l.spawned ≡ spawned)
Waits (at CommandType.update) spawned l =
    (l.running ≡ true) × (l.spawned ≡ spawned) × (l.rollback ≡ false)
Waits (at CommandType.activate) spawned l =
    (l.running ≡ true) × (l.spawned ≡ spawned) × (l.rollback ≡ false)
Waits (at CommandType.cleanup) spawned l = (l.running ≡ true) × (l.spawned ≡ spawned)
Waits (at CommandType.rollback) spawned l = ⊥
Waits (at (CommandType.other c)) spawned l = ⊥
Waits at_done spawned l = (l.running ≡ true) × (l.spawned ≡ spawned)
Waits (over b e) spawned l = Unit

-- `k` is `apply` on the turns that are still to come, where the loop stands at `pc`.
abbrev pub Stands : Texts → (List Turn → Option Applied) → Pc → List CommandType → Type 0
Stands x k (over b e) spawned = (ts : List Turn) → results (k ts) ≡ some (b, e, spawned)
Stands x k pc spawned =
    (l : Loop) × Waits pc spawned l × ((ts : List Turn) → k ts ≡ resume x pc (with_turns l ts))

pub signalled-stops :
    (x : Texts) (c : CommandType) (w : Wake) (s : Session) (r : Signalled)
    → wait_command_signal x c w s ≡ some r
    → (r.err ≡ none) ⊎ (r.running ≡ false)
unfolding wait_command_signal wait_failure wait_success
signalled-stops x c w s r e = ground arith

abbrev pub signal : Bool → Bool → Bool → Option String → Session → Signalled
signal running rollback sp err t = record {
  running = running;
  rollback = rollback;
  err = err;
  spawned = sp;
  after = t;
}

-- One wait for a command.
module _ (x : Texts) (k : List Turn → Option Applied) (spawned : List CommandType) (s : Session)
    (w : Wake) where
  pub wake-Stands :
      (c : CommandType) (running rollback sp : Bool) (err : Option String) (t : Session)
      → Stands x k (at c) spawned
      → wait_command_signal x c w s ≡ some (signal running rollback sp err t)
      → (err ≡ none) ⊎ (running ≡ false)
      → Stands x
          (λ ts. k ((s, w) ∷ ts))
          (proceed c (signal running rollback sp err t))
          (if sp then c ∷ spawned else spawned)
  unfolding rounds wait_turn next_turn after_signal await_done last_turn after_done after_download
      command_beq
  wake-Stands CommandType.download running rollback sp (some m) t (l, (h, j), e) q o =
      λ ts. ground (arith, e ((s, w) ∷ ts))
  wake-Stands CommandType.download true true sp none t (l, (h, j), e) q o = (
    after_signal CommandType.download l [] (signal true true sp none t),
    (refl, ground arith),
    λ ts. ground (arith, e ((s, w) ∷ ts)),
  )
  wake-Stands CommandType.download true false sp none t (l, (h, j), e) q o = (
    after_signal CommandType.download l [] (signal true false sp none t),
    (refl, ground arith, refl),
    λ ts. ground (arith, e ((s, w) ∷ ts)),
  )
  wake-Stands CommandType.download false rollback sp none t (l, (h, j), e) q o =
      λ ts. ground (arith, e ((s, w) ∷ ts))
  wake-Stands CommandType.update running rollback sp (some m) t (l, (h, j, n), e) q (inl o) = cc
  wake-Stands CommandType.update running rollback sp (some m) t (l, (h, j, n), e) q (inr o) =
      λ ts. ground (arith, e ((s, w) ∷ ts))
  wake-Stands CommandType.update false rollback sp none t (l, (h, j, n), e) q o =
      λ ts. ground (arith, e ((s, w) ∷ ts))
  wake-Stands CommandType.update true true sp none t (l, (h, j, n), e) q o = (
    after_signal CommandType.update l [] (signal true true sp none t),
    (refl, ground arith),
    λ ts. ground (arith, e ((s, w) ∷ ts)),
  )
  wake-Stands CommandType.update true false sp none t (l, (h, j, n), e) q o = (
    after_signal CommandType.update l [] (signal true false sp none t),
    (refl, ground arith, refl),
    λ ts. ground (arith, e ((s, w) ∷ ts)),
  )
  wake-Stands CommandType.activate running rollback sp (some m) t (l, (h, j, n), e) q (inl o) = cc
  wake-Stands CommandType.activate running rollback sp (some m) t (l, (h, j, n), e) q (inr o) =
      λ ts. ground (arith, e ((s, w) ∷ ts))
  wake-Stands CommandType.activate false rollback sp none t (l, (h, j, n), e) q o =
      λ ts. ground (arith, e ((s, w) ∷ ts))
  wake-Stands CommandType.activate true rollback sp none t (l, (h, j, n), e) q o = (
    after_signal CommandType.activate l [] (signal true rollback sp none t),
    (refl, ground arith),
    λ ts. ground (arith, e ((s, w) ∷ ts)),
  )
  wake-Stands CommandType.cleanup running rollback sp (some m) t (l, (h, j), e) q (inl o) = cc
  wake-Stands CommandType.cleanup running rollback sp (some m) t (l, (h, j), e) q (inr o) =
      λ ts. ground (arith, e ((s, w) ∷ ts))
  wake-Stands CommandType.cleanup false rollback sp none t (l, (h, j), e) q o =
      λ ts. ground (arith, e ((s, w) ∷ ts))
  wake-Stands CommandType.cleanup true rollback sp none t (l, (h, j), e) q o = (
    after_signal CommandType.cleanup l [] (signal true rollback sp none t),
    (refl, ground arith),
    λ ts. ground (arith, e ((s, w) ∷ ts)),
  )
  wake-Stands CommandType.rollback running rollback sp err t (l, v, e) q o = absurd v
  wake-Stands (CommandType.other c) running rollback sp err t (l, v, e) q o = absurd v

  -- The wait for the end.
  pub end-Stands :
      (r : Waited)
      → Stands x k at_done spawned
      → wait_signal x done w s ≡ some r
      → Stands x (λ ts. k ((s, w) ∷ ts)) (over (reboots r.after) r.err) spawned
  unfolding await_done last_turn after_done
  end-Stands r (l, (h, j), e) q = λ ts. ground (arith, e ((s, w) ∷ ts))
