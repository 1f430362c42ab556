-- ===== src/Orchestration/Apply/Order.antt =====
-- In which order the main loop starts the handlers of the commands.
use update_manager.Base.{
  ℕ, suc, ◌<◌, ◌≤◌, true, false, ◌≡◌, sym, subst, ◌⊎◌, inl, inr, none, some, List, [], ◌∷◌, arith,
}
use update_manager.Types.{CommandType, command_eq, command_beq}
use update_manager.Orchestration.Session.{Session}
use update_manager.Orchestration.Signals.{Texts, wait_signal, wait_command_signal}
use update_manager.Orchestration.Apply.{
  Turn, Loop, Applied, wait_turn, rounds, await_done, after_download, apply_loop, start_apply,
}

-- The place of a command in `orderedCommands`.
abbrev pub rank : CommandType → ℕ
rank CommandType.download = 0
rank CommandType.update = 1
rank CommandType.activate = 2
rank CommandType.cleanup = 3
rank _ = 4

-- The commands stand in strictly falling order of their places, all below `n`.
abbrev pub Falls : ℕ → List CommandType → Type 0
Falls n [] = Unit
Falls n (c ∷ cs) = (rank c < n) × Falls (rank c) cs

Falls-mono : (m n : ℕ) (cs : List CommandType) → m < n → Falls m cs → Falls n cs
Falls-mono m n [] h f = tt
Falls-mono m n (c ∷ cs) h f = (omega arith, f.1)

-- A wait starts the handler of its command or none.
wait_turn-spawned :
    (x : Texts) (c : CommandType) (l l' : Loop)
    → wait_turn x c l ≡ some l'
    → (l'.spawned ≡ l.spawned) ⊎ (l'.spawned ≡ c ∷ l.spawned)
unfolding wait_turn
wait_turn-spawned x c l l' e = ground arith

rounds-step :
    (x : Texts) (c : CommandType) (cs : List CommandType) (l l' : Loop)
    → rounds x (c ∷ cs) l ≡ some l'
    → ((l' ≡ l) ⊎ (rounds x cs l ≡ some l'))
      ⊎ ((t : Loop) × (wait_turn x c l ≡ some t) × (rounds x cs t ≡ some l'))
unfolding rounds
rounds-step x c cs l l' e = ground arith

-- The commands stand in rising order of their places, from `n` on.
abbrev Rises : ℕ → List CommandType → Type 0
Rises n [] = Unit
Rises n (c ∷ cs) = (n ≤ rank c) × (rank c < 4) × Rises (suc (rank c)) cs

Falls-le : (m n : ℕ) (cs : List CommandType) → m ≤ n → Falls m cs → Falls n cs
Falls-le m n [] h f = tt
Falls-le m n (c ∷ cs) h f = (omega arith, f.1)

Falls-wait :
    (c : CommandType) (n : ℕ) (l l' : Loop)
    → n ≤ rank c
    → Falls n l.spawned
    → (l'.spawned ≡ l.spawned) ⊎ (l'.spawned ≡ c ∷ l.spawned)
    → Falls (suc (rank c)) l'.spawned
Falls-wait c n l l' h f (inl e) =
    subst (Falls (suc (rank c))) (sym e) (Falls-le n (suc (rank c)) l.spawned (omega arith) f)
Falls-wait c n l l' h f (inr e) =
    subst (Falls (suc (rank c))) (sym e) (omega arith, Falls-le n (rank c) l.spawned h f)

rounds-Falls :
    (x : Texts) (cs : List CommandType) (n : ℕ) (l l' : Loop)
    → n ≤ 4
    → Rises n cs
    → Falls n l.spawned
    → rounds x cs l ≡ some l'
    → Falls 4 l'.spawned
rounds-Falls x [] n l l' h r f e =
    Falls-le n 4 l'.spawned h
      (subst (λ t. Falls n t.spawned) {x = l} {y = l'} (unfold rounds in ground arith) f)
rounds-Falls x (c ∷ cs) n l l' h r f e = elim (rounds-step x c cs l l' e) [
  | inl (inl same) ↦ Falls-le n 4 l'.spawned h (subst (λ t. Falls n t.spawned) (sym same) f)
  | inl (inr skipped) ↦
      rounds-Falls x cs (suc (rank c)) l l' (omega arith) r.2
        (Falls-le n (suc (rank c)) l.spawned (omega arith) f) skipped
  | inr (t, waited, rest) ↦
      rounds-Falls x cs (suc (rank c)) t l' (omega arith) r.2
        (Falls-wait c n l t r.0 f (wait_turn-spawned x c l t waited)) rest
]

await_done-spawned :
    (x : Texts) (l : Loop) (r : Applied) → await_done x l ≡ some r → r.spawned ≡ l.spawned
unfolding await_done
await_done-spawned x l r e = ground arith

after_download-cases :
    (x : Texts) (l : Loop) (r : Applied)
    → after_download x l ≡ some r
    → (r.spawned ≡ l.spawned)
      ⊎ ((t : Loop) × (rounds x
              (CommandType.update ∷ CommandType.activate ∷ CommandType.cleanup ∷ [])
              l
            ≡ some t)
          × (await_done x t ≡ some r))
unfolding after_download
after_download-cases x l r e = ground arith

abbrev entry : Session → List Turn → Loop
entry s turns = record {
  running = true;
  rollback = false;
  err = none;
  now = start_apply s;
  spawned = [];
  turns = turns;
}

apply_loop-first :
    (x : Texts) (s : Session) (turns : List Turn) (r : Applied)
    → apply_loop x s turns ≡ some r
    → (l : Loop) × (wait_turn x CommandType.download (entry s turns) ≡ some l)
      × (after_download x l ≡ some r)
unfolding apply_loop
apply_loop-first x s turns r e = ground arith

-- Whatever the other goroutines do and however the waits end, the handlers of the commands are started
-- in the order DOWNLOAD, UPDATE, ACTIVATE, CLEANUP, each at most once, and no other is started.
pub apply_loop-order :
    (x : Texts) (s : Session) (turns : List Turn) (r : Applied)
    → apply_loop x s turns ≡ some r
    → Falls 4 r.spawned
apply_loop-order x s turns r e =
    let (l, waited, rest) = apply_loop-first x s turns r e in
    let first : Falls 1 l.spawned =
      Falls-wait CommandType.download 0 (entry s turns) l (omega arith) tt
        (wait_turn-spawned x CommandType.download (entry s turns) l waited) in
    elim (after_download-cases x l r rest) [
      | inl same ↦ subst (Falls 4) (sym same) (Falls-le 1 4 l.spawned (omega arith) first)
      | inr (t, looped, ended) ↦
          subst (Falls 4) (sym (await_done-spawned x t r ended))
            (rounds-Falls x _ 1 l t (omega arith) (omega arith) first looped)
    ]

-- The commands that the loop has left after a wait.
abbrev pub rest_of : CommandType → List CommandType
rest_of CommandType.download = CommandType.update ∷ CommandType.activate ∷ CommandType.cleanup ∷ []
rest_of CommandType.update = CommandType.activate ∷ CommandType.cleanup ∷ []
rest_of CommandType.activate = CommandType.cleanup ∷ []
rest_of _ = []

wait_turn-rolled_back :
    (x : Texts) (c : CommandType) (l t : Loop)
    → wait_turn x c l ≡ some t
    → t.rollback ≡ true
    → t.spawned ≡ l.spawned
unfolding wait_turn wait_command_signal wait_signal
wait_turn-rolled_back x c l t e h = ground arith

rounds-after_rollback :
    (x : Texts) (c : CommandType) (t l' : Loop)
    → t.rollback ≡ true
    → rounds x (rest_of c) t ≡ some l'
    → (l'.spawned ≡ t.spawned) ⊎ (l'.spawned ≡ CommandType.cleanup ∷ t.spawned)
unfolding rounds command_beq
rounds-after_rollback x CommandType.download t l' h e =
    ground (arith, wait_turn-spawned x CommandType.cleanup t l')
rounds-after_rollback x CommandType.update t l' h e =
    ground (arith, wait_turn-spawned x CommandType.cleanup t l')
rounds-after_rollback x CommandType.activate t l' h e =
    ground (arith, wait_turn-spawned x CommandType.cleanup t l')
rounds-after_rollback x _ t l' h e = ground arith

-- Whichever wait for a command takes a rollback, it starts no handler, and of the commands that the loop
-- has left after it only the handler of CLEANUP may still be started.
pub rounds-rolled_back :
    (x : Texts) (c : CommandType) (l t l' : Loop)
    → wait_turn x c l ≡ some t
    → t.rollback ≡ true
    → rounds x (rest_of c) t ≡ some l'
    → (t.spawned ≡ l.spawned)
      × ((l'.spawned ≡ l.spawned) ⊎ (l'.spawned ≡ CommandType.cleanup ∷ l.spawned))
rounds-rolled_back x c l t l' e h f =
    let same = wait_turn-rolled_back x c l t e h in
    (same, ground (arith, rounds-after_rollback x c t l' h f))
