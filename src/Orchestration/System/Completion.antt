-- ===== src/Orchestration/System/Completion.antt =====
-- The end of an update in which every agent succeeds.
use update_manager.Base.{
  String, Bool, true, false, ◌≡◌, ◌≢◌, refl, ap, ◌∙◌, none, some, List, [], ◌∷◌, ◌++◌, All,
  string_eq, subst, sym,
}
use update_manager.Types.{StatusType, running, status_eq, CommandType, command_eq, Action}
use update_manager.Orchestration.Operation.{CommandChannels, Chan}
use update_manager.Orchestration.Session.{
  Session, Effect, command_chan, has_command_chan, set_command_chan,
}
use update_manager.Orchestration.Signals.{
  Texts, Signalled, signalled, wait_signal, wait_command_signal,
}
use update_manager.Orchestration.Feedback.Plan.{run, plan, succeed}
use update_manager.Orchestration.System.{Pc, at, System, wakes, next_pc}
use update_manager.Orchestration.System.Orders.{mixed, mixed-none, all_in}
use update_manager.Util.Keys.{IsDistinct}
use update_manager.Orchestration.System.Success.{during, succeed-waits, succeed-signals}
use update_manager.Orchestration.System.Granting.{grant, ran_by}
use update_manager.Orchestration.System.Journey.{Run, Mark, moves, Reports, events, IsOrder, phase}

abbrev pub quiet : CommandChannels
quiet = record { download = none; update = none; activate = none; cleanup = none }

abbrev pub signal : Session → Signalled
signal u = record { running = true; rollback = false; err = none; spawned = true; after = u }

module _ (x : Texts) (s : Session) (unanswered : s.op.owner_consented ≡ none) where
  -- A command that is signalled: its wait ends, and its handler runs.
  pub command_step :
      (c : CommandType) (es : List Mark) (rb : Bool) (dom : List (String × StatusType)) (dn : Chan)
      (A : List (String × List (String × Action))) (z : List Effect) (spawned : List CommandType)
      → wait_command_signal x c signalled
          (during s rb running dom (set_command_chan c (some true) quiet) dn A z)
        ≡ some (signal (during s rb running dom quiet dn A z))
      → Run x s es (record {
        session = during s rb running dom (set_command_chan c (some true) quiet) dn A z;
        pc = at c;
        spawned = spawned;
        pending = [];
      })
      → (z' : List Effect) × Run x s (ran_by s.cfg c ++ es) (record {
        session = during s rb running dom quiet dn A z';
        pc = next_pc c false;
        spawned = c ∷ spawned;
        pending = [];
      })
  command_step c es rb dom dn A z spawned e r =
      grant x s es c (next_pc c false) (c ∷ spawned) (during s rb running dom quiet dn A z)
        unanswered
        (moves r (wakes c signalled (signal (during s rb running dom quiet dn A z)) refl e refl) tt)

-- The operation while it runs with all domains in one status and no signal waiting.
abbrev pub calm :
    Session
    → List (String × StatusType)
    → List (String × List (String × Action))
    → List Effect
    → Pc
    → List CommandType
    → System
calm s dom A z pc spawned = record {
  session = during s false running dom quiet none A z;
  pc = pc;
  spawned = spawned;
  pending = [];
}

pub signal_ready :
    (x : Texts) (s : Session) (dom : List (String × StatusType)) (c : CommandType)
    (A : List (String × List (String × Action))) (z : List Effect)
    → (c ≡ CommandType.rollback → ⊥)
    → ((t : String) → c ≡ CommandType.other t → ⊥)
    → wait_command_signal x c signalled
        (during s false running dom (set_command_chan c (some true) quiet) none A z)
      ≡ some (signal (during s false running dom quiet none A z))
unfolding wait_command_signal wait_signal
signal_ready x s dom CommandType.download A z n m = refl
signal_ready x s dom CommandType.update A z n m = refl
signal_ready x s dom CommandType.activate A z n m = refl
signal_ready x s dom CommandType.cleanup A z n m = refl
signal_ready x s dom CommandType.rollback A z n m = absurd (n refl)
signal_ready x s dom (CommandType.other t) A z n m = absurd (m t refl)

pub All-unit : (l : Reports) → All (λ r. Unit {0}) l
All-unit [] = tt
All-unit (r ∷ l) = (tt, All-unit l)

module _ (x : Texts) (s : Session) (unanswered : s.op.owner_consented ≡ none) (ks : List String)
    (full : ks ≢ []) (distinct : IsDistinct ks) where
  -- A phase whose success signals the command `c`, and then that command.
  pub stage :
      (p : StatusType → Bool) (status a b : StatusType) (c : CommandType)
      → plan status ≡ succeed p b c
      → p a ≡ true
      → has_command_chan c ≡ true
      → p b ≡ false
      → command_chan c quiet ≡ none
      → ((A : List (String × List (String × Action))) (z : List Effect)
          → wait_command_signal x c signalled
              (during s false running (all_in b ks) (set_command_chan c (some true) quiet) none A z)
            ≡ some (signal (during s false running (all_in b ks) quiet none A z)))
      → (es : List Mark) (l : Reports) (A : List (String × List (String × Action)))
        (z : List Effect) (spawned : List CommandType)
      → IsOrder ks l
      → Run x s es (calm s (all_in a ks) A z (at c) spawned)
      → (A' : List (String × List (String × Action))) × (z' : List Effect) × Run x s
          (ran_by s.cfg c ++ (events status l ++ es))
          (calm s (all_in b ks) A' z' (next_pc c false) (c ∷ spawned))
  stage p status a b c q pa has pb free ready es l A z spawned o r =
      let (u, (B, y, e), before) =
        phase x s ks false running a b status quiet none z (at c) spawned (λ _. Unit {0}) distinct
          (λ A d actions reported later f k n kl nl.
            ap
              (λ q.
                run q d "" actions (during s false running (mixed a b reported ks) quiet none A z))
              q
            ∙ succeed-waits s false ks none A z d "" actions reported p a b c quiet later pa k n kl
                nl distinct)
          (λ u.
            (B : List (String × List (String × Action))) × (y : List Effect) × (u
              ≡ during s false running (all_in b ks) (set_command_chan c (some true) quiet) none B
                  y))
          (λ A d actions reported f k n cover.
            let (y, e) =
              succeed-signals s false ks none A z d "" actions reported p a b c quiet pa has pb k n
                cover distinct free in
            (
              during s false running (all_in b ks) (set_command_chan c (some true) quiet) none A y,
              (A, y, refl),
              ap
                    (λ q.
                      run q d "" actions
                        (during s false running (mixed a b reported ks) quiet none A z))
                    q
                  ∙ e,
            ))
          es A l full o (All-unit l)
          (subst (λ m. Run x s es (calm s m A z (at c) spawned)) (sym (mixed-none a b ks)) r) in
      let (y', after) =
        command_step x s unanswered c (events status l ++ es) false (all_in b ks) none B y spawned
          (ready B y)
          (subst
            (λ u.
              Run x s (events status l ++ es)
                (record { session = u; pc = at c; spawned = spawned; pending = [] }))
            e before) in
      (B, y', after)
