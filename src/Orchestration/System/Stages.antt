-- ===== src/Orchestration/System/Stages.antt =====
-- The five phases of an update in which every agent succeeds, from the new operation to the end of the wait
-- for its last signal.
use update_manager.Base.{
  ℕ, String, Bool, true, false, ◌≡◌, refl, ap, ◌∙◌, ◌==◌, none, some, List, [], ◌∷◌, ◌++◌, ◌&&◌,
  All, null, string_eq, subst, sym, keys,
}
use update_manager.Types.{
  StatusType, identifying, identified, running, completed, incomplete, download_success,
  update_success, activation_success, cleanup_success, status_eq, status_beq, CommandType, Action,
  DesiredState,
}
use update_manager.Orchestration.Operation.{Agent, generate_command_channels}
use update_manager.Orchestration.Session.{Session, Effect, notify_feedback, set_command_chan}
use update_manager.Orchestration.Signals.{Texts, signalled, wait_signal, wait_command_signal}
use update_manager.Orchestration.Apply.{start_apply, send_all}
use update_manager.Orchestration.Feedback.Phases.{in_download, in_update, in_activation}
use update_manager.Orchestration.System.{at, at_done, over, System, ends}
use update_manager.Orchestration.System.Orders.{mixed-none, all_in}
use update_manager.Orchestration.System.Success.{during, identify-waits, identify-signals}
use update_manager.Orchestration.System.Finishing.{finish-waits, finish-completes}
use update_manager.Orchestration.System.Journey.{
  Run, Mark, begins, moves, Reports, events, IsOrder, phase,
}
use update_manager.Orchestration.System.Reached.{start_apply-keeps}
use update_manager.Orchestration.System.Beginning.{IsNew}
use update_manager.Orchestration.System.Granting.{ran_by}
use update_manager.Orchestration.System.Completion.{
  quiet, signal, calm, signal_ready, All-unit, command_step, stage,
}

-- Every domain has actions to do.
abbrev pub HaveActions : Reports → Type 0
HaveActions l = All (λ r. null r.1 ≡ false) l

send_all-cfg : (m : List (ℕ × (Agent × DesiredState))) (s : Session) → (send_all m s).cfg ≡ s.cfg
unfolding send_all
send_all-cfg [] s = refl
send_all-cfg ((p, (agent, state)) ∷ m) s = send_all-cfg m _

start_apply-cfg : (s : Session) → (start_apply s).cfg ≡ s.cfg
unfolding start_apply notify_feedback
start_apply-cfg s = send_all-cfg s.op.states_per_domain _

module _ (x : Texts) (s : Session) (new : IsNew s.op) where
  abbrev pub ks : List String
  ks = keys s.op.domains

  begun :
      start_apply s
      ≡ during s false identifying
          (all_in identifying ks)
          quiet
          none
          s.op.actions
          (start_apply s).sent
  unfolding generate_command_channels
  begun = λ i. record {
    cfg = start_apply-cfg s i;
    op = ((start_apply-keeps CommandType.download s).0 ∙ own) i;
    sent = (start_apply s).sent;
  }
    where
      own :
          s.op
          ≡ (during s false identifying
              (all_in identifying ks)
              quiet
              none
              s.op.actions
              (start_apply s).sent).op
      own = λ i. record s.op {
        status = new.status i;
        domains = new.domains i;
        command_channels = new.channels i;
        done = new.done i;
        reboot_required = new.reboot i;
      }

  abbrev at_download : Session → List CommandType → System
  at_download u spawned = record {
    session = u;
    pc = at CommandType.download;
    spawned = spawned;
    pending = [];
  }

  started : Run x s [] (
      at_download
        (during s false identifying
          (all_in identifying ks)
          quiet
          none
          s.op.actions
          (start_apply s).sent)
        [])
  started = subst (λ u. Run x s [] (at_download u [])) begun begins

  pub identified_step :
      (l : Reports)
      → IsOrder ks l
      → HaveActions l
      → (A : List (String × List (String × Action))) × (z : List Effect) × Run x s
          (ran_by s.cfg CommandType.download ++ (events identified l ++ []))
          (calm s (all_in identified ks) A z (at CommandType.update) (CommandType.download ∷ []))
  identified_step l o f =
      let (u, (B, y, e), before) =
        phase x s ks false identifying identifying identified identified quiet none
          (start_apply s).sent (at CommandType.download) [] (λ actions. null actions ≡ false)
          new.distinct
          (λ A d actions reported later q k n kl nl.
            identify-waits s false ks none A (start_apply s).sent d "" actions reported quiet later
              q k n kl nl new.distinct)
          (λ u.
            (B : List (String × List (String × Action))) × (y : List Effect) × (u
              ≡ during s false running (all_in identified ks)
                  (set_command_chan CommandType.download (some true) quiet) none B y))
          (λ A d actions reported q k n cover.
            let (y, e) =
              identify-signals s false ks none A (start_apply s).sent d "" actions reported quiet q
                k n cover new.distinct refl in
            (
              during s false running (all_in identified ks)
                  (set_command_chan CommandType.download (some true) quiet) none A y,
              (A, y, refl),
              e,
            ))
          [] s.op.actions l new.full o f
          (subst
            (λ m. Run x s [] (
              at_download
                (during s false identifying m quiet none s.op.actions (start_apply s).sent) []))
            (sym (mixed-none identifying identified ks)) started) in
      let (z, after) =
        command_step x s new.consented CommandType.download (events identified l ++ []) false
          (all_in identified ks) none B y []
          (signal_ready x s (all_in identified ks) CommandType.download B y (λ e. cc) (λ t e. cc))
          (subst (λ u. Run x s (events identified l ++ []) (at_download u [])) e before) in
      (B, z, after)

  ready :
      (b : StatusType) (c : CommandType)
      → (c ≡ CommandType.rollback → ⊥)
      → ((t : String) → c ≡ CommandType.other t → ⊥)
      → (A : List (String × List (String × Action))) (z : List Effect)
      → wait_command_signal x c signalled
          (during s false running (all_in b ks) (set_command_chan c (some true) quiet) none A z)
        ≡ some (signal (during s false running (all_in b ks) quiet none A z))
  ready b c n m A z = signal_ready x s (all_in b ks) c A z n m

  pub downloaded_step :
      (es : List Mark) (l : Reports) (A : List (String × List (String × Action))) (z : List Effect)
      (spawned : List CommandType)
      → IsOrder ks l
      → Run x s es (calm s (all_in identified ks) A z (at CommandType.update) spawned)
      → (A' : List (String × List (String × Action))) × (z' : List Effect) × Run x s
          (ran_by s.cfg CommandType.update ++ (events download_success l ++ es))
          (calm s
            (all_in download_success ks)
            A'
            z'
            (at CommandType.activate)
            (CommandType.update ∷ spawned))
  unfolding status_beq
  downloaded_step =
      stage x s new.consented ks new.full new.distinct in_download download_success identified
        download_success CommandType.update refl refl refl refl refl
        (ready download_success CommandType.update (λ e. cc) (λ t e. cc))

  pub updated_step :
      (es : List Mark) (l : Reports) (A : List (String × List (String × Action))) (z : List Effect)
      (spawned : List CommandType)
      → IsOrder ks l
      → Run x s es (calm s (all_in download_success ks) A z (at CommandType.activate) spawned)
      → (A' : List (String × List (String × Action))) × (z' : List Effect) × Run x s
          (ran_by s.cfg CommandType.activate ++ (events update_success l ++ es))
          (calm s
            (all_in update_success ks)
            A'
            z'
            (at CommandType.cleanup)
            (CommandType.activate ∷ spawned))
  unfolding status_beq
  updated_step =
      stage x s new.consented ks new.full new.distinct in_update update_success download_success
        update_success CommandType.activate refl refl refl refl refl
        (ready update_success CommandType.activate (λ e. cc) (λ t e. cc))

  pub activated_step :
      (es : List Mark) (l : Reports) (A : List (String × List (String × Action))) (z : List Effect)
      (spawned : List CommandType)
      → IsOrder ks l
      → Run x s es (calm s (all_in update_success ks) A z (at CommandType.cleanup) spawned)
      → (A' : List (String × List (String × Action))) × (z' : List Effect) × Run x s
          (ran_by s.cfg CommandType.cleanup ++ (events activation_success l ++ es))
          (calm s (all_in activation_success ks) A' z' at_done (CommandType.cleanup ∷ spawned))
  unfolding status_beq
  activated_step =
      stage x s new.consented ks new.full new.distinct in_activation activation_success
        update_success activation_success CommandType.cleanup refl refl refl refl refl
        (ready activation_success CommandType.cleanup (λ e. cc) (λ t e. cc))

  -- The last phase, and the end of the operation.
  pub cleaned_step :
      (es : List Mark) (l : Reports) (A : List (String × List (String × Action))) (z : List Effect)
      (spawned : List CommandType)
      → IsOrder ks l
      → Run x s es (calm s (all_in activation_success ks) A z at_done spawned)
      → (rb : Bool) × (A' : List (String × List (String × Action))) × Run x s
          (events cleanup_success l ++ es)
          (record {
            session = during s rb completed (all_in cleanup_success ks) quiet none A' z;
            pc = over (rb && true) none;
            spawned = spawned;
            pending = [];
          })
  unfolding status_beq wait_signal
  cleaned_step es l A z spawned o r =
      let (u, (rb, B, e), before) =
        phase x s ks false running activation_success cleanup_success cleanup_success quiet none z
          at_done spawned (λ _. Unit {0}) new.distinct
          (λ A d actions reported later f k n kl nl.
            finish-waits s false ks none A z d "" actions reported quiet later k n kl nl
              new.distinct)
          (λ u.
            (rb : Bool) × (B : List (String × List (String × Action))) × (u
              ≡ during s rb completed (all_in cleanup_success ks) quiet (some true) B z))
          (λ A d actions reported f k n cover.
            let (rb, e) =
              finish-completes s false ks none A z d "" actions reported quiet k n cover
                new.distinct refl (ap (λ t. t == incomplete) new.delayed) in
            (
              during s rb completed (all_in cleanup_success ks) quiet (some true) A z,
              (rb, A, refl),
              e,
            ))
          es A l new.full o (All-unit l)
          (subst (λ m. Run x s es (calm s m A z at_done spawned))
            (sym (mixed-none activation_success cleanup_success ks)) r) in
      (
        rb,
        B,
        moves
            (subst
              (λ u.
                Run x s (events cleanup_success l ++ es)
                  (record { session = u; pc = at_done; spawned = spawned; pending = [] }))
              e before)
            (ends signalled
              (record {
                value = true;
                rollback = false;
                timeout = false;
                err = none;
                after = during s rb completed (all_in cleanup_success ks) quiet none B z;
              })
              refl refl refl)
            tt,
      )
