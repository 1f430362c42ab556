-- ===== src/Orchestration/System/Outcome.antt =====
-- The whole of an update in which every agent succeeds, from the new operation to the results of `apply`.
use update_manager.Base.{
  String, Bool, true, false, ◌≡◌, refl, ap, ◌∙◌, none, some, List, [], ◌∷◌, ◌++◌, ◌&&◌, All,
  string_eq, keys,
}
use update_manager.Types.{
  identified, completed, download_success, update_success, activation_success, cleanup_success,
  status_eq, status_beq, CommandType, DesiredState,
}
use update_manager.Orchestration.Operation.{Agent, UpdateOperation, new_update_operation}
use update_manager.Orchestration.Session.{Session}
use update_manager.Orchestration.Signals.{Texts}
use update_manager.Orchestration.Feedback.{UpdateOrchestrator, session}
use update_manager.Orchestration.Feedback.Plan.{run}
use update_manager.Orchestration.System.{over, System}
use update_manager.Orchestration.System.Orders.{all_in}
use update_manager.Orchestration.System.Journey.{Run, Mark, Run-Reach, Reports, events, IsOrder}
use update_manager.Orchestration.Apply.{Turn, apply_loop}
use update_manager.Orchestration.System.Turns.{results}
use update_manager.Orchestration.System.Simulation.{IsSeen, Reach-apply_loop}
use update_manager.Config.{Config}
use update_manager.Orchestration.System.Granting.{ran_by}
use update_manager.Orchestration.System.Stages.{
  HaveActions, identified_step, downloaded_step, updated_step, activated_step, cleaned_step,
}
use update_manager.Orchestration.System.Beginning.{IsNew, new_update_operation-IsNew}

-- The five phases of an update, each with the order in which the domains report.
pub record Orders (ks : List String) : Type 0 where
  pub identification : Reports
  pub downloads : Reports
  pub updates : Reports
  pub activations : Reports
  pub cleanups : Reports
  pub identification_IsOrder : IsOrder ks identification
  pub downloads_IsOrder : IsOrder ks downloads
  pub updates_IsOrder : IsOrder ks updates
  pub activations_IsOrder : IsOrder ks activations
  pub cleanups_IsOrder : IsOrder ks cleanups
  pub have_actions : HaveActions identification

-- What a whole update shows, newest first: the reports of each phase, and after them the handler of the
-- command that ends it, which runs with the owner's approval if the configuration asks for it.
abbrev pub course : {ks : List String} → Config → Orders ks → List Mark
course cfg o =
    events cleanup_success o.cleanups
    ++ (ran_by cfg CommandType.cleanup
        ++ (events activation_success o.activations
            ++ (ran_by cfg CommandType.activate
                ++ (events update_success o.updates
                    ++ (ran_by cfg CommandType.update
                        ++ (events download_success o.downloads
                            ++ (ran_by cfg CommandType.download
                                ++ (events identified o.identification ++ []))))))))

-- The handlers that an update starts, latest first.
abbrev pub all_handlers : List CommandType
all_handlers =
    CommandType.cleanup ∷ CommandType.activate ∷ CommandType.update ∷ CommandType.download ∷ []

-- The update is over without an error, and every domain is cleaned.
pub record Succeeds (ks : List String) (t : System) : Type 0 where
  pub ended : t.pc ≡ over t.session.op.reboot_required none
  pub status : t.session.op.status ≡ completed
  pub domains : t.session.op.domains ≡ all_in cleanup_success ks
  pub handlers : t.spawned ≡ all_handlers
  pub none_left : t.pending ≡ []

and_true : (b : Bool) → (b && true) ≡ b
and_true true = refl
and_true false = refl

module _ (x : Texts) (s : Session) (new : IsNew s.op) where
  -- The whole run.
  succeeds :
      (o : Orders (keys s.op.domains))
      → (t : System) × Run x s (course s.cfg o) t × Succeeds (keys s.op.domains) t
  unfolding status_beq
  succeeds o =
      let (A1, z1, r1) =
        identified_step x s new o.identification o.identification_IsOrder o.have_actions in
      let (A2, z2, r2) = downloaded_step x s new _ o.downloads A1 z1 _ o.downloads_IsOrder r1 in
      let (A3, z3, r3) = updated_step x s new _ o.updates A2 z2 _ o.updates_IsOrder r2 in
      let (A4, z4, r4) = activated_step x s new _ o.activations A3 z3 _ o.activations_IsOrder r3 in
      let (rb, A5, r5) = cleaned_step x s new _ o.cleanups A4 z4 _ o.cleanups_IsOrder r4 in
      (
        _,
        r5,
        record {
          ended = ap (λ b. over b none) (and_true rb);
          status = refl;
          domains = refl;
          handlers = refl;
          none_left = refl;
        },
      )

-- A new operation succeeds whatever the order in which the agents of its domains report in each phase,
-- and whatever commands need the owner's consent: for every such order there is a run of the goroutines that
-- shows exactly these reports, in this order, after the reports of the first four phases the handler of
-- DOWNLOAD, UPDATE, ACTIVATE and CLEANUP run to its end with consent given, right before it an approving
-- answer of the owner if the configuration asks for one, and no other answer or handler; in which each of the
-- four handlers is started once and none is left to run, every domain ends cleaned and the status ends
-- completed; and on the turns of the main loop that this run shows, apply returns no error.
pub orders-Succeeds :
    (x : Texts) (agents : List (String × Agent)) (activity_id : String) (state : DesiredState)
    (op : UpdateOperation) (o : UpdateOrchestrator)
    → new_update_operation agents activity_id state ≡ some op
    → (orders : Orders (keys op.domains))
    → (t : System) × Run x (session o op) (course o.cfg orders) t
      × Succeeds (keys op.domains) t
      × ((turns : List Turn) × All (IsSeen x (session o op)) turns
          × ((more : List Turn)
              → results (apply_loop x (session o op) (turns ++ more))
                ≡ some (t.session.op.reboot_required, none, all_handlers)))
orders-Succeeds x agents a state op o new orders =
    let (t, run, good) =
      succeeds x (session o op) (new_update_operation-IsNew agents a state op new) orders in
    let (turns, seen, e) =
      Reach-apply_loop x (session o op) t t.session.op.reboot_required none
        (Run-Reach x (session o op) (course o.cfg orders) t run) good.ended in
    (
      t,
      run,
      good,
      (
        turns,
        seen,
        λ more. e more ∙ ap (λ l. some (t.session.op.reboot_required, none, l)) good.handlers,
      ),
    )
