-- ===== src/Orchestration/Feedback/Blocking.antt =====
-- When the sends of a handler find room in their channels.
use update_manager.Base.{
  String, true, false, ◌≡◌, refl, ◌≢◌, none, List, [], ◌∷◌, returns, blocks, panics, Outcome, ◌>>=◌,
  arith, insert, string_eq, Option-cases, inl, inr,
}
use update_manager.Types.{StatusType, CommandType, Action}
use update_manager.Orchestration.Session.{
  Session, set_domain, delay_incomplete, command_chan, has_command_chan,
}
use update_manager.Orchestration.Feedback.Identification.{
  end_identification, update_status_identification_failed,
}
use update_manager.Orchestration.Feedback.Phases.{signal_running}
use update_manager.Orchestration.Feedback.Completion.{domain_update_completed}
use update_manager.Orchestration.Feedback.Plan.{
  Plan, ignore, identify, fail_identification, succeed, fail, report, finish, identify_status, run,
  plan, with_actions, update_actions-with_actions, status_handler-run,
}
use update_manager.Orchestration.Feedback.{
  status_handler, store_actions, domain_actions, update_actions, handle_event,
}

-- There is room in the channels on which the last handler of an update may send.
abbrev pub EndsFree : Session → Type 0
EndsFree s = (s.op.done ≡ none) × (s.op.err_chan ≡ none)

-- There is room in the channels on which the handler of a status may send.
abbrev pub Free : StatusType → Session → Type 0
Free StatusType.identified s = (s.op.command_channels.download ≡ none) × (s.op.err_chan ≡ none)
Free StatusType.identification_failed s = s.op.err_chan ≡ none
Free StatusType.download_success s = s.op.command_channels.update ≡ none
Free StatusType.update_success s = s.op.command_channels.activate ≡ none
Free StatusType.activation_success s = s.op.command_channels.cleanup ≡ none
Free StatusType.rollback_success s = s.op.command_channels.cleanup ≡ none
Free StatusType.completed s = EndsFree s
Free StatusType.incomplete s = EndsFree s
Free StatusType.cleanup_success s = EndsFree s
Free StatusType.cleanup_failure s = EndsFree s
Free _ s = Unit

signal_running-ne-blocks :
    (c : CommandType) (s : Session)
    → has_command_chan c ≡ true
    → command_chan c s.op.command_channels ≡ none
    → signal_running c s ≢ blocks
unfolding signal_running
signal_running-ne-blocks c s k h = ground arith

end_identification-ne-blocks :
    (d : String) (s : Session)
    → s.op.command_channels.download ≡ none
    → s.op.err_chan ≡ none
    → end_identification d s ≢ blocks
unfolding end_identification
end_identification-ne-blocks d s h k = ground arith

domain_update_completed-ne-blocks :
    (s : Session) → s.op.done ≡ none → s.op.err_chan ≡ none → domain_update_completed s ≢ blocks
unfolding domain_update_completed
domain_update_completed-ne-blocks s h k = ground arith

-- The same for what a plan sends on.
abbrev HasRoom : Plan → Session → Type 0
HasRoom identify s = (s.op.command_channels.download ≡ none) × (s.op.err_chan ≡ none)
HasRoom fail_identification s = s.op.err_chan ≡ none
HasRoom (succeed phase status c) s =
    (has_command_chan c ≡ true) × (command_chan c s.op.command_channels ≡ none)
HasRoom (finish skipped status delays) s = EndsFree s
HasRoom _ s = Unit

plan-HasRoom : (status : StatusType) (s : Session) → Free status s → HasRoom (plan status) s
plan-HasRoom StatusType.download_success s h = (refl, h)
plan-HasRoom StatusType.update_success s h = (refl, h)
plan-HasRoom StatusType.activation_success s h = (refl, h)
plan-HasRoom StatusType.rollback_success s h = (refl, h)
plan-HasRoom StatusType.identified s h = h
plan-HasRoom StatusType.identification_failed s h = h
plan-HasRoom StatusType.completed s h = h
plan-HasRoom StatusType.incomplete s h = h
plan-HasRoom StatusType.cleanup_success s h = h
plan-HasRoom StatusType.cleanup_failure s h = h
plan-HasRoom _ s h = tt

run-ne-blocks :
    (p : Plan) (d m : String) (actions : List Action) (s : Session)
    → HasRoom p s
    → run p d m actions s ≢ blocks
unfolding run
run-ne-blocks ignore d m actions s h = ground arith
run-ne-blocks identify d m actions s (h, k) =
    let t = set_domain d (identify_status actions) s in
    ground (arith, end_identification-ne-blocks d t h k)
run-ne-blocks fail_identification d m actions s h =
    unfold update_status_identification_failed in ground arith
run-ne-blocks (succeed phase status c) d m actions s (k, h) =
    ground (arith, signal_running-ne-blocks c (set_domain d status s) k h)
run-ne-blocks (fail phase status) d m actions s h = ground arith
run-ne-blocks (report true phase) d m actions s h = ground arith
run-ne-blocks (report false phase) d m actions s h = ground arith
run-ne-blocks (finish skipped status true) d m actions s (h, k) =
    ground (arith, domain_update_completed-ne-blocks (set_domain d status (delay_incomplete s)) h k)
run-ne-blocks (finish skipped status false) d m actions s (h, k) =
    ground (arith, domain_update_completed-ne-blocks (set_domain d status s) h k)

store_actions-ne-blocks :
    (m : List (String × Action)) (l : List Action) → store_actions m l ≢ blocks
unfolding store_actions
store_actions-ne-blocks m [] = ground arith
store_actions-ne-blocks m (a ∷ l) = elim (Option-cases a.component) [
  | inl e ↦ rw e (λ h. cc)
  | inr (c, e) ↦ rw e (store_actions-ne-blocks (insert c.id a m) l)
]

>>=-ne-blocks :
    {A B : Type 0} (m : Outcome A) (f : A → Outcome B)
    → m ≢ blocks
    → ((a : A) → m ≡ returns a → f a ≢ blocks)
    → (m >>= f) ≢ blocks
>>=-ne-blocks (returns a) f h k = k a refl
>>=-ne-blocks blocks f h k = absurd (h refl)
>>=-ne-blocks panics f h k = λ e. cc

-- An event does not block if there is room in the channels on which the handler of its status may send:
-- DOWNLOAD and the error for IDENTIFIED, the error for IDENTIFICATION_FAILED, UPDATE for DOWNLOAD_SUCCESS,
-- ACTIVATE for UPDATE_SUCCESS, CLEANUP for ACTIVATION_SUCCESS and ROLLBACK_SUCCESS, the end and the error for
-- COMPLETED, INCOMPLETE, CLEANUP_SUCCESS and CLEANUP_FAILURE. The other statuses never block.
pub handle_event-ne-blocks :
    (d : String) (status : StatusType) (m : String) (actions : List Action) (s : Session)
    → Free status s
    → handle_event d status m actions s ≢ blocks
unfolding handle_event update_actions
handle_event-ne-blocks d status m actions s h =
    >>=-ne-blocks (update_actions d actions s) (λ s. status_handler status d m actions s)
      (>>=-ne-blocks (store_actions (domain_actions d s) actions) _
        (store_actions-ne-blocks (domain_actions d s) actions) (λ a e. ground arith))
      λ t e.
        let (stored, e') = update_actions-with_actions d actions s t e in
        rw (e', status_handler-run status d m actions (with_actions s stored))
          (run-ne-blocks (plan status) d m actions (with_actions s stored)
            (plan-HasRoom status (with_actions s stored) (stays status stored h)))
  where
    stays :
        (status : StatusType) (stored : List (String × List (String × Action)))
        → Free status s
        → Free status (with_actions s stored)
    stays status stored h = ground arith
