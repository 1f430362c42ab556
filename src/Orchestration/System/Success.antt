-- ===== src/Orchestration/System/Success.antt =====
-- The steps of an update in which every agent succeeds: the report of one domain in each phase.
use update_manager.Base.{
  String, Bool, true, false, ◌≡◌, refl, ◌==◌, none, some, List, [], ◌∷◌, any, null, insert,
  string_eq, arith, returns,
}
use update_manager.Types.{
  StatusType, identifying, identified, identification_failed, running, status_eq, status_beq,
  CommandType, Action,
}
use update_manager.Util.{contains}
use update_manager.Orchestration.Operation.{CommandChannels, Chan}
use update_manager.Orchestration.Session.{
  Session, Effect, values, command_chan, has_command_chan, set_command_chan, domain_update_running,
  notify_feedback,
}
use update_manager.Orchestration.Feedback.Identification.{
  check_identification_status, end_identification,
}
use update_manager.Orchestration.Feedback.Phases.{signal_running}
use update_manager.Orchestration.Feedback.Plan.{
  identify, succeed, run, plan, status_handler-run, with_actions,
}
use update_manager.Orchestration.Feedback.{
  handle_event, update_actions, store_actions, domain_actions,
}
use update_manager.Orchestration.System.Orders.{
  mixed, insert-mixed, lookup-mixed, any-mixed, mixed-all, all_in, any-all_in, Covers,
}
use update_manager.Util.Keys.{IsDistinct}

-- An operation during its update: what changes of it, and the rest as in `s`.
abbrev pub during :
    Session
    → Bool
    → StatusType
    → List (String × StatusType)
    → CommandChannels
    → Chan
    → List (String × List (String × Action))
    → List Effect
    → Session
during s reboot status domains channels done actions sent = record {
  cfg = s.cfg;
  op = record s.op {
    status = status;
    domains = domains;
    actions = actions;
    command_channels = channels;
    done = done;
    reboot_required = reboot;
  };
  sent = sent;
}

-- Every action names its component.
abbrev pub HasComponents : List Action → Type 0
HasComponents [] = Unit
HasComponents (a ∷ as_) = ((c : _) × (a.component ≡ some c)) × HasComponents as_

store_actions-returns :
    (m : List (String × Action)) (actions : List Action)
    → HasComponents actions
    → (stored : List (String × Action)) × (store_actions m actions ≡ returns stored)
unfolding store_actions
store_actions-returns m [] h = (m, refl)
store_actions-returns m (a ∷ rest) ((c, e), h) =
    let (stored, q) = store_actions-returns (insert c.id a m) rest h in (stored, ground (arith, q))

-- An event whose actions have components is its plan, on the session with its actions stored.
pub handle_event-stored :
    (d : String) (status : StatusType) (m : String) (actions : List Action) (s : Session)
    → HasComponents actions
    → (stored : List (String × List (String × Action))) × (handle_event d status m actions s
        ≡ run (plan status) d m actions (with_actions s stored))
unfolding handle_event update_actions
handle_event-stored d status m actions s h =
    let (inner, e) = store_actions-returns (domain_actions d s) actions h in
    let all = insert d inner s.op.actions in
    (all, ground (arith, status_handler-run status d m actions (with_actions s all)))

first-identified :
    (ks : List String) (d : String)
    → contains ks d ≡ true
    → any (λ x. x == identified) (values (all_in identified ks)) ≡ true
unfolding all_in contains status_beq
first-identified [] d h = cc
first-identified (k ∷ ks) d h = refl

module _ (s : Session) (rb : Bool) (ks : List String) (dn : Chan)
    (A : List (String × List (String × Action))) (z : List Effect) (d m : String)
    (actions : List Action) (reported : List String) where
  -- A success in a phase that other domains have not ended.
  pub succeed-waits :
      (p : StatusType → Bool) (a b : StatusType) (c : CommandType) (ch : CommandChannels)
      (later : String)
      → p a ≡ true
      → contains ks d ≡ true
      → contains reported d ≡ false
      → contains ks later ≡ true
      → contains (d ∷ reported) later ≡ false
      → IsDistinct ks
      → run (succeed p b c) d m actions (during s rb running (mixed a b reported ks) ch dn A z)
        ≡ returns (during s rb running (mixed a b (d ∷ reported) ks) ch dn A z)
  unfolding run status_beq
  succeed-waits p a b c ch later pa k n kl nl u = ground (
    arith,
    lookup-mixed a b d reported ks k n,
    insert-mixed a b d reported ks k u,
    any-mixed a b p later (d ∷ reported) ks pa kl nl,
  )

  -- The last success of a phase signals the next command.
  pub succeed-signals :
      (p : StatusType → Bool) (a b : StatusType) (c : CommandType) (ch : CommandChannels)
      → p a ≡ true
      → has_command_chan c ≡ true
      → p b ≡ false
      → contains ks d ≡ true
      → contains reported d ≡ false
      → Covers (d ∷ reported) ks
      → IsDistinct ks
      → command_chan c ch ≡ none
      → (z' : List Effect) × (run
            (succeed p b c)
            d
            m
            actions
            (during s rb running (mixed a b reported ks) ch dn A z)
          ≡ returns (during s rb running (all_in b ks) (set_command_chan c (some true) ch) dn A z'))
  unfolding run status_beq signal_running domain_update_running notify_feedback
  succeed-signals p a b c ch pa has pb k n cover u free = (
    (domain_update_running
        (during s rb running (all_in b ks) (set_command_chan c (some true) ch) dn A z)).sent,
    ground (
      arith,
      lookup-mixed a b d reported ks k n,
      insert-mixed a b d reported ks k u,
      mixed-all a b (d ∷ reported) ks cover,
      any-all_in p b ks pb,
    ),
  )

  -- A domain is identified with actions to do, and others are not yet.
  pub identify-waits :
      (ch : CommandChannels) (later : String)
      → null actions ≡ false
      → contains ks d ≡ true
      → contains reported d ≡ false
      → contains ks later ≡ true
      → contains (d ∷ reported) later ≡ false
      → IsDistinct ks
      → run identify d m actions
          (during s rb identifying (mixed identifying identified reported ks) ch dn A z)
        ≡ returns
            (during s rb identifying (mixed identifying identified (d ∷ reported) ks) ch dn A z)
  unfolding run status_beq check_identification_status
  identify-waits ch later full k n kl nl u = ground (
    arith,
    lookup-mixed identifying identified d reported ks k n,
    insert-mixed identifying identified d reported ks k u,
    any-mixed identifying identified (λ x. x == identifying) later (d ∷ reported) ks refl kl nl,
  )

  -- The last identification starts the download.
  pub identify-signals :
      (ch : CommandChannels)
      → null actions ≡ false
      → contains ks d ≡ true
      → contains reported d ≡ false
      → Covers (d ∷ reported) ks
      → IsDistinct ks
      → ch.download ≡ none
      → (z' : List Effect) × (run identify d m actions
            (during s rb identifying (mixed identifying identified reported ks) ch dn A z)
          ≡ returns (
              during s rb running
                (all_in identified ks)
                (record ch { download = some true })
                dn
                A
                z'))
  unfolding run status_beq check_identification_status end_identification domain_update_running
      notify_feedback
  identify-signals ch full k n cover u free = (
    (domain_update_running (
        notify_feedback identified ""
          (during s rb identifying (all_in identified ks) ch dn A z))).sent,
    ground (
      arith,
      lookup-mixed identifying identified d reported ks k n,
      insert-mixed identifying identified d reported ks k u,
      mixed-all identifying identified (d ∷ reported) ks cover,
      any-all_in (λ x. x == identifying) identified ks refl,
      any-all_in (λ x. x == identification_failed) identified ks refl,
      first-identified ks d k,
    ),
  )
