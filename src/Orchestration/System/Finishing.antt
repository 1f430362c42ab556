-- ===== src/Orchestration/System/Finishing.antt =====
-- The last phase of an update in which every agent succeeds: the report of one domain.
use update_manager.Base.{
  String, Bool, true, false, ◌≡◌, refl, ◌==◌, not, none, some, List, ◌∷◌, string_eq, arith, returns,
}
use update_manager.Types.{
  running, completed, incomplete, cleanup_success, status_eq, status_beq, Action,
  activation_success,
}
use update_manager.Util.{contains}
use update_manager.Orchestration.Operation.{CommandChannels, Chan}
use update_manager.Orchestration.Session.{Session, Effect}
use update_manager.Orchestration.Feedback.Completion.{
  domain_update_completed, is_cleaned, note_reboot,
}
use update_manager.Orchestration.Feedback.Plan.{finish, run, skips_cleanup}
use update_manager.Orchestration.System.Orders.{
  mixed, insert-mixed, lookup-mixed, any-mixed, mixed-all, all_in, any-all_in, Covers,
}
use update_manager.Util.Keys.{IsDistinct}
use update_manager.Orchestration.System.Success.{during}

module _ (s : Session) (rb : Bool) (ks : List String) (dn : Chan)
    (A : List (String × List (String × Action))) (z : List Effect) (d m : String)
    (actions : List Action) (reported : List String) where
  -- A domain is cleaned, and others are not yet.
  pub finish-waits :
      (ch : CommandChannels) (later : String)
      → contains ks d ≡ true
      → contains reported d ≡ false
      → contains ks later ≡ true
      → contains (d ∷ reported) later ≡ false
      → IsDistinct ks
      → run
          (finish skips_cleanup cleanup_success false)
          d
          m
          actions
          (during s rb running (mixed activation_success cleanup_success reported ks) ch dn A z)
        ≡ returns (
            during s rb running
              (mixed activation_success cleanup_success (d ∷ reported) ks)
              ch
              dn
              A
              z)
  unfolding run status_beq domain_update_completed
  finish-waits ch later k n kl nl u = ground (
    arith,
    lookup-mixed activation_success cleanup_success d reported ks k n,
    insert-mixed activation_success cleanup_success d reported ks k u,
    any-mixed activation_success cleanup_success (λ x. not (is_cleaned x)) later (d ∷ reported) ks
        refl kl nl,
  )

  -- The last cleanup completes the operation.
  pub finish-completes :
      (ch : CommandChannels)
      → contains ks d ≡ true
      → contains reported d ≡ false
      → Covers (d ∷ reported) ks
      → IsDistinct ks
      → dn ≡ none
      → (s.op.delayed_status == incomplete) ≡ false
      → (rb' : Bool) × (run
            (finish skips_cleanup cleanup_success false)
            d
            m
            actions
            (during s rb running (mixed activation_success cleanup_success reported ks) ch dn A z)
          ≡ returns (during s rb' completed (all_in cleanup_success ks) ch (some true) A z))
  unfolding run status_beq domain_update_completed
  finish-completes ch k n cover u free calm = (
    (note_reboot (during s rb running (all_in cleanup_success ks) ch dn A z)).op.reboot_required,
    ground (
      arith,
      lookup-mixed activation_success cleanup_success d reported ks k n,
      insert-mixed activation_success cleanup_success d reported ks k u,
      mixed-all activation_success cleanup_success (d ∷ reported) ks cover,
      any-all_in (λ x. not (is_cleaned x)) cleanup_success ks refl,
    ),
  )
