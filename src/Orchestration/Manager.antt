-- ===== src/Orchestration/Manager.antt =====
-- updatem/orchestration/update_manager.go and update_manager_callback.go: the manager that runs one
-- activity at a time. `updateOrchestrator.Apply` runs between `begin_apply` and `end_apply`.
pub mod Order
use update_manager.Base.{
  String, Bool, true, false, ◌≡◌, ◌⊎◌, ◌==◌, not, Option, none, some, List, [], ◌∷◌, if◌then◌else◌,
  insert, string_eq, eq_iff, arith,
}
use Prim.Native.String.{◌++◌ as cat}
use update_manager.Types.{StatusType, identification_failed, Inventory}
use update_manager.Config.{Config}
use update_manager.Orchestration.Inventories.{
  as_software_node, to_full_inventory, update_inventory_for_domain,
}

-- Calls of the event callback, the orchestrator and the reboot manager.
pub data Effect : Type 0 where
  feedback : String → String → StatusType → String → Effect
  current_state : String → String → Inventory → Effect
  orchestrate : String → Effect
  reboot : Effect

pub record UpdateManager : Type 0 where
  pub name : String
  pub version : String
  pub cfg : Config
  pub in_progress : Bool
  pub activity_in_progress : String
  pub domains_inventory : List (String × Inventory)
  pub has_callback : Bool
  pub sent : List Effect

abbrev emit : Effect → UpdateManager → UpdateManager
emit e m = record m { sent = e ∷ m.sent }

-- checkIfInProgress: whether the activity is rejected.
unfoldable pub check_if_in_progress : String → UpdateManager → UpdateManager × Bool
check_if_in_progress activity_id m =
    if m.in_progress
    then (
      if m.has_callback
          then emit
              (feedback m.name activity_id identification_failed
                (cat "Another update activity in progress - " m.activity_in_progress))
              m
          else m,
      true,
    )
    else (record m { in_progress = true; activity_in_progress = activity_id }, false)

unfoldable pub mark_apply_completed : UpdateManager → UpdateManager
mark_apply_completed m = record m { in_progress = false; activity_in_progress = "" }

-- Get: the known inventories, with what the agents answer, as one. The order of the answers is that of
-- the goroutines.
update_all :
    List (String × Option Inventory) → List (String × Inventory) → List (String × Inventory)
update_all [] domains = domains
update_all ((name, got) ∷ answers) domains =
    update_all answers (update_inventory_for_domain name got domains)

unfoldable pub get : List (String × Option Inventory) → UpdateManager → Inventory
unfolding update_all
get answers m =
    to_full_inventory (as_software_node m.name m.version) (update_all answers m.domains_inventory)

-- Apply up to the call of the orchestrator; the second part says whether the activity runs.
unfoldable pub begin_apply : String → UpdateManager → UpdateManager × Bool
unfolding check_if_in_progress
begin_apply activity_id m =
    let (t, rejected) = check_if_in_progress activity_id m in
    if rejected then (t, false) else (emit (orchestrate activity_id) t, true)

-- The rest of Apply: the orchestrator's answer, and the answers of the agents to Get, which never fails.
unfoldable pub end_apply :
    String → Bool → List (String × Option Inventory) → UpdateManager → UpdateManager
unfolding get mark_apply_completed
end_apply activity_id reboot_required answers m =
    let t = emit (current_state m.name activity_id (get answers m)) m in
    mark_apply_completed
      (if reboot_required then (if m.cfg.reboot_enabled then emit reboot t else t) else t)

-- HandleCurrentStateEvent
unfoldable pub handle_current_state_event :
    String → String → Inventory → UpdateManager → UpdateManager
handle_current_state_event name activity_id state m =
    let t = record m { domains_inventory = insert name state m.domains_inventory } in
    if activity_id == ""
    then emit
        (current_state t.name activity_id
          (to_full_inventory (as_software_node t.name t.version) t.domains_inventory))
        t
    else t

-- What happens to the manager, in any order.
pub data Call : Type 0 where
  begins : String → Call
  ends : String → Bool → List (String × Option Inventory) → Call
  reports : String → String → Inventory → Call

-- An activity ends only while it is in progress.
unfoldable pub step : Call → UpdateManager → UpdateManager
unfolding begin_apply end_apply handle_current_state_event
step (begins a) m = (begin_apply a m).0
step (ends a r answers) m =
    if not m.in_progress
    then m
    else if not (m.activity_in_progress == a)
    then m
    else end_apply a r answers m
step (reports name a state) m = handle_current_state_event name a state m

unfoldable pub steps : List Call → UpdateManager → UpdateManager
steps [] m = m
steps (c ∷ cs) m = steps cs (step c m)

-- The activities that the orchestrator was started for and whose final state was not yet reported, as
-- a history read from its newest call tells: they alternate.
abbrev pub Alternates : Option String → List Effect → Type 0
Alternates current [] = current ≡ none
Alternates current (feedback d a status message ∷ es) = Alternates current es
Alternates current (reboot ∷ es) = Alternates current es
Alternates current (orchestrate a ∷ es) = (current ≡ some a) × Alternates none es
Alternates current (current_state d a i ∷ es) =
    ((current ≡ none) × Alternates (some a) es) ⊎ ((a ≡ "") × Alternates current es)

abbrev pub current_activity : UpdateManager → Option String
current_activity m = if m.in_progress then some m.activity_in_progress else none

step-Alternates :
    (c : Call) (m : UpdateManager)
    → Alternates (current_activity m) m.sent
    → Alternates (current_activity (step c m)) (step c m).sent
unfolding step
step-Alternates (begins a) m h = ground arith
step-Alternates (ends a r answers) m h = ground (arith, eq_iff m.activity_in_progress a)
step-Alternates (reports name a state) m h = ground (arith, eq_iff a "")

steps-Alternates_from :
    (cs : List Call) (m : UpdateManager)
    → Alternates (current_activity m) m.sent
    → Alternates (current_activity (steps cs m)) (steps cs m).sent
unfolding steps
steps-Alternates_from [] m h = h
steps-Alternates_from (c ∷ cs) m h = steps-Alternates_from cs (step c m) (step-Alternates c m h)

-- From a manager that is idle and has called nothing, in every order of requests, ends and reports: the
-- orchestrator is started for an activity only when no other is running, and the current state of the
-- activity is reported before the next one starts.
pub steps-Alternates :
    (cs : List Call) (m : UpdateManager)
    → m.in_progress ≡ false
    → m.sent ≡ []
    → Alternates (current_activity (steps cs m)) (steps cs m).sent
steps-Alternates cs m h e = steps-Alternates_from cs m (ground arith)
