-- ===== src/Agent/StateNotifier.antt =====
-- api/agent/timer_current_state.go. The timer is whether `internalTimer` is set.
use update_manager.Base.{String, Bool, true, false, Option, none, some, not, if◌then◌else◌, ℤ}
use update_manager.Types.{Inventory}

pub record StateNotifier : Type 0 where
  pub internal_timer : Bool
  pub interval : ℤ
  pub activity_id : String
  pub current_state : Option Inventory

unfoldable pub new_state_notifier : ℤ → StateNotifier
new_state_notifier interval = record {
  internal_timer = false;
  interval = interval;
  activity_id = "";
  current_state = none;
}

unfoldable pub set : String → Option Inventory → StateNotifier → StateNotifier
set activity_id current_state t =
    let u = record t { activity_id = activity_id; current_state = current_state } in
    if not u.internal_timer then record u { internal_timer = true } else u

unfoldable pub stop : StateNotifier → StateNotifier
stop t = record t { internal_timer = false; activity_id = ""; current_state = none }

-- The second part is what `publishCurrentState` is called with, if it is.
unfoldable pub notify_event : StateNotifier → StateNotifier × Option (String × Option Inventory)
notify_event t =
    if not t.internal_timer
    then (t, none)
    else (record t { internal_timer = false }, some (t.activity_id, t.current_state))
