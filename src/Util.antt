-- ===== src/Util.antt =====
-- The helpers of api/util/util.go. `time.ParseDuration` is Go's: it comes as the argument `parse`.
pub mod Keys
use update_manager.Base.{
  String, Bool, false, Option, none, some, List, [], ◌∷◌, Eq, ◌==◌, string_eq, ◌||◌, if◌then◌else◌,
  ℤ, is_negative,
}
use update_manager.Types.{StatusType, ActionStatusType, Action}

-- The property's name only goes to the log.
unfoldable pub parse_duration : (String → Option ℤ) → String → ℤ → ℤ → ℤ
parse_duration parse str_value def_value empty_value =
    if str_value == "" then empty_value else elim (parse str_value) [
      | none ↦ def_value
      | some duration ↦ if is_negative duration then def_value else duration
    ]

unfoldable pub fix_incomplete_inconsistent_status : StatusType → StatusType
fix_incomplete_inconsistent_status StatusType.incomplete_inconsistent = StatusType.incomplete
fix_incomplete_inconsistent_status status = status

fix_status : ActionStatusType → ActionStatusType
fix_status ActionStatusType.activating = ActionStatusType.updating
fix_status ActionStatusType.activation_success = ActionStatusType.update_success
fix_status ActionStatusType.activation_failure = ActionStatusType.update_failure
fix_status status = status

-- The `default` of the source returns the action itself, which is the action with its own status.
unfoldable pub fix_activation_action_status : Action → Action
unfolding fix_status
fix_activation_action_status action = record action { status = fix_status action.status }

unfoldable pub contains {ℓ} : {T : Type ℓ} ⦃e : Eq T⦄ → List T → T → Bool
contains [] value = false
contains (v ∷ slice) value = value == v || contains slice value
