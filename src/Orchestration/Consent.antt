-- ===== src/Orchestration/Consent.antt =====
-- Owner consent and the commands, in update_orchestrator_apply.go and update_orchestrator.go. The
-- consent client and the choice that `select` makes come as arguments.
pub mod Laws
pub mod Orders
pub mod Commands
use update_manager.Base.{
  String, Bool, ◌==◌, ◌&&◌, ◌||◌, not, Option, none, some, List, [], ◌∷◌, Outcome, returns, blocks,
  panics, ◌>>=◌, if◌then◌else◌, string_eq,
}
use Prim.Native.String.{◌++◌ as cat}
use update_manager.Types.{
  StatusType, identified, incomplete, download_success, update_success, activation_success,
  rollback_success, status_eq, CommandType, command_eq, OwnerConsentFeedback, is_approved,
}
use update_manager.Util.{contains}
use update_manager.Orchestration.Operation.{UpdateOperation}
use update_manager.Orchestration.Session.{
  Session, consent_start, consent_stop, consent_request, emit, with_op, set_status, set_err_msg,
  send_err, send_rollback, command_agent,
}

-- What wakes the wait for the owner's answer.
pub data Answer : Type 0 where
  received timed_out terminated : Answer

-- The environment of one request: whether there is a client, the errors of its Start and
-- SendOwnerConsent, and the answer. The error of Stop is only logged.
pub record Owner : Type 0 where
  pub available : Bool
  pub start_error : Option String
  pub send_error : Option String
  pub answer : Answer
  pub timeout_text : String

-- What came of a wait: `waits` if the chosen case of the `select` is not ready.
pub data Granted : Type 0 where
  granted : Session → Granted
  refused : String → Session → Granted
  waits : Granted

await_consent : Owner → Session → Granted
await_consent o s = elim o.answer [
  | received ↦ elim s.op.owner_consented [
    | none ↦ waits
    | some approved ↦
        let t = with_op s (record s.op { owner_consented = none }) in
        if approved then granted t else refused "owner approval not granted" t
  ]
  | timed_out ↦ refused (cat "owner consent not granted in " o.timeout_text) s
  | terminated ↦ refused "the update manager instance is terminated" s
]

-- `Stop` is deferred to every return after a successful `Start`.
after_stop : Granted → Granted
after_stop (granted s) = granted (emit consent_stop s)
after_stop (refused m s) = refused m (emit consent_stop s)
after_stop waits = waits

unfoldable pub get_owner_consent : Owner → CommandType → Session → Granted
unfolding await_consent after_stop
get_owner_consent o c s =
    if c == CommandType.other "" || not (contains s.cfg.owner_consent_commands c)
    then granted s
    else if c == CommandType.rollback || c == CommandType.cleanup
    then granted s
    else if not o.available
    then refused "owner consent client not available" s
    else let t = emit consent_start s in
      elim o.start_error [
        | some m ↦ refused m t
        | none ↦
            let u = emit (consent_request s.op.activity_id (record { command = c })) t in
            elim o.send_error [
              | some m ↦ after_stop (refused m u)
              | none ↦ after_stop (await_consent o u)
            ]
      ]

-- The loop of `executeCommand` over the domains.
unfoldable pub execute_on :
    List StatusType → CommandType → List (String × StatusType) → Session → Session
execute_on statuses c [] s = s
execute_on statuses c ((domain, status) ∷ m) s =
    execute_on statuses c m
      (if contains statuses status then command_agent s.op.activity_id domain c s else s)

abbrev pub execute_command : List StatusType → CommandType → Session → Session
execute_command statuses c s = execute_on statuses c s.op.domains s

-- The statuses that the `switch` of handleCommandSignal lists for a command.
abbrev pub addressed : CommandType → List StatusType
addressed CommandType.download = identified ∷ []
addressed CommandType.update = download_success ∷ []
addressed CommandType.activate = update_success ∷ []
addressed CommandType.cleanup = activation_success ∷ rollback_success ∷ []
addressed CommandType.rollback = download_success ∷ update_success ∷ []
addressed (CommandType.other s) = []

-- handleCommandSignal with a live operation; `none` while the owner's answer is awaited.
unfoldable pub handle_command_signal : Owner → CommandType → Session → Option (Outcome Session)
handle_command_signal o c s = elim (get_owner_consent o c s) [
  | waits ↦ none
  | granted t ↦ some (returns (execute_command (addressed c) c t))
  | refused m t ↦ some (
      if not (c == CommandType.update) && not (c == CommandType.activate)
      then send_err (set_err_msg m (set_status incomplete t))
      else (do
        u ←
            send_rollback
              (with_op t (record t.op { delayed_status = incomplete; delayed_err_msg = m }))
        returns (execute_command (addressed CommandType.rollback) CommandType.rollback u)))
]

-- HandleOwnerConsentFeedback; a nil operation is `none`, and a nil consent, which is dereferenced, too.
unfoldable pub handle_owner_consent_feedback :
    String → Option OwnerConsentFeedback → Option UpdateOperation → Outcome (Option UpdateOperation)
handle_owner_consent_feedback activity_id consent none = returns none
handle_owner_consent_feedback activity_id consent (some op) =
    if activity_id == op.activity_id
    then elim consent [
      | none ↦ panics
      | some c ↦ elim op.owner_consented [
        | none ↦ returns (some (record op { owner_consented = some (is_approved c.status) }))
        | some _ ↦ blocks
      ]
    ]
    else returns (some op)
