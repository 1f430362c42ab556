-- ===== src/Things/Feature.antt =====
-- The update manager feature. The lock makes each call atomic; the errors of Send, the clock, the new
-- correlation IDs and what JSON gives for the value of a message are arguments, and a goroutine that
-- is started is the call that it makes.
use update_manager.Base.{
  ℕ, String, Bool, true, false, ◌==◌, ◌&&◌, not, Option, none, some, List, [], ◌∷◌, ℤ, string_eq,
  if◌then◌else◌,
}
use update_manager.Types.{
  Inventory, DesiredState, DesiredStateFeedback, OwnerConsent, OwnerConsentFeedback,
}

pub record NamespacedId : Type 0 where
  pub namespace : String
  pub name : String

-- The Go type `base`.
pub record BaseArgs : Type 0 where
  pub activity_id : String
  pub timestamp : ℤ

pub record ApplyArgs : Type 0 where
  pub base : BaseArgs
  pub desired_state : Option DesiredState

pub record ConsentFeedback : Type 0 where
  pub base : BaseArgs
  pub owner_consent_feedback : Option OwnerConsentFeedback

pub record ThingError : Type 0 where
  pub error_code : String
  pub status : ℕ
  pub message : String

-- Calls of the Ditto client and of the handlers.
pub data Effect : Type 0 where
  subscribe unsubscribe : Effect
  -- The feature with its domain.
  send_feature : String → Effect
  -- The properties: the base, the domain and the inventory.
  send_properties : BaseArgs → String → Option Inventory → Effect
  send_feedback : BaseArgs → DesiredStateFeedback → Effect
  -- The last part is the correlation ID.
  send_consent : BaseArgs → OwnerConsent → String → Effect
  -- Request ID, correlation ID, operation, status and payload.
  reply : String → String → String → ℕ → Option ThingError → Effect
  handle_desired_state : String → ℤ → DesiredState → Effect
  handle_current_state_get : String → ℤ → Effect
  handle_owner_consent_feedback : String → ℤ → Option OwnerConsentFeedback → Effect

-- `consent_handler` says whether there is one.
pub record UpdateManagerFeature : Type 0 where
  pub active : Bool
  pub thing_id : NamespacedId
  pub domain : String
  pub consent_handler : Bool
  pub consent_correlation_id : String
  pub sent : List Effect

abbrev pub emit : Effect → UpdateManagerFeature → UpdateManagerFeature
emit e um = record um { sent = e ∷ um.sent }

unfoldable pub new_update_manager_feature : String → NamespacedId → UpdateManagerFeature
new_update_manager_feature domain thing_id = record {
  active = false;
  thing_id = thing_id;
  domain = domain;
  consent_handler = false;
  consent_correlation_id = "";
  sent = [];
}

-- `result` is the error of Send.
unfoldable pub activate :
    Option String → UpdateManagerFeature → UpdateManagerFeature × Option String
activate result um =
    if um.active
    then (um, none)
    else let t = emit (send_feature um.domain) (emit subscribe um) in
      elim result [
        | some err ↦ (emit unsubscribe t, some err)
        | none ↦ (record t { active = true }, none)
      ]

unfoldable pub deactivate : UpdateManagerFeature → UpdateManagerFeature
deactivate um = if not um.active then um else record (emit unsubscribe um) { active = false }

unfoldable pub set_state :
    Option String
    → ℤ
    → String
    → Option Inventory
    → UpdateManagerFeature
    → UpdateManagerFeature × Option String
set_state result now activity_id current_state um = if not um.active then (um, none) else (
  emit
      (send_properties (record { activity_id = activity_id; timestamp = now }) um.domain
        current_state)
      um,
  result,
)

unfoldable pub issue_feedback :
    Option String
    → ℤ
    → String
    → DesiredStateFeedback
    → UpdateManagerFeature
    → UpdateManagerFeature × Option String
issue_feedback result now activity_id f um =
    if not um.active
    then (um, none)
    else (emit (send_feedback (record { activity_id = activity_id; timestamp = now }) f) um, result)

-- `uuid` is the new correlation ID.
unfoldable pub issue_consent :
    Option String
    → ℤ
    → String
    → String
    → OwnerConsent
    → UpdateManagerFeature
    → UpdateManagerFeature × Option String
issue_consent result now uuid activity_id c um = if not um.active then (um, none) else (
  emit (send_consent (record { activity_id = activity_id; timestamp = now }) c uuid)
      (record um { consent_correlation_id = uuid }),
  result,
)

unfoldable pub set_consent_handler : Bool → UpdateManagerFeature → UpdateManagerFeature
set_consent_handler handler um = record um { consent_handler = handler }

-- What json.Marshal and json.Unmarshal come to.
pub data Parsed (A : Type 0) : Type 0 where
  parsed : A → Parsed A
  invalid : String → Parsed A

-- A message: its topic, path and headers, as their methods give them, and its value as each of the
-- payloads.
pub record Envelope : Type 0 where
  pub topic : NamespacedId
  pub path : String
  pub correlation_id : String
  pub response_required : Bool
  pub as_apply : Parsed ApplyArgs
  pub as_refresh : Parsed BaseArgs
  pub as_consent : Parsed ConsentFeedback

abbrev reply_success : String → Envelope → String → UpdateManagerFeature → UpdateManagerFeature
reply_success request_id msg operation um =
    if msg.response_required
    then emit (reply request_id msg.correlation_id operation 204 none) um
    else um

-- `sprintf` is fmt.Sprintf of a text that it takes for a format.
module _ (sprintf : String → String) where
  abbrev pub new_messages_parameter_invalid_error : String → ThingError
  new_messages_parameter_invalid_error message_format = record {
    error_code = "messages:parameter.invalid";
    status = 400;
    message = sprintf message_format;
  }

  abbrev reply_error :
      String → String → Envelope → String → UpdateManagerFeature → UpdateManagerFeature
  reply_error err_msg request_id msg operation um =
      let thing_err = new_messages_parameter_invalid_error err_msg in
      if msg.response_required
      then emit (reply request_id msg.correlation_id operation thing_err.status (some thing_err)) um
      else um

  unfoldable pub process_apply : String → Envelope → UpdateManagerFeature → UpdateManagerFeature
  process_apply request_id msg um = elim msg.as_apply [
    | invalid err ↦ reply_error err request_id msg "apply" um
    | parsed args ↦ elim args.desired_state [
      | none ↦ reply_error "desired state is missing" request_id msg "apply" um
      | some state ↦
          emit (handle_desired_state args.base.activity_id args.base.timestamp state)
            (reply_success request_id msg "apply" um)
    ]
  ]

  unfoldable pub process_refresh : String → Envelope → UpdateManagerFeature → UpdateManagerFeature
  process_refresh request_id msg um = elim msg.as_refresh [
    | invalid err ↦ reply_error err request_id msg "refresh" um
    | parsed args ↦
        emit (handle_current_state_get args.activity_id args.timestamp)
          (reply_success request_id msg "refresh" um)
  ]

  unfoldable pub process_consent : String → Envelope → UpdateManagerFeature → UpdateManagerFeature
  process_consent request_id msg um =
      if not um.consent_handler
      then reply_error "owner consent handler not available" request_id msg "consent" um
      else elim msg.as_consent [
        | invalid err ↦ reply_error err request_id msg "consent" um
        | parsed args ↦
            if not (msg.correlation_id == um.consent_correlation_id)
            then reply_error "correlation id mismatch" request_id msg "consent" um
            else emit
                (handle_owner_consent_feedback args.base.activity_id args.base.timestamp
                  args.owner_consent_feedback)
                (reply_success request_id msg "consent" (record um { consent_correlation_id = "" }))
      ]

  unfoldable pub messages_handler : String → Envelope → UpdateManagerFeature → UpdateManagerFeature
  unfolding process_apply process_refresh process_consent
  messages_handler request_id msg um =
      if not um.active
      then um
      else if msg.topic.namespace == um.thing_id.namespace && msg.topic.name == um.thing_id.name
      then (if msg.path == "/features/UpdateManager/inbox/messages/apply"
          then process_apply request_id msg um
          else if msg.path == "/features/UpdateManager/inbox/messages/refresh"
          then process_refresh request_id msg um
          else if msg.path == "/features/UpdateManager/inbox/messages/consent"
          then process_consent request_id msg um
          else um)
      else um
