-- ===== src/Mqtt/Laws.antt =====
-- A message that one client publishes reaches the right handler of its counterpart.
use update_manager.Base.{ℕ, String, true, false, ◌≡◌, none, some, eq_iff, arith, string_eq}
use Prim.Native.String.{◌++◌ as cat}
use text.Mathlib.TextLemmas.{append_cancel_left}
use update_manager.Types.{
  Inventory, DesiredState, DesiredStateCommand, DesiredStateFeedback, OwnerConsent,
  OwnerConsentFeedback,
}
use update_manager.Mqtt.Clients.{
  new_internal_client, Envelope, stamped, Codec, Codecs, Token, Message, send_desired_state,
  send_desired_state_command, send_current_state_get, send_current_state,
  send_desired_state_feedback, send_owner_consent, send_owner_consent_feedback,
  handle_state_request, handle_message, handle_consent_feedback_message, handle_consent_message,
  handle_desired_state, handle_desired_state_command, handle_current_state_get,
  handle_current_state, handle_desired_state_feedback, handle_owner_consent,
  handle_owner_consent_feedback,
}

-- JSON gives back the envelope that it was given.
abbrev pub RoundTrips : {Bytes A : Type 0} → Codec Bytes A → Type 0
RoundTrips {Bytes} {A} c =
    (e : Envelope A) (b : Bytes) → c.marshal e ≡ some b → c.unmarshal b ≡ some e

module _ {Bytes : Type 0} (json : Codecs Bytes) (p : String) where
  -- A desired state, a command and a request of the current state that the manager's client of a domain
  -- publishes are handed by the agent's client of the same domain to their own handlers, with the
  -- activity and the payload that were sent and the time of the send in milliseconds, if JSON gives back
  -- what it was given.
  pub requests-handled :
      (t₁ t₂ t₃ : ℕ) (a₁ a₂ a₃ : String) (s : DesiredState) (c : DesiredStateCommand)
      (token : Token) (m₁ m₂ m₃ : Message Bytes)
      → RoundTrips json.states
      → RoundTrips json.commands
      → RoundTrips json.gets
      → (send_desired_state json (new_internal_client p) t₁ a₁ s token).message ≡ some m₁
      → (send_desired_state_command json (new_internal_client p) t₂ a₂ c token).message ≡ some m₂
      → (send_current_state_get json (new_internal_client p) t₃ a₃ token).message ≡ some m₃
      → (handle_state_request json (new_internal_client p) m₁
          ≡ some (handle_desired_state (stamped t₁ a₁ s)))
        × (handle_state_request json (new_internal_client p) m₂
            ≡ some (handle_desired_state_command (stamped t₂ a₂ c)))
        × (handle_state_request json (new_internal_client p) m₃
            ≡ some (handle_current_state_get (stamped t₃ a₃ tt)))
  unfolding send_desired_state send_desired_state_command send_current_state_get
      handle_state_request
  requests-handled t₁ t₂ t₃ a₁ a₂ a₃ s c token m₁ m₂ m₃ rs rc rg e₁ e₂ e₃ = (
    ground (
      arith,
      rs (stamped t₁ a₁ s) m₁.payload,
      eq_iff (cat p "/desiredstate") (cat p "/desiredstate"),
    ),
    ground (
      arith,
      rc (stamped t₂ a₂ c) m₂.payload,
      eq_iff (cat p "/desiredstate/command") (cat p "/desiredstate"),
      eq_iff (cat p "/desiredstate/command") (cat p "/desiredstate/command"),
      append_cancel_left p "/desiredstate/command" "/desiredstate",
      eq_iff "/desiredstate/command" "/desiredstate",
    ),
    ground (
      arith,
      rg (stamped t₃ a₃ tt) m₃.payload,
      eq_iff (cat p "/currentstate/get") (cat p "/desiredstate"),
      eq_iff (cat p "/currentstate/get") (cat p "/desiredstate/command"),
      append_cancel_left p "/currentstate/get" "/desiredstate",
      append_cancel_left p "/currentstate/get" "/desiredstate/command",
      eq_iff "/currentstate/get" "/desiredstate",
      eq_iff "/currentstate/get" "/desiredstate/command",
    ),
  )

  -- A current state and a feedback that the agent's client of a domain publishes are handed by the
  -- manager's client of the same domain to their own handlers, with the activity and the payload that were
  -- sent and the time of the send in milliseconds, and only the current state is retained, if JSON gives
  -- back what it was given.
  pub reports-handled :
      (t₁ t₂ : ℕ) (a₁ a₂ : String) (i : Inventory) (f : DesiredStateFeedback)
      (m₁ m₂ : Message Bytes)
      → RoundTrips json.inventories
      → RoundTrips json.feedbacks
      → (send_current_state json (new_internal_client p) t₁ a₁ i).message ≡ some m₁
      → (send_desired_state_feedback json (new_internal_client p) t₂ a₂ f).message ≡ some m₂
      → (handle_message json (new_internal_client p) m₁
          ≡ some (handle_current_state (stamped t₁ a₁ i)))
        × (handle_message json (new_internal_client p) m₂
            ≡ some (handle_desired_state_feedback (stamped t₂ a₂ f)))
        × (m₁.retained ≡ true)
        × (m₂.retained ≡ false)
  unfolding send_current_state send_desired_state_feedback handle_message
  reports-handled t₁ t₂ a₁ a₂ i f m₁ m₂ ri rf e₁ e₂ = (
    ground (
      arith,
      ri (stamped t₁ a₁ i) m₁.payload,
      eq_iff (cat p "/currentstate") (cat p "/currentstate"),
    ),
    ground (
      arith,
      rf (stamped t₂ a₂ f) m₂.payload,
      eq_iff (cat p "/desiredstatefeedback") (cat p "/currentstate"),
      eq_iff (cat p "/desiredstatefeedback") (cat p "/desiredstatefeedback"),
      append_cancel_left p "/desiredstatefeedback" "/currentstate",
      eq_iff "/desiredstatefeedback" "/currentstate",
    ),
    ground arith,
    ground arith,
  )

  -- A consent request of the manager's client reaches the owner's agent of the same domain, and the
  -- agent's answer reaches the manager's handler, with the activity and the payload that were sent and the
  -- time of the send in milliseconds, if JSON gives back what it was given; neither client handles its own message.
  pub consents-handled :
      (t₁ t₂ : ℕ) (a₁ a₂ : String) (c : OwnerConsent) (f : OwnerConsentFeedback) (token : Token)
      (m₁ m₂ : Message Bytes)
      → RoundTrips json.consents
      → RoundTrips json.consent_feedbacks
      → (send_owner_consent json (new_internal_client p) t₁ a₁ c token).message ≡ some m₁
      → (send_owner_consent_feedback json (new_internal_client p) t₂ a₂ f token).message ≡ some m₂
      → (handle_consent_message json (new_internal_client p) m₁
          ≡ some (handle_owner_consent (stamped t₁ a₁ c)))
        × (handle_consent_feedback_message json (new_internal_client p) m₂
            ≡ some (handle_owner_consent_feedback (stamped t₂ a₂ f)))
        × (handle_consent_feedback_message json (new_internal_client p) m₁ ≡ none)
        × (handle_consent_message json (new_internal_client p) m₂ ≡ none)
  unfolding send_owner_consent send_owner_consent_feedback handle_consent_message
      handle_consent_feedback_message
  consents-handled t₁ t₂ a₁ a₂ c f token m₁ m₂ rc rf e₁ e₂ = (
    ground (
      arith,
      rc (stamped t₁ a₁ c) m₁.payload,
      eq_iff (cat p "/ownerconsent") (cat p "/ownerconsent"),
    ),
    ground (
      arith,
      rf (stamped t₂ a₂ f) m₂.payload,
      eq_iff (cat p "/ownerconsentfeedback") (cat p "/ownerconsentfeedback"),
    ),
    ground (
      arith,
      eq_iff (cat p "/ownerconsent") (cat p "/ownerconsentfeedback"),
      append_cancel_left p "/ownerconsent" "/ownerconsentfeedback",
      eq_iff "/ownerconsent" "/ownerconsentfeedback",
    ),
    ground (
      arith,
      eq_iff (cat p "/ownerconsentfeedback") (cat p "/ownerconsent"),
      append_cancel_left p "/ownerconsentfeedback" "/ownerconsent",
      eq_iff "/ownerconsentfeedback" "/ownerconsent",
    ),
  )
