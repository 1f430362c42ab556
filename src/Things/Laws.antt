-- ===== src/Things/Laws.antt =====
-- What the feature keeps over any sequence of calls, and what its answers to messages are.
use update_manager.Base.{
  ℕ, ◌+◌, ◌≤◌, String, Bool, true, false, ◌≡◌, refl, ◌≢◌, ◌||◌, ◌==◌, Option, List, [], ◌∷◌, ℤ, All,
  string_eq, eq_iff, if◌then◌else◌, arith, ◌⊎◌, inl, inr, subst, sym,
}
use update_manager.Types.{Inventory, DesiredStateFeedback, OwnerConsent}
use update_manager.Things.Feature.{
  NamespacedId, Effect, UpdateManagerFeature, Envelope, new_update_manager_feature, activate,
  deactivate, set_state, issue_feedback, issue_consent, set_consent_handler, messages_handler,
  process_apply, process_refresh, process_consent, subscribe, unsubscribe, reply, send_consent,
  handle_owner_consent_feedback,
}

-- The calls of the feature.
pub data Call : Type 0 where
  activates : Option String → Call
  deactivates : Call
  sets_state : Option String → ℤ → String → Option Inventory → Call
  issues_feedback : Option String → ℤ → String → DesiredStateFeedback → Call
  issues_consent : Option String → ℤ → String → String → OwnerConsent → Call
  sets_handler : Bool → Call
  receives : String → Envelope → Call

module _ (sprintf : String → String) where
  unfoldable pub step : Call → UpdateManagerFeature → UpdateManagerFeature
  unfolding activate deactivate set_state issue_feedback issue_consent set_consent_handler
      messages_handler
  step (activates result) um = (activate result um).0
  step deactivates um = deactivate um
  step (sets_state result now a state) um = (set_state result now a state um).0
  step (issues_feedback result now a f) um = (issue_feedback result now a f um).0
  step (issues_consent result now uuid a c) um = (issue_consent result now uuid a c um).0
  step (sets_handler handler) um = set_consent_handler handler um
  step (receives request_id msg) um = messages_handler sprintf request_id msg um

  unfoldable pub steps : List Call → UpdateManagerFeature → UpdateManagerFeature
  steps [] um = um
  steps (c ∷ cs) um = steps cs (step c um)

module _ (sprintf : String → String) (request_id : String) (msg : Envelope) where
  -- A message is ignored, or it is processed as one of the three operations.
  messages_handler-cases :
      (um : UpdateManagerFeature)
      → ((messages_handler sprintf request_id msg um ≡ um)
          ⊎ (messages_handler sprintf request_id msg um ≡ process_apply sprintf request_id msg um))
        ⊎ ((messages_handler sprintf request_id msg um ≡ process_refresh sprintf request_id msg um)
            ⊎ (messages_handler sprintf request_id msg um
                ≡ process_consent sprintf request_id msg um))
  unfolding messages_handler
  messages_handler-cases um = ground arith

  -- What the three operations keep, every message keeps.
  messages_handler-keeps :
      (P : UpdateManagerFeature → Type 0) (um : UpdateManagerFeature)
      → P um
      → P (process_apply sprintf request_id msg um)
      → P (process_refresh sprintf request_id msg um)
      → P (process_consent sprintf request_id msg um)
      → P (messages_handler sprintf request_id msg um)
  messages_handler-keeps P um h a r c = elim (messages_handler-cases um) [
    | inl (inl e) ↦ subst P (sym e) h
    | inl (inr e) ↦ subst P (sym e) a
    | inr (inl e) ↦ subst P (sym e) r
    | inr (inr e) ↦ subst P (sym e) c
  ]

-- Whether the newest of the subscribe and unsubscribe calls is a subscribe.
abbrev pub is_subscribed : List Effect → Bool
is_subscribed [] = false
is_subscribed (subscribe ∷ es) = true
is_subscribed (unsubscribe ∷ es) = false
is_subscribed (_ ∷ es) = is_subscribed es

module _ (sprintf : String → String) where
  step-is_subscribed :
      (c : Call) (um : UpdateManagerFeature)
      → is_subscribed um.sent ≡ um.active
      → is_subscribed (step sprintf c um).sent ≡ (step sprintf c um).active
  unfolding step
  step-is_subscribed (activates result) um h = ground arith
  step-is_subscribed deactivates um h = ground arith
  step-is_subscribed (sets_state result now a state) um h = ground arith
  step-is_subscribed (issues_feedback result now a f) um h = ground arith
  step-is_subscribed (issues_consent result now uuid a c) um h = ground arith
  step-is_subscribed (sets_handler handler) um h = ground arith
  step-is_subscribed (receives request_id msg) um h =
      messages_handler-keeps sprintf request_id msg (λ t. is_subscribed t.sent ≡ t.active) um h
        (unfold process_apply in ground arith) (unfold process_refresh in ground arith)
        (unfold process_consent in ground arith)

  steps-is_subscribed_from :
      (cs : List Call) (um : UpdateManagerFeature)
      → is_subscribed um.sent ≡ um.active
      → is_subscribed (steps sprintf cs um).sent ≡ (steps sprintf cs um).active
  unfolding steps
  steps-is_subscribed_from [] um h = h
  steps-is_subscribed_from (c ∷ cs) um h =
      steps-is_subscribed_from cs (step sprintf c um) (step-is_subscribed c um h)

  -- After any calls of a new feature, failed activations included, it is subscribed for messages exactly
  -- if it is active.
  pub steps-is_subscribed :
      (cs : List Call) (domain : String) (thing_id : NamespacedId)
      → let um = steps sprintf cs (new_update_manager_feature domain thing_id) in
        is_subscribed um.sent ≡ um.active
  unfolding new_update_manager_feature
  steps-is_subscribed cs domain thing_id = steps-is_subscribed_from cs _ refl

-- The consents that were requested, and the answers that were handed to the handler.
abbrev pub requested : List Effect → ℕ
requested [] = 0
requested (send_consent b c cid ∷ es) = requested es + 1
requested (_ ∷ es) = requested es

abbrev pub answered : List Effect → ℕ
answered [] = 0
answered (handle_owner_consent_feedback a t f ∷ es) = answered es + 1
answered (_ ∷ es) = answered es

-- The message of a call, if there is one, has a correlation ID.
abbrev pub IsCorrelated : Call → Type 0
IsCorrelated (receives request_id msg) = msg.correlation_id ≢ ""
IsCorrelated _ = Unit

-- The requests that an answer may still come for.
abbrev pending : UpdateManagerFeature → ℕ
pending um = if um.consent_correlation_id == "" then 0 else 1

module _ (sprintf : String → String) where
  -- An answer is handed on only with the pending correlation ID, which is then cleared.
  process_consent-cases :
      (request_id : String) (msg : Envelope) (um : UpdateManagerFeature)
      → let t = process_consent sprintf request_id msg um in
        (requested t.sent ≡ requested um.sent)
        × (((answered t.sent ≡ answered um.sent)
              × (t.consent_correlation_id ≡ um.consent_correlation_id))
            ⊎ ((answered t.sent ≡ answered um.sent + 1)
                × (t.consent_correlation_id ≡ "")
                × (msg.correlation_id ≡ um.consent_correlation_id)))
  unfolding process_consent
  process_consent-cases request_id msg um =
      (ground arith, ground (arith, eq_iff msg.correlation_id um.consent_correlation_id))

  process_consent-answered :
      (request_id : String) (msg : Envelope) (um : UpdateManagerFeature)
      → msg.correlation_id ≢ ""
      → answered um.sent + pending um ≤ requested um.sent
      → answered (process_consent sprintf request_id msg um).sent
          + pending (process_consent sprintf request_id msg um)
        ≤ requested (process_consent sprintf request_id msg um).sent
  process_consent-answered request_id msg um k h = ground (
    arith,
    process_consent-cases request_id msg um,
    eq_iff um.consent_correlation_id "",
    eq_iff (process_consent sprintf request_id msg um).consent_correlation_id "",
  )

  step-answered :
      (c : Call) (um : UpdateManagerFeature)
      → IsCorrelated c
      → answered um.sent + pending um ≤ requested um.sent
      → answered (step sprintf c um).sent + pending (step sprintf c um)
        ≤ requested (step sprintf c um).sent
  unfolding step
  step-answered (activates result) um k h = ground arith
  step-answered deactivates um k h = ground arith
  step-answered (sets_state result now a state) um k h = ground arith
  step-answered (issues_feedback result now a f) um k h = ground arith
  step-answered (issues_consent result now uuid a c) um k h = ground arith
  step-answered (sets_handler handler) um k h = ground arith
  step-answered (receives request_id msg) um k h =
      messages_handler-keeps sprintf request_id msg
        (λ t. answered t.sent + pending t ≤ requested t.sent) um h
        (unfold process_apply in ground arith) (unfold process_refresh in ground arith)
        (process_consent-answered request_id msg um k h)

  steps-answered_from :
      (cs : List Call) (um : UpdateManagerFeature)
      → All IsCorrelated cs
      → answered um.sent + pending um ≤ requested um.sent
      → answered (steps sprintf cs um).sent ≤ requested (steps sprintf cs um).sent
  unfolding steps
  steps-answered_from [] um k h = omega arith
  steps-answered_from (c ∷ cs) um (k, ks) h =
      steps-answered_from cs (step sprintf c um) ks (step-answered c um k h)

  -- If every message has a correlation ID, then the handler of a new feature is never given more answers
  -- than consents were requested, in whatever order the calls come.
  pub steps-answered :
      (cs : List Call) (domain : String) (thing_id : NamespacedId)
      → All IsCorrelated cs
      → let um = steps sprintf cs (new_update_manager_feature domain thing_id) in
        answered um.sent ≤ requested um.sent
  unfolding new_update_manager_feature
  steps-answered cs domain thing_id k = steps-answered_from cs _ k (omega arith)

-- The replies to one request.
abbrev pub replies : String → List Effect → ℕ
replies request_id [] = 0
replies request_id (reply r cid op status payload ∷ es) =
    if r == request_id then replies request_id es + 1 else replies request_id es
replies request_id (_ ∷ es) = replies request_id es

-- The paths that the feature serves.
abbrev pub is_served : String → Bool
is_served path =
    path == "/features/UpdateManager/inbox/messages/apply"
    || path == "/features/UpdateManager/inbox/messages/refresh"
    || path == "/features/UpdateManager/inbox/messages/consent"

module _ (sprintf : String → String) where
  -- A message for an active feature on a path that it serves gets exactly one reply if it asks for one,
  -- and none if it does not, whether it is valid or not.
  pub messages_handler-replies :
      (request_id : String) (msg : Envelope) (um : UpdateManagerFeature)
      → um.active ≡ true
      → msg.topic ≡ um.thing_id
      → is_served msg.path ≡ true
      → replies request_id (messages_handler sprintf request_id msg um).sent
        ≡ replies request_id um.sent + (if msg.response_required then 1 else 0)
  unfolding messages_handler
  messages_handler-replies request_id msg um h t p = ground (
    arith,
    eq_iff request_id request_id,
    eq_iff msg.topic.namespace um.thing_id.namespace,
    eq_iff msg.topic.name um.thing_id.name,
  )
