-- ===== src/Examples/Cloud.antt =====
-- The feature of the cloud connector on small inputs.
use update_manager.Base.{◌≤◌, true, false, ◌≡◌, refl, none, some, List, [], ◌∷◌, pos, eq_iff, arith}
use update_manager.Types.{CommandType, ConsentStatusType}
use update_manager.Things.Feature.{
  NamespacedId, UpdateManagerFeature, Envelope, new_update_manager_feature, messages_handler,
  parsed, invalid,
}
use update_manager.Things.Laws.{
  Call, steps, is_subscribed, requested, answered, replies, steps-is_subscribed, steps-answered,
  messages_handler-replies,
}

abbrev thing : NamespacedId
thing = record { namespace = "namespace"; name = "device" }

abbrev consent_message : Envelope
consent_message = record {
  topic = thing;
  path = "/features/UpdateManager/inbox/messages/consent";
  correlation_id = "7f";
  response_required = true;
  as_apply = invalid "";
  as_refresh = invalid "";
  as_consent = parsed (record {
    base = record { activity_id = "activity"; timestamp = pos 2 };
    owner_consent_feedback = some (record { status = ConsentStatusType.approved });
  });
}

-- One consent is requested, and answered twice.
abbrev calls : List Call
calls =
    Call.activates none
    ∷ Call.sets_handler true
    ∷ Call.issues_consent none (pos 1) "7f" "activity" (record { command = CommandType.update })
    ∷ Call.receives "1" consent_message
    ∷ Call.receives "2" consent_message
    ∷ []

steps-is_subscribed_example :
    is_subscribed (steps (λ m. m) calls (new_update_manager_feature "device" thing)).sent
    ≡ (steps (λ m. m) calls (new_update_manager_feature "device" thing)).active
steps-is_subscribed_example = steps-is_subscribed (λ m. m) calls "device" thing

steps-answered_example :
    answered (steps (λ m. m) calls (new_update_manager_feature "device" thing)).sent
    ≤ requested (steps (λ m. m) calls (new_update_manager_feature "device" thing)).sent
steps-answered_example =
    steps-answered (λ m. m) calls "device" thing
      (tt, (tt, (tt, ((ground (arith, eq_iff "7f" "")), ((ground (arith, eq_iff "7f" "")), tt)))))

abbrev active_feature : UpdateManagerFeature
active_feature = record {
  active = true;
  thing_id = thing;
  domain = "device";
  consent_handler = false;
  consent_correlation_id = "";
  sent = [];
}

messages_handler-replies_example :
    replies "1" (messages_handler (λ m. m) "1" consent_message active_feature).sent ≡ 1
messages_handler-replies_example =
    messages_handler-replies (λ m. m) "1" consent_message active_feature refl refl refl
