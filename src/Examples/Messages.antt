-- ===== src/Examples/Messages.antt =====
-- The messages of the clients on small inputs, with a wire on which each payload has its own kind.
use update_manager.Base.{String, true, false, ◌≡◌, refl, Option, none, some, [], returns, string_eq}
use update_manager.Types.{
  Inventory, DesiredState, DesiredStateCommand, DesiredStateFeedback, OwnerConsent,
  OwnerConsentFeedback, CommandType, completed, ConsentStatusType,
}
use update_manager.Mqtt.Clients.{
  new_internal_client, Envelope, send_desired_state, send_desired_state_command,
  send_current_state_get, send_current_state, send_desired_state_feedback, send_owner_consent,
  send_owner_consent_feedback, Codecs, stamped, Handled, Token, Message, handle_state_request,
  handle_message, handle_consent_feedback_message, handle_consent_message, handle_desired_state,
  handle_desired_state_command, handle_current_state_get, handle_current_state,
  handle_desired_state_feedback, handle_owner_consent, handle_owner_consent_feedback,
}
use update_manager.Mqtt.Subscriber.{receive, start, start_states}
use update_manager.Mqtt.Sessions.{
  desired_state, Broker, starts, loses, Reach, fresh, then_step, start_of, handle_of,
  Reach-receives,
}
use update_manager.Mqtt.Laws.{requests-handled, reports-handled, consents-handled}

abbrev read_states : Handled → Option (Envelope DesiredState)
read_states (handle_desired_state e) = some e
read_states _ = none

read_states_back :
    (e : Envelope DesiredState) (b : Handled)
    → some (handle_desired_state e) ≡ some b
    → read_states b ≡ some e
read_states_back e (handle_desired_state e') h = cc
read_states_back e _ h = cc

abbrev read_commands : Handled → Option (Envelope DesiredStateCommand)
read_commands (handle_desired_state_command e) = some e
read_commands _ = none

read_commands_back :
    (e : Envelope DesiredStateCommand) (b : Handled)
    → some (handle_desired_state_command e) ≡ some b
    → read_commands b ≡ some e
read_commands_back e (handle_desired_state_command e') h = cc
read_commands_back e _ h = cc

abbrev read_gets : Handled → Option (Envelope Unit)
read_gets (handle_current_state_get e) = some e
read_gets _ = none

read_gets_back :
    (e : Envelope Unit) (b : Handled)
    → some (handle_current_state_get e) ≡ some b
    → read_gets b ≡ some e
read_gets_back e (handle_current_state_get e') h = cc
read_gets_back e _ h = cc

abbrev read_inventories : Handled → Option (Envelope Inventory)
read_inventories (handle_current_state e) = some e
read_inventories _ = none

read_inventories_back :
    (e : Envelope Inventory) (b : Handled)
    → some (handle_current_state e) ≡ some b
    → read_inventories b ≡ some e
read_inventories_back e (handle_current_state e') h = cc
read_inventories_back e _ h = cc

abbrev read_feedbacks : Handled → Option (Envelope DesiredStateFeedback)
read_feedbacks (handle_desired_state_feedback e) = some e
read_feedbacks _ = none

read_feedbacks_back :
    (e : Envelope DesiredStateFeedback) (b : Handled)
    → some (handle_desired_state_feedback e) ≡ some b
    → read_feedbacks b ≡ some e
read_feedbacks_back e (handle_desired_state_feedback e') h = cc
read_feedbacks_back e _ h = cc

abbrev read_consents : Handled → Option (Envelope OwnerConsent)
read_consents (handle_owner_consent e) = some e
read_consents _ = none

read_consents_back :
    (e : Envelope OwnerConsent) (b : Handled)
    → some (handle_owner_consent e) ≡ some b
    → read_consents b ≡ some e
read_consents_back e (handle_owner_consent e') h = cc
read_consents_back e _ h = cc

abbrev read_consent_feedbacks : Handled → Option (Envelope OwnerConsentFeedback)
read_consent_feedbacks (handle_owner_consent_feedback e) = some e
read_consent_feedbacks _ = none

read_consent_feedbacks_back :
    (e : Envelope OwnerConsentFeedback) (b : Handled)
    → some (handle_owner_consent_feedback e) ≡ some b
    → read_consent_feedbacks b ≡ some e
read_consent_feedbacks_back e (handle_owner_consent_feedback e') h = cc
read_consent_feedbacks_back e _ h = cc

abbrev wire : Codecs Handled
wire = record {
  states = record { marshal = λ e. some (handle_desired_state e); unmarshal = read_states };
  commands = record {
    marshal = λ e. some (handle_desired_state_command e);
    unmarshal = read_commands;
  };
  gets = record { marshal = λ e. some (handle_current_state_get e); unmarshal = read_gets };
  inventories = record {
    marshal = λ e. some (handle_current_state e);
    unmarshal = read_inventories;
  };
  feedbacks = record {
    marshal = λ e. some (handle_desired_state_feedback e);
    unmarshal = read_feedbacks;
  };
  consents = record { marshal = λ e. some (handle_owner_consent e); unmarshal = read_consents };
  consent_feedbacks = record {
    marshal = λ e. some (handle_owner_consent_feedback e);
    unmarshal = read_consent_feedbacks;
  };
}

-- 1.5 ms after the epoch.
abbrev envelope : {A : Type 0} → A → Envelope A
envelope a = stamped 1500000 "activity" a

abbrev state : Envelope DesiredState
state = envelope (record { baselines = []; domains = [] })

abbrev command : Envelope DesiredStateCommand
command = envelope (record { command = CommandType.update; baseline = "" })

abbrev get : Envelope Unit
get = envelope tt

abbrev inventory : Envelope Inventory
inventory = envelope (record { hardware_nodes = []; software_nodes = []; associations = [] })

abbrev feedback : Envelope DesiredStateFeedback
feedback = envelope (record { baseline = ""; status = completed; message = ""; actions = [] })

abbrev consent : Envelope OwnerConsent
consent = envelope (record { command = CommandType.update })

abbrev answer : Envelope OwnerConsentFeedback
answer = envelope (record { status = ConsentStatusType.approved })

abbrev message : String → Handled → Message Handled
message topic payload = record { topic = topic; retained = false; payload = payload }

requests-handled_example :
    (handle_state_request wire
        (new_internal_client "deviceupdate")
        (message "deviceupdate/desiredstate" (handle_desired_state state))
      ≡ some (handle_desired_state state))
    × (handle_state_request wire
          (new_internal_client "deviceupdate")
          (message "deviceupdate/desiredstate/command" (handle_desired_state_command command))
        ≡ some (handle_desired_state_command command))
    × (handle_state_request wire
          (new_internal_client "deviceupdate")
          (message "deviceupdate/currentstate/get" (handle_current_state_get get))
        ≡ some (handle_current_state_get get))
unfolding send_desired_state send_desired_state_command send_current_state_get
requests-handled_example =
    requests-handled wire "deviceupdate" 1500000 1500000 1500000 "activity" "activity" "activity"
      state.payload command.payload Token.late
      (message "deviceupdate/desiredstate" (handle_desired_state state))
      (message "deviceupdate/desiredstate/command" (handle_desired_state_command command))
      (message "deviceupdate/currentstate/get" (handle_current_state_get get)) read_states_back
      read_commands_back read_gets_back refl refl refl

abbrev retained : Message Handled
retained = record {
  topic = "deviceupdate/currentstate";
  retained = true;
  payload = handle_current_state inventory;
}

reports-handled_example :
    (handle_message wire (new_internal_client "deviceupdate") retained
      ≡ some (handle_current_state inventory))
    × (handle_message wire
          (new_internal_client "deviceupdate")
          (message "deviceupdate/desiredstatefeedback" (handle_desired_state_feedback feedback))
        ≡ some (handle_desired_state_feedback feedback))
    × (true ≡ true)
    × (false ≡ false)
unfolding send_current_state send_desired_state_feedback
reports-handled_example =
    reports-handled wire "deviceupdate" 1500000 1500000 "activity" "activity" inventory.payload
      feedback.payload retained
      (message "deviceupdate/desiredstatefeedback" (handle_desired_state_feedback feedback))
      read_inventories_back read_feedbacks_back refl refl

consents-handled_example :
    (handle_consent_message wire
        (new_internal_client "deviceupdate")
        (message "deviceupdate/ownerconsent" (handle_owner_consent consent))
      ≡ some (handle_owner_consent consent))
    × (handle_consent_feedback_message wire
          (new_internal_client "deviceupdate")
          (message "deviceupdate/ownerconsentfeedback" (handle_owner_consent_feedback answer))
        ≡ some (handle_owner_consent_feedback answer))
    × (handle_consent_feedback_message wire
          (new_internal_client "deviceupdate")
          (message "deviceupdate/ownerconsent" (handle_owner_consent consent))
        ≡ none)
    × (handle_consent_message wire
          (new_internal_client "deviceupdate")
          (message "deviceupdate/ownerconsentfeedback" (handle_owner_consent_feedback answer))
        ≡ none)
unfolding send_owner_consent send_owner_consent_feedback
consents-handled_example =
    consents-handled wire "deviceupdate" 1500000 1500000 "activity" "activity" consent.payload
      answer.payload (Token.ended false)
      (message "deviceupdate/ownerconsent" (handle_owner_consent consent))
      (message "deviceupdate/ownerconsentfeedback" (handle_owner_consent_feedback answer))
      read_consents_back read_consent_feedbacks_back refl refl

-- Started, the connection lost, and started again.
restarted :
    (b : Broker) × Reach (new_internal_client "deviceupdate") desired_state b
    × (b.subscribed ≡ true)
unfolding start_of start_states start
restarted =
    (_, then_step (then_step (then_step fresh (starts false refl)) loses) (starts false refl), refl)

Reach-receives_example :
    receive
      (handle_of wire
        (new_internal_client "deviceupdate")
        desired_state
        (message "deviceupdate/desiredstatefeedback" (handle_desired_state_feedback feedback)))
      restarted.0.subscriber
    ≡ returns (
        handle_of wire
          (new_internal_client "deviceupdate")
          desired_state
          (message "deviceupdate/desiredstatefeedback" (handle_desired_state_feedback feedback)))
Reach-receives_example =
    Reach-receives wire (new_internal_client "deviceupdate") desired_state restarted.0
      (message "deviceupdate/desiredstatefeedback" (handle_desired_state_feedback feedback))
      restarted.1 restarted.2
