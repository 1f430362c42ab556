-- ===== src/Mqtt/Clients.antt =====
-- update_agent_client.go, desired_state_client.go, owner_consent_client.go and
-- owner_consent_agent_client .go, with api/types/envelope.go. JSON, the time, `strings` and the tokens of the
-- MQTT library come as arguments; the texts of errors are not modelled.
use update_manager.Base.{
  ℕ, pos, String, Bool, true, false, ◌==◌, ◌||◌, Option, none, some, ℤ, string_eq, if◌then◌else◌,
}
use Prim.Native.Nat.{◌/◌}
use Prim.Native.String.{◌++◌ as cat}
use mathlib.Core.Option
use update_manager.Types.{
  Inventory, DesiredState, DesiredStateCommand, DesiredStateFeedback, OwnerConsent,
  OwnerConsentFeedback,
}

-- `remove_dashes` is strings.ReplaceAll with "-" and "", `has_suffix` is strings.HasSuffix.
unfoldable pub domain_as_topic : (String → String) → (String → String → Bool) → String → String
domain_as_topic remove_dashes has_suffix domain =
    let d = remove_dashes domain in if has_suffix d "update" then d else cat d "update"

unfoldable pub is_connection_secure : String → Bool
is_connection_secure schema =
    schema == "wss"
    || schema == "ssl"
    || schema == "tls"
    || schema == "mqtts"
    || schema == "mqtt+ssl"
    || schema == "tcps"

-- The topics of an internal client.
pub record MqttClient : Type 0 where
  pub topic_current_state : String
  pub topic_desired_state_feedback : String
  pub topic_owner_consent_feedback : String
  pub topic_desired_state : String
  pub topic_desired_state_command : String
  pub topic_current_state_get : String
  pub topic_owner_consent : String

-- newInternalClient with the prefix that domainAsTopic gives.
abbrev pub new_internal_client : String → MqttClient
new_internal_client mqtt_prefix = record {
  topic_current_state = cat mqtt_prefix "/currentstate";
  topic_current_state_get = cat mqtt_prefix "/currentstate/get";
  topic_desired_state = cat mqtt_prefix "/desiredstate";
  topic_desired_state_command = cat mqtt_prefix "/desiredstate/command";
  topic_desired_state_feedback = cat mqtt_prefix "/desiredstatefeedback";
  topic_owner_consent = cat mqtt_prefix "/ownerconsent";
  topic_owner_consent_feedback = cat mqtt_prefix "/ownerconsentfeedback";
}

pub record Envelope (A : Type 0) : Type 0 where
  pub activity_id : String
  pub timestamp : ℤ
  pub payload : A

-- json.Marshal and json.Unmarshal of an envelope with one type of payload; `none` is an error.
pub record Codec (Bytes A : Type 0) : Type 0 where
  pub marshal : Envelope A → Option Bytes
  pub unmarshal : Bytes → Option (Envelope A)

-- The envelope that is made at a time, which is the number of nanoseconds since 1970; the timestamp is in
-- milliseconds.
abbrev pub stamped : {A : Type 0} → ℕ → String → A → Envelope A
stamped now activity_id payload = record {
  activity_id = activity_id;
  timestamp = pos (now / 1000000);
  payload = payload;
}

unfoldable pub to_envelope : {Bytes A : Type 0} → Codec Bytes A → ℕ → String → A → Option Bytes
to_envelope json now activity_id payload = json.marshal (stamped now activity_id payload)

unfoldable pub from_envelope : {Bytes A : Type 0} → Codec Bytes A → Bytes → Option (Envelope A)
from_envelope json bytes = json.unmarshal bytes

pub record Codecs (Bytes : Type 0) : Type 0 where
  pub states : Codec Bytes DesiredState
  pub commands : Codec Bytes DesiredStateCommand
  pub gets : Codec Bytes Unit
  pub inventories : Codec Bytes Inventory
  pub feedbacks : Codec Bytes DesiredStateFeedback
  pub consents : Codec Bytes OwnerConsent
  pub consent_feedbacks : Codec Bytes OwnerConsentFeedback

-- A call of a client's handler.
pub data Handled : Type 0 where
  handle_desired_state : Envelope DesiredState → Handled
  handle_desired_state_command : Envelope DesiredStateCommand → Handled
  handle_current_state_get : Envelope Unit → Handled
  handle_current_state : Envelope Inventory → Handled
  handle_desired_state_feedback : Envelope DesiredStateFeedback → Handled
  handle_owner_consent : Envelope OwnerConsent → Handled
  handle_owner_consent_feedback : Envelope OwnerConsentFeedback → Handled

-- How the wait for the token of a publication ends.
pub data Token : Type 0 where
  late : Token
  ended : Bool → Token

pub record Message (Bytes : Type 0) : Type 0 where
  pub topic : String
  pub retained : Bool
  pub payload : Bytes

-- What a send comes to: the publication, and whether there is an error.
pub record Sent (Bytes : Type 0) : Type 0 where
  pub message : Option (Message Bytes)
  pub failed : Bool

abbrev fails : Token → Bool
fails late = true
fails (ended err) = err

module _ {Bytes : Type 0} where
  -- A publication that is waited for, unless the envelope cannot be made.
  unfoldable pub publish_wait : String → Option Bytes → Token → Sent Bytes
  publish_wait topic none token = record { message = none; failed = true }
  publish_wait topic (some bytes) token = record {
    message = some (record { topic = topic; retained = false; payload = bytes });
    failed = fails token;
  }

  -- `publish` of the agent's client, which does not wait.
  unfoldable pub publish : String → Bool → Option Bytes → Sent Bytes
  publish topic retained none = record { message = none; failed = true }
  publish topic retained (some bytes) = record {
    message = some (record { topic = topic; retained = retained; payload = bytes });
    failed = false;
  }

module _ {Bytes : Type 0} (json : Codecs Bytes) (client : MqttClient) where
  unfoldable pub send_desired_state : ℕ → String → DesiredState → Token → Sent Bytes
  unfolding publish_wait to_envelope
  send_desired_state now activity_id payload token =
      publish_wait client.topic_desired_state (to_envelope json.states now activity_id payload)
        token

  unfoldable pub send_desired_state_command : ℕ → String → DesiredStateCommand → Token → Sent Bytes
  unfolding publish_wait to_envelope
  send_desired_state_command now activity_id payload token =
      publish_wait client.topic_desired_state_command
        (to_envelope json.commands now activity_id payload) token

  unfoldable pub send_current_state_get : ℕ → String → Token → Sent Bytes
  unfolding publish_wait to_envelope
  send_current_state_get now activity_id token =
      publish_wait client.topic_current_state_get (to_envelope json.gets now activity_id tt) token

  unfoldable pub send_current_state : ℕ → String → Inventory → Sent Bytes
  unfolding publish to_envelope
  send_current_state now activity_id payload =
      publish client.topic_current_state true (to_envelope json.inventories now activity_id payload)

  unfoldable pub send_desired_state_feedback : ℕ → String → DesiredStateFeedback → Sent Bytes
  unfolding publish to_envelope
  send_desired_state_feedback now activity_id payload =
      publish client.topic_desired_state_feedback false
        (to_envelope json.feedbacks now activity_id payload)

  unfoldable pub send_owner_consent : ℕ → String → OwnerConsent → Token → Sent Bytes
  unfolding publish_wait to_envelope
  send_owner_consent now activity_id payload token =
      publish_wait client.topic_owner_consent (to_envelope json.consents now activity_id payload)
        token

  unfoldable pub send_owner_consent_feedback :
      ℕ → String → OwnerConsentFeedback → Token → Sent Bytes
  unfolding publish_wait to_envelope
  send_owner_consent_feedback now activity_id payload token =
      publish_wait client.topic_owner_consent_feedback
        (to_envelope json.consent_feedbacks now activity_id payload) token

  -- handleStateRequest of the agent's client; `none` is a message that cannot be parsed.
  unfoldable pub handle_state_request : Message Bytes → Option Handled
  unfolding from_envelope
  handle_state_request m =
      if m.topic == client.topic_desired_state
      then Option.map handle_desired_state (from_envelope json.states m.payload)
      else if m.topic == client.topic_desired_state_command
      then Option.map handle_desired_state_command (from_envelope json.commands m.payload)
      else Option.map handle_current_state_get (from_envelope json.gets m.payload)

  -- handleMessage of the desired state client.
  unfoldable pub handle_message : Message Bytes → Option Handled
  unfolding from_envelope
  handle_message m =
      if m.topic == client.topic_current_state
      then Option.map handle_current_state (from_envelope json.inventories m.payload)
      else if m.topic == client.topic_desired_state_feedback
      then Option.map handle_desired_state_feedback (from_envelope json.feedbacks m.payload)
      else none

  -- handleMessage of the owner consent client.
  unfoldable pub handle_consent_feedback_message : Message Bytes → Option Handled
  unfolding from_envelope
  handle_consent_feedback_message m =
      if m.topic == client.topic_owner_consent_feedback
      then Option.map handle_owner_consent_feedback (from_envelope json.consent_feedbacks m.payload)
      else none

  -- handleMessage of the owner consent agent's client.
  unfoldable pub handle_consent_message : Message Bytes → Option Handled
  unfolding from_envelope
  handle_consent_message m =
      if m.topic == client.topic_owner_consent
      then Option.map handle_owner_consent (from_envelope json.consents m.payload)
      else none
