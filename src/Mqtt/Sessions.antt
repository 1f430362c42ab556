-- ===== src/Mqtt/Sessions.antt =====
-- A client that shares a connection, together with the subscriptions that the broker keeps for it.
use update_manager.Base.{Bool, true, false, not, ◌&&◌, ◌≡◌, Option, returns, arith, string_eq}
use update_manager.Mqtt.Clients.{
  MqttClient, Token, ended, Handled, Codecs, Message, handle_message,
  handle_consent_feedback_message,
}
use update_manager.Mqtt.Subscriber.{
  Subscriber, new_subscriber, start, stop, receive, start_states, stop_states, start_consent,
  stop_consent,
}

-- The two clients: that of the desired state and that of the owner's consent.
pub data Kind : Type 0 where
  desired_state owner_consent : Kind

unfoldable pub start_of : MqttClient → Kind → Token → Subscriber → Subscriber × Bool
unfolding start_states start_consent
start_of client desired_state = start_states client
start_of client owner_consent = start_consent client

unfoldable pub stop_of : MqttClient → Kind → Token → Subscriber → Subscriber × Bool
unfolding stop_states stop_consent
stop_of client desired_state = stop_states client
stop_of client owner_consent = stop_consent client

unfoldable pub handle_of :
    {Bytes : Type 0} → Codecs Bytes → MqttClient → Kind → Message Bytes → Option Handled
unfolding handle_message handle_consent_feedback_message
handle_of json client desired_state = handle_message json client
handle_of json client owner_consent = handle_consent_feedback_message json client

-- `subscribed` says whether the broker has the topics of the client.
pub record Broker : Type 0 where
  pub subscribed : Bool
  pub subscriber : Subscriber

-- A call whose token ends in time is done by the broker exactly if it has no error. A lost connection loses
-- the subscriptions, as the sessions are clean, and a client is started only where it has none.
pub data Step (client : MqttClient) (kind : Kind) (b : Broker) : Broker → Type 0 where
  starts :
      (err : Bool)
      → b.subscribed ≡ false
      → Step client kind b (record {
        subscribed = not err;
        subscriber = (start_of client kind (ended err) b.subscriber).0;
      })
  stops :
      (err : Bool)
      → Step client kind b (record {
        subscribed = b.subscribed && err;
        subscriber = (stop_of client kind (ended err) b.subscriber).0;
      })
  loses : Step client kind b (record b { subscribed = false })

pub data Reach (client : MqttClient) (kind : Kind) : Broker → Type 0 where
  fresh : Reach client kind (record { subscribed = false; subscriber = new_subscriber })
  then_step : {b c : Broker} → Reach client kind b → Step client kind b c → Reach client kind c

Reach-handler :
    (client : MqttClient) (kind : Kind) (b : Broker)
    → Reach client kind b
    → b.subscribed ≡ true
    → b.subscriber.handler ≡ true
unfolding start_of stop_of start_states start_consent stop_states stop_consent start stop
Reach-handler client kind b fresh h = ground arith
Reach-handler client desired_state b (then_step {b = a} r (starts err n)) h = ground arith
Reach-handler client owner_consent b (then_step {b = a} r (starts err n)) h = ground arith
Reach-handler client desired_state b (then_step {b = a} r (stops err)) h =
    ground (arith, Reach-handler client desired_state a r)
Reach-handler client owner_consent b (then_step {b = a} r (stops err)) h =
    ground (arith, Reach-handler client owner_consent a r)
Reach-handler client kind b (then_step {b = a} r loses) h = ground arith

-- However a client of a shared connection is started and stopped and the connection is lost, if no wait for
-- a token times out and a client is started only without a subscription: while the broker has its topics, every
-- message that it delivers is handled or cannot be parsed, and none meets a client without a handler.
pub Reach-receives :
    {Bytes : Type 0} (json : Codecs Bytes) (client : MqttClient) (kind : Kind) (b : Broker)
    (m : Message Bytes)
    → Reach client kind b
    → b.subscribed ≡ true
    → receive (handle_of json client kind m) b.subscriber ≡ returns (handle_of json client kind m)
unfolding receive
Reach-receives json client kind b m r h = ground (arith, Reach-handler client kind b r h)
