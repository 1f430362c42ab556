-- ===== src/Mqtt/Subscriber.antt =====
-- The state of the four clients of mqtt: Start, Stop and the subscriptions of desired_state_client.go,
-- owner_consent_client.go, update_agent_client.go and owner_consent_agent_client .go, with the connection that
-- update_agent_client.go makes. The tokens of the MQTT library come as arguments.
use update_manager.Base.{
  String, Bool, true, false, ◌==◌, Option, none, some, List, [], ◌∷◌, ℤ, pos, string_eq,
  if◌then◌else◌, Outcome, returns, panics,
}
use Prim.Native.String.{◌++◌ as cat}
use update_manager.Util.{parse_duration}
use update_manager.Mqtt.Clients.{MqttClient, Token, late, ended, Handled, is_connection_secure}

-- Calls of the MQTT library, and the goroutine of getAndPublishCurrentState.
pub data ClientCall : Type 0 where
  connect disconnect : ClientCall
  subscribe unsubscribe : List String → ClientCall
  publish_current_state : ClientCall

-- `handler` says whether there is one; the newest call comes first.
pub record Subscriber : Type 0 where
  pub handler : Bool
  pub calls : List ClientCall

abbrev pub new_subscriber : Subscriber
new_subscriber = record { handler = false; calls = [] }

-- The error of a wait for a token: none in time, or its own.
abbrev pub has_failed : Token → Bool
has_failed late = true
has_failed (ended err) = err

abbrev pub calls_on : ClientCall → Subscriber → Subscriber
calls_on c s = record s { calls = c ∷ s.calls }

-- The topics of each client.
abbrev pub state_topics : MqttClient → List String
state_topics client = client.topic_current_state ∷ client.topic_desired_state_feedback ∷ []

abbrev pub request_topics : MqttClient → List String
request_topics client =
    client.topic_desired_state ∷ client.topic_desired_state_command ∷ client.topic_current_state_get
    ∷ []

abbrev pub consent_topics : MqttClient → List String
consent_topics client = client.topic_owner_consent ∷ []

abbrev pub consent_feedback_topics : MqttClient → List String
consent_feedback_topics client = client.topic_owner_consent_feedback ∷ []

-- Start and Stop of the clients that use the connection of the agent's client. The result says whether there
-- is an error: a failed subscription takes the handler back, a failed unsubscription keeps it.
unfoldable pub start : List String → Token → Subscriber → Subscriber × Bool
start topics token s =
    let t = calls_on (subscribe topics) (record s { handler = true }) in
    if has_failed token then (record t { handler = false }, true) else (t, false)

unfoldable pub stop : List String → Token → Subscriber → Subscriber × Bool
stop topics token s =
    let t = calls_on (unsubscribe topics) s in
    if has_failed token then (t, true) else (record t { handler = false }, false)

module _ (client : MqttClient) where
  unfoldable pub start_states : Token → Subscriber → Subscriber × Bool
  unfolding start
  start_states = start (state_topics client)

  unfoldable pub stop_states : Token → Subscriber → Subscriber × Bool
  unfolding stop
  stop_states = stop (state_topics client)

  unfoldable pub start_consent : Token → Subscriber → Subscriber × Bool
  unfolding start
  start_consent = start (consent_feedback_topics client)

  unfoldable pub stop_consent : Token → Subscriber → Subscriber × Bool
  unfolding stop
  stop_consent = stop (consent_feedback_topics client)

-- Start of the clients with a connection of their own.
unfoldable pub start_connection : Token → Subscriber → Subscriber × Bool
start_connection token s = (calls_on connect (record s { handler = true }), has_failed token)

-- Start of owner_consent_agent_client .go
abbrev pub start_consent_agent : Token → Subscriber → Subscriber × Bool
start_consent_agent = start_connection

-- Their Stop: an error of the unsubscription only goes to the log.
unfoldable pub stop_connection : List String → Subscriber → Subscriber
stop_connection topics s = record (calls_on disconnect (calls_on (unsubscribe topics) s)) {
  handler = false;
}

module _ (client : MqttClient) where
  unfoldable pub stop_agent : Subscriber → Subscriber
  unfolding stop_connection
  stop_agent = stop_connection (request_topics client)

  unfoldable pub stop_consent_agent : Subscriber → Subscriber
  unfolding stop_connection
  stop_consent_agent = stop_connection (consent_topics client)

  -- onConnect of the agent's client. The method of a nil handler is a panic.
  unfoldable pub on_connect_agent : Subscriber → Outcome Subscriber
  on_connect_agent s =
      if s.handler
      then returns (calls_on (subscribe (request_topics client)) (calls_on publish_current_state s))
      else panics

  unfoldable pub on_connect_consent_agent : Subscriber → Subscriber
  on_connect_consent_agent = calls_on (subscribe (consent_topics client))

-- What a delivered message comes to: one that cannot be parsed goes to the log, and the handler that a parsed
-- one is given to is dereferenced.
unfoldable pub receive : Option Handled → Subscriber → Outcome (Option Handled)
receive none s = returns none
receive (some h) s = if s.handler then returns (some h) else panics

-- ConnectionConfig and the durations of internalConnectionConfig.
pub record ConnectionConfig : Type 0 where
  pub broker : String
  pub keep_alive : String
  pub disconnect_timeout : String
  pub username : String
  pub password : String
  pub connect_timeout : String
  pub acknowledge_timeout : String
  pub subscribe_timeout : String
  pub unsubscribe_timeout : String
  pub ca_cert : String
  pub cert : String
  pub key : String

abbrev pub new_default_config : ConnectionConfig
new_default_config = record {
  broker = "tcp://localhost:1883";
  keep_alive = "20s";
  disconnect_timeout = "250ms";
  username = "";
  password = "";
  connect_timeout = "30s";
  acknowledge_timeout = "15s";
  subscribe_timeout = "15s";
  unsubscribe_timeout = "5s";
  ca_cert = "";
  cert = "";
  key = "";
}

pub record InternalConnectionConfig : Type 0 where
  pub broker : String
  pub keep_alive : ℤ
  pub disconnect_timeout : ℤ
  pub username : String
  pub password : String
  pub connect_timeout : ℤ
  pub acknowledge_timeout : ℤ
  pub subscribe_timeout : ℤ
  pub unsubscribe_timeout : ℤ
  pub ca_cert : String
  pub cert : String
  pub key : String

module _ (parse : String → Option ℤ) where
  -- time.ParseDuration gives 0 with an error.
  unfoldable pub duration_or_default : String → String → ℤ
  unfolding parse_duration
  duration_or_default value default_value =
      let default_duration : ℤ = elim (parse default_value) [ none ↦ pos 0 | some d ↦ d ] in
      parse_duration parse value default_duration default_duration

  unfoldable pub new_internal_connection_config : ConnectionConfig → InternalConnectionConfig
  unfolding duration_or_default
  new_internal_connection_config config = record {
    broker = config.broker;
    keep_alive = duration_or_default config.keep_alive "20s";
    disconnect_timeout = duration_or_default config.disconnect_timeout "250ms";
    username = config.username;
    password = config.password;
    connect_timeout = duration_or_default config.connect_timeout "30s";
    acknowledge_timeout = duration_or_default config.acknowledge_timeout "15s";
    subscribe_timeout = duration_or_default config.subscribe_timeout "15s";
    unsubscribe_timeout = duration_or_default config.unsubscribe_timeout "5s";
    ca_cert = config.ca_cert;
    cert = config.cert;
    key = config.key;
  }

-- How the making of the library's client ends.
pub data NewClient : Type 0 where
  plain secured : NewClient
  unparsed no_tls_config bad_tls_config : NewClient

-- `scheme` is that of url.Parse, `none` for an error, and `tls` says whether tls.NewTLSConfig gives one.
unfoldable pub new_client : (String → Option String) → Bool → InternalConnectionConfig → NewClient
unfolding is_connection_secure
new_client scheme tls config = elim (scheme config.broker) [
  | none ↦ unparsed
  | some s ↦
      if is_connection_secure s
      then (if config.ca_cert == "" then no_tls_config else if tls then secured else bad_tls_config)
      else plain
]

-- The call that getAndPublishCurrentState makes of its handler, at a time in milliseconds. `format_int` is
-- strconv.FormatInt.
unfoldable pub get_and_publish_current_state {ℓ} :
    {A : Type ℓ} → (ℤ → String) → ℤ → (String → ℤ → A) → A
get_and_publish_current_state format_int current_time current_state_get_handler =
    current_state_get_handler (cat "initial-current-state-" (format_int current_time)) current_time
