-- ===== src/Mqtt/Edge.antt =====
-- update_agent_things_client.go and owner_consent_things_client.go: the agent's client that reaches the
-- cloud with the update manager feature once the edge gives it a configuration. JSON, the Ditto client
-- and the tokens of the MQTT library come as arguments. A Ditto client is known by its number.
pub mod Switching
use update_manager.Base.{
  ℕ, suc, String, Bool, true, false, ◌==◌, ◌&&◌, Option, none, some, List, [], ◌∷◌, ℤ, string_eq,
  if◌then◌else◌, Outcome, returns, panics, ◌>>=◌,
}
use mathlib.Core.Option
use update_manager.Types.{Inventory, DesiredStateFeedback, OwnerConsent}
use update_manager.Things.Feature.{
  NamespacedId, UpdateManagerFeature, new_update_manager_feature, activate, deactivate, set_state,
  issue_feedback, issue_consent, set_consent_handler,
}
use update_manager.Mqtt.Clients.{Token, late, ended}

pub record EdgeConfiguration : Type 0 where
  pub device_id : String
  pub tenant_id : String
  pub policy_id : String

-- Calls of the Ditto and the MQTT library, and the goroutine of getAndPublishCurrentState.
pub data EdgeEffect : Type 0 where
  ditto_connect ditto_disconnect : ℕ → EdgeEffect
  edge_subscribe edge_unsubscribe edge_request : EdgeEffect
  broker_connect broker_disconnect : EdgeEffect
  publish_current_state : EdgeEffect

-- `handler` says whether there is one. `made` counts the Ditto clients, `retired` keeps the features
-- that others have replaced, and `calls` is what the client has done, the newest call first.
pub record ThingsClient : Type 0 where
  pub domain : String
  pub handler : Bool
  pub edge_config : Option EdgeConfiguration
  pub ditto_client : Option ℕ
  pub um_feature : Option UpdateManagerFeature
  pub made : ℕ
  pub retired : List UpdateManagerFeature
  pub calls : List EdgeEffect

unfoldable pub new_update_agent_things_client : String → ThingsClient
new_update_agent_things_client domain = record {
  domain = domain;
  handler = false;
  edge_config = none;
  ditto_client = none;
  um_feature = none;
  made = 0;
  retired = [];
  calls = [];
}

abbrev pub call : EdgeEffect → ThingsClient → ThingsClient
call e client = record client { calls = e ∷ client.calls }

abbrev pub is_late : Token → Bool
is_late late = true
is_late (ended err) = false

-- token.Error() of a token, also of one that has not ended.
abbrev pub has_error : Token → Bool
has_error late = false
has_error (ended err) = err

-- The result says whether there is an error.
unfoldable pub start : Token → ThingsClient → ThingsClient × Bool
start token client = (
  call broker_connect (record client { handler = true }),
  if is_late token then true else has_error token,
)

-- `*localCfg != *client.edgeConfig` negated, where there is one.
unfoldable pub is_applied : EdgeConfiguration → Option EdgeConfiguration → Bool
is_applied local_cfg none = false
is_applied local_cfg (some cfg) =
    local_cfg.device_id == cfg.device_id
    && local_cfg.tenant_id == cfg.tenant_id
    && local_cfg.policy_id == cfg.policy_id

-- What the Ditto library comes to: no client, or a client and whether its Connect has an error.
pub data Ditto : Type 0 where
  not_created : Ditto
  created : Bool → Ditto

-- Where a configuration has been applied, its feature and its Ditto client are given up. A nil feature
-- or a nil client is dereferenced.
unfoldable pub give_up : ThingsClient → Outcome ThingsClient
give_up client = elim client.edge_config [
  | none ↦ returns client
  | some cfg ↦ elim client.um_feature [
    | none ↦ panics
    | some um ↦ elim client.ditto_client [
      | none ↦ panics
      | some k ↦
          returns (call (ditto_disconnect k) (record client { um_feature = some (deactivate um) }))
    ]
  ]
]

abbrev pub replaced :
    Option UpdateManagerFeature → List UpdateManagerFeature → List UpdateManagerFeature
replaced none retired = retired
replaced (some um) retired = um ∷ retired

-- `thing_id` is model.NewNamespacedIDFrom. A client that is not created is nil.
unfoldable pub connect_ditto :
    (String → NamespacedId) → EdgeConfiguration → Ditto → ThingsClient → ThingsClient
connect_ditto thing_id local_cfg not_created client = record client { ditto_client = none }
connect_ditto thing_id local_cfg (created err) client =
    let feature = new_update_manager_feature client.domain (thing_id local_cfg.device_id) in
    let t = record client {
      ditto_client = some client.made;
      made = suc client.made;
      um_feature = some feature;
      retired = replaced client.um_feature client.retired;
    } in
    if err then t else call (ditto_connect client.made) (record t { edge_config = some local_cfg })

-- The payload is `none` where it cannot be parsed.
unfoldable pub handle_edge_response :
    (String → NamespacedId) → Option EdgeConfiguration → Ditto → ThingsClient → Outcome ThingsClient
handle_edge_response thing_id none ditto client = returns client
handle_edge_response thing_id (some local_cfg) ditto client =
    if is_applied local_cfg client.edge_config
    then returns client
    else (give_up client >>= λ t. returns (connect_ditto thing_id local_cfg ditto t))

-- The handler of a Ditto connection. It reads the feature when it runs; `result` is the error of Send.
unfoldable pub connect_handler : Option String → ThingsClient → Outcome ThingsClient
connect_handler result client = elim client.um_feature [
  | none ↦ panics
  | some um ↦
      let (t, err) = activate result um in
      let c = record client { um_feature = some t } in
      elim err [ some e ↦ returns c | none ↦ returns (call publish_current_state c) ]
]

unfoldable pub stop : ThingsClient → ThingsClient
stop client =
    let c = call edge_unsubscribe client in
    let c = record c { um_feature = Option.map deactivate c.um_feature } in
    let c : ThingsClient = elim c.ditto_client [
      | none ↦ c
      | some k ↦ call (ditto_disconnect k) c
    ] in
    record (call broker_disconnect c) { handler = false }

-- The edge is asked for its configuration where the subscription has no error.
unfoldable pub on_connect : Token → ThingsClient → ThingsClient
on_connect token client =
    let c = call edge_subscribe client in
    if is_late token then c else if has_error token then c else call edge_request c

-- The sends of the client: those of its feature, where there is one.
unfoldable pub with_feature :
    (UpdateManagerFeature → UpdateManagerFeature × Option String)
    → ThingsClient
    → Outcome (ThingsClient × Option String)
with_feature send client = elim client.um_feature [
  | none ↦ panics
  | some um ↦ let (t, err) = send um in returns (record client { um_feature = some t }, err)
]

unfoldable pub send_current_state :
    Option String
    → ℤ
    → String
    → Option Inventory
    → ThingsClient
    → Outcome (ThingsClient × Option String)
send_current_state result now activity_id current_state =
    with_feature (set_state result now activity_id current_state)

unfoldable pub send_desired_state_feedback :
    Option String
    → ℤ
    → String
    → DesiredStateFeedback
    → ThingsClient
    → Outcome (ThingsClient × Option String)
send_desired_state_feedback result now activity_id f =
    with_feature (issue_feedback result now activity_id f)

-- SendOwnerConsent of the owner consent client, which shares the agent's client.
unfoldable pub send_owner_consent :
    Option String
    → ℤ
    → String
    → String
    → OwnerConsent
    → ThingsClient
    → Outcome (ThingsClient × Option String)
send_owner_consent result now uuid activity_id c =
    with_feature (issue_consent result now uuid activity_id c)

-- Start and Stop of the owner consent client, with a handler and without.
unfoldable pub start_or_stop_consent : Bool → ThingsClient → Outcome (ThingsClient × Option String)
start_or_stop_consent handler = with_feature (λ um. (set_consent_handler handler um, none))
