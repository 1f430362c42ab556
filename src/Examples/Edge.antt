-- ===== src/Examples/Edge.antt =====
-- The client of the cloud with an edge that gives it two configurations.
use update_manager.Base.{◌≡◌, refl, String, true, false, [], none, some, returns, string_eq}
use update_manager.Things.Feature.{
  NamespacedId, UpdateManagerFeature, new_update_manager_feature, activate, deactivate,
}
use update_manager.Mqtt.Clients.{ended}
use update_manager.Mqtt.Edge.{
  EdgeConfiguration, ThingsClient, new_update_agent_things_client, start, on_connect, is_applied,
  created, give_up, connect_ditto, handle_edge_response, connect_handler,
}
use update_manager.Mqtt.Edge.Switching.{
  starts, connects, responds, opens, Reach, fresh, then_step, opened, OneOpen, Reach-OneOpen,
  handle_edge_response-unconnected,
}

abbrev thing_id : String → NamespacedId
thing_id device = record { namespace = "edge"; name = device }

abbrev first : EdgeConfiguration
first = record { device_id = "a"; tenant_id = "t"; policy_id = "p" }

abbrev second : EdgeConfiguration
second = record { device_id = "b"; tenant_id = "t"; policy_id = "p" }

-- Connected, configured with the first configuration, and the feature activated.
configured : (c : ThingsClient) × Reach thing_id "device" c × (c.edge_config ≡ some first)
unfolding new_update_agent_things_client start on_connect handle_edge_response is_applied
    connect_ditto give_up connect_handler new_update_manager_feature activate
configured = (
  _,
  then_step
      (then_step (then_step (then_step fresh (starts (ended false))) (connects (ended false)))
        (responds (some first) (created false) refl))
      (opens none refl),
  refl,
)

-- The switch to the second configuration, with a Ditto client that cannot connect.
switched :
    (t : ThingsClient) × (handle_edge_response thing_id (some second) (created true) configured.0
      ≡ returns t)
unfolding new_update_agent_things_client start on_connect handle_edge_response is_applied
    connect_ditto give_up connect_handler new_update_manager_feature activate configured deactivate
switched = (_, refl)

second_differs : is_applied second (some first) ≡ false
unfolding is_applied
second_differs = refl

Reach-OneOpen_example : OneOpen switched.0
Reach-OneOpen_example =
    Reach-OneOpen thing_id "device" switched.0
      (then_step configured.1 (responds (some second) (created true) switched.1))

handle_edge_response-unconnected_example :
    (handle_edge_response thing_id (some first) (created false) switched.0 ≡ returns switched.0)
    × (opened switched.0.calls ≡ [])
    × ((um : UpdateManagerFeature) → switched.0.um_feature ≡ some um → um.active ≡ false)
handle_edge_response-unconnected_example =
    handle_edge_response-unconnected thing_id "device" first second (created false) configured.0
      switched.0 configured.1 configured.2 second_differs switched.1
