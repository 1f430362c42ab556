-- ===== src/Mqtt/Edge/Switching.antt =====
-- What the client of the cloud keeps over any sequence of calls about its Ditto clients, and a response that
-- leaves it without a connection.
use update_manager.Base.{
  ℕ, String, true, false, ◌≡◌, ◌≢◌, eq_iff, subst, ap, ◌∙◌, >>=-eq-returns, Bool-cases, ◌⊎◌, inl,
  inr, not, ◌==◌, Option, none, some, List, [], ◌∷◌, string_eq, returns, ◌>>=◌, arith, keep, nat_eq,
  Option-cases,
}
use update_manager.Things.Feature.{NamespacedId, UpdateManagerFeature, new_update_manager_feature}
use update_manager.Mqtt.Clients.{Token, late, ended}
use update_manager.Mqtt.Edge.{
  EdgeConfiguration, EdgeEffect, ditto_connect, ditto_disconnect, ThingsClient,
  new_update_agent_things_client, start, is_applied, Ditto, not_created, created, give_up,
  connect_ditto, handle_edge_response, connect_handler, stop, on_connect, with_feature,
}

-- The calls of the client. The Ditto library may call the handler of a connection at any time.
pub data Step (thing_id : String → NamespacedId) (c : ThingsClient) : ThingsClient → Type 0 where
  starts : (token : Token) → Step thing_id c (start token c).0
  stops : Step thing_id c (stop c)
  connects : (token : Token) → Step thing_id c (on_connect token c)
  responds :
      {c' : ThingsClient}
      → (payload : Option EdgeConfiguration) → (ditto : Ditto)
      → handle_edge_response thing_id payload ditto c ≡ returns c'
      → Step thing_id c c'
  opens :
      {c' : ThingsClient}
      → (result : Option String) → connect_handler result c ≡ returns c'
      → Step thing_id c c'
  uses :
      {c' : ThingsClient} {result : Option String}
      → (send : UpdateManagerFeature → UpdateManagerFeature × Option String)
      → ((um : UpdateManagerFeature) → (send um).0.active ≡ um.active)
      → with_feature send c ≡ returns (c', result)
      → Step thing_id c c'

pub data Reach (thing_id : String → NamespacedId) (domain : String) : ThingsClient → Type 0 where
  fresh : Reach thing_id domain (new_update_agent_things_client domain)
  then_step :
      {c c' : ThingsClient}
      → Reach thing_id domain c
      → Step thing_id c c'
      → Reach thing_id domain c'

-- The Ditto clients that are connected after a sequence of calls.
unfoldable pub opened : List EdgeEffect → List ℕ
opened [] = []
opened (ditto_connect k ∷ es) = k ∷ opened es
opened (ditto_disconnect k ∷ es) = keep (λ j. not (j == k)) (opened es)
opened (_ ∷ es) = opened es

abbrev pub OneOpen : ThingsClient → Type 0
OneOpen c =
    (opened c.calls ≡ [])
    ⊎ ((k : ℕ) × (c.ditto_client ≡ some k) × (opened c.calls ≡ k ∷ []) × (c.edge_config ≢ none))

keep-one : (k : ℕ) → keep (λ j. not (j == k)) (k ∷ []) ≡ []
keep-one k = ground (arith, nat_eq.agrees k k)

-- After a disconnection of the current Ditto client none is connected.
is_applied_refl : (a : EdgeConfiguration) → is_applied a (some a) ≡ true
unfolding is_applied
is_applied_refl a = ground (
  arith,
  eq_iff a.device_id a.device_id,
  eq_iff a.tenant_id a.tenant_id,
  eq_iff a.policy_id a.policy_id,
)

disconnect-opened :
    (c : ThingsClient) (k : ℕ)
    → OneOpen c
    → c.ditto_client ≡ some k
    → opened (ditto_disconnect k ∷ c.calls) ≡ []
unfolding opened
disconnect-opened c k (inl e) d = ground (arith)
disconnect-opened c k (inr (j, e, o, n)) d = ground (arith, keep-one k)

give_up-opened : (c t : ThingsClient) → OneOpen c → give_up c ≡ returns t → opened t.calls ≡ []
unfolding give_up
give_up-opened c t o e = grind (arith, disconnect-opened c)

connect_ditto-OneOpen :
    (thing_id : String → NamespacedId) (cfg : EdgeConfiguration) (ditto : Ditto) (c : ThingsClient)
    → opened c.calls ≡ []
    → OneOpen (connect_ditto thing_id cfg ditto c)
unfolding connect_ditto opened new_update_manager_feature
connect_ditto-OneOpen thing_id cfg not_created c o = inl o
connect_ditto-OneOpen thing_id cfg (created false) c o = ground arith
connect_ditto-OneOpen thing_id cfg (created true) c o = ground arith

-- A response with another configuration: the former one is given up, and the new one is connected.
respond-switches :
    (thing_id : String → NamespacedId) (cfg : EdgeConfiguration) (ditto : Ditto)
    (c c' : ThingsClient)
    → OneOpen c
    → is_applied cfg c.edge_config ≡ false
    → handle_edge_response thing_id (some cfg) ditto c ≡ returns c'
    → (t : ThingsClient) × (opened t.calls ≡ [])
      × (give_up c ≡ returns t)
      × (connect_ditto thing_id cfg ditto t ≡ c')
unfolding handle_edge_response
respond-switches thing_id cfg ditto c c' k other e =
    let e' : (give_up c >>= λ t. returns (connect_ditto thing_id cfg ditto t)) ≡ returns c' =
      ground arith in
    let (t, given, made) =
      >>=-eq-returns (give_up c) (λ t. returns (connect_ditto thing_id cfg ditto t)) e' in
    (t, give_up-opened c t k given, given, ground arith)

respond-applied :
    (thing_id : String → NamespacedId) (a : EdgeConfiguration) (ditto : Ditto) (c : ThingsClient)
    → c.edge_config ≡ some a
    → handle_edge_response thing_id (some a) ditto c ≡ returns c
unfolding handle_edge_response
respond-applied thing_id a ditto c e =
    let same : is_applied a c.edge_config ≡ true = ap (is_applied a) e ∙ is_applied_refl a in
    ground arith

respond-OneOpen :
    (thing_id : String → NamespacedId) (cfg : EdgeConfiguration) (ditto : Ditto)
    (c c' : ThingsClient)
    → OneOpen c
    → handle_edge_response thing_id (some cfg) ditto c ≡ returns c'
    → OneOpen c'
unfolding handle_edge_response
respond-OneOpen thing_id cfg ditto c c' k e = elim (Bool-cases (is_applied cfg c.edge_config)) [
  | inl same ↦ ground arith
  | inr other ↦
      let (t, g, given, made) = respond-switches thing_id cfg ditto c c' k other e in
      subst OneOpen made (connect_ditto-OneOpen thing_id cfg ditto t g)
]

step-OneOpen :
    (thing_id : String → NamespacedId) (c c' : ThingsClient)
    → OneOpen c
    → Step thing_id c c'
    → OneOpen c'
unfolding start stop on_connect handle_edge_response connect_handler with_feature opened
step-OneOpen thing_id c c' o (starts token) = o
step-OneOpen thing_id c c' o stops = grind (arith, disconnect-opened c)
step-OneOpen thing_id c c' o (connects late) = o
step-OneOpen thing_id c c' o (connects (ended err)) = ground arith
step-OneOpen thing_id c c' o (responds none ditto e) = ground arith
step-OneOpen thing_id c c' o (responds (some cfg) ditto e) =
    respond-OneOpen thing_id cfg ditto c c' o e
step-OneOpen thing_id c c' o (opens result e) = ground arith
step-OneOpen thing_id c c' o (uses {result = result} send same e) =
    elim (Option-cases c.um_feature) [
      | inl none_yet ↦ ground arith
      | inr (um, p) ↦ ground (arith, same um)
    ]

-- Whatever the broker, the edge, the Ditto library and the uses of the feature do: no Ditto client is
-- connected, or only the current one and a configuration is applied.
pub Reach-OneOpen :
    (thing_id : String → NamespacedId) (domain : String) (c : ThingsClient)
    → Reach thing_id domain c
    → OneOpen c
unfolding new_update_agent_things_client opened
Reach-OneOpen thing_id domain c fresh = ground arith
Reach-OneOpen thing_id domain c (then_step {c = b} r s) =
    step-OneOpen thing_id b c (Reach-OneOpen thing_id domain b r) s

-- Where a configuration is applied, another one comes and the new Ditto client cannot connect, a
-- response with the former configuration changes nothing from then on: no Ditto client is connected and
-- the feature is inactive.
pub handle_edge_response-unconnected :
    (thing_id : String → NamespacedId) (domain : String) (a b : EdgeConfiguration) (ditto : Ditto)
    (c t : ThingsClient)
    → Reach thing_id domain c
    → c.edge_config ≡ some a
    → is_applied b (some a) ≡ false
    → handle_edge_response thing_id (some b) (created true) c ≡ returns t
    → (handle_edge_response thing_id (some a) ditto t ≡ returns t)
      × (opened t.calls ≡ [])
      × ((um : UpdateManagerFeature) → t.um_feature ≡ some um → um.active ≡ false)
unfolding handle_edge_response connect_ditto new_update_manager_feature give_up
handle_edge_response-unconnected thing_id domain a b ditto c t r applied differ e =
    let kept = Reach-OneOpen thing_id domain c r in
    let (u, g, given, made) =
      respond-switches thing_id b (created true) c t kept (rw applied differ) e in
    let same : t.edge_config ≡ some a = ground arith in
    (respond-applied thing_id a ditto t same, ground arith, λ um i. ground arith)
