-- ===== src/Mqtt/Opening.antt =====
-- util/tls/tls_config.go, and the constructors of update_agent_client.go and owner_consent_agent_client .go, whose
-- connections may need it. The files, x509 and the list of cipher suites of crypto/tls come as arguments.
use update_manager.Base.{
  ℕ, String, Bool, true, false, ◌≡◌, refl, ◌∙◌, sym, ap, ◌==◌, ◌&&◌, ◌⊎◌, inl, inr, Option, none,
  some, List, [], ◌∷◌, ℤ, string_eq, if◌then◌else◌, arith, eq_iff, Option-cases, Bool-cases,
}
use update_manager.Mqtt.Clients.{MqttClient, new_internal_client, is_connection_secure}
use update_manager.Mqtt.Subscriber.{
  ConnectionConfig, InternalConnectionConfig, new_internal_connection_config, NewClient, plain,
  secured, new_client,
}

-- os.ReadFile, AppendCertsFromPEM on a new pool, tls.LoadX509KeyPair, and tls.CipherSuites with the
-- numbers of the suites; `none` is an error.
pub record Certificates (Bytes Pool Pair : Type 0) : Type 0 where
  pub read_file : String → Option Bytes
  pub pool_of : Bytes → Option Pool
  pub load_pair : String → String → Option Pair
  pub cipher_suites : List (ℕ × String)

-- tls.VersionTLS12 and tls.VersionTLS13.
pub data Version : Type 0 where
  tls_12 tls_13 : Version

pub record TlsConfig (Pool Pair : Type 0) : Type 0 where
  pub insecure_skip_verify : Bool
  pub root_cas : Pool
  pub min_version : Version
  pub max_version : Version
  pub cipher_suites : List ℕ
  pub certificates : List Pair

pub data TlsError : Type 0 where
  no_root_file no_root no_pair : TlsError

unfoldable pub supported_cipher_suites : List (ℕ × String) → List ℕ
supported_cipher_suites [] = []
supported_cipher_suites ((id, name) ∷ cs) = id ∷ supported_cipher_suites cs

module _ {Bytes Pool Pair : Type 0} (c : Certificates Bytes Pool Pair) where
  base_config : Pool → TlsConfig Pool Pair
  base_config pool = record {
    insecure_skip_verify = false;
    root_cas = pool;
    min_version = tls_12;
    max_version = tls_13;
    cipher_suites = supported_cipher_suites c.cipher_suites;
    certificates = [];
  }

  -- The certificate of the client, where its file or that of its key is set.
  with_pair : String → String → TlsConfig Pool Pair → TlsError ⊎ TlsConfig Pool Pair
  with_pair cert key t = if cert == "" && key == "" then inr t else elim (c.load_pair cert key) [
    | none ↦ inl no_pair
    | some pair ↦ inr (record t { certificates = pair ∷ [] })
  ]

  unfoldable pub new_tls_config : String → String → String → TlsError ⊎ TlsConfig Pool Pair
  unfolding base_config with_pair
  new_tls_config root_cert cert key = elim (c.read_file root_cert) [
    | none ↦ inl no_root_file
    | some bytes ↦ elim (c.pool_of bytes) [
      | none ↦ inl no_root
      | some pool ↦ with_pair cert key (base_config pool)
    ]
  ]

abbrev pub has_config : {A B : Type 0} → A ⊎ B → Bool
has_config (inl e) = false
has_config (inr t) = true

-- A client with a connection of its own, before it is started: the client of the library is there
-- unless there was an error.
pub record OwnClient : Type 0 where
  pub mqtt_client : MqttClient
  pub domain : String
  pub has_paho_client : Bool

abbrev pub is_open : NewClient → Bool
is_open plain = true
is_open secured = true
is_open _ = false

module _ {Bytes Pool Pair : Type 0} (c : Certificates Bytes Pool Pair) (parse : String → Option ℤ)
    (scheme : String → Option String) (topic : String → String) where
  -- newClient with the configuration of util/tls.
  unfoldable pub open_client : InternalConnectionConfig → NewClient
  unfolding new_client
  open_client config =
      new_client scheme (has_config (new_tls_config c config.ca_cert config.cert config.key)) config

  -- NewUpdateAgentClient
  unfoldable pub new_own_client : String → ConnectionConfig → OwnClient × NewClient
  unfolding open_client new_internal_connection_config
  new_own_client domain config =
      let paho_client = open_client (new_internal_connection_config parse config) in
      (
        record {
          mqtt_client = new_internal_client (topic domain);
          domain = domain;
          has_paho_client = is_open paho_client;
        },
        paho_client,
      )

  -- NewOwnerConsentAgentClient, which does the same.
  abbrev pub new_owner_consent_agent_client : String → ConnectionConfig → OwnClient × NewClient
  new_owner_consent_agent_client = new_own_client

-- A configuration that verifies the broker by the root certificates of a file, and that has the client's
-- certificate where one is set.
pub record IsStrict {Bytes Pool Pair : Type 0} (c : Certificates Bytes Pool Pair)
    (root_cert cert key : String) (t : TlsConfig Pool Pair) : Type 0 where
  pub verifies : t.insecure_skip_verify ≡ false
  pub recent : t.min_version ≡ tls_12
  pub root :
      (bytes : Bytes) × (c.read_file root_cert ≡ some bytes) × (c.pool_of bytes ≡ some t.root_cas)
  pub client :
      ((cert ≡ "") × (key ≡ "") × (t.certificates ≡ []))
      ⊎ ((pair : Pair) × (c.load_pair cert key ≡ some pair) × (t.certificates ≡ pair ∷ []))

sum_cases : {A B : Type 0} (u : A ⊎ B) → ((a : A) × (u ≡ inl a)) ⊎ ((b : B) × (u ≡ inr b))
sum_cases (inl a) = inl (a, refl)
sum_cases (inr b) = inr (b, refl)

module _ {Bytes Pool Pair : Type 0} (c : Certificates Bytes Pool Pair) where
  with_pair-client :
      (cert key : String) (b t : TlsConfig Pool Pair)
      → b.certificates ≡ []
      → with_pair c cert key b ≡ inr t
      → ((cert ≡ "") × (key ≡ "") × (t.certificates ≡ []))
        ⊎ ((pair : Pair) × (c.load_pair cert key ≡ some pair) × (t.certificates ≡ pair ∷ []))
  unfolding with_pair
  with_pair-client cert key b t n e = elim (Bool-cases (cert == "" && key == "")) [
    | inl none_set ↦
        inl (ground (arith, eq_iff cert ""), ground (arith, eq_iff key ""), ground arith)
    | inr one_set ↦ elim (Option-cases (c.load_pair cert key)) [
      | inl f ↦ absurd (ground arith)
      | inr (pair, f) ↦ inr (pair, f, ground arith)
    ]
  ]

  with_pair-keeps :
      (cert key : String) (b t : TlsConfig Pool Pair)
      → with_pair c cert key b ≡ inr t
      → (t.insecure_skip_verify ≡ b.insecure_skip_verify)
        × (t.min_version ≡ b.min_version)
        × (t.root_cas ≡ b.root_cas)
  unfolding with_pair
  with_pair-keeps cert key b t e = (ground arith, ground arith, ground arith)

  new_tls_config-IsStrict :
      (root_cert cert key : String) (t : TlsConfig Pool Pair)
      → new_tls_config c root_cert cert key ≡ inr t
      → IsStrict c root_cert cert key t
  unfolding new_tls_config base_config
  new_tls_config-IsStrict root_cert cert key t e = elim (Option-cases (c.read_file root_cert)) [
    | inl f ↦ absurd (ground arith)
    | inr (bytes, f) ↦ elim (Option-cases (c.pool_of bytes)) [
      | inl g ↦ absurd (ground arith)
      | inr (pool, g) ↦
          let h : with_pair c cert key (base_config c pool) ≡ inr t = ground arith in
          let (verifies, recent, root) = with_pair-keeps cert key (base_config c pool) t h in
          record {
            verifies = verifies;
            recent = recent;
            root = (bytes, f, g ∙ ap some (sym root));
            client = with_pair-client cert key (base_config c pool) t refl h;
          }
    ]
  ]

module _ {Bytes Pool Pair : Type 0} (c : Certificates Bytes Pool Pair) (parse : String → Option ℤ)
    (scheme : String → Option String) (topic : String → String) where
  -- A client whose broker has a secure scheme is made without a connection, or its connection has a TLS
  -- configuration that verifies the broker by the certificates of the configured file, from TLS 1.2 on, and
  -- that has the client's certificate where a file of it or of its key is configured.
  pub new_own_client-IsStrict :
      (domain : String) (config : ConnectionConfig) (s : String)
      → scheme config.broker ≡ some s
      → is_connection_secure s ≡ true
      → ((new_own_client c parse scheme topic domain config).0.has_paho_client ≡ false)
        ⊎ (((new_own_client c parse scheme topic domain config).1 ≡ secured)
            × ((t : TlsConfig Pool Pair) × (new_tls_config c config.ca_cert config.cert config.key
                  ≡ inr t)
                × IsStrict c config.ca_cert config.cert config.key t))
  unfolding new_own_client open_client new_client new_internal_connection_config
  new_own_client-IsStrict domain config s e h =
      elim (sum_cases (new_tls_config c config.ca_cert config.cert config.key)) [
        | inl (failure, f) ↦ inl (ground arith)
        | inr (t, f) ↦ elim (Bool-cases (config.ca_cert == "")) [
          | inl no_file ↦ inl (ground arith)
          | inr file ↦ inr (
            ground arith,
            (t, f, new_tls_config-IsStrict c config.ca_cert config.cert config.key t f),
          )
        ]
      ]
