-- ===== src/Examples/Connecting.antt =====
-- A client that is made for a broker with a secure scheme.
use update_manager.Base.{String, false, ◌≡◌, refl, ◌⊎◌, inr, Option, some, [], ◌∷◌, ℤ, pos}
use update_manager.Mqtt.Clients.{is_connection_secure}
use update_manager.Mqtt.Subscriber.{ConnectionConfig, new_default_config, secured}
use update_manager.Mqtt.Opening.{
  Certificates, TlsConfig, new_tls_config, new_own_client, IsStrict, new_own_client-IsStrict,
}

abbrev certificates : Certificates String String String
certificates = record {
  read_file = λ file. some file;
  pool_of = λ bytes. some bytes;
  load_pair = λ cert key. some key;
  cipher_suites = (4865, "TLS_AES_128_GCM_SHA256") ∷ [];
}

abbrev parse : String → Option ℤ
parse s = some (pos 20)

abbrev scheme : String → Option String
scheme broker = some "tls"

abbrev topic : String → String
topic domain = "deviceupdate"

abbrev config : ConnectionConfig
config = record new_default_config {
  broker = "tls://broker:8883";
  ca_cert = "ca.pem";
  cert = "client.pem";
  key = "client.key";
}

new_own_client-IsStrict_example :
    ((new_own_client certificates parse scheme topic "device" config).0.has_paho_client ≡ false)
    ⊎ (((new_own_client certificates parse scheme topic "device" config).1 ≡ secured)
        × ((t : TlsConfig String String) × (new_tls_config certificates "ca.pem" "client.pem"
                "client.key"
              ≡ inr t)
            × IsStrict certificates "ca.pem" "client.pem" "client.key" t))
unfolding is_connection_secure
new_own_client-IsStrict_example =
    new_own_client-IsStrict certificates parse scheme topic "device" config "tls" refl refl
