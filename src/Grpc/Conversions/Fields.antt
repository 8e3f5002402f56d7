-- ===== src/Grpc/Conversions/Fields.antt =====
-- Which fields of the configuration a message can express, and that these are read back.
use ferrumgw.Common.{
  ℕ, String, Bytes, ◌≡◌, ◌<◌, refl, false, List, [], Option, none, some, Result, ok, arith, ◌==◌,
  string_eq, bytes_eq, nat_eq, find, All,
}
use ferrumgw.Config.{
  BackendProtocol, AuthMode, PluginScope, PluginAssociation, Proxy, Consumer, PluginConfig,
  Configuration,
}
use ferrumgw.Grpc.Conversions.{
  Codec, unwrap_or, text_or_none, bytes_or_none, ttl_or_none, as_u16, protocol_to_proto,
  protocol_of_proto, auth_mode_to_proto, auth_mode_of_proto,
}

-- An optional text that is not the empty one.
abbrev pub IsText : Option String → Type 0
IsText none = Unit
IsText (some s) = (s == "") ≡ false

abbrev pub IsPath : Option Bytes → Type 0
IsPath none = Unit
IsPath (some s) = (s == []) ≡ false

abbrev pub IsTtl : Option ℕ → Type 0
IsTtl none = Unit
IsTtl (some n) = (n == 0) ≡ false

pub text_lem : (o : Option String) → IsText o → text_or_none (unwrap_or "" o) ≡ o
text_lem none h = refl
text_lem (some s) h = rw h refl

pub path_lem : (o : Option Bytes) → IsPath o → bytes_or_none (unwrap_or [] o) ≡ o
path_lem none h = refl
path_lem (some s) h = rw h refl

pub ttl_lem : (o : Option ℕ) → IsTtl o → ttl_or_none (unwrap_or 0 o) ≡ o
ttl_lem none h = refl
ttl_lem (some n) h = rw h refl

pub port_lem : (n : ℕ) → n < 65536 → as_u16 n ≡ n
port_lem n h = omega arith

pub protocol_lem : (p : BackendProtocol) → protocol_of_proto (protocol_to_proto p) ≡ p
protocol_lem BackendProtocol.http = refl
protocol_lem BackendProtocol.https = refl
protocol_lem BackendProtocol.ws = refl
protocol_lem BackendProtocol.wss = refl
protocol_lem BackendProtocol.grpc = refl

pub auth_mode_lem : (m : AuthMode) → auth_mode_of_proto (auth_mode_to_proto m) ≡ m
auth_mode_lem AuthMode.single = refl
auth_mode_lem AuthMode.multi = refl

-- The association names a known plugin configuration and has no configuration of its own.
abbrev pub IsLinked : List PluginConfig → PluginAssociation → Type 0
IsLinked known a =
    (a.embedded_config ≡ none)
    × (pc : PluginConfig) × (find (λ pc. pc.id == a.plugin_config_id) known ≡ some pc)

pub record IsExpressible (proxy : Proxy) : Type 0 where
  pub name : IsText proxy.name
  pub backend_port : proxy.backend_port < 65536
  pub backend_path : IsPath proxy.backend_path
  pub client_cert : IsText proxy.backend_tls_client_cert_path
  pub client_key : IsText proxy.backend_tls_client_key_path
  pub server_ca_cert : IsText proxy.backend_tls_server_ca_cert_path
  pub dns_override : IsText proxy.dns_override
  pub dns_cache_ttl : IsTtl proxy.dns_cache_ttl_seconds

-- What the gateway relies on in chrono, and in the text form of a scope.
pub record CodecLaws {Error : Type 0} (codec : Codec Error) : Type 0 where
  pub parse-to_rfc3339 : (t : ℕ) → codec.parse_from_rfc3339 (codec.to_rfc3339 t) ≡ ok t
  pub to_rfc3339-filled : (t : ℕ) → (codec.to_rfc3339 t == "") ≡ false
  pub scope_of-to_text : (s : PluginScope) → codec.scope_of_text (codec.scope_to_text s) ≡ s

-- The value has a text, which is not empty and from which it is read again.
abbrev pub IsReadBack :
    {Error A : Type 0} → (A → Result Error String) → (String → Result Error A) → A → Type 0
IsReadBack write read a = (s : String) × (write a ≡ ok s) × ((s == "") ≡ false) × (read s ≡ ok a)

module _ {Error : Type 0} (codec : Codec Error) where
  abbrev pub IsSentConsumer : Consumer → Type 0
  IsSentConsumer consumer =
      IsText consumer.custom_id
      × IsReadBack codec.credentials_to_string codec.credentials_from_str consumer.credentials

  abbrev pub IsSentPlugin : PluginConfig → Type 0
  IsSentPlugin pc =
      IsText pc.proxy_id × IsReadBack codec.config_to_string codec.config_from_str pc.config

abbrev pub IsSentProxy : List PluginConfig → Proxy → Type 0
IsSentProxy known proxy = IsExpressible proxy × All (IsLinked known) proxy.plugins

-- The configuration can be expressed in messages.
abbrev pub IsSent : {Error : Type 0} → Codec Error → Configuration → Type 0
IsSent codec config =
    All (IsSentProxy config.plugin_configs) config.proxies
    × All (IsSentConsumer codec) config.consumers
    × All (IsSentPlugin codec) config.plugin_configs
