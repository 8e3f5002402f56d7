-- ===== src/Grpc/Conversions.antt =====
-- src/grpc/conversions.rs: the configuration as messages, and back.
-- The formats of chrono and serde_json are the record `Codec`. The source gives a `PluginScope` to a
-- field that is a text, so that its text form is part of `Codec`, too. The clock is read once.
pub mod Fields
pub mod Reading
pub mod RoundTrip
pub mod Unprotected
use ferrumgw.Common.{
  ℕ, String, Bytes, Bool, List, [], map, Option, none, some, Result, ok, err, ◌>>=◌, ◌==◌, ◌%◌, ◌^◌,
  if◌then◌else◌, string_eq, bytes_eq, nat_eq,
}
use ferrumgw.Config.{
  BackendProtocol, AuthMode, PluginScope, Proxy, Consumer, PluginConfig, Configuration,
}
use ferrumgw.Grpc.Messages.{
  ProtoProtocol, ProtoAuthMode, ProtoProxy, ProtoConsumer, ProtoPluginConfig, Entities,
}

pub record Codec (Error : Type 0) : Type 0 where
  pub to_rfc3339 : ℕ → String
  pub parse_from_rfc3339 : String → Result Error ℕ
  pub credentials_to_string : List (String × String) → Result Error String
  pub credentials_from_str : String → Result Error (List (String × String))
  pub config_to_string : String → Result Error String
  pub config_from_str : String → Result Error String
  pub scope_to_text : PluginScope → String
  pub scope_of_text : String → PluginScope

abbrev pub protocol_to_proto : BackendProtocol → ProtoProtocol
protocol_to_proto BackendProtocol.http = ProtoProtocol.http
protocol_to_proto BackendProtocol.https = ProtoProtocol.https
protocol_to_proto BackendProtocol.ws = ProtoProtocol.ws
protocol_to_proto BackendProtocol.wss = ProtoProtocol.wss
protocol_to_proto BackendProtocol.grpc = ProtoProtocol.grpc

abbrev pub protocol_of_proto : ProtoProtocol → BackendProtocol
protocol_of_proto ProtoProtocol.http = BackendProtocol.http
protocol_of_proto ProtoProtocol.https = BackendProtocol.https
protocol_of_proto ProtoProtocol.ws = BackendProtocol.ws
protocol_of_proto ProtoProtocol.wss = BackendProtocol.wss
protocol_of_proto ProtoProtocol.grpc = BackendProtocol.grpc

abbrev pub auth_mode_to_proto : AuthMode → ProtoAuthMode
auth_mode_to_proto AuthMode.single = ProtoAuthMode.single
auth_mode_to_proto AuthMode.multi = ProtoAuthMode.multi

abbrev pub auth_mode_of_proto : ProtoAuthMode → AuthMode
auth_mode_of_proto ProtoAuthMode.single = AuthMode.single
auth_mode_of_proto ProtoAuthMode.multi = AuthMode.multi

-- `unwrap_or_default()`
abbrev pub unwrap_or {ℓ} : {A : Type ℓ} → A → Option A → A
unwrap_or d none = d
unwrap_or d (some a) = a

abbrev pub text_or_none : String → Option String
text_or_none s = if s == "" then none else some s

abbrev pub bytes_or_none : Bytes → Option Bytes
bytes_or_none s = if s == [] then none else some s

abbrev pub ttl_or_none : ℕ → Option ℕ
ttl_or_none n = if n == 0 then none else some n

-- A cast to `u16`.
abbrev pub as_u16 : ℕ → ℕ
as_u16 n = n % 2 ^ 16

module _ {Error : Type 0} (codec : Codec Error) where
  -- `unwrap_or_else(|_| "{}".to_string())`
  abbrev pub or_braces : Result Error String → String
  or_braces (ok s) = s
  or_braces (err e) = "{}"

  -- `ProtoProxy::from`
  unfoldable pub proxy_to_proto : Proxy → ProtoProxy
  proxy_to_proto proxy = record {
    id = proxy.id;
    name = unwrap_or "" proxy.name;
    listen_path = proxy.listen_path;
    backend_protocol = protocol_to_proto proxy.backend_protocol;
    backend_host = proxy.backend_host;
    backend_port = proxy.backend_port;
    backend_path = unwrap_or [] proxy.backend_path;
    strip_listen_path = proxy.strip_listen_path;
    preserve_host_header = proxy.preserve_host_header;
    backend_connect_timeout_ms = proxy.backend_connect_timeout_ms;
    backend_read_timeout_ms = proxy.backend_read_timeout_ms;
    backend_write_timeout_ms = proxy.backend_write_timeout_ms;
    backend_tls_client_cert_path = unwrap_or "" proxy.backend_tls_client_cert_path;
    backend_tls_client_key_path = unwrap_or "" proxy.backend_tls_client_key_path;
    backend_tls_verify_server_cert = proxy.backend_tls_verify_server_cert;
    backend_tls_server_ca_cert_path = unwrap_or "" proxy.backend_tls_server_ca_cert_path;
    dns_override = unwrap_or "" proxy.dns_override;
    dns_cache_ttl_seconds = unwrap_or 0 proxy.dns_cache_ttl_seconds;
    auth_mode = auth_mode_to_proto proxy.auth_mode;
    plugin_config_ids = map (λ p. p.plugin_config_id) proxy.plugins;
    created_at = codec.to_rfc3339 proxy.created_at;
    updated_at = codec.to_rfc3339 proxy.updated_at;
  }

  -- `ProtoConsumer::from`
  unfoldable pub consumer_to_proto : Consumer → ProtoConsumer
  consumer_to_proto consumer = record {
    id = consumer.id;
    username = consumer.username;
    custom_id = unwrap_or "" consumer.custom_id;
    credentials = or_braces (codec.credentials_to_string consumer.credentials);
    created_at = codec.to_rfc3339 consumer.created_at;
    updated_at = codec.to_rfc3339 consumer.updated_at;
  }

  -- `ProtoPluginConfig::from`
  unfoldable pub plugin_config_to_proto : PluginConfig → ProtoPluginConfig
  plugin_config_to_proto plugin_config = record {
    id = plugin_config.id;
    plugin_name = plugin_config.plugin_name;
    config = or_braces (codec.config_to_string plugin_config.config);
    scope = codec.scope_to_text plugin_config.scope;
    proxy_id = unwrap_or "" plugin_config.proxy_id;
    enabled = plugin_config.enabled;
    created_at = codec.to_rfc3339 plugin_config.created_at;
    updated_at = codec.to_rfc3339 plugin_config.updated_at;
  }

  -- The lists of `ConfigSnapshot::from`.
  unfoldable pub entities_of : Configuration → Entities
  entities_of config = record {
    proxies = map proxy_to_proto config.proxies;
    consumers = map consumer_to_proto config.consumers;
    plugin_configs = map plugin_config_to_proto config.plugin_configs;
  }
