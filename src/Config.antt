-- ===== src/Config.antt =====
-- src/config/data_model.rs: the configuration that the gateway serves.
-- A `DateTime<Utc>` is its number of milliseconds; a `serde_json::Value` is its serialised text,
-- since nothing that is modelled reads inside one. Paths are byte strings (Common/Bytes).
pub mod Env
pub mod File
pub mod Delta
pub mod Paths
use ferrumgw.Common.{ℕ, String, Bytes, Bool, List, [], Option}

pub data DatabaseType : Type 0 where
  postgres my_sql sqlite : DatabaseType

pub data BackendProtocol : Type 0 where
  http https ws wss grpc : BackendProtocol

pub data AuthMode : Type 0 where
  single multi : AuthMode

pub data PluginScope : Type 0 where
  global proxy : PluginScope

pub record PluginAssociation : Type 0 where
  pub plugin_config_id : String
  pub embedded_config : Option String

pub record Proxy : Type 0 where
  pub id : String
  pub name : Option String
  pub listen_path : Bytes
  pub backend_protocol : BackendProtocol
  pub backend_host : String
  pub backend_port : ℕ
  pub backend_path : Option Bytes
  pub strip_listen_path : Bool
  pub preserve_host_header : Bool
  pub backend_connect_timeout_ms : ℕ
  pub backend_read_timeout_ms : ℕ
  pub backend_write_timeout_ms : ℕ
  pub backend_tls_client_cert_path : Option String
  pub backend_tls_client_key_path : Option String
  pub backend_tls_verify_server_cert : Bool
  pub backend_tls_server_ca_cert_path : Option String
  pub dns_override : Option String
  pub dns_cache_ttl_seconds : Option ℕ
  pub auth_mode : AuthMode
  pub plugins : List PluginAssociation
  pub created_at : ℕ
  pub updated_at : ℕ

pub record Consumer : Type 0 where
  pub id : String
  pub username : String
  pub custom_id : Option String
  pub credentials : List (String × String)
  pub created_at : ℕ
  pub updated_at : ℕ

pub record PluginConfig : Type 0 where
  pub id : String
  pub plugin_name : String
  pub config : String
  pub scope : PluginScope
  pub proxy_id : Option String
  pub enabled : Bool
  pub created_at : ℕ
  pub updated_at : ℕ

pub record Configuration : Type 0 where
  pub proxies : List Proxy
  pub consumers : List Consumer
  pub plugin_configs : List PluginConfig
  pub last_updated_at : ℕ

-- `Configuration::default()`, at the time `now`.
abbrev pub default_configuration : ℕ → Configuration
default_configuration now = record {
  proxies = [];
  consumers = [];
  plugin_configs = [];
  last_updated_at = now;
}
