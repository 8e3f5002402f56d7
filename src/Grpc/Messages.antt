-- ===== src/Grpc/Messages.antt =====
-- src/grpc/proto/config.proto: the messages, as src/grpc/conversions.rs reads and builds them.
-- A text that holds a path is a byte string, as in Config. The field `consumer_id` of a plugin
-- configuration is left out, since the record `PluginConfig` of the gateway does not have it.
use ferrumgw.Common.{ℕ, String, Bytes, Bool, List}

pub data ProtoProtocol : Type 0 where
  http https ws wss grpc : ProtoProtocol

pub data ProtoAuthMode : Type 0 where
  single multi : ProtoAuthMode

pub record ProtoProxy : Type 0 where
  pub id : String
  pub name : String
  pub listen_path : Bytes
  pub backend_protocol : ProtoProtocol
  pub backend_host : String
  pub backend_port : ℕ
  pub backend_path : Bytes
  pub strip_listen_path : Bool
  pub preserve_host_header : Bool
  pub backend_connect_timeout_ms : ℕ
  pub backend_read_timeout_ms : ℕ
  pub backend_write_timeout_ms : ℕ
  pub backend_tls_client_cert_path : String
  pub backend_tls_client_key_path : String
  pub backend_tls_verify_server_cert : Bool
  pub backend_tls_server_ca_cert_path : String
  pub dns_override : String
  pub dns_cache_ttl_seconds : ℕ
  pub auth_mode : ProtoAuthMode
  pub plugin_config_ids : List String
  pub created_at : String
  pub updated_at : String

pub record ProtoConsumer : Type 0 where
  pub id : String
  pub username : String
  pub custom_id : String
  pub credentials : String
  pub created_at : String
  pub updated_at : String

pub record ProtoPluginConfig : Type 0 where
  pub id : String
  pub plugin_name : String
  pub config : String
  pub scope : String
  pub proxy_id : String
  pub enabled : Bool
  pub created_at : String
  pub updated_at : String

-- The lists that a snapshot and a full update carry.
pub record Entities : Type 0 where
  pub proxies : List ProtoProxy
  pub consumers : List ProtoConsumer
  pub plugin_configs : List ProtoPluginConfig
