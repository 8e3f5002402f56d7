-- ===== src/Tests/Samples.antt =====
-- A configuration with two proxies, a consumer and a plugin, and what goes with it.
use ferrumgw.Common.{String, Bytes, ascii, true, [], ◌∷◌, none, some}
use ferrumgw.Config.{
  Proxy, Consumer, PluginAssociation, PluginConfig, Configuration, http, single, global,
}

abbrev pub proxy_at : String → Bytes → Proxy
proxy_at id path = record {
  id = id;
  name = none;
  listen_path = path;
  backend_protocol = http;
  backend_host = "backend";
  backend_port = 8080;
  backend_path = some (ascii "/v1/");
  strip_listen_path = true;
  preserve_host_header = true;
  backend_connect_timeout_ms = 1000;
  backend_read_timeout_ms = 1000;
  backend_write_timeout_ms = 1000;
  backend_tls_client_cert_path = none;
  backend_tls_client_key_path = none;
  backend_tls_verify_server_cert = true;
  backend_tls_server_ca_cert_path = none;
  dns_override = none;
  dns_cache_ttl_seconds = none;
  auth_mode = single;
  plugins = [];
  created_at = 1;
  updated_at = 1;
}

abbrev pub users : Proxy
users = proxy_at "users" (ascii "/users")

abbrev pub orders : Proxy
orders = proxy_at "orders" (ascii "/orders")

abbrev pub alice : Consumer
alice = record {
  id = "c1";
  username = "alice";
  custom_id = none;
  credentials = ("key-auth", "old") ∷ ("jwt", "kept") ∷ [];
  created_at = 1;
  updated_at = 1;
}

abbrev pub limiter : PluginConfig
limiter = record {
  id = "pc1";
  plugin_name = "rate_limiting";
  config = "{}";
  scope = global;
  proxy_id = none;
  enabled = true;
  created_at = 1;
  updated_at = 1;
}

abbrev pub served : Configuration
served = record {
  proxies = users ∷ orders ∷ [];
  consumers = alice ∷ [];
  plugin_configs = limiter ∷ [];
  last_updated_at = 5;
}

abbrev pub association : String → PluginAssociation
association id = record { plugin_config_id = id; embedded_config = none }
