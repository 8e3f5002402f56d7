-- ===== src/Tests/Config.antt =====
-- The theorems about the configuration, at concrete values.
use ferrumgw.Common.{
  if◌then◌else◌, true, none, some, ◌==◌, ◌≡◌, ◌≢◌, refl, ◌↔◌, String, ascii, List, [], ◌∷◌, max, ok,
  string_eq,
}
use ferrumgw.Config.{Proxy}
use ferrumgw.Config.Env.{EnvConfig, Parsers, Environment}
use ferrumgw.Config.Env.Reading.{from_env}
use ferrumgw.Config.Env.Validation.{from_env_never_succeeds}
use ferrumgw.Modes.{file}
use ferrumgw.Config.Delta.{ConfigurationDelta, apply_to}
use ferrumgw.Config.Delta.Lookup.{find_id}
use ferrumgw.Config.Delta.Laws.{updated_entity, find-apply_to, IsKeyedConfig}
use ferrumgw.Config.Paths.{validate_listen_path_uniqueness, HasUniquePaths, validate_iff}
use ferrumgw.Tests.Samples.{proxy_at, users, served}

abbrev delta_of : List Proxy → List String → ConfigurationDelta
delta_of updated deleted = record {
  updated_proxies = updated;
  deleted_proxy_ids = deleted;
  updated_consumers = [];
  deleted_consumer_ids = [];
  updated_plugin_configs = [];
  deleted_plugin_config_ids = [];
  last_updated_at = 9;
}

-- `users` moves to the path of `orders`.
abbrev moved : Proxy
moved = proxy_at "users" (ascii "/orders")

abbrev twice : ConfigurationDelta
twice = delta_of (users ∷ moved ∷ []) ("orders" ∷ [])

find-apply_to_example :
    (find_id (λ x. x.id) "users" (apply_to twice served).proxies
      ≡ updated_entity
          (λ x. x.id)
          twice.updated_proxies
          twice.deleted_proxy_ids
          "users"
          (find_id (λ x. x.id) "users" served.proxies))
    × (find_id (λ x. x.id) "users" (apply_to twice served).consumers
        ≡ updated_entity
            (λ x. x.id)
            twice.updated_consumers
            twice.deleted_consumer_ids
            "users"
            (find_id (λ x. x.id) "users" served.consumers))
    × (find_id (λ x. x.id) "users" (apply_to twice served).plugin_configs
        ≡ updated_entity
            (λ x. x.id)
            twice.updated_plugin_configs
            twice.deleted_plugin_config_ids
            "users"
            (find_id (λ x. x.id) "users" served.plugin_configs))
    × ((apply_to twice served).last_updated_at ≡ max 5 9)
find-apply_to_example = find-apply_to twice served "users"

served-IsKeyed : IsKeyedConfig served
served-IsKeyed = record {
  proxies = (refl, (refl, tt));
  consumers = (refl, tt);
  plugin_configs = (refl, tt);
}

validate_iff_example :
    (validate_listen_path_uniqueness served ≡ ok tt) ↔ HasUniquePaths served.proxies
validate_iff_example = validate_iff served

-- An environment that has all that the file mode asks for.
abbrev file_environment : Environment
file_environment name =
    if name == "FERRUM_MODE"
    then some "file"
    else if name == "FERRUM_FILE_CONFIG_PATH"
    then some "/etc/ferrum.yaml"
    else none

abbrev no_parsers : Parsers
no_parsers = record {
  parse_number = λ bits text. none;
  parse_socket_addr = λ text. none;
  parse_overrides = λ text. none;
  to_lowercase = λ text. text;
}

abbrev wanted : EnvConfig
wanted = record {
  mode = file;
  log_level = "info";
  proxy_http_port = some 8000;
  proxy_https_port = some 8443;
  proxy_http3_port = some 8444;
  proxy_tls_cert_path = none;
  proxy_tls_key_path = none;
  admin_http_port = some 9000;
  admin_https_port = some 9443;
  admin_http3_port = some 9444;
  admin_tls_cert_path = none;
  admin_tls_key_path = none;
  admin_jwt_secret = none;
  cp_grpc_jwt_secret = none;
  dp_grpc_auth_token = none;
  db_type = none;
  db_url = none;
  db_poll_interval = 30;
  db_incremental_polling = true;
  db_poll_check_interval = 5;
  file_config_path = some "/etc/ferrum.yaml";
  cp_grpc_listen_addr = none;
  dp_cp_grpc_url = none;
  max_header_size_bytes = 16384;
  max_body_size_bytes = 10485760;
  dns_cache_ttl_seconds = 300;
  dns_overrides = [];
  default_pagination_limit = 500;
}

from_env_never_succeeds_example : from_env no_parsers file_environment ≢ ok wanted
from_env_never_succeeds_example = from_env_never_succeeds no_parsers file_environment wanted
