-- ===== src/Config/Env/Reading.antt =====
-- src/config/env_config.rs: how `from_env` reads the settings, in the order of the source.
use ferrumgw.Common.{
  ℕ, String, Bool, true, ◌||◌, List, [], Option, none, some, Result, ok, err, ◌>>=◌, ◌==◌,
  string_eq,
}
use ferrumgw.Config.{DatabaseType}
use ferrumgw.Modes.{OperationMode, database, file, control_plane, data_plane}
use ferrumgw.Config.Env.{
  EnvConfigError, dns_overrides_parse_error, EnvConfig, Parsers, Environment, required, or_invalid,
  parse_mode, parse_db_type, validate_mode,
}

abbrev value_or : String → Option String → String
value_or default none = default
value_or default (some value) = value

module _ (P : Parsers) (env : Environment) where
  abbrev parse_value : ℕ → String → ℕ → Option String → Result EnvConfigError ℕ
  parse_value bits name default none = ok default
  parse_value bits name default (some value) = or_invalid name value (P.parse_number bits value)

  -- `parse_duration_with_default`, `parse_usize_with_default` and `parse_u64_with_default`
  unfoldable pub parse_u64_with_default : String → ℕ → Result EnvConfigError ℕ
  parse_u64_with_default name default = parse_value 64 name default (env name)

  -- `parse_optional_port`, which always has a default
  unfoldable pub parse_optional_port : String → ℕ → Result EnvConfigError (Option ℕ)
  parse_optional_port name default = do
    port ← parse_value 16 name default (env name)
    ok (some port)

  -- The settings that are known before the validation; the others have the values of the literal.
  abbrev pub initial_config :
      OperationMode → Option ℕ → Option ℕ → Option ℕ → Option ℕ → Option ℕ → Option ℕ → EnvConfig
  initial_config mode proxy_http proxy_https proxy_http3 admin_http admin_https admin_http3 =
      record {
        mode = mode;
        log_level = value_or "info" (env "FERRUM_LOG_LEVEL");
        proxy_http_port = proxy_http;
        proxy_https_port = proxy_https;
        proxy_http3_port = proxy_http3;
        proxy_tls_cert_path = env "FERRUM_PROXY_TLS_CERT_PATH";
        proxy_tls_key_path = env "FERRUM_PROXY_TLS_KEY_PATH";
        admin_http_port = admin_http;
        admin_https_port = admin_https;
        admin_http3_port = admin_http3;
        admin_tls_cert_path = env "FERRUM_ADMIN_TLS_CERT_PATH";
        admin_tls_key_path = env "FERRUM_ADMIN_TLS_KEY_PATH";
        admin_jwt_secret = env "FERRUM_ADMIN_JWT_SECRET";
        cp_grpc_jwt_secret = env "FERRUM_CP_GRPC_JWT_SECRET";
        dp_grpc_auth_token = env "FERRUM_DP_GRPC_AUTH_TOKEN";
        db_type = none;
        db_url = none;
        db_poll_interval = 30;
        db_incremental_polling = true;
        db_poll_check_interval = 5;
        file_config_path = none;
        cp_grpc_listen_addr = none;
        dp_cp_grpc_url = none;
        max_header_size_bytes = 16384;
        max_body_size_bytes = 10485760;
        dns_cache_ttl_seconds = 300;
        dns_overrides = [];
        default_pagination_limit = 500;
      }

  unfoldable pub read_initial : OperationMode → Result EnvConfigError EnvConfig
  read_initial mode = do
    proxy_http ← parse_optional_port "FERRUM_PROXY_HTTP_PORT" 8000
    proxy_https ← parse_optional_port "FERRUM_PROXY_HTTPS_PORT" 8443
    proxy_http3 ← parse_optional_port "FERRUM_PROXY_HTTP3_PORT" 8444
    admin_http ← parse_optional_port "FERRUM_ADMIN_HTTP_PORT" 9000
    admin_https ← parse_optional_port "FERRUM_ADMIN_HTTPS_PORT" 9443
    admin_http3 ← parse_optional_port "FERRUM_ADMIN_HTTP3_PORT" 9444
    ok (initial_config mode proxy_http proxy_https proxy_http3 admin_http admin_https admin_http3)

  -- The settings that only some modes read.
  abbrev read_db_pair : Result EnvConfigError (Option DatabaseType × Option String)
  read_db_pair = do
    text ← required env "FERRUM_DB_TYPE"
    db_type ← parse_db_type text
    db_url ← required env "FERRUM_DB_URL"
    ok (some db_type, some db_url)

  unfoldable pub read_db :
      OperationMode → Result EnvConfigError (Option DatabaseType × Option String)
  read_db database = read_db_pair
  read_db control_plane = read_db_pair
  read_db _ = ok (none, none)

  unfoldable pub read_file_path : OperationMode → Result EnvConfigError (Option String)
  read_file_path file = do path ← required env "FERRUM_FILE_CONFIG_PATH"; ok (some path)
  read_file_path _ = ok none

  unfoldable pub read_listen_addr : OperationMode → Result EnvConfigError (Option String)
  read_listen_addr control_plane = do
    text ← required env "FERRUM_CP_GRPC_LISTEN_ADDR"
    addr ← or_invalid "FERRUM_CP_GRPC_LISTEN_ADDR" text (P.parse_socket_addr text)
    ok (some addr)
  read_listen_addr _ = ok none

  unfoldable pub read_grpc_url : OperationMode → Result EnvConfigError (Option String)
  read_grpc_url data_plane = do url ← required env "FERRUM_DP_CP_GRPC_URL"; ok (some url)
  read_grpc_url _ = ok none

  abbrev overrides_of : Option String → Result EnvConfigError (List (String × String))
  overrides_of none = ok []
  overrides_of (some text) = elim (P.parse_overrides text) [
    | some overrides ↦ ok overrides
    | none ↦ err (dns_overrides_parse_error text)
  ]

  abbrev is_true : Option String → Bool
  is_true none = true
  is_true (some value) = P.to_lowercase value == "true" || value == "1"

  -- What follows the validation.
  unfoldable pub read_rest : EnvConfig → Result EnvConfigError EnvConfig
  read_rest config = do
    poll_interval ← parse_u64_with_default "FERRUM_DB_POLL_INTERVAL" 30
    check_interval ← parse_u64_with_default "FERRUM_DB_POLL_CHECK_INTERVAL" 5
    db ← read_db config.mode
    file_path ← read_file_path config.mode
    listen_addr ← read_listen_addr config.mode
    grpc_url ← read_grpc_url config.mode
    max_header ← parse_u64_with_default "FERRUM_MAX_HEADER_SIZE_BYTES" 16384
    max_body ← parse_u64_with_default "FERRUM_MAX_BODY_SIZE_BYTES" 10485760
    dns_ttl ← parse_u64_with_default "FERRUM_DNS_CACHE_TTL_SECONDS" 300
    overrides ← overrides_of (env "FERRUM_DNS_OVERRIDES")
    limit ← parse_u64_with_default "FERRUM_DEFAULT_PAGINATION_LIMIT" 500
    ok record config {
      db_type = db.0;
      db_url = db.1;
      db_poll_interval = poll_interval;
      db_incremental_polling = is_true (env "FERRUM_DB_INCREMENTAL_POLLING");
      db_poll_check_interval = check_interval;
      file_config_path = file_path;
      cp_grpc_listen_addr = listen_addr;
      dp_cp_grpc_url = grpc_url;
      max_header_size_bytes = max_header;
      max_body_size_bytes = max_body;
      dns_cache_ttl_seconds = dns_ttl;
      dns_overrides = overrides;
      default_pagination_limit = limit;
    }

  -- `from_env`
  unfoldable pub from_env : Result EnvConfigError EnvConfig
  from_env = do
    mode_text ← required env "FERRUM_MODE"
    mode ← parse_mode mode_text
    config ← read_initial mode
    _ ← validate_mode mode config
    read_rest config
