-- ===== src/Config/Env.antt =====
-- src/config/env_config.rs, `EnvConfig::from_env`: the settings of the process.
-- The environment is a function from names to values; the parsers of the standard library and of
-- serde_json are the record `Parsers`, in which a number has as many bits as its type. A socket
-- address is its text, a duration its number of seconds.
pub mod Reading
pub mod Validation
use ferrumgw.Common.{
  ℕ, String, Bool, true, false, ◌||◌, List, [], Option, none, some, Result, ok, err, ◌>>=◌, ◌==◌,
  string_eq, if◌then◌else◌,
}
use ferrumgw.Config.{DatabaseType, postgres, my_sql, sqlite}
use ferrumgw.Modes.{OperationMode, database, file, control_plane, data_plane}

pub data EnvConfigError : Type 0 where
  missing_env : String → EnvConfigError
  invalid_env_value : String → String → EnvConfigError
  dns_overrides_parse_error : String → EnvConfigError
  required_for_mode : String → EnvConfigError

pub record EnvConfig : Type 0 where
  pub mode : OperationMode
  pub log_level : String
  pub proxy_http_port : Option ℕ
  pub proxy_https_port : Option ℕ
  pub proxy_http3_port : Option ℕ
  pub proxy_tls_cert_path : Option String
  pub proxy_tls_key_path : Option String
  pub admin_http_port : Option ℕ
  pub admin_https_port : Option ℕ
  pub admin_http3_port : Option ℕ
  pub admin_tls_cert_path : Option String
  pub admin_tls_key_path : Option String
  pub admin_jwt_secret : Option String
  pub cp_grpc_jwt_secret : Option String
  pub dp_grpc_auth_token : Option String
  pub db_type : Option DatabaseType
  pub db_url : Option String
  pub db_poll_interval : ℕ
  pub db_incremental_polling : Bool
  pub db_poll_check_interval : ℕ
  pub file_config_path : Option String
  pub cp_grpc_listen_addr : Option String
  pub dp_cp_grpc_url : Option String
  pub max_header_size_bytes : ℕ
  pub max_body_size_bytes : ℕ
  pub dns_cache_ttl_seconds : ℕ
  pub dns_overrides : List (String × String)
  pub default_pagination_limit : ℕ

pub record Parsers : Type 0 where
  pub parse_number : ℕ → String → Option ℕ
  pub parse_socket_addr : String → Option String
  pub parse_overrides : String → Option (List (String × String))
  pub to_lowercase : String → String

abbrev pub Environment : Type 0
Environment = String → Option String

abbrev or_missing : String → Option String → Result EnvConfigError String
or_missing name none = err (missing_env name)
or_missing name (some value) = ok value

-- `env::var(name).map_err(MissingEnv)?`
abbrev pub required : Environment → String → Result EnvConfigError String
required env name = or_missing name (env name)

abbrev pub or_invalid : {A : Type 0} → String → String → Option A → Result EnvConfigError A
or_invalid name value none = err (invalid_env_value name value)
or_invalid name value (some a) = ok a

unfoldable pub parse_mode : String → Result EnvConfigError OperationMode
parse_mode text =
    if text == "database"
    then ok database
    else if text == "file"
    then ok file
    else if text == "cp"
    then ok control_plane
    else if text == "dp"
    then ok data_plane
    else err (invalid_env_value "FERRUM_MODE" text)

unfoldable pub parse_db_type : String → Result EnvConfigError DatabaseType
parse_db_type text =
    if text == "postgres"
    then ok postgres
    else if text == "mysql"
    then ok my_sql
    else if text == "sqlite"
    then ok sqlite
    else err (invalid_env_value "FERRUM_DB_TYPE" text)

-- An error of the `match` on the mode, for a setting that has no value.
abbrev pub need : {A : Type 0} → String → Option A → Result EnvConfigError (Unit {0})
need name none = err (required_for_mode name)
need name (some value) = ok tt

-- The validation of the settings that the mode needs.
unfoldable pub validate_mode : OperationMode → EnvConfig → Result EnvConfigError (Unit {0})
validate_mode database config = do
  _ ← need "FERRUM_DB_TYPE" config.db_type
  _ ← need "FERRUM_DB_URL" config.db_url
  need "FERRUM_ADMIN_JWT_SECRET" config.admin_jwt_secret
validate_mode file config = need "FERRUM_FILE_CONFIG_PATH" config.file_config_path
validate_mode control_plane config = do
  _ ← need "FERRUM_DB_TYPE" config.db_type
  _ ← need "FERRUM_DB_URL" config.db_url
  _ ← need "FERRUM_CP_GRPC_LISTEN_ADDR" config.cp_grpc_listen_addr
  _ ← need "FERRUM_CP_GRPC_JWT_SECRET" config.cp_grpc_jwt_secret
  need "FERRUM_ADMIN_JWT_SECRET" config.admin_jwt_secret
validate_mode data_plane config = do
  _ ← need "FERRUM_DP_CP_GRPC_URL" config.dp_cp_grpc_url
  need "FERRUM_DP_GRPC_AUTH_TOKEN" config.dp_grpc_auth_token
