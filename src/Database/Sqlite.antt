-- ===== src/Database/Sqlite.antt =====
-- src/database/sqlite.rs: `SqliteClient`, with the tables that its `ensure_tables` creates, as lists of rows,
-- and what the SQL statements of its methods do to them, as SQLite documents it. Nothing else in the
-- program constructs this client: the `DatabaseClient` of database/mod.rs opens a pool without creating
-- tables and names functions of the module that, but for three, do not exist. A statement that a constraint or a
-- missing column refuses is an error; so is a transaction with such a statement, which changes nothing.
-- The column `consumer_id` of `plugin_configs` is left out, as `PluginConfig` has no such field; the two
-- enums of a proxy are texts. A failure of the connection is not modelled.
pub mod Stamps
pub mod Proxies
pub mod Consumers
pub mod PluginConfigs
pub mod Loading
pub mod Writes
pub mod Sound
pub mod Unassociated
pub mod Unseen
pub mod Stored
use ferrumgw.Common.{
  ℕ, String, Bool, not, ◌&&◌, ◌||◌, List, [], ◌∷◌, ◌++◌, Option, none, some, true, false, Result,
  err, ◌==◌, string_eq, any, retain, if◌then◌else◌,
}
use ferrumgw.Config.{
  Proxy, Consumer, PluginConfig, BackendProtocol, AuthMode, http, https, ws, wss, grpc, single,
  multi,
}
use Stamps.{Stamp}

-- A row of `proxies`; the enums and the times of `columns` are not stored.
pub record ProxyRow : Type 0 where
  pub columns : Proxy
  pub backend_protocol : String
  pub auth_mode : String
  pub created_at : Stamp
  pub updated_at : Stamp

pub record ConsumerRow : Type 0 where
  pub columns : Consumer
  pub created_at : Stamp
  pub updated_at : Stamp

pub record PluginConfigRow : Type 0 where
  pub columns : PluginConfig
  pub created_at : Stamp
  pub updated_at : Stamp

-- A row of `proxy_plugin_associations`, which has no column `embedded_config`.
pub record AssociationRow : Type 0 where
  pub proxy_id : String
  pub plugin_config_id : String

pub record DeletionRow : Type 0 where
  pub id : String
  pub deleted_at : Stamp

pub record Tables : Type 0 where
  pub proxies : List ProxyRow
  pub consumers : List ConsumerRow
  pub plugin_configs : List PluginConfigRow
  pub associations : List AssociationRow
  pub proxy_deletions : List DeletionRow
  pub consumer_deletions : List DeletionRow
  pub plugin_config_deletions : List DeletionRow

-- `ensure_tables` on an empty database
abbrev pub ensure_tables : Tables
ensure_tables = record {
  proxies = [];
  consumers = [];
  plugin_configs = [];
  associations = [];
  proxy_deletions = [];
  consumer_deletions = [];
  plugin_config_deletions = [];
}

pub data DbError : Type 0 where
  path_exists other_path_exists proxy_missing username_exists other_username_exists : DbError
  custom_id_exists other_custom_id_exists consumer_missing plugin_config_missing : DbError
  constraint_failed no_such_column : DbError

-- The enums as texts.
abbrev pub protocol_text : BackendProtocol → String
protocol_text http = "http"
protocol_text https = "https"
protocol_text ws = "ws"
protocol_text wss = "wss"
protocol_text grpc = "grpc"

abbrev pub auth_mode_text : AuthMode → String
auth_mode_text single = "single"
auth_mode_text multi = "multi"

-- `INSERT ... ON CONFLICT(id) DO UPDATE SET deleted_at`
abbrev pub track_deletion : String → Stamp → List DeletionRow → List DeletionRow
track_deletion id now [] = record { id = id; deleted_at = now } ∷ []
track_deletion id now (d ∷ ds) =
    if d.id == id then record d { deleted_at = now } ∷ ds else d ∷ track_deletion id now ds

-- `column = id`, for a column that may be NULL.
abbrev pub is_named : String → Option String → Bool
is_named id none = false
is_named id (some s) = s == id

-- An early return of an error.
unfoldable pub refuse_if : Bool → DbError → Result DbError Tables → Result DbError Tables
refuse_if true e o = err e
refuse_if false e o = o
