-- ===== src/Database/Postgres.antt =====
-- src/database/postgres.rs: the tables that the statements of the client name, as lists of rows, and what
-- PostgreSQL documents of the statements. The client creates no tables. Of those of migrations/postgres
-- it uses a default for the key of an inserted row, and of the associations the columns `id` and
-- `embedded_config`, which those tables do not have; both are left open here, as a schema. A statement that
-- fails is an error and undoes its transaction. The column `consumer_id` of `plugin_configs` is left
-- out, as `PluginConfig` has no such field, and so are the lengths of texts and the 64th bit of numbers.
-- A failure of the connection is not modelled.
pub mod Proxies
pub mod Consumers
pub mod PluginConfigs
pub mod Loading
pub mod Ordered
pub mod Associated
pub mod Rows
pub mod Stored
pub mod Writes
pub mod Sound
pub mod Migrated
use ferrumgw.Common.{
  ℕ, String, Bool, true, false, List, [], ◌∷◌, Option, Result, err, ◌==◌, string_eq, if◌then◌else◌,
}
use ferrumgw.Config.{Proxy, Consumer, PluginConfig}
use ferrumgw.Database.Sqlite.{DbError}

-- Whether `id` has a default that makes a new identifier, and whether the associations have the columns
-- `id`, a counter, and `embedded_config`.
pub record Schema : Type 0 where
  pub generates_ids : Bool
  pub keeps_embedded : Bool

-- migrations/postgres/01_initial_schema.sql
abbrev pub migrated_schema : Schema
migrated_schema = record { generates_ids = false; keeps_embedded = false }

-- A row of `proxies`; the enums of `columns` and its plugins are not stored.
pub record ProxyRow : Type 0 where
  pub columns : Proxy
  pub backend_protocol : String
  pub auth_mode : String

-- The rows are in the order of the counter `id`.
pub record AssociationRow : Type 0 where
  pub proxy_id : String
  pub plugin_config_id : String
  pub embedded_config : Option String

pub record DeletionRow : Type 0 where
  pub id : String
  pub deleted_at : ℕ

pub record Tables : Type 0 where
  pub proxies : List ProxyRow
  pub consumers : List Consumer
  pub plugin_configs : List PluginConfig
  pub associations : List AssociationRow
  pub proxy_deletions : List DeletionRow
  pub consumer_deletions : List DeletionRow
  pub plugin_config_deletions : List DeletionRow

-- The tables after the migrations.
abbrev pub migrated_tables : Tables
migrated_tables = record {
  proxies = [];
  consumers = [];
  plugin_configs = [];
  associations = [];
  proxy_deletions = [];
  consumer_deletions = [];
  plugin_config_deletions = [];
}

-- `INSERT ... ON CONFLICT (id) DO UPDATE SET deleted_at`, by the client and, within the same
-- transaction, by the trigger of migrations/postgres/02_deletion_tracking.sql.
abbrev pub track_deletion : String → ℕ → List DeletionRow → List DeletionRow
track_deletion id now [] = record { id = id; deleted_at = now } ∷ []
track_deletion id now (d ∷ ds) =
    if d.id == id then record d { deleted_at = now } ∷ ds else d ∷ track_deletion id now ds

-- An early return of an error.
unfoldable pub refuse_if : {A : Type 0} → Bool → DbError → Result DbError A → Result DbError A
refuse_if true e o = err e
refuse_if false e o = o
