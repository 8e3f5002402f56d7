-- ===== src/Database/Sqlite/Sound.antt =====
-- src/database/sqlite.rs: the keys of the tables.
pub mod Proxies
pub mod Consumers
pub mod PluginConfigs
pub mod Runs
use ferrumgw.Common.{
  ℕ, String, Bytes, ◌≡◌, refl, Bool, true, false, List, [], ◌∷◌, map, Result, ok, err, ◌==◌,
  string_eq, bytes_eq, ==_iff, any, arith, Bool-cases, inl, inr, not, ◌&&◌, if◌then◌else◌, IfOk,
}
use ferrumgw.Common.Distinct.{
  IsDistinct, has_key, append-IsDistinct, retain-IsDistinct, map-IsDistinct, overwrite-IsDistinct,
}
use ferrumgw.Config.{Proxy, Consumer, PluginConfig, Configuration, PluginAssociation}
use ferrumgw.Config.Paths.{validate_listen_path_uniqueness, HasUniquePaths, validate_iff}
use ferrumgw.Database.Sqlite.{
  ProxyRow, ConsumerRow, PluginConfigRow, AssociationRow, DeletionRow, Tables, DbError,
  ensure_tables,
}
use ferrumgw.Database.Sqlite.Proxies.{
  create_proxy, update_proxy, delete_proxy, update_row, insert_associations, delete_associations,
  new_row, has_proxy,
}
use ferrumgw.Database.Sqlite.Consumers.{
  create_consumer, update_consumer, delete_consumer, update_consumer_row, new_consumer_row,
  has_consumer,
}
use ferrumgw.Database.Sqlite.PluginConfigs.{
  create_plugin_config, update_plugin_config, delete_plugin_config, update_plugin_config_row,
  new_plugin_config_row, has_plugin_config,
}
use ferrumgw.Database.Sqlite.Writes.{
  Write, write, after, writes, after-guard, creates_proxy, updates_proxy, deletes_proxy,
  creates_consumer, updates_consumer, deletes_consumer, creates_plugin_config,
  updates_plugin_config, deletes_plugin_config,
}
use ferrumgw.Database.Sqlite.Loading.{load_configuration, read_proxy, read_plugin_config}

abbrev pub proxy_id_of : ProxyRow → String
proxy_id_of r = r.columns.id

abbrev pub path_of : ProxyRow → Bytes
path_of r = r.columns.listen_path

abbrev pub consumer_id_of : ConsumerRow → String
consumer_id_of r = r.columns.id

abbrev pub username_of : ConsumerRow → String
username_of r = r.columns.username

abbrev pub plugin_config_id_of : PluginConfigRow → String
plugin_config_id_of r = r.columns.id

-- The primary keys, and the columns that are UNIQUE.
pub record IsSound (t : Tables) : Type 0 where
  pub proxy_ids : IsDistinct proxy_id_of t.proxies
  pub paths : IsDistinct path_of t.proxies
  pub consumer_ids : IsDistinct consumer_id_of t.consumers
  pub usernames : IsDistinct username_of t.consumers
  pub plugin_config_ids : IsDistinct plugin_config_id_of t.plugin_configs
