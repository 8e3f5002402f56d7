-- ===== src/Database/Sqlite/PluginConfigs.antt =====
-- src/database/sqlite.rs: the writes of plugin configurations, whose proxy has to exist.
use ferrumgw.Common.{
  ℕ, String, Bool, false, not, ◌||◌, [], ◌∷◌, ◌++◌, map, Option, none, some, Result, ok, ◌==◌,
  string_eq, any, retain, if◌then◌else◌,
}
use ferrumgw.Config.{PluginConfig}
use ferrumgw.Database.Sqlite.{
  PluginConfigRow, Tables, DbError, plugin_config_missing, constraint_failed, track_deletion,
  refuse_if,
}
use ferrumgw.Database.Sqlite.Stamps.{datetime_now}
use ferrumgw.Database.Sqlite.Proxies.{has_proxy}

abbrev pub has_plugin_config : String → Tables → Bool
has_plugin_config id t = any (λ row. row.columns.id == id) t.plugin_configs

-- The foreign key of `proxy_id`
abbrev pub lacks_proxy : Option String → Tables → Bool
lacks_proxy none t = false
lacks_proxy (some id) t = not (has_proxy id t)

abbrev pub new_plugin_config_row : String → ℕ → PluginConfig → PluginConfigRow
new_plugin_config_row uuid now plugin_config = record {
  columns = record plugin_config { id = uuid };
  created_at = datetime_now now;
  updated_at = datetime_now now;
}

-- `create_plugin_config`
unfoldable pub create_plugin_config : String → ℕ → PluginConfig → Tables → Result DbError Tables
create_plugin_config uuid now plugin_config t =
    refuse_if (has_plugin_config uuid t || lacks_proxy plugin_config.proxy_id t) constraint_failed (
      ok (record t {
        plugin_configs = t.plugin_configs ++ (new_plugin_config_row uuid now plugin_config ∷ []);
      }))

abbrev pub update_plugin_config_row : ℕ → PluginConfig → PluginConfigRow → PluginConfigRow
update_plugin_config_row now plugin_config row =
    if row.columns.id == plugin_config.id
    then record {
      columns = record plugin_config { created_at = row.columns.created_at };
      created_at = row.created_at;
      updated_at = datetime_now now;
    }
    else row

-- `update_plugin_config`
unfoldable pub update_plugin_config : ℕ → PluginConfig → Tables → Result DbError Tables
update_plugin_config now plugin_config t =
    refuse_if (not (has_plugin_config plugin_config.id t)) plugin_config_missing (
      refuse_if (lacks_proxy plugin_config.proxy_id t) constraint_failed (
        ok (record t {
          plugin_configs = map (update_plugin_config_row now plugin_config) t.plugin_configs;
        })))

-- `delete_plugin_config`
unfoldable pub delete_plugin_config : ℕ → String → Tables → Tables
delete_plugin_config now id t =
    let kept = retain (λ a. not (a.plugin_config_id == id)) t.associations in
    if has_plugin_config id t
    then record t {
      associations = kept;
      plugin_configs = retain (λ row. not (row.columns.id == id)) t.plugin_configs;
      plugin_config_deletions = track_deletion id (datetime_now now) t.plugin_config_deletions;
    }
    else record t { associations = kept }
