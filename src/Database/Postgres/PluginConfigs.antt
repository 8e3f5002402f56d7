-- ===== src/Database/Postgres/PluginConfigs.antt =====
-- src/database/postgres.rs: the writes of plugin configurations. Their proxy has to exist, and one of
-- the scope of a proxy has to have one.
use ferrumgw.Common.{
  ℕ, String, Bool, true, false, not, ◌||◌, [], ◌∷◌, ◌++◌, map, Option, none, some, Result, ok, ◌==◌,
  string_eq, any, retain, if◌then◌else◌,
}
use ferrumgw.Config.{PluginConfig, PluginScope, global, proxy}
use ferrumgw.Database.Sqlite.{DbError, plugin_config_missing, constraint_failed}
use ferrumgw.Database.Postgres.{Schema, Tables, track_deletion, refuse_if}
use ferrumgw.Database.Postgres.Proxies.{has_proxy}

abbrev pub has_plugin_config : String → Tables → Bool
has_plugin_config id t = any (λ pc. pc.id == id) t.plugin_configs

-- The foreign key of `proxy_id` and `check_scope_references`
abbrev pub misses_proxy : PluginScope → Option String → Tables → Bool
misses_proxy global none t = false
misses_proxy proxy none t = true
misses_proxy scope (some id) t = not (has_proxy id t)

abbrev pub returned_plugin_config : String → ℕ → PluginConfig → PluginConfig
returned_plugin_config uuid now plugin_config = record plugin_config {
  id = uuid;
  created_at = now;
  updated_at = now;
}

-- `create_plugin_config`
unfoldable pub create_plugin_config :
    Schema → String → ℕ → PluginConfig → Tables → Result DbError (PluginConfig × Tables)
create_plugin_config schema uuid now plugin_config t =
    refuse_if
      (not schema.generates_ids
        || has_plugin_config uuid t
        || misses_proxy plugin_config.scope plugin_config.proxy_id t)
      constraint_failed
      (ok (
        returned_plugin_config uuid now plugin_config,
        record t {
          plugin_configs = t.plugin_configs ++ (returned_plugin_config uuid now plugin_config ∷ []);
        },
      ))

abbrev pub update_plugin_config_row : ℕ → PluginConfig → PluginConfig → PluginConfig
update_plugin_config_row now plugin_config pc =
    if pc.id == plugin_config.id
    then record plugin_config { created_at = pc.created_at; updated_at = now }
    else pc

-- `update_plugin_config`
unfoldable pub update_plugin_config :
    ℕ → PluginConfig → Tables → Result DbError (PluginConfig × Tables)
update_plugin_config now plugin_config t =
    refuse_if (not (has_plugin_config plugin_config.id t)) plugin_config_missing (
      refuse_if (misses_proxy plugin_config.scope plugin_config.proxy_id t) constraint_failed (
        ok (
          record plugin_config { updated_at = now },
          record t {
            plugin_configs = map (update_plugin_config_row now plugin_config) t.plugin_configs;
          },
        )))

-- `delete_plugin_config`
unfoldable pub delete_plugin_config : ℕ → String → Tables → Result DbError Tables
delete_plugin_config now id t = refuse_if (not (has_plugin_config id t)) plugin_config_missing (
    ok (record t {
      associations = retain (λ a. not (a.plugin_config_id == id)) t.associations;
      plugin_configs = retain (λ pc. not (pc.id == id)) t.plugin_configs;
      plugin_config_deletions = track_deletion id now t.plugin_config_deletions;
    }))
