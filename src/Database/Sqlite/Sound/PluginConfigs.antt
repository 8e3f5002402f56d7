-- ===== src/Database/Sqlite/Sound/PluginConfigs.antt =====
-- src/database/sqlite.rs: the writes of plugin configurations keep the keys apart.
use ferrumgw.Common.{ℕ, String, ◌≡◌, List, string_eq, bytes_eq, ==_iff, arith, Bool-cases, inl, inr}
use ferrumgw.Common.Distinct.{IsDistinct, append-IsDistinct, retain-IsDistinct, map-IsDistinct}
use ferrumgw.Config.{PluginConfig}
use ferrumgw.Database.Sqlite.{PluginConfigRow, AssociationRow, DeletionRow, Tables}
use ferrumgw.Database.Sqlite.PluginConfigs.{
  create_plugin_config, update_plugin_config, delete_plugin_config, update_plugin_config_row,
  new_plugin_config_row, has_plugin_config,
}
use ferrumgw.Database.Sqlite.Writes.{after, after-guard}
use ferrumgw.Database.Sqlite.Sound.{plugin_config_id_of, IsSound}

-- A change of the plugin configurations and associations alone.
plugins-IsSound :
    (t : Tables) (rows : List PluginConfigRow) (associations : List AssociationRow)
    (deletions : List DeletionRow)
    → IsDistinct plugin_config_id_of rows
    → IsSound t
    → IsSound (record t {
      plugin_configs = rows;
      associations = associations;
      plugin_config_deletions = deletions;
    })
plugins-IsSound t rows associations deletions d h = record {
  proxy_ids = h.proxy_ids;
  paths = h.paths;
  consumer_ids = h.consumer_ids;
  usernames = h.usernames;
  plugin_config_ids = d;
}

pub create_plugin_config-IsSound :
    (uuid : String) (now : ℕ) (plugin_config : PluginConfig) (t : Tables)
    → IsSound t
    → IsSound (after t (create_plugin_config uuid now plugin_config t))
unfolding create_plugin_config after
create_plugin_config-IsSound uuid now plugin_config t h = after-guard IsSound _ _ _ t h λ free.
    plugins-IsSound t _ _ _
      (append-IsDistinct plugin_config_id_of t.plugin_configs
        (new_plugin_config_row uuid now plugin_config) (ground arith) h.plugin_config_ids)
      h

update_plugin_row-id :
    (now : ℕ) (plugin_config : PluginConfig) (r : PluginConfigRow)
    → (update_plugin_config_row now plugin_config r).columns.id ≡ r.columns.id
update_plugin_row-id now plugin_config r = ground (arith, ==_iff r.columns.id plugin_config.id)

pub update_plugin_config-IsSound :
    (now : ℕ) (plugin_config : PluginConfig) (t : Tables)
    → IsSound t
    → IsSound (after t (update_plugin_config now plugin_config t))
unfolding update_plugin_config after
update_plugin_config-IsSound now plugin_config t h = after-guard IsSound _ _ _ t h λ there.
    after-guard IsSound _ _ _ t h λ allowed.
      plugins-IsSound t _ _ _
        (map-IsDistinct plugin_config_id_of (update_plugin_config_row now plugin_config)
          (update_plugin_row-id now plugin_config) t.plugin_configs h.plugin_config_ids)
        h

pub delete_plugin_config-IsSound :
    (now : ℕ) (id : String) (t : Tables) → IsSound t → IsSound (delete_plugin_config now id t)
unfolding delete_plugin_config
delete_plugin_config-IsSound now id t h = elim (Bool-cases (has_plugin_config id t)) [
  | inl there ↦ rw there (
      plugins-IsSound t _ _ _
        (retain-IsDistinct plugin_config_id_of _ t.plugin_configs h.plugin_config_ids) h)
  | inr absent ↦ rw absent (plugins-IsSound t _ _ _ h.plugin_config_ids h)
]
