-- ===== src/Admin/Frames/PluginConfigs.antt =====
-- src/admin/routes: what the handlers of plugin configurations keep.
use ferrumgw.Common.{ℕ, String, false, List, Result, ok, err, arith, string_eq}
use ferrumgw.Config.{PluginConfig, Configuration}
use ferrumgw.Admin.Api.{OperationMode}
use ferrumgw.Admin.PluginConfigs
use ferrumgw.Admin.PluginConfigs.{PluginConfigTable}
use ferrumgw.Admin.Frames.{unless_file_mode-keeps, reply_json-keeps}

module _ {Db Error : Type 0} (P : Db → Type 0) where
  module _ (T : PluginConfigTable Db Error) (available : List String) (mode : OperationMode) where
    after_create_plugin :
        (pc : PluginConfig) (r : Db × Result Error String)
        → P r.0
        → P (PluginConfigs.after_create T available mode pc r).db
    unfolding PluginConfigs.after_create
    after_create_plugin pc (db, ok id) p = reply_json-keeps P db false 201 _ p
    after_create_plugin pc (db, err e) p = p

    after_update_plugin :
        (pc : PluginConfig) (r : Db × Result Error (Unit {0}))
        → P r.0
        → P (PluginConfigs.after_update T available mode pc r).db
    unfolding PluginConfigs.after_update
    after_update_plugin pc (db, ok _) p = reply_json-keeps P db false 200 _ p
    after_update_plugin pc (db, err e) p = p

    after_delete_plugin :
        (r : Db × Result Error (Unit {0}))
        → P r.0
        → P (PluginConfigs.after_delete T available mode r).db
    unfolding PluginConfigs.after_delete
    after_delete_plugin (db, ok _) p = p
    after_delete_plugin (db, err e) p = p

    pub create_plugin-keeps :
        (now : ℕ) (db : Db) (parsed : Result Error PluginConfig)
        → P db
        → ((pc : PluginConfig) → P (T.create_plugin_config db pc).0)
        → P (PluginConfigs.create_plugin_config T available mode now db parsed).db
    unfolding PluginConfigs.create_plugin_config PluginConfigs.insert_plugin_config
    create_plugin-keeps now db (err e) p keep = unless_file_mode-keeps P mode db _ p p
    create_plugin-keeps now db (ok pc) p keep =
        let stamped = record pc { created_at = now; updated_at = now } in
        unless_file_mode-keeps P mode db _ p (
          ground
            (arith, after_create_plugin stamped (T.create_plugin_config db stamped) (keep stamped)))

    pub update_plugin-keeps :
        (id : String) (config : Configuration) (now : ℕ) (db : Db)
        (parsed : Result Error PluginConfig)
        → P db
        → ((pc : PluginConfig) → P (T.update_plugin_config db pc).0)
        → P (PluginConfigs.update_plugin_config T available mode id config now db parsed).db
    unfolding PluginConfigs.update_plugin_config PluginConfigs.replace_plugin_config
    update_plugin-keeps id config now db (err e) p keep = unless_file_mode-keeps P mode db _ p p
    update_plugin-keeps id config now db (ok pc) p keep =
        let stamped = record pc { updated_at = now } in
        unless_file_mode-keeps P mode db _ p (
          ground
            (arith, after_update_plugin stamped (T.update_plugin_config db stamped) (keep stamped)))

    pub delete_plugin-keeps :
        (id : String) (config : Configuration) (db : Db)
        → P db
        → P (T.delete_plugin_config db id).0
        → P (PluginConfigs.delete_plugin_config T available mode id config db).db
    unfolding PluginConfigs.delete_plugin_config
    delete_plugin-keeps id config db p keep =
        unless_file_mode-keeps P mode db _ p
          (ground (arith, after_delete_plugin (T.delete_plugin_config db id) keep))
