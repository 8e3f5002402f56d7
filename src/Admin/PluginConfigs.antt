-- ===== src/Admin/PluginConfigs.antt =====
-- src/admin/routes/plugins.rs: the handlers of the plugin configurations and of the types of plugins.
-- `available` are the names of the registered plugins; `parsed` is the body of the request, read and
-- parsed. The lists ignore the query of the request: they read the pagination of an empty one.
use ferrumgw.Common.{
  ℕ, String, Bool, false, not, List, Option, none, some, Result, ok, err, any, find, contains, ◌==◌,
  string_eq, if◌then◌else◌,
}
use ferrumgw.Config.{PluginConfig, Configuration}
use ferrumgw.Admin.Api.{
  OperationMode, Done, created_status, no_content, bad_request, not_found, internal_server_error,
  message, failed, taken, empty, reply, fail, reply_json, unless_file_mode,
}

pub record PluginConfigTable (Db Error : Type 0) : Type 0 where
  pub create_plugin_config : Db → PluginConfig → Db × Result Error String
  pub update_plugin_config : Db → PluginConfig → Db × Result Error (Unit {0})
  pub delete_plugin_config : Db → String → Db × Result Error (Unit {0})
  pub to_json : PluginConfig → Result Error String

abbrev pub exists_plugin_config : String → Configuration → Bool
exists_plugin_config config_id config = any (λ pc. pc.id == config_id) config.plugin_configs

module _ {Db Error : Type 0} (T : PluginConfigTable Db Error) (available : List String)
    (mode : OperationMode) where
  -- The id is the one that the database made.
  unfoldable pub after_create : PluginConfig → Db × Result Error String → Done Db Error
  after_create plugin_config (db, ok id) =
      reply_json db false created_status (T.to_json (record plugin_config { id = id }))
  after_create plugin_config (db, err e) =
      reply db false internal_server_error (failed "Failed to create plugin config" e)

  unfoldable pub insert_plugin_config : ℕ → Db → Result Error PluginConfig → Done Db Error
  insert_plugin_config now db (ok plugin_config) =
      let stamped = record plugin_config { created_at = now; updated_at = now } in
      if not (contains available plugin_config.plugin_name)
      then reply db false bad_request (taken "Invalid plugin type")
      else after_create stamped (T.create_plugin_config db stamped)
  insert_plugin_config now db (err e) = fail db e

  unfoldable pub create_plugin_config : ℕ → Db → Result Error PluginConfig → Done Db Error
  create_plugin_config now db parsed = unless_file_mode mode db (insert_plugin_config now db parsed)

  unfoldable pub after_update : PluginConfig → Db × Result Error (Unit {0}) → Done Db Error
  after_update plugin_config (db, ok _) = reply_json db false 200 (T.to_json plugin_config)
  after_update plugin_config (db, err e) =
      reply db false internal_server_error (failed "Failed to update plugin config" e)

  unfoldable pub replace_plugin_config :
      String → Configuration → ℕ → Db → Result Error PluginConfig → Done Db Error
  replace_plugin_config config_id config now db (ok plugin_config) =
      let stamped = record plugin_config { updated_at = now } in
      if not (plugin_config.id == config_id)
      then reply db false bad_request (message "Plugin config ID in path does not match ID in body")
      else if not (contains available plugin_config.plugin_name)
      then reply db false bad_request (taken "Invalid plugin type")
      else if not (exists_plugin_config config_id config)
      then reply db false not_found (message "Plugin config not found")
      else after_update stamped (T.update_plugin_config db stamped)
  replace_plugin_config config_id config now db (err e) = fail db e

  unfoldable pub update_plugin_config :
      String → Configuration → ℕ → Db → Result Error PluginConfig → Done Db Error
  update_plugin_config config_id config now db parsed =
      unless_file_mode mode db (replace_plugin_config config_id config now db parsed)

  unfoldable pub after_delete : Db × Result Error (Unit {0}) → Done Db Error
  after_delete (db, ok _) = reply db false no_content empty
  after_delete (db, err e) =
      reply db false internal_server_error (failed "Failed to delete plugin config" e)

  unfoldable pub delete_plugin_config : String → Configuration → Db → Done Db Error
  delete_plugin_config config_id config db = unless_file_mode mode db (
      if not (exists_plugin_config config_id config)
      then reply db false not_found (message "Plugin config not found")
      else after_delete (T.delete_plugin_config db config_id))

-- `get_plugin_config`: only the configuration in memory is asked; one that it does not have is the error
-- `plugin_config_not_found`.
module _ {Db Error : Type 0} (T : PluginConfigTable Db Error)
    (plugin_config_not_found : Error) where
  abbrev found : Db → Option PluginConfig → Done Db Error
  found db (some plugin_config) = reply_json db false 200 (T.to_json plugin_config)
  found db none = fail db plugin_config_not_found

  unfoldable pub get_plugin_config : String → Configuration → Db → Done Db Error
  get_plugin_config config_id config db =
      found db (find (λ pc. pc.id == config_id) config.plugin_configs)
