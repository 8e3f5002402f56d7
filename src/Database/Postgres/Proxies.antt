-- ===== src/Database/Postgres/Proxies.antt =====
-- src/database/postgres.rs: the writes of proxies. A new row gets the identifier `uuid`, where the schema
-- makes one, and the time `now`, which are arguments.
use ferrumgw.Common.{
  ℕ, String, Bytes, Bool, not, ◌&&◌, ◌||◌, List, [], ◌∷◌, ◌++◌, map, Result, ok, ◌>>=◌, ◌==◌,
  nat_eq, string_eq, bytes_eq, any, retain, if◌then◌else◌,
}
use ferrumgw.Config.{Proxy, PluginConfig, PluginAssociation}
use ferrumgw.Database.Sqlite.{
  DbError, path_exists, other_path_exists, proxy_missing, constraint_failed, no_such_column,
  protocol_text, auth_mode_text, is_named,
}
use ferrumgw.Database.Postgres.{
  Schema, ProxyRow, AssociationRow, DeletionRow, Tables, track_deletion, refuse_if,
}

abbrev pub has_proxy : String → Tables → Bool
has_proxy id t = any (λ row. row.columns.id == id) t.proxies

abbrev pub has_path : Bytes → Tables → Bool
has_path path t = any (λ row. row.columns.listen_path == path) t.proxies

abbrev pub has_other_path : Proxy → Tables → Bool
has_other_path proxy t =
    any (λ row. row.columns.listen_path == proxy.listen_path && not (row.columns.id == proxy.id))
      t.proxies

-- The proxy with what `RETURNING` gives.
abbrev pub returned : String → ℕ → Proxy → Proxy
returned uuid now proxy = record proxy { id = uuid; created_at = now; updated_at = now }

abbrev pub row_of : Proxy → ProxyRow
row_of proxy = record {
  columns = record proxy { plugins = [] };
  backend_protocol = protocol_text proxy.backend_protocol;
  auth_mode = auth_mode_text proxy.auth_mode;
}

abbrev pub association_row : String → PluginAssociation → AssociationRow
association_row id a = record {
  proxy_id = id;
  plugin_config_id = a.plugin_config_id;
  embedded_config = a.embedded_config;
}

-- The foreign key and the primary key of the associations.
abbrev pub lacks_plugin_config : List PluginConfig → String → Bool
lacks_plugin_config known plugin_config_id = not (any (λ pc. pc.id == plugin_config_id) known)

abbrev pub is_associated : String → String → List AssociationRow → Bool
is_associated id plugin_config_id =
    any (λ r. r.proxy_id == id && r.plugin_config_id == plugin_config_id)

-- `UPDATE proxies SET ... WHERE id = $19`
abbrev pub update_row : ℕ → Proxy → ProxyRow → ProxyRow
update_row now proxy row =
    if row.columns.id == proxy.id
    then row_of (record proxy { created_at = row.columns.created_at; updated_at = now })
    else row

abbrev pub delete_associations : String → List AssociationRow → List AssociationRow
delete_associations id = retain (λ a. not (a.proxy_id == id))

module _ (schema : Schema) where
  -- The loop that inserts the associations of a proxy.
  unfoldable pub insert_associations :
      List PluginConfig
      → String
      → List PluginAssociation
      → List AssociationRow
      → Result DbError (List AssociationRow)
  insert_associations known id [] rows = ok rows
  insert_associations known id (a ∷ plugins) rows =
      refuse_if (not schema.keeps_embedded) no_such_column (
        refuse_if
          (lacks_plugin_config known a.plugin_config_id || is_associated id a.plugin_config_id rows)
          constraint_failed
          (insert_associations known id plugins (rows ++ (association_row id a ∷ []))))

  -- `create_proxy`. Without a default the key is NULL, which is refused.
  unfoldable pub create_proxy : String → ℕ → Proxy → Tables → Result DbError (Proxy × Tables)
  create_proxy uuid now proxy t = refuse_if (has_path proxy.listen_path t) path_exists (
      refuse_if (not schema.generates_ids || has_proxy uuid t || proxy.backend_port == 0)
        constraint_failed
        (do
          associations ← insert_associations t.plugin_configs uuid proxy.plugins t.associations
          ok (
            returned uuid now proxy,
            record t {
              proxies = t.proxies ++ (row_of (returned uuid now proxy) ∷ []);
              associations = associations;
            },
          )))

  -- `update_proxy`
  unfoldable pub update_proxy : ℕ → Proxy → Tables → Result DbError (Proxy × Tables)
  update_proxy now proxy t = refuse_if (not (has_proxy proxy.id t)) proxy_missing (
      refuse_if (has_other_path proxy t) other_path_exists (
        refuse_if (proxy.backend_port == 0) constraint_failed (do
          associations ←
              insert_associations t.plugin_configs proxy.id proxy.plugins
                (delete_associations proxy.id t.associations)
          ok (
            record proxy { updated_at = now },
            record t {
              proxies = map (update_row now proxy) t.proxies;
              associations = associations;
            },
          ))))

-- Whether the plugin configuration belongs to the proxy.
abbrev pub is_owned : String → PluginConfig → Bool
is_owned id pc = is_named id pc.proxy_id

-- The trigger for the plugin configurations that are deleted with the proxy.
abbrev pub track_owned : String → ℕ → List PluginConfig → List DeletionRow → List DeletionRow
track_owned id now [] ds = ds
track_owned id now (pc ∷ pcs) ds =
    track_owned id now pcs (if is_owned id pc then track_deletion pc.id now ds else ds)

-- The foreign keys: what refers to the proxy is deleted with it.
abbrev pub cascade : String → ℕ → Tables → Tables
cascade id now t = record t {
  plugin_configs = retain (λ pc. not (is_owned id pc)) t.plugin_configs;
  associations =
      retain (λ a. not (any (λ pc. is_owned id pc && pc.id == a.plugin_config_id) t.plugin_configs))
        t.associations;
  plugin_config_deletions = track_owned id now t.plugin_configs t.plugin_config_deletions;
}

-- `delete_proxy`
unfoldable pub delete_proxy : ℕ → String → Tables → Tables
delete_proxy now id t =
    let kept = retain (λ a. not (a.proxy_id == id)) t.associations in
    if has_proxy id t
    then cascade id now (record t {
      associations = kept;
      proxies = retain (λ row. not (row.columns.id == id)) t.proxies;
      proxy_deletions = track_deletion id now t.proxy_deletions;
    })
    else record t { associations = kept }
