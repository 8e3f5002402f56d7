-- ===== src/Database/Sqlite/Proxies.antt =====
-- src/database/sqlite.rs: the writes of proxies.
use ferrumgw.Common.{
  ℕ, ◌%◌, ◌^◌, Option, none, some, String, Bytes, Bool, not, ◌&&◌, List, [], ◌∷◌, ◌++◌, map, Result,
  ok, err, ◌==◌, string_eq, bytes_eq, any, retain, if◌then◌else◌,
}
use ferrumgw.Config.{Proxy, PluginAssociation}
use ferrumgw.Database.Sqlite.{
  ProxyRow, PluginConfigRow, Tables, DbError, path_exists, other_path_exists, proxy_missing,
  constraint_failed, no_such_column, protocol_text, auth_mode_text, track_deletion, is_named,
  refuse_if,
}
use ferrumgw.Database.Sqlite.Stamps.{to_rfc3339, datetime_now}

abbrev pub id_of_row : ProxyRow → String
id_of_row row = row.columns.id

abbrev pub has_proxy : String → Tables → Bool
has_proxy id t = any (λ row. row.columns.id == id) t.proxies

abbrev pub has_path : Bytes → Tables → Bool
has_path path t = any (λ row. row.columns.listen_path == path) t.proxies

abbrev pub has_other_path : Proxy → Tables → Bool
has_other_path proxy t =
    any (λ row. row.columns.listen_path == proxy.listen_path && not (row.columns.id == proxy.id))
      t.proxies

-- `as i64`: the 64 bits of the number, which from 2^63 on stand for a negative one.
abbrev pub as_i64 : ℕ → ℕ
as_i64 n = n % 2 ^ 64

abbrev pub ttl_as_i64 : Option ℕ → Option ℕ
ttl_as_i64 none = none
ttl_as_i64 (some ttl) = some (as_i64 ttl)

-- The proxy as its columns hold it: its associations are not stored.
abbrev pub bound : Proxy → Proxy
bound proxy = record proxy {
  backend_connect_timeout_ms = as_i64 proxy.backend_connect_timeout_ms;
  backend_read_timeout_ms = as_i64 proxy.backend_read_timeout_ms;
  backend_write_timeout_ms = as_i64 proxy.backend_write_timeout_ms;
  dns_cache_ttl_seconds = ttl_as_i64 proxy.dns_cache_ttl_seconds;
  plugins = [];
}

-- The row that `create_proxy` inserts.
abbrev pub new_row : Proxy → ProxyRow
new_row proxy = record {
  columns = bound proxy;
  backend_protocol = protocol_text proxy.backend_protocol;
  auth_mode = auth_mode_text proxy.auth_mode;
  created_at = to_rfc3339 proxy.created_at;
  updated_at = to_rfc3339 proxy.updated_at;
}

-- `create_proxy`. The primary key refuses an id that is there.
unfoldable pub create_proxy : Proxy → Tables → Result DbError Tables
create_proxy proxy t = refuse_if (has_path proxy.listen_path t) path_exists (
    refuse_if (has_proxy proxy.id t) constraint_failed
      (ok (record t { proxies = t.proxies ++ (new_row proxy ∷ []) })))

-- `UPDATE proxies SET ... WHERE id = ?`
abbrev pub update_row : ℕ → Proxy → ProxyRow → ProxyRow
update_row now proxy row =
    if row.columns.id == proxy.id
    then record {
      columns = record (bound proxy) { created_at = row.columns.created_at };
      backend_protocol = protocol_text proxy.backend_protocol;
      auth_mode = auth_mode_text proxy.auth_mode;
      created_at = row.created_at;
      updated_at = datetime_now now;
    }
    else row

-- The loop that inserts the associations: the statement names a column that the table does not have.
abbrev pub insert_associations : List PluginAssociation → Tables → Result DbError Tables
insert_associations [] t = ok t
insert_associations (a ∷ plugins) t = err no_such_column

abbrev pub delete_associations : String → Tables → Tables
delete_associations id t = record t {
  associations = retain (λ a. not (a.proxy_id == id)) t.associations;
}

-- `update_proxy`
unfoldable pub update_proxy : ℕ → Proxy → Tables → Result DbError Tables
update_proxy now proxy t = refuse_if (not (has_proxy proxy.id t)) proxy_missing (
    refuse_if (has_other_path proxy t) other_path_exists (
      insert_associations proxy.plugins (
        delete_associations proxy.id
          (record t { proxies = map (update_row now proxy) t.proxies }))))

-- Whether the plugin configuration belongs to the proxy.
abbrev pub is_owned : String → PluginConfigRow → Bool
is_owned id row = is_named id row.columns.proxy_id

-- The foreign keys: what refers to the proxy is deleted with it.
abbrev pub cascade : String → Tables → Tables
cascade id t = record t {
  plugin_configs = retain (λ row. not (is_owned id row)) t.plugin_configs;
  associations =
      retain
        (λ a.
          not
            (any (λ row. is_owned id row && row.columns.id == a.plugin_config_id) t.plugin_configs))
        t.associations;
}

-- `delete_proxy`
unfoldable pub delete_proxy : ℕ → String → Tables → Tables
delete_proxy now id t =
    if has_proxy id t
    then cascade id (record (delete_associations id t) {
      proxies = retain (λ row. not (row.columns.id == id)) t.proxies;
      proxy_deletions = track_deletion id (datetime_now now) t.proxy_deletions;
    })
    else delete_associations id t
