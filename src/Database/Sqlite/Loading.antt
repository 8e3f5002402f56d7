-- ===== src/Database/Sqlite/Loading.antt =====
-- src/database/sqlite.rs: what is read from the tables. Where the source pushes a plugin configuration
-- to the plugins of a proxy, which are associations, the association that names it is pushed.
use ferrumgw.Common.{
  ℕ, String, List, [], ◌∷◌, map, Option, none, some, Result, ok, err, ◌>>=◌, ◌==◌, string_eq, find,
  retain, if◌then◌else◌,
}
use ferrumgw.Config.{
  Proxy, Consumer, PluginConfig, PluginAssociation, Configuration, BackendProtocol, AuthMode, http,
  https, ws, wss, grpc, single, multi,
}
use ferrumgw.Config.Delta.{ConfigurationDelta}
use ferrumgw.Database.Sqlite.{
  ProxyRow, ConsumerRow, PluginConfigRow, AssociationRow, DeletionRow, Tables, DbError,
  no_such_column,
}
use ferrumgw.Database.Sqlite.Stamps.{Stamp, to_rfc3339, time_of, is_after, greater, max_stamp}

-- The match of `load_proxies`
abbrev pub parse_protocol : String → BackendProtocol
parse_protocol s =
    if s == "http"
    then http
    else if s == "https"
    then https
    else if s == "ws"
    then ws
    else if s == "wss"
    then wss
    else http

-- The match of `load_configuration_delta`
abbrev pub parse_delta_protocol : String → BackendProtocol
parse_delta_protocol s = if s == "grpc" then grpc else parse_protocol s

abbrev pub parse_auth_mode : String → AuthMode
parse_auth_mode s = if s == "multi" then multi else single

abbrev pub read_consumer : ConsumerRow → Consumer
read_consumer row = record row.columns {
  created_at = time_of row.created_at;
  updated_at = time_of row.updated_at;
}

abbrev pub read_plugin_config : PluginConfigRow → PluginConfig
read_plugin_config row = record row.columns {
  created_at = time_of row.created_at;
  updated_at = time_of row.updated_at;
}

-- The plugins that the rows of the associations give to a proxy.
abbrev pub plugins_of : List PluginConfig → String → List AssociationRow → List PluginAssociation
plugins_of known id [] = []
plugins_of known id (a ∷ rows) =
    let rest = plugins_of known id rows in
    if a.proxy_id == id
    then elim (find (λ pc. pc.id == a.plugin_config_id) known) [
      | none ↦ rest
      | some pc ↦ record { plugin_config_id = pc.id; embedded_config = none } ∷ rest
    ]
    else rest

abbrev pub read_proxy : List PluginConfig → List AssociationRow → ProxyRow → Proxy
read_proxy known associations row = record row.columns {
  backend_protocol = parse_protocol row.backend_protocol;
  auth_mode = parse_auth_mode row.auth_mode;
  plugins = plugins_of known row.columns.id associations;
  created_at = time_of row.created_at;
  updated_at = time_of row.updated_at;
}

-- `load_configuration`, and `load_full_configuration`, which does the same in a transaction.
unfoldable pub load_configuration : ℕ → Tables → Configuration
load_configuration now t =
    let plugin_configs = map read_plugin_config t.plugin_configs in
    record {
      proxies = map (read_proxy plugin_configs t.associations) t.proxies;
      consumers = map read_consumer t.consumers;
      plugin_configs = plugin_configs;
      last_updated_at = now;
    }

-- `get_consumer_by_id`
unfoldable pub get_consumer_by_id : String → Tables → Option Consumer
get_consumer_by_id id t = find (λ c. c.id == id) (map read_consumer t.consumers)

-- `get_latest_update_timestamp`
abbrev pub latest_or : ℕ → Option Stamp → ℕ
latest_or now none = now
latest_or now (some s) = time_of s

unfoldable pub get_latest_update_timestamp : ℕ → Tables → ℕ
get_latest_update_timestamp now t = latest_or now (
    greater (max_stamp (λ row. row.updated_at) t.proxies) (
      greater (max_stamp (λ row. row.updated_at) t.consumers)
        (max_stamp (λ row. row.updated_at) t.plugin_configs)))

-- `WHERE ... > ? ORDER BY ...`
module _ {A : Type 0} (stamp_of : A → Stamp) where
  abbrev pub insert_ordered : A → List A → List A
  insert_ordered a [] = a ∷ []
  insert_ordered a (x ∷ xs) =
      if is_after (stamp_of a) (stamp_of x) then x ∷ insert_ordered a xs else a ∷ x ∷ xs

  abbrev pub order_by : List A → List A
  order_by [] = []
  order_by (x ∷ xs) = insert_ordered x (order_by xs)

  abbrev pub rows_since : ℕ → List A → List A
  rows_since since rows = order_by (retain (λ a. is_after (stamp_of a) (to_rfc3339 since)) rows)

abbrev pub deleted_since : ℕ → List DeletionRow → List String
deleted_since since rows =
    map (λ d. d.id) (retain (λ d. is_after d.deleted_at (to_rfc3339 since)) rows)

-- The loop over the updated proxies: the query of the associations names a column that the table does
-- not have.
abbrev pub load_associations : List ProxyRow → Result DbError (List Proxy)
load_associations [] = ok []
load_associations (row ∷ rows) = err no_such_column

-- `load_configuration_delta`
unfoldable pub load_configuration_delta : ℕ → ℕ → Tables → Result DbError ConfigurationDelta
load_configuration_delta now since t = do
  updated_proxies ← load_associations (rows_since (λ row. row.updated_at) since t.proxies)
  ok record {
    updated_proxies = updated_proxies;
    deleted_proxy_ids = deleted_since since t.proxy_deletions;
    updated_consumers = map read_consumer (rows_since (λ row. row.updated_at) since t.consumers);
    deleted_consumer_ids = deleted_since since t.consumer_deletions;
    updated_plugin_configs =
        map read_plugin_config (rows_since (λ row. row.updated_at) since t.plugin_configs);
    deleted_plugin_config_ids = deleted_since since t.plugin_config_deletions;
    last_updated_at = get_latest_update_timestamp now t;
  }
