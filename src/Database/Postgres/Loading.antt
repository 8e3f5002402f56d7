-- ===== src/Database/Postgres/Loading.antt =====
-- src/database/postgres.rs: what is read from the tables. The order of rows that the source leaves open
-- is that of the tables.
use ferrumgw.Common.{
  ℕ, String, List, [], ◌∷◌, ◌++◌, map, Option, none, some, Result, ok, err, not, ◌>>=◌, ◌==◌,
  string_eq, find, retain, ltb, if◌then◌else◌,
}
use ferrumgw.Config.{Proxy, Consumer, PluginAssociation, Configuration}
use ferrumgw.Config.Delta.{ConfigurationDelta}
use ferrumgw.Database.Sqlite.{DbError, no_such_column, consumer_missing}
use ferrumgw.Database.Sqlite.Loading.{parse_delta_protocol, parse_auth_mode}
use ferrumgw.Database.Postgres.{Schema, ProxyRow, AssociationRow, DeletionRow, Tables, refuse_if}

-- `ORDER BY`, for a column of times
module _ {A : Type 0} (time_of : A → ℕ) where
  abbrev pub insert_ordered : A → List A → List A
  insert_ordered a [] = a ∷ []
  insert_ordered a (x ∷ xs) =
      if ltb (time_of x) (time_of a) then x ∷ insert_ordered a xs else a ∷ x ∷ xs

  abbrev pub order_by : List A → List A
  order_by [] = []
  order_by (x ∷ xs) = insert_ordered x (order_by xs)

  -- `WHERE ... > $1 ORDER BY ...`
  abbrev pub rows_since : ℕ → List A → List A
  rows_since since rows = order_by (retain (λ a. ltb since (time_of a)) rows)

abbrev pub plugin_of : AssociationRow → PluginAssociation
plugin_of a = record { plugin_config_id = a.plugin_config_id; embedded_config = a.embedded_config }

abbrev pub plugins_of : String → List AssociationRow → List PluginAssociation
plugins_of id rows = map plugin_of (retain (λ a. a.proxy_id == id) rows)

-- Both matches of the source read the texts of the enums alike.
abbrev pub read_proxy : List AssociationRow → ProxyRow → Proxy
read_proxy associations row = record row.columns {
  backend_protocol = parse_delta_protocol row.backend_protocol;
  auth_mode = parse_auth_mode row.auth_mode;
  plugins = plugins_of row.columns.id associations;
}

-- The loop over the proxies: the query of the associations names their columns.
abbrev pub read_proxies : Schema → List AssociationRow → List ProxyRow → Result DbError (List Proxy)
read_proxies schema associations [] = ok []
read_proxies schema associations (row ∷ rows) =
    refuse_if (not schema.keeps_embedded) no_such_column
      (ok (map (read_proxy associations) (row ∷ rows)))

-- The greatest one of times, for `max` and `MAX`.
abbrev pub max_or : Option ℕ → List ℕ → Option ℕ
max_or m [] = m
max_or none (x ∷ xs) = max_or (some x) xs
max_or (some m) (x ∷ xs) = max_or (some (if ltb m x then x else m)) xs

abbrev pub time_or : ℕ → Option ℕ → ℕ
time_or now none = now
time_or now (some t) = t

abbrev pub update_times : Tables → List ℕ
update_times t =
    map (λ row. row.columns.updated_at) t.proxies
    ++ map (λ c. c.updated_at) t.consumers
    ++ map (λ pc. pc.updated_at) t.plugin_configs

-- `load_full_configuration`
unfoldable pub load_full_configuration : Schema → ℕ → Tables → Result DbError Configuration
load_full_configuration schema now t = do
  proxies ← read_proxies schema t.associations (order_by (λ row. row.columns.created_at) t.proxies)
  ok record {
    proxies = proxies;
    consumers = order_by (λ c. c.created_at) t.consumers;
    plugin_configs = order_by (λ pc. pc.created_at) t.plugin_configs;
    last_updated_at = time_or now (max_or none (update_times t));
  }

-- `get_consumer_by_id`
unfoldable pub get_consumer_by_id : String → Tables → Result DbError Consumer
get_consumer_by_id id t = elim (find (λ c. c.id == id) t.consumers) [
  | none ↦ err consumer_missing
  | some c ↦ ok c
]

-- `get_latest_update_timestamp`
unfoldable pub get_latest_update_timestamp : ℕ → Tables → ℕ
get_latest_update_timestamp now t = time_or now (max_or none (update_times t))

abbrev pub deleted_since : ℕ → List DeletionRow → List String
deleted_since since rows = map (λ d. d.id) (retain (λ d. ltb since d.deleted_at) rows)

-- `load_configuration_delta`
unfoldable pub load_configuration_delta :
    Schema → ℕ → ℕ → Tables → Result DbError ConfigurationDelta
load_configuration_delta schema now since t = do
  updated_proxies ←
      read_proxies schema t.associations
        (rows_since (λ row. row.columns.updated_at) since t.proxies)
  ok record {
    updated_proxies = updated_proxies;
    deleted_proxy_ids = deleted_since since t.proxy_deletions;
    updated_consumers = rows_since (λ c. c.updated_at) since t.consumers;
    deleted_consumer_ids = deleted_since since t.consumer_deletions;
    updated_plugin_configs = rows_since (λ pc. pc.updated_at) since t.plugin_configs;
    deleted_plugin_config_ids = deleted_since since t.plugin_config_deletions;
    last_updated_at = get_latest_update_timestamp now t;
  }
