-- ===== src/Tests/Postgres.antt =====
-- The theorems about the PostgreSQL client, at concrete values.
use ferrumgw.Common.{◌≡◌, refl, true, List, [], ◌∷◌, some, ok, string_eq}
use ferrumgw.Config.{Proxy, PluginAssociation, Configuration, default_configuration, grpc}
use ferrumgw.Config.Delta.{ConfigurationDelta, is_empty_delta}
use ferrumgw.Config.Delta.Lookup.{find_id}
use ferrumgw.Config.Paths.{validate_listen_path_uniqueness}
use ferrumgw.Database.Postgres.{Schema, Tables, migrated_schema, migrated_tables}
use ferrumgw.Database.Postgres.Proxies.{update_proxy, row_of, association_row}
use ferrumgw.Database.Postgres.Loading.{load_full_configuration, load_configuration_delta}
use ferrumgw.Database.Postgres.Writes.{
  Write, writes, creates_proxy, updates_proxy, creates_consumer, creates_plugin_config,
}
use ferrumgw.Database.Postgres.Stored.{update_proxy-load}
use ferrumgw.Database.Postgres.Sound.{IsSound, all_writes_load}
use ferrumgw.Database.Postgres.Migrated.{nothing_is_stored}
use ferrumgw.Tests.Samples.{users, orders, alice, limiter}

-- The columns that the statements name.
abbrev full_schema : Schema
full_schema = record { generates_ids = true; keeps_embedded = true }

abbrev embedded : PluginAssociation
embedded = record { plugin_config_id = "pc1"; embedded_config = some "{}" }

abbrev grpc_orders : Proxy
grpc_orders = record orders { backend_protocol = grpc; plugins = embedded ∷ [] }

abbrev stored : Tables
stored = record migrated_tables {
  proxies = row_of users ∷ row_of orders ∷ [];
  plugin_configs = limiter ∷ [];
  associations = association_row "users" embedded ∷ association_row "orders" embedded ∷ [];
}

update_proxy-load_example :
    (u : Tables) × (before : Configuration) × (after : Configuration) × (update_proxy full_schema
        9000 grpc_orders stored
      ≡ ok (record grpc_orders { updated_at = 9000 }, u))
    × (load_full_configuration full_schema 9500 stored ≡ ok before)
    × (load_full_configuration full_schema 9500 u ≡ ok after)
    × (find_id (λ p. p.id) "orders" after.proxies
        ≡ some (record grpc_orders { created_at = 1; updated_at = 9000 }))
    × (find_id (λ p. p.id) "users" after.proxies ≡ find_id (λ p. p.id) "users" before.proxies)
update_proxy-load_example =
    update_proxy-load full_schema 9000 9500 grpc_orders (row_of orders) "users" stored refl
      (refl, (refl, tt)) refl refl refl (record { stored = (refl, tt); distinct = (refl, tt) }) refl

-- The second creation takes the path of the first.
abbrev some_writes : List Write
some_writes =
    creates_proxy "p1" 1000 users
    ∷ creates_proxy "p2" 2000 users
    ∷ creates_proxy "p3" 3000 orders
    ∷ creates_consumer "c1" 4000 alice
    ∷ creates_plugin_config "pc1" 5000 limiter
    ∷ updates_proxy 6000 (record grpc_orders { id = "p3" })
    ∷ []

all_writes_load_example :
    IsSound (writes full_schema some_writes migrated_tables)
    × ((c : Configuration) × (load_full_configuration full_schema 9000
            (writes full_schema some_writes migrated_tables)
          ≡ ok c)
        × (validate_listen_path_uniqueness c ≡ ok tt))
all_writes_load_example = all_writes_load full_schema some_writes 9000 refl

nothing_is_stored_example :
    (load_full_configuration migrated_schema 9000
        (writes migrated_schema some_writes migrated_tables)
      ≡ ok (default_configuration 9000))
    × ((delta : ConfigurationDelta) × (load_configuration_delta migrated_schema 9000 500
            (writes migrated_schema some_writes migrated_tables)
          ≡ ok delta)
        × (is_empty_delta delta ≡ true))
nothing_is_stored_example = nothing_is_stored some_writes 9000 500
