-- ===== src/Database/Postgres/Migrated.antt =====
-- src/database/postgres.rs with migrations/postgres: the client on the tables that the migrations create.
use ferrumgw.Common.{
  ℕ, ◌≡◌, refl, Bool, true, false, List, [], ◌∷◌, Result, ok, string_eq, bytes_eq,
}
use ferrumgw.Config.{default_configuration}
use ferrumgw.Config.Delta.{is_empty_delta, ConfigurationDelta}
use ferrumgw.Database.Sqlite.{DbError}
use ferrumgw.Database.Postgres.{Tables, migrated_schema, migrated_tables, refuse_if}
use ferrumgw.Database.Postgres.Proxies.{create_proxy, update_proxy, delete_proxy}
use ferrumgw.Database.Postgres.Consumers.{
  create_consumer, update_consumer, delete_consumer, has_custom_id,
}
use ferrumgw.Database.Postgres.PluginConfigs.{
  create_plugin_config, update_plugin_config, delete_plugin_config,
}
use ferrumgw.Database.Postgres.Loading.{
  load_full_configuration, load_configuration_delta, get_latest_update_timestamp,
}
use ferrumgw.Database.Postgres.Writes.{
  Write, write, writes, after, after_delete, creates_proxy, updates_proxy, deletes_proxy,
  creates_consumer, updates_consumer, deletes_consumer, creates_plugin_config,
  updates_plugin_config, deletes_plugin_config,
}

refused :
    {A : Type 0} (b : Bool) (e : DbError) (o : Result DbError (A × Tables)) (t : Tables)
    → after t o ≡ t
    → after t (refuse_if b e o) ≡ t
unfolding after refuse_if
refused true e o t h = refl
refused false e o t h = h

-- A write to tables without rows changes nothing.
write-migrated : (w : Write) → write migrated_schema w migrated_tables ≡ migrated_tables
unfolding write after after_delete refuse_if create_proxy update_proxy delete_proxy create_consumer
    update_consumer delete_consumer create_plugin_config update_plugin_config delete_plugin_config
write-migrated (creates_proxy uuid now proxy) = refl
write-migrated (updates_proxy now proxy) = refl
write-migrated (deletes_proxy now id) = refl
write-migrated (creates_consumer uuid now consumer) =
    refused (has_custom_id consumer.custom_id migrated_tables) _ _ migrated_tables refl
write-migrated (updates_consumer now consumer) = refl
write-migrated (deletes_consumer now id) = refl
write-migrated (creates_plugin_config uuid now plugin_config) = refl
write-migrated (updates_plugin_config now plugin_config) = refl
write-migrated (deletes_plugin_config now id) = refl

writes-migrated : (ws : List Write) → writes migrated_schema ws migrated_tables ≡ migrated_tables
unfolding writes
writes-migrated [] = refl
writes-migrated (w ∷ ws) = rw (write-migrated w) (writes-migrated ws)

-- On the tables as the migrations create them nothing is ever stored: whatever the client is asked to
-- write, a full load then gives the default configuration of its time, and the delta since any time is
-- empty.
pub nothing_is_stored :
    (ws : List Write) (now since : ℕ)
    → (load_full_configuration migrated_schema now (writes migrated_schema ws migrated_tables)
        ≡ ok (default_configuration now))
      × ((delta : ConfigurationDelta) × (load_configuration_delta migrated_schema now since
              (writes migrated_schema ws migrated_tables)
            ≡ ok delta)
          × (is_empty_delta delta ≡ true))
unfolding load_full_configuration load_configuration_delta get_latest_update_timestamp
    is_empty_delta
nothing_is_stored ws now since = rw (writes-migrated ws) (refl, (_, refl, refl))
