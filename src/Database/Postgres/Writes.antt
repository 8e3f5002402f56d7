-- ===== src/Database/Postgres/Writes.antt =====
-- src/database/postgres.rs: all writes of the client, and sequences of them.
use ferrumgw.Common.{ℕ, String, List, [], ◌∷◌, Result, ok, err}
use ferrumgw.Config.{Proxy, Consumer, PluginConfig}
use ferrumgw.Database.Postgres.{Schema, Tables}
use ferrumgw.Database.Postgres.Proxies.{create_proxy, update_proxy, delete_proxy}
use ferrumgw.Database.Postgres.Consumers.{create_consumer, update_consumer, delete_consumer}
use ferrumgw.Database.Postgres.PluginConfigs.{
  create_plugin_config, update_plugin_config, delete_plugin_config,
}
use ferrumgw.Database.Sqlite.{DbError}

-- A write, with the time of its transaction and the new identifier that it takes.
pub data Write : Type 0 where
  creates_proxy : String → ℕ → Proxy → Write
  updates_proxy : ℕ → Proxy → Write
  deletes_proxy : ℕ → String → Write
  creates_consumer : String → ℕ → Consumer → Write
  updates_consumer : ℕ → Consumer → Write
  deletes_consumer : ℕ → String → Write
  creates_plugin_config : String → ℕ → PluginConfig → Write
  updates_plugin_config : ℕ → PluginConfig → Write
  deletes_plugin_config : ℕ → String → Write

-- A transaction that fails leaves the tables as they were.
unfoldable pub after : {A : Type 0} → Tables → Result DbError (A × Tables) → Tables
after t (ok (a, u)) = u
after t (err e) = t

unfoldable pub after_delete : Tables → Result DbError Tables → Tables
after_delete t (ok u) = u
after_delete t (err e) = t

module _ (schema : Schema) where
  unfoldable pub write : Write → Tables → Tables
  write (creates_proxy uuid now proxy) t = after t (create_proxy schema uuid now proxy t)
  write (updates_proxy now proxy) t = after t (update_proxy schema now proxy t)
  write (deletes_proxy now id) t = delete_proxy now id t
  write (creates_consumer uuid now consumer) t =
      after t (create_consumer schema uuid now consumer t)
  write (updates_consumer now consumer) t = after t (update_consumer now consumer t)
  write (deletes_consumer now id) t = after_delete t (delete_consumer now id t)
  write (creates_plugin_config uuid now plugin_config) t =
      after t (create_plugin_config schema uuid now plugin_config t)
  write (updates_plugin_config now plugin_config) t =
      after t (update_plugin_config now plugin_config t)
  write (deletes_plugin_config now id) t = after_delete t (delete_plugin_config now id t)

  unfoldable pub writes : List Write → Tables → Tables
  writes [] t = t
  writes (w ∷ ws) t = writes ws (write w t)
