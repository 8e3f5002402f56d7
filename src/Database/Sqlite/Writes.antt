-- ===== src/Database/Sqlite/Writes.antt =====
-- src/database/sqlite.rs: all writes of the client, and sequences of them.
use ferrumgw.Common.{
  ℕ, String, ◌≡◌, refl, Bool, true, false, List, [], ◌∷◌, Result, ok, err, string_eq, bytes_eq,
}
use ferrumgw.Config.{Proxy, Consumer, PluginConfig}
use ferrumgw.Database.Sqlite.{Tables, DbError, refuse_if}
use ferrumgw.Database.Sqlite.Proxies.{create_proxy, update_proxy, delete_proxy}
use ferrumgw.Database.Sqlite.Consumers.{create_consumer, update_consumer, delete_consumer}
use ferrumgw.Database.Sqlite.PluginConfigs.{
  create_plugin_config, update_plugin_config, delete_plugin_config,
}

-- A write, with the time and the new identifier that it takes.
pub data Write : Type 0 where
  creates_proxy : Proxy → Write
  updates_proxy : ℕ → Proxy → Write
  deletes_proxy : ℕ → String → Write
  creates_consumer : String → ℕ → Consumer → Write
  updates_consumer : ℕ → Consumer → Write
  deletes_consumer : ℕ → String → Write
  creates_plugin_config : String → ℕ → PluginConfig → Write
  updates_plugin_config : ℕ → PluginConfig → Write
  deletes_plugin_config : ℕ → String → Write

unfoldable pub write : Write → Tables → Result DbError Tables
write (creates_proxy proxy) t = create_proxy proxy t
write (updates_proxy now proxy) t = update_proxy now proxy t
write (deletes_proxy now id) t = ok (delete_proxy now id t)
write (creates_consumer uuid now consumer) t = create_consumer uuid now consumer t
write (updates_consumer now consumer) t = update_consumer now consumer t
write (deletes_consumer now id) t = ok (delete_consumer now id t)
write (creates_plugin_config uuid now plugin_config) t =
    create_plugin_config uuid now plugin_config t
write (updates_plugin_config now plugin_config) t = update_plugin_config now plugin_config t
write (deletes_plugin_config now id) t = ok (delete_plugin_config now id t)

-- A write that fails leaves the tables as they were.
unfoldable pub after : Tables → Result DbError Tables → Tables
after t (ok u) = u
after t (err e) = t

unfoldable pub writes : List Write → Tables → Tables
writes [] t = t
writes (w ∷ ws) t = writes ws (after t (write w t))

-- A test that refuses the write, and what is done where it does not.
pub after-guard {ℓ} :
    (P : Tables → Type ℓ) (b : Bool) (e : DbError) (o : Result DbError Tables) (t : Tables)
    → P t
    → (b ≡ false → P (after t o))
    → P (after t (refuse_if b e o))
unfolding after refuse_if
after-guard P true e o t h next = h
after-guard P false e o t h next = next refl
