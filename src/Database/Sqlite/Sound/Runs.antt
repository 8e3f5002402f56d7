-- ===== src/Database/Sqlite/Sound/Runs.antt =====
-- src/database/sqlite.rs: what every sequence of writes keeps.
use ferrumgw.Common.{ℕ, Bytes, ◌≡◌, refl, List, [], ◌∷◌, map, ok, string_eq, bytes_eq}
use ferrumgw.Common.Distinct.{IsDistinct, has_key}
use ferrumgw.Config.{PluginConfig}
use ferrumgw.Config.Paths.{validate_listen_path_uniqueness, HasUniquePaths, has_path, validate_iff}
use ferrumgw.Database.Sqlite.{ProxyRow, AssociationRow, Tables, ensure_tables}
use ferrumgw.Database.Sqlite.Writes.{
  Write, write, after, writes, creates_proxy, updates_proxy, deletes_proxy, creates_consumer,
  updates_consumer, deletes_consumer, creates_plugin_config, updates_plugin_config,
  deletes_plugin_config,
}
use ferrumgw.Database.Sqlite.Loading.{load_configuration, read_proxy}
use ferrumgw.Database.Sqlite.Sound.{path_of, IsSound}
use ferrumgw.Database.Sqlite.Sound.Proxies.{
  create_proxy-IsSound, update_proxy-IsSound, delete_proxy-IsSound,
}
use ferrumgw.Database.Sqlite.Sound.Consumers.{
  create_consumer-IsSound, update_consumer-IsSound, delete_consumer-IsSound,
}
use ferrumgw.Database.Sqlite.Sound.PluginConfigs.{
  create_plugin_config-IsSound, update_plugin_config-IsSound, delete_plugin_config-IsSound,
}

write-IsSound : (w : Write) (t : Tables) → IsSound t → IsSound (after t (write w t))
unfolding write after
write-IsSound (creates_proxy proxy) t h = create_proxy-IsSound proxy t h
write-IsSound (updates_proxy now proxy) t h = update_proxy-IsSound now proxy t h
write-IsSound (deletes_proxy now id) t h = delete_proxy-IsSound now id t h
write-IsSound (creates_consumer uuid now consumer) t h =
    create_consumer-IsSound uuid now consumer t h
write-IsSound (updates_consumer now consumer) t h = update_consumer-IsSound now consumer t h
write-IsSound (deletes_consumer now id) t h = delete_consumer-IsSound now id t h
write-IsSound (creates_plugin_config uuid now plugin_config) t h =
    create_plugin_config-IsSound uuid now plugin_config t h
write-IsSound (updates_plugin_config now plugin_config) t h =
    update_plugin_config-IsSound now plugin_config t h
write-IsSound (deletes_plugin_config now id) t h = delete_plugin_config-IsSound now id t h

writes-IsSound : (ws : List Write) (t : Tables) → IsSound t → IsSound (writes ws t)
unfolding writes
writes-IsSound [] t h = h
writes-IsSound (w ∷ ws) t h = writes-IsSound ws (after t (write w t)) (write-IsSound w t h)

loaded_path :
    (known : List PluginConfig) (rows : List AssociationRow) (path : Bytes)
    (proxies : List ProxyRow)
    → has_path path (map (read_proxy known rows) proxies) ≡ has_key path_of path proxies
loaded_path known rows path [] = refl
loaded_path known rows path (r ∷ proxies) = rw (loaded_path known rows path proxies) refl

loaded-HasUniquePaths :
    (known : List PluginConfig) (rows : List AssociationRow) (proxies : List ProxyRow)
    → IsDistinct path_of proxies
    → HasUniquePaths (map (read_proxy known rows) proxies)
loaded-HasUniquePaths known rows [] d = tt
loaded-HasUniquePaths known rows (r ∷ proxies) (fresh, d) = (
  rw (loaded_path known rows r.columns.listen_path proxies) fresh,
  loaded-HasUniquePaths known rows proxies d,
)

pub IsSound-validate :
    (t : Tables) (now : ℕ)
    → IsSound t
    → validate_listen_path_uniqueness (load_configuration now t) ≡ ok tt
unfolding load_configuration
IsSound-validate t now sound = (validate_iff _).1 (loaded-HasUniquePaths _ _ _ sound.paths)

pub ensure_tables-IsSound : IsSound ensure_tables
ensure_tables-IsSound = record {
  proxy_ids = tt;
  paths = tt;
  consumer_ids = tt;
  usernames = tt;
  plugin_config_ids = tt;
}

-- From a database whose tables the gateway created, after any sequence of creations, updates and
-- deletions of proxies, consumers and plugin configurations, failed ones included, no two proxies share
-- an id or a listen path, no two consumers an id or a username, no two plugin configurations an id; and
-- the configuration that is loaded passes the validation of the gateway.
pub writes_stay_valid :
    (ws : List Write) (now : ℕ)
    → IsSound (writes ws ensure_tables)
      × (validate_listen_path_uniqueness (load_configuration now (writes ws ensure_tables)) ≡ ok tt)
writes_stay_valid ws now =
    let sound = writes-IsSound ws ensure_tables ensure_tables-IsSound in
    (sound, IsSound-validate (writes ws ensure_tables) now sound)
