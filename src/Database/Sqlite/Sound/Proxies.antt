-- ===== src/Database/Sqlite/Sound/Proxies.antt =====
-- src/database/sqlite.rs: the writes of proxies keep the keys apart.
use ferrumgw.Common.{
  ℕ, String, ◌≡◌, refl, true, false, List, [], ◌∷◌, ◌==◌, string_eq, bytes_eq, ==_iff, arith,
  Bool-cases, inl, inr,
}
use ferrumgw.Common.Distinct.{
  append-IsDistinct, retain-IsDistinct, map-IsDistinct, overwrite-IsDistinct,
}
use ferrumgw.Config.{Proxy, PluginAssociation}
use ferrumgw.Database.Sqlite.{ProxyRow, Tables}
use ferrumgw.Database.Sqlite.Proxies.{
  create_proxy, update_proxy, delete_proxy, update_row, insert_associations, new_row, has_proxy,
}
use ferrumgw.Database.Sqlite.Writes.{after, after-guard}
use ferrumgw.Database.Sqlite.Sound.{proxy_id_of, path_of, plugin_config_id_of, IsSound}

pub create_proxy-IsSound :
    (proxy : Proxy) (t : Tables) → IsSound t → IsSound (after t (create_proxy proxy t))
unfolding create_proxy after
create_proxy-IsSound proxy t h = after-guard IsSound _ _ _ t h λ free.
    after-guard IsSound _ _ _ t h λ new. record {
      proxy_ids = append-IsDistinct proxy_id_of t.proxies (new_row proxy) new h.proxy_ids;
      paths = append-IsDistinct path_of t.proxies (new_row proxy) free h.paths;
      consumer_ids = h.consumer_ids;
      usernames = h.usernames;
      plugin_config_ids = h.plugin_config_ids;
    }

update_row-id :
    (now : ℕ) (proxy : Proxy) (r : ProxyRow) → (update_row now proxy r).columns.id ≡ r.columns.id
update_row-id now proxy r = ground (arith, ==_iff r.columns.id proxy.id)

update_row-path :
    (now : ℕ) (proxy : Proxy) (r : ProxyRow)
    → (r.columns.id == proxy.id) ≡ true
    → (update_row now proxy r).columns.listen_path ≡ proxy.listen_path
update_row-path now proxy r same = rw same refl

other_row-path :
    (now : ℕ) (proxy : Proxy) (r : ProxyRow)
    → (r.columns.id == proxy.id) ≡ false
    → (update_row now proxy r).columns.listen_path ≡ r.columns.listen_path
other_row-path now proxy r other = rw other refl

associated-IsSound :
    (plugins : List PluginAssociation) (t u : Tables)
    → IsSound t
    → IsSound u
    → IsSound (after t (insert_associations plugins u))
unfolding after
associated-IsSound [] t u h k = k
associated-IsSound (a ∷ plugins) t u h k = h

pub update_proxy-IsSound :
    (now : ℕ) (proxy : Proxy) (t : Tables)
    → IsSound t
    → IsSound (after t (update_proxy now proxy t))
unfolding update_proxy after
update_proxy-IsSound now proxy t h = after-guard IsSound _ _ _ t h λ there.
    after-guard IsSound _ _ _ t h λ free. associated-IsSound proxy.plugins t _ h (record {
      proxy_ids =
          map-IsDistinct _ (update_row now proxy) (update_row-id now proxy) t.proxies h.proxy_ids;
      paths =
          overwrite-IsDistinct _ _ proxy.id proxy.listen_path (update_row now proxy)
            (update_row-path now proxy) (other_row-path now proxy) t.proxies h.proxy_ids free
            h.paths;
      consumer_ids = h.consumer_ids;
      usernames = h.usernames;
      plugin_config_ids = h.plugin_config_ids;
    })

pub delete_proxy-IsSound :
    (now : ℕ) (id : String) (t : Tables) → IsSound t → IsSound (delete_proxy now id t)
unfolding delete_proxy
delete_proxy-IsSound now id t h = elim (Bool-cases (has_proxy id t)) [
  | inl there ↦ rw there (record {
    proxy_ids = retain-IsDistinct proxy_id_of _ t.proxies h.proxy_ids;
    paths = retain-IsDistinct path_of _ t.proxies h.paths;
    consumer_ids = h.consumer_ids;
    usernames = h.usernames;
    plugin_config_ids =
        retain-IsDistinct plugin_config_id_of _ t.plugin_configs h.plugin_config_ids;
  })
  | inr absent ↦ rw absent (record {
    proxy_ids = h.proxy_ids;
    paths = h.paths;
    consumer_ids = h.consumer_ids;
    usernames = h.usernames;
    plugin_config_ids = h.plugin_config_ids;
  })
]
