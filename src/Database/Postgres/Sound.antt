-- ===== src/Database/Postgres/Sound.antt =====
-- src/database/postgres.rs: the keys of the proxies under all writes, on any schema.
use ferrumgw.Common.{
  ℕ, String, Bytes, ◌≡◌, refl, Bool, true, false, List, [], ◌∷◌, map, Result, ok, err, string_eq,
  bytes_eq, arith, Bool-cases, inl, inr, ◌>>=◌,
}
use ferrumgw.Common.Distinct.{
  IsDistinct, has_key, append-IsDistinct, retain-IsDistinct, map-IsDistinct, overwrite-IsDistinct,
}
use ferrumgw.Config.{Proxy, Configuration}
use ferrumgw.Config.Paths.{validate_listen_path_uniqueness, HasUniquePaths, has_path, validate_iff}
use ferrumgw.Database.Sqlite.{DbError}
use ferrumgw.Database.Postgres.{
  Schema, ProxyRow, AssociationRow, Tables, migrated_tables, refuse_if,
}
use ferrumgw.Database.Postgres.Proxies.{
  create_proxy, update_proxy, delete_proxy, update_row, row_of, returned, has_proxy,
}
use ferrumgw.Database.Postgres.Consumers.{create_consumer, update_consumer, delete_consumer}
use ferrumgw.Database.Postgres.PluginConfigs.{
  create_plugin_config, update_plugin_config, delete_plugin_config,
}
use ferrumgw.Database.Postgres.Loading.{load_full_configuration, read_proxy}
use ferrumgw.Database.Postgres.Ordered.{order_by-IsDistinct}
use ferrumgw.Database.Postgres.Rows.{
  id_of_row, update_row-id, own_row, other_row, configuration_of, load_lem,
}
use ferrumgw.Database.Postgres.Writes.{
  Write, write, writes, after, after_delete, creates_proxy, updates_proxy, deletes_proxy,
  creates_consumer, updates_consumer, deletes_consumer, creates_plugin_config,
  updates_plugin_config, deletes_plugin_config,
}

abbrev pub path_of_row : ProxyRow → Bytes
path_of_row r = r.columns.listen_path

-- The primary key of `proxies`, and the column that is UNIQUE.
pub record IsSound (t : Tables) : Type 0 where
  pub ids : IsDistinct id_of_row t.proxies
  pub paths : IsDistinct path_of_row t.proxies

module _ {A : Type 0} (t : Tables) (h : IsSound t) where
  -- A test that refuses the write, and what is done where it does not.
  guarded-IsSound :
      (b : Bool) (e : DbError) (o : Result DbError (A × Tables))
      → (b ≡ false → IsSound (after t o))
      → IsSound (after t (refuse_if b e o))
  unfolding after refuse_if
  guarded-IsSound true e o next = h
  guarded-IsSound false e o next = next refl

  chained-IsSound :
      {B : Type 0} (o : Result DbError B) (f : B → A × Tables)
      → ((b : B) → IsSound (f b).1)
      → IsSound (after t (o >>= (λ b. ok (f b))))
  unfolding after
  chained-IsSound (ok b) f next = next b
  chained-IsSound (err e) f next = h

stored-IsSound :
    {A : Type 0} (t : Tables) (a : A) (u : Tables) → IsSound u → IsSound (after t (ok (a, u)))
unfolding after
stored-IsSound t a u h = h

kept-IsSound :
    (t : Tables) (b : Bool) (e : DbError) (u : Tables)
    → IsSound t
    → IsSound u
    → IsSound (after_delete t (refuse_if b e (ok u)))
unfolding after_delete refuse_if
kept-IsSound t true e u h k = h
kept-IsSound t false e u h k = k

module _ (schema : Schema) where
  create_proxy-IsSound :
      (uuid : String) (now : ℕ) (proxy : Proxy) (t : Tables)
      → IsSound t
      → IsSound (after t (create_proxy schema uuid now proxy t))
  unfolding create_proxy
  create_proxy-IsSound uuid now proxy t h = guarded-IsSound t h _ _ _ λ free.
      guarded-IsSound t h _ _ _ λ new. chained-IsSound t h _ _ λ associations. record {
        ids =
            append-IsDistinct id_of_row t.proxies (row_of (returned uuid now proxy)) (ground arith)
              h.ids;
        paths =
            append-IsDistinct path_of_row t.proxies (row_of (returned uuid now proxy)) free h.paths;
      }

  update_proxy-IsSound :
      (now : ℕ) (proxy : Proxy) (t : Tables)
      → IsSound t
      → IsSound (after t (update_proxy schema now proxy t))
  unfolding update_proxy
  update_proxy-IsSound now proxy t h = guarded-IsSound t h _ _ _ λ there.
      guarded-IsSound t h _ _ _ λ free. guarded-IsSound t h _ _ _ λ port.
        chained-IsSound t h _ _ λ associations. record {
          ids =
              map-IsDistinct id_of_row (update_row now proxy) (update_row-id now proxy) t.proxies
                h.ids;
          paths =
              overwrite-IsDistinct path_of_row id_of_row proxy.id proxy.listen_path
                (update_row now proxy) (λ r same. rw (own_row now proxy r same) refl)
                (λ r other. rw (other_row now proxy r other) refl) t.proxies h.ids free h.paths;
        }

  write-IsSound : (w : Write) (t : Tables) → IsSound t → IsSound (write schema w t)
  unfolding write create_consumer update_consumer delete_consumer create_plugin_config
      update_plugin_config delete_plugin_config delete_proxy
  write-IsSound (creates_proxy uuid now proxy) t h = create_proxy-IsSound uuid now proxy t h
  write-IsSound (updates_proxy now proxy) t h = update_proxy-IsSound now proxy t h
  write-IsSound (deletes_proxy now id) t h = elim (Bool-cases (has_proxy id t)) [
    | inl there ↦ rw there (record {
      ids = retain-IsDistinct id_of_row _ t.proxies h.ids;
      paths = retain-IsDistinct path_of_row _ t.proxies h.paths;
    })
    | inr absent ↦ rw absent (record { ids = h.ids; paths = h.paths })
  ]
  write-IsSound (creates_consumer uuid now consumer) t h = guarded-IsSound t h _ _ _ λ free.
      guarded-IsSound t h _ _ _ λ free_id.
        guarded-IsSound t h _ _ _
          λ new. stored-IsSound t _ _ record { ids = h.ids; paths = h.paths }
  write-IsSound (updates_consumer now consumer) t h = guarded-IsSound t h _ _ _ λ there.
      guarded-IsSound t h _ _ _ λ free.
        guarded-IsSound t h _ _ _
          λ free_id. stored-IsSound t _ _ record { ids = h.ids; paths = h.paths }
  write-IsSound (deletes_consumer now id) t h =
      kept-IsSound t _ _ _ h record { ids = h.ids; paths = h.paths }
  write-IsSound (creates_plugin_config uuid now plugin_config) t h =
      guarded-IsSound t h _ _ _ λ new. stored-IsSound t _ _ record { ids = h.ids; paths = h.paths }
  write-IsSound (updates_plugin_config now plugin_config) t h = guarded-IsSound t h _ _ _ λ there.
      guarded-IsSound t h _ _ _
        λ linked. stored-IsSound t _ _ record { ids = h.ids; paths = h.paths }
  write-IsSound (deletes_plugin_config now id) t h =
      kept-IsSound t _ _ _ h record { ids = h.ids; paths = h.paths }

  writes-IsSound : (ws : List Write) (t : Tables) → IsSound t → IsSound (writes schema ws t)
  unfolding writes
  writes-IsSound [] t h = h
  writes-IsSound (w ∷ ws) t h = writes-IsSound ws (write schema w t) (write-IsSound w t h)

loaded_path :
    (rows : List AssociationRow) (path : Bytes) (proxies : List ProxyRow)
    → has_path path (map (read_proxy rows) proxies) ≡ has_key path_of_row path proxies
loaded_path rows path [] = refl
loaded_path rows path (r ∷ proxies) = rw (loaded_path rows path proxies) refl

loaded-HasUniquePaths :
    (rows : List AssociationRow) (proxies : List ProxyRow)
    → IsDistinct path_of_row proxies
    → HasUniquePaths (map (read_proxy rows) proxies)
loaded-HasUniquePaths rows [] d = tt
loaded-HasUniquePaths rows (r ∷ proxies) d = (
  rw (loaded_path rows r.columns.listen_path proxies) d.0,
  loaded-HasUniquePaths rows proxies d.1,
)

-- Where the associations have the columns that they should have, after any sequence of creations, updates
-- and deletions from tables without rows, failed ones included, no two proxies share an id or a listen
-- path, and a full load succeeds with a configuration that passes the validation of the gateway.
pub all_writes_load :
    (schema : Schema) (ws : List Write) (now : ℕ)
    → schema.keeps_embedded ≡ true
    → IsSound (writes schema ws migrated_tables)
      × ((c : Configuration) × (load_full_configuration schema now
              (writes schema ws migrated_tables)
            ≡ ok c)
          × (validate_listen_path_uniqueness c ≡ ok tt))
all_writes_load schema ws now keeps =
    let t = writes schema ws migrated_tables in
    let sound = writes-IsSound schema ws migrated_tables (record { ids = tt; paths = tt }) in
    (
      sound,
      (
        configuration_of now t,
        load_lem schema now t keeps,
        (validate_iff _).1 (
            loaded-HasUniquePaths t.associations _
              (order_by-IsDistinct path_of_row (λ r. r.columns.created_at) t.proxies sound.paths)),
      ),
    )
