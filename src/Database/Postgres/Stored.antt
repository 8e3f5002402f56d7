-- ===== src/Database/Postgres/Stored.antt =====
-- src/database/postgres.rs: what is loaded of a proxy that was written, where the associations have the
-- columns that the statements name.
use ferrumgw.Common.{
  ℕ, String, ◌≡◌, refl, sym, ◌∙◌, true, false, ◌++◌, map, some, ok, ◌==◌, nat_eq, string_eq, find,
}
use ferrumgw.Common.Distinct.{IsDistinct, map-IsDistinct}
use ferrumgw.Config.{Proxy, Configuration}
use ferrumgw.Config.Delta.Lookup.{find_id}
use ferrumgw.Database.Postgres.{Schema, ProxyRow, Tables, refuse_if}
use ferrumgw.Database.Postgres.Proxies.{
  update_proxy, update_row, has_other_path, has_proxy, delete_associations, association_row,
}
use ferrumgw.Database.Postgres.Loading.{load_full_configuration, read_proxy}
use ferrumgw.Database.Postgres.Ordered.{find-order_by}
use ferrumgw.Database.Postgres.Associated.{
  AreLinkable, insert_associations_lem, delete_associations-frees, plugins_of-written,
  plugins_of-kept,
}
use ferrumgw.Database.Postgres.Rows.{
  id_of_row, configuration_of, load_lem, update_row-id, has_proxy-found, find-updated, find-kept,
}

-- The tables after an update that nothing refuses.
abbrev pub updated_tables : ℕ → Proxy → Tables → Tables
updated_tables now proxy t = record t {
  proxies = map (update_row now proxy) t.proxies;
  associations =
      delete_associations proxy.id t.associations ++ map (association_row proxy.id) proxy.plugins;
}

update_proxy_lem :
    (schema : Schema) (now : ℕ) (proxy : Proxy) (t : Tables)
    → schema.keeps_embedded ≡ true
    → has_proxy proxy.id t ≡ true
    → has_other_path proxy t ≡ false
    → (proxy.backend_port == 0) ≡ false
    → AreLinkable t.plugin_configs proxy.plugins
    → update_proxy schema now proxy t
      ≡ ok (record proxy { updated_at = now }, updated_tables now proxy t)
unfolding update_proxy refuse_if
update_proxy_lem schema now proxy t keeps there free port linkable =
    rw
      (
        there,
        free,
        port,
        insert_associations_lem schema t.plugin_configs proxy.id proxy.plugins
            (delete_associations proxy.id t.associations) keeps linkable.stored linkable.distinct
            (λ k has. delete_associations-frees proxy.id k t.associations),
      )
      refl

-- With the columns that the associations should have and different ids, an update of a stored proxy with
-- a port and a free listen path, whose plugins are stored and named once, succeeds; a full load then
-- finds under its id the proxy as it was given with all its plugins, but with the time of creation of its
-- row and the time of the update, and under any other id what it found before.
pub update_proxy-load :
    (schema : Schema) (now later : ℕ) (proxy : Proxy) (row : ProxyRow) (other : String) (t : Tables)
    → schema.keeps_embedded ≡ true
    → IsDistinct id_of_row t.proxies
    → find (λ r. r.columns.id == proxy.id) t.proxies ≡ some row
    → has_other_path proxy t ≡ false
    → (proxy.backend_port == 0) ≡ false
    → AreLinkable t.plugin_configs proxy.plugins
    → (proxy.id == other) ≡ false
    → (u : Tables) × (before : Configuration) × (after : Configuration) × (update_proxy schema now
          proxy t
        ≡ ok (record proxy { updated_at = now }, u))
      × (load_full_configuration schema later t ≡ ok before)
      × (load_full_configuration schema later u ≡ ok after)
      × (find_id (λ p. p.id) proxy.id after.proxies
          ≡ some (record proxy { created_at = row.columns.created_at; updated_at = now }))
      × (find_id (λ p. p.id) other after.proxies ≡ find_id (λ p. p.id) other before.proxies)
update_proxy-load schema now later proxy row other t keeps ids found free port linkable differs =
    let u = updated_tables now proxy t in
    let read = λ (k : String) (v : Tables) (d : IsDistinct id_of_row v.proxies).
      find-order_by id_of_row (λ p. p.id) (read_proxy v.associations) (λ r. refl)
        (λ r. r.columns.created_at) k v.proxies d in
    let ids' =
      map-IsDistinct id_of_row (update_row now proxy) (update_row-id now proxy) t.proxies ids in
    (
      u,
      configuration_of later t,
      configuration_of later u,
      update_proxy_lem schema now proxy t keeps (has_proxy-found proxy.id t.proxies row found) free
          port linkable,
      load_lem schema later t keeps,
      load_lem schema later u keeps,
      read proxy.id u ids'
          ∙ find-updated now proxy u.associations t.proxies row found
          ∙ rw (plugins_of-written proxy.id proxy.plugins t.associations) refl,
      read other u ids'
          ∙ find-kept now proxy u.associations other t.associations t.proxies differs
              (plugins_of-kept proxy.id other proxy.plugins t.associations differs)
          ∙ sym (read other t ids),
    )
