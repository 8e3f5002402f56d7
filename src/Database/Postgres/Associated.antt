-- ===== src/Database/Postgres/Associated.antt =====
-- src/database/postgres.rs: the associations of a proxy that is written.
use ferrumgw.Common.{
  String, ◌≡◌, refl, sym, ap, ◌∙◌, true, false, ◌||◌, List, [], ◌∷◌, ◌++◌, map, ok, arith, ◌==◌,
  string_eq, ==_refl, ==_iff, All,
}
use mathlib.Core.List.{append-nil, append_assoc}
use ferrumgw.Common.Distinct.{IsDistinct, has_key}
use ferrumgw.Config.{PluginConfig, PluginAssociation}
use ferrumgw.Database.Postgres.{Schema, AssociationRow, refuse_if}
use ferrumgw.Database.Postgres.Proxies.{
  insert_associations, association_row, lacks_plugin_config, is_associated, delete_associations,
}
use ferrumgw.Database.Postgres.Loading.{plugins_of}

abbrev pub plugin_config_id_of : PluginAssociation → String
plugin_config_id_of a = a.plugin_config_id

-- The plugins are stored configurations, each named once.
pub record AreLinkable (known : List PluginConfig) (plugins : List PluginAssociation) : Type 0 where
  pub stored : All (λ a. lacks_plugin_config known a.plugin_config_id ≡ false) plugins
  pub distinct : IsDistinct plugin_config_id_of plugins

is_associated-append :
    (id k : String) (rows : List AssociationRow) (a : PluginAssociation)
    → is_associated id k (rows ++ (association_row id a ∷ []))
      ≡ (is_associated id k rows || a.plugin_config_id == k)
is_associated-append id k [] a = rw (==_refl id) ground arith
is_associated-append id k (r ∷ rows) a = ground (arith, is_associated-append id k rows a)

stays_free :
    (id k : String) (rows : List AssociationRow) (a : PluginAssociation)
    (plugins : List PluginAssociation)
    → has_key plugin_config_id_of k plugins ≡ true
    → has_key plugin_config_id_of a.plugin_config_id plugins ≡ false
    → is_associated id k rows ≡ false
    → is_associated id k (rows ++ (association_row id a ∷ [])) ≡ false
stays_free id k rows a plugins has lacks free =
    ground (arith, is_associated-append id k rows a, ==_iff a.plugin_config_id k)

-- Without associations of the proxy, all plugins are appended.
pub insert_associations_lem :
    (schema : Schema) (known : List PluginConfig) (id : String) (plugins : List PluginAssociation)
    (rows : List AssociationRow)
    → schema.keeps_embedded ≡ true
    → All (λ a. lacks_plugin_config known a.plugin_config_id ≡ false) plugins
    → IsDistinct plugin_config_id_of plugins
    → ((k : String)
        → has_key plugin_config_id_of k plugins ≡ true
        → is_associated id k rows ≡ false)
    → insert_associations schema known id plugins rows
      ≡ ok (rows ++ map (association_row id) plugins)
unfolding insert_associations refuse_if
insert_associations_lem schema known id [] rows keeps stored distinct free =
    ap ok (sym (append-nil rows))
insert_associations_lem schema known id (a ∷ plugins) rows keeps stored distinct free =
    rw (keeps, stored.0, free a.plugin_config_id (rw (==_refl a.plugin_config_id) refl))
      (insert_associations_lem schema known id plugins (rows ++ (association_row id a ∷ [])) keeps
          stored.1 distinct.1
          (λ k has. stays_free id k rows a plugins has distinct.0 (free k (ground arith)))
        ∙ ap ok (append_assoc rows (association_row id a ∷ []) (map (association_row id) plugins)))

pub delete_associations-frees :
    (id k : String) (rows : List AssociationRow)
    → is_associated id k (delete_associations id rows) ≡ false
delete_associations-frees id k [] = refl
delete_associations-frees id k (r ∷ rows) = ground (arith, delete_associations-frees id k rows)

plugins_of-own :
    (id : String) (plugins : List PluginAssociation)
    → plugins_of id (map (association_row id) plugins) ≡ plugins
plugins_of-own id [] = refl
plugins_of-own id (a ∷ plugins) = rw (==_refl id, plugins_of-own id plugins) refl

plugins_of-others :
    (id other : String) (plugins : List PluginAssociation)
    → (id == other) ≡ false
    → plugins_of other (map (association_row id) plugins) ≡ []
plugins_of-others id other [] differs = refl
plugins_of-others id other (a ∷ plugins) differs =
    rw differs (plugins_of-others id other plugins differs)

-- The proxy has the plugins that were written for it.
pub plugins_of-written :
    (id : String) (plugins : List PluginAssociation) (rows : List AssociationRow)
    → plugins_of id (delete_associations id rows ++ map (association_row id) plugins) ≡ plugins
plugins_of-written id plugins [] = plugins_of-own id plugins
plugins_of-written id plugins (r ∷ rows) = ground (arith, plugins_of-written id plugins rows)

-- The other proxies have the plugins that they had.
pub plugins_of-kept :
    (id other : String) (plugins : List PluginAssociation) (rows : List AssociationRow)
    → (id == other) ≡ false
    → plugins_of other (delete_associations id rows ++ map (association_row id) plugins)
      ≡ plugins_of other rows
plugins_of-kept id other plugins [] differs = plugins_of-others id other plugins differs
plugins_of-kept id other plugins (r ∷ rows) differs =
    ground (arith, plugins_of-kept id other plugins rows differs, ==_iff r.proxy_id id)
