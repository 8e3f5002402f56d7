-- ===== src/Database/Sqlite/Unassociated.antt =====
-- src/database/sqlite.rs with src/plugins/mod.rs: which plugins the proxies of such a database have.
use ferrumgw.Common.{
  ℕ, String, ◌≡◌, refl, List, [], ◌∷◌, map, Option, Result, Bool-cases, inl, inr, All, All-imp,
  string_eq,
}
use ferrumgw.Config.{PluginConfig, PluginAssociation}
use ferrumgw.Grpc.Conversions.Unprotected.{RunsGlobalsOnly, bare-RunsGlobalsOnly}
use ferrumgw.Database.Sqlite.{ProxyRow, AssociationRow, Tables, ensure_tables}
use ferrumgw.Database.Sqlite.Proxies.{
  create_proxy, update_proxy, delete_proxy, insert_associations, has_proxy,
}
use ferrumgw.Database.Sqlite.Consumers.{
  create_consumer, update_consumer, delete_consumer, has_consumer,
}
use ferrumgw.Database.Sqlite.PluginConfigs.{
  create_plugin_config, update_plugin_config, delete_plugin_config, has_plugin_config,
}
use ferrumgw.Database.Sqlite.Loading.{load_configuration, read_proxy}
use ferrumgw.Database.Sqlite.Writes.{
  Write, write, after, writes, after-guard, creates_proxy, updates_proxy, deletes_proxy,
  creates_consumer, updates_consumer, deletes_consumer, creates_plugin_config,
  updates_plugin_config, deletes_plugin_config,
}

abbrev HasNone : Tables → Type 0
HasNone t = t.associations ≡ []

update-HasNone :
    (plugins : List PluginAssociation) (t u : Tables)
    → HasNone t
    → HasNone u
    → HasNone (after t (insert_associations plugins u))
unfolding after
update-HasNone [] t u h k = k
update-HasNone (a ∷ plugins) t u h k = h

write-HasNone : (w : Write) (t : Tables) → HasNone t → HasNone (after t (write w t))
unfolding write after create_proxy update_proxy delete_proxy create_consumer update_consumer
    delete_consumer create_plugin_config update_plugin_config delete_plugin_config
write-HasNone (creates_proxy proxy) t h =
    after-guard HasNone _ _ _ t h λ free. after-guard HasNone _ _ _ t h λ new. h
write-HasNone (updates_proxy now proxy) t h =
    after-guard HasNone _ _ _ t h
      λ there. after-guard HasNone _ _ _ t h λ free. update-HasNone proxy.plugins t _ h (rw h refl)
write-HasNone (deletes_proxy now id) t h = elim (Bool-cases (has_proxy id t)) [
  | inl there ↦ rw (there, h) refl
  | inr absent ↦ rw (absent, h) refl
]
write-HasNone (creates_consumer uuid now consumer) t h =
    after-guard HasNone _ _ _ t h
      λ a. after-guard HasNone _ _ _ t h λ b. after-guard HasNone _ _ _ t h λ c. h
write-HasNone (updates_consumer now consumer) t h =
    after-guard HasNone _ _ _ t h
      λ a. after-guard HasNone _ _ _ t h λ b. after-guard HasNone _ _ _ t h λ c. h
write-HasNone (deletes_consumer now id) t h = elim (Bool-cases (has_consumer id t)) [
  | inl there ↦ rw there h
  | inr absent ↦ rw absent h
]
write-HasNone (creates_plugin_config uuid now plugin_config) t h =
    after-guard HasNone _ _ _ t h λ a. h
write-HasNone (updates_plugin_config now plugin_config) t h =
    after-guard HasNone _ _ _ t h λ a. after-guard HasNone _ _ _ t h λ b. h
write-HasNone (deletes_plugin_config now id) t h = elim (Bool-cases (has_plugin_config id t)) [
  | inl there ↦ rw (there, h) refl
  | inr absent ↦ rw (absent, h) refl
]

writes-HasNone : (ws : List Write) (t : Tables) → HasNone t → HasNone (writes ws t)
unfolding writes
writes-HasNone [] t h = h
writes-HasNone (w ∷ ws) t h = writes-HasNone ws (after t (write w t)) (write-HasNone w t h)

read-bare :
    (known : List PluginConfig) (rows : List AssociationRow) (proxies : List ProxyRow)
    → rows ≡ []
    → All (λ p. p.plugins ≡ []) (map (read_proxy known rows) proxies)
read-bare known rows [] none_there = tt
read-bare known rows (r ∷ proxies) none_there =
    (rw none_there refl, read-bare known rows proxies none_there)

-- From a database whose tables the gateway created, after any sequence of writes, also of proxies that
-- come with plugins, no proxy of the configuration that is loaded runs any but the global plugins.
pub writes_leave_no_plugin :
    {P Error : Type 0} (create : String → String → Result Error P)
    (database : Option (String → Result Error (Option PluginConfig))) (not_found : Error)
    (names : List String) (ws : List Write) (now : ℕ)
    → All
        (RunsGlobalsOnly create database not_found names
          (load_configuration now (writes ws ensure_tables)))
        (load_configuration now (writes ws ensure_tables)).proxies
unfolding load_configuration
writes_leave_no_plugin create database not_found names ws now =
    All-imp (λ p. p.plugins ≡ []) _ (bare-RunsGlobalsOnly create database not_found names _) _
      (read-bare _ _ _ (writes-HasNone ws ensure_tables refl))
