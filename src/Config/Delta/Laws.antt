-- ===== src/Config/Delta/Laws.antt =====
-- What `apply_to` and `is_empty` promise.
use ferrumgw.Common.{
  ℕ, String, ◌≡◌, ◌≢◌, refl, ap, true, false, List, [], ◌∷◌, Option, none, some, arith, max, ltb,
  string_eq, contains, is_empty, if◌then◌else◌, ok,
}
use ferrumgw.Config.{Proxy, Consumer, PluginConfig, Configuration}
use ferrumgw.Config.Delta.{ConfigurationDelta, upsert_all, remove_ids, apply_to, is_empty_delta}
use ferrumgw.Config.Delta.Lookup.{
  or_else, find_id, last_update, IsKeyed, find-upsert_all, find-remove_ids, upsert_all-IsKeyed,
  remove_ids-IsKeyed,
}
use ferrumgw.Config.Paths.{validate_listen_path_uniqueness, validate_iff, not_unique_of_find}

-- What a delta with these updates and deletions makes of the entity that was found before.
abbrev pub updated_entity {ℓ} :
    {A : Type ℓ} (id_of : A → String) → List A → List String → String → Option A → Option A
updated_entity id_of updated deleted k before =
    if contains deleted k then none else or_else (last_update id_of k updated) before

module _ {ℓ} {A : Type ℓ} (id_of : A → String) where
  find-changes :
      (k : String) (updated : List A) (deleted : List String) (xs : List A)
      → find_id id_of k (remove_ids id_of deleted (upsert_all id_of updated xs))
        ≡ updated_entity id_of updated deleted k (find_id id_of k xs)
  find-changes k updated deleted xs = ground (
    arith,
    find-remove_ids id_of k deleted (upsert_all id_of updated xs),
    find-upsert_all id_of k updated xs,
  )

  changes-IsKeyed :
      (updated : List A) (deleted : List String) (xs : List A)
      → IsKeyed id_of xs
      → IsKeyed id_of (remove_ids id_of deleted (upsert_all id_of updated xs))
  changes-IsKeyed updated deleted xs h =
      remove_ids-IsKeyed id_of deleted _ (upsert_all-IsKeyed id_of updated xs h)

  no_changes : (xs : List A) → remove_ids id_of [] (upsert_all id_of [] xs) ≡ xs
  unfolding remove_ids upsert_all
  no_changes [] = refl
  no_changes (x ∷ xs) = ap (λ ys. x ∷ ys) (no_changes xs)

  empty_changes :
      (updated : List A) (deleted : List String) (xs : List A)
      → is_empty updated ≡ true
      → is_empty deleted ≡ true
      → remove_ids id_of deleted (upsert_all id_of updated xs) ≡ xs
  empty_changes [] [] xs h g = no_changes xs
  empty_changes [] (d ∷ ds) xs h g = cc
  empty_changes (u ∷ us) deleted xs h g = cc

later_timestamp : (a b : ℕ) → (if ltb a b then b else a) ≡ max a b
later_timestamp a b = ground arith

-- After a delta is applied, an id that the delta deletes finds nothing, another id that the delta
-- updates finds its last update, and every other id finds what it found before; this holds of
-- proxies, consumers and plugin configurations. The timestamp becomes the later one of the two.
pub find-apply_to :
    (delta : ConfigurationDelta) (config : Configuration) (k : String)
    → (find_id (λ x. x.id) k (apply_to delta config).proxies
        ≡ updated_entity
            (λ x. x.id)
            delta.updated_proxies
            delta.deleted_proxy_ids
            k
            (find_id (λ x. x.id) k config.proxies))
      × (find_id (λ x. x.id) k (apply_to delta config).consumers
          ≡ updated_entity
              (λ x. x.id)
              delta.updated_consumers
              delta.deleted_consumer_ids
              k
              (find_id (λ x. x.id) k config.consumers))
      × (find_id (λ x. x.id) k (apply_to delta config).plugin_configs
          ≡ updated_entity
              (λ x. x.id)
              delta.updated_plugin_configs
              delta.deleted_plugin_config_ids
              k
              (find_id (λ x. x.id) k config.plugin_configs))
      × ((apply_to delta config).last_updated_at ≡ max config.last_updated_at delta.last_updated_at)
unfolding apply_to
find-apply_to delta config k = (
  find-changes _ k delta.updated_proxies delta.deleted_proxy_ids config.proxies,
  find-changes _ k delta.updated_consumers delta.deleted_consumer_ids config.consumers,
  find-changes _ k delta.updated_plugin_configs delta.deleted_plugin_config_ids
      config.plugin_configs,
  later_timestamp config.last_updated_at delta.last_updated_at,
)

pub record IsKeyedConfig (config : Configuration) : Type 0 where
  pub proxies : IsKeyed (λ (x : Proxy). x.id) config.proxies
  pub consumers : IsKeyed (λ (x : Consumer). x.id) config.consumers
  pub plugin_configs : IsKeyed (λ (x : PluginConfig). x.id) config.plugin_configs

-- If no two entities of a kind share an id, this still holds after any delta is applied.
pub apply_to-IsKeyedConfig :
    (delta : ConfigurationDelta) (config : Configuration)
    → IsKeyedConfig config
    → IsKeyedConfig (apply_to delta config)
unfolding apply_to
apply_to-IsKeyedConfig delta config h = record {
  proxies = changes-IsKeyed _ delta.updated_proxies delta.deleted_proxy_ids _ h.proxies;
  consumers = changes-IsKeyed _ delta.updated_consumers delta.deleted_consumer_ids _ h.consumers;
  plugin_configs =
      changes-IsKeyed _ delta.updated_plugin_configs delta.deleted_plugin_config_ids _
        h.plugin_configs;
}

-- A delta that `is_empty` reports as empty changes nothing but the timestamp, which becomes the later
-- one of the two.
pub apply_to_empty :
    (delta : ConfigurationDelta) (config : Configuration)
    → is_empty_delta delta ≡ true
    → apply_to delta config
      ≡ record config { last_updated_at = max config.last_updated_at delta.last_updated_at }
unfolding apply_to is_empty_delta
apply_to_empty delta config h i = record {
  proxies =
      empty_changes (λ x. x.id) delta.updated_proxies delta.deleted_proxy_ids config.proxies
        (ground arith) (ground arith) i;
  consumers =
      empty_changes (λ x. x.id) delta.updated_consumers delta.deleted_consumer_ids config.consumers
        (ground arith) (ground arith) i;
  plugin_configs =
      empty_changes (λ x. x.id) delta.updated_plugin_configs delta.deleted_plugin_config_ids
        config.plugin_configs (ground arith) (ground arith) i;
  last_updated_at = later_timestamp config.last_updated_at delta.last_updated_at i;
}

-- If a delta keeps a proxy `q` of the configuration as it is, and brings a proxy `p` with another id
-- and the same listen path, then the configuration after `apply_to` does not pass the validation
-- of a full load.
pub apply_to_may_duplicate_paths :
    (delta : ConfigurationDelta) (config : Configuration) (p q : Proxy)
    → find_id (λ x. x.id) q.id config.proxies ≡ some q
    → last_update (λ x. x.id) q.id delta.updated_proxies ≡ none
    → last_update (λ x. x.id) p.id delta.updated_proxies ≡ some p
    → contains delta.deleted_proxy_ids p.id ≡ false
    → contains delta.deleted_proxy_ids q.id ≡ false
    → p.id ≢ q.id
    → p.listen_path ≡ q.listen_path
    → validate_listen_path_uniqueness (apply_to delta config) ≢ ok tt
apply_to_may_duplicate_paths delta config p q old kept new live_p live_q ne same valid =
    not_unique_of_find p.id q.id (apply_to delta config).proxies p q
      (ground (arith, find-apply_to delta config p.id))
      (ground (arith, find-apply_to delta config q.id)) ne same
      ((validate_iff (apply_to delta config)).0 valid)
