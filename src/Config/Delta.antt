-- ===== src/Config/Delta.antt =====
-- src/config/data_model.rs, `ConfigurationDelta`: incremental changes and how they are applied.
-- The three kinds of entity are treated alike, by one loop over the key `id`.
pub mod Lookup
pub mod Laws
use ferrumgw.Common.{
  ℕ, String, Bool, not, ◌&&◌, List, [], ◌∷◌, ltb, ◌==◌, string_eq, contains, retain, is_empty,
  if◌then◌else◌,
}
use ferrumgw.Config.{Proxy, Consumer, PluginConfig, Configuration}

pub record ConfigurationDelta : Type 0 where
  pub updated_proxies : List Proxy
  pub deleted_proxy_ids : List String
  pub updated_consumers : List Consumer
  pub deleted_consumer_ids : List String
  pub updated_plugin_configs : List PluginConfig
  pub deleted_plugin_config_ids : List String
  pub last_updated_at : ℕ

module _ {ℓ} {A : Type ℓ} (id_of : A → String) where
  -- The first entity with the id of `a` is overwritten in place; if there is none, `a` is pushed.
  unfoldable pub upsert : A → List A → List A
  upsert a [] = a ∷ []
  upsert a (x ∷ xs) = if id_of x == id_of a then a ∷ xs else x ∷ upsert a xs

  -- The `for` loop over the updated entities.
  unfoldable pub upsert_all : List A → List A → List A
  upsert_all [] xs = xs
  upsert_all (a ∷ updated) xs = upsert_all updated (upsert a xs)

  unfoldable pub remove_ids : List String → List A → List A
  remove_ids deleted = retain (λ x. not (contains deleted (id_of x)))

-- `apply_to`
unfoldable pub apply_to : ConfigurationDelta → Configuration → Configuration
apply_to delta config = record {
  proxies =
      remove_ids (λ x. x.id) delta.deleted_proxy_ids
        (upsert_all (λ x. x.id) delta.updated_proxies config.proxies);
  consumers =
      remove_ids (λ x. x.id) delta.deleted_consumer_ids
        (upsert_all (λ x. x.id) delta.updated_consumers config.consumers);
  plugin_configs =
      remove_ids (λ x. x.id) delta.deleted_plugin_config_ids
        (upsert_all (λ x. x.id) delta.updated_plugin_configs config.plugin_configs);
  last_updated_at =
      if ltb config.last_updated_at delta.last_updated_at
      then delta.last_updated_at
      else config.last_updated_at;
}

-- `ConfigurationDelta::is_empty`
unfoldable pub is_empty_delta : ConfigurationDelta → Bool
is_empty_delta delta =
    is_empty delta.updated_proxies
    && is_empty delta.deleted_proxy_ids
    && is_empty delta.updated_consumers
    && is_empty delta.deleted_consumer_ids
    && is_empty delta.updated_plugin_configs
    && is_empty delta.deleted_plugin_config_ids
