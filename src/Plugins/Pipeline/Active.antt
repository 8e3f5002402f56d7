-- ===== src/Plugins/Pipeline/Active.antt =====
-- src/plugins/mod.rs, `get_active_plugins_for_proxy`: which plugins run for a proxy.
use ferrumgw.Common.{
  String, ◌≡◌, refl, ap, ◌∙◌, Bool, true, List, [], ◌∷◌, map, Option, none, some, arith, ◌==◌,
  string_eq, find, All, Result, ok,
}
use ferrumgw.Config.{PluginAssociation, PluginConfig, Configuration}
use ferrumgw.Plugins.Pipeline.{
  Plugin, run_phase, and_then, run_pre_proxy_plugins, get_plugin_config_by_id, or_database,
  create_from, associated_plugin, associated_plugins, get_active_plugins_for_proxy, global_plugins,
}

-- The configuration with the `enabled` flag of each plugin configuration chosen anew.
abbrev pub flagged : (PluginConfig → Bool) → PluginConfig → PluginConfig
flagged flag pc = record pc { enabled = flag pc }

abbrev pub with_flags : (PluginConfig → Bool) → Configuration → Configuration
with_flags flag config = record config { plugin_configs = map (flagged flag) config.plugin_configs }

abbrev flag_found : (PluginConfig → Bool) → Option PluginConfig → Option PluginConfig
flag_found flag none = none
flag_found flag (some pc) = some (flagged flag pc)

find-flags :
    (flag : PluginConfig → Bool) (id : String) (pcs : List PluginConfig)
    → find (λ pc. pc.id == id) (map (flagged flag) pcs)
      ≡ flag_found flag (find (λ pc. pc.id == id) pcs)
find-flags flag id [] = refl
find-flags flag id (pc ∷ pcs) = ground (arith, find-flags flag id pcs)

module _ {P Error : Type 0} (create : String → String → Result Error P)
    (database : Option (String → Result Error (Option PluginConfig))) (not_found : Error) where
  create_from-flags :
      (flag : PluginConfig → Bool) (embedded : Option String) (id : String)
      (o : Option PluginConfig)
      → create_from create database not_found embedded
          (or_database create database not_found id (flag_found flag o))
        ≡ create_from create database not_found embedded
            (or_database create database not_found id o)
  unfolding create_from or_database
  create_from-flags flag embedded id none = refl
  create_from-flags flag embedded id (some pc) = refl

  associated-flags :
      (flag : PluginConfig → Bool) (config : Configuration) (a : PluginAssociation)
      → associated_plugin create database not_found (with_flags flag config) a
        ≡ associated_plugin create database not_found config a
  unfolding associated_plugin get_plugin_config_by_id
  associated-flags flag config a =
      ap
        (λ o.
          create_from create database not_found a.embedded_config
            (or_database create database not_found a.plugin_config_id o))
        (find-flags flag a.plugin_config_id config.plugin_configs)
      ∙ create_from-flags flag a.embedded_config a.plugin_config_id
          (find (λ pc. pc.id == a.plugin_config_id) config.plugin_configs)

  all-flags :
      (flag : PluginConfig → Bool) (config : Configuration) (associations : List PluginAssociation)
      → associated_plugins create database not_found (with_flags flag config) associations
        ≡ associated_plugins create database not_found config associations
  unfolding associated_plugins
  all-flags flag config [] = refl
  all-flags flag config (a ∷ associations) =
      rw (associated-flags flag config a, all-flags flag config associations)

  -- The active plugins of a proxy do not depend on the `enabled` flags of the plugin configurations in
  -- memory: a plugin that is disabled there runs as well.
  pub enabled_is_ignored :
      (flag : PluginConfig → Bool) (names : List String) (config : Configuration)
      (associations : List PluginAssociation)
      → get_active_plugins_for_proxy create database not_found names
          (with_flags flag config)
          associations
        ≡ get_active_plugins_for_proxy create database not_found names config associations
  unfolding get_active_plugins_for_proxy
  enabled_is_ignored flag names config associations = rw (all-flags flag config associations)

  no_plugin_of_dangling :
      (config : Configuration) (a : PluginAssociation) (o : Option PluginConfig)
      → database ≡ none
      → o ≡ none
      → create_from create database not_found a.embedded_config
          (or_database create database not_found a.plugin_config_id o)
        ≡ []
  unfolding create_from or_database
  no_plugin_of_dangling config a none offline e = rw offline
  no_plugin_of_dangling config a (some pc) offline e = cc

  -- The configuration in memory has no plugin configuration under the id of the association.
  abbrev pub IsDangling : Configuration → PluginAssociation → Type 0
  IsDangling config a = find (λ pc. pc.id == a.plugin_config_id) config.plugin_configs ≡ none

  dangling_plugins :
      (config : Configuration) (associations : List PluginAssociation)
      → database ≡ none
      → All (IsDangling config) associations
      → associated_plugins create database not_found config associations ≡ []
  unfolding associated_plugins associated_plugin get_plugin_config_by_id
  dangling_plugins config [] offline all = refl
  dangling_plugins config (a ∷ associations) offline (here, all) =
      rw
        (no_plugin_of_dangling config a
          (find (λ pc. pc.id == a.plugin_config_id) config.plugin_configs) offline here)
        (dangling_plugins config associations offline all)

module _ {Req Resp Ctx Error : Type 0}
    (create : String → String → Result Error (Plugin Req Resp Ctx Error)) (not_found : Error) where
  -- If there are no global plugins and no database, and every association of a proxy names a plugin
  -- configuration that is not there, then the request goes on with no plugin having seen it.
  pub dangling_fails_open :
      (config : Configuration) (associations : List PluginAssociation) (req : Req) (ctx : Ctx)
      → All (IsDangling create none not_found config) associations
      → (get_active_plugins_for_proxy create none not_found [] config associations ≡ ok [])
        × (run_pre_proxy_plugins {Resp = Resp} {Error = Error} [] req ctx ≡ (req, ctx, ok true))
  unfolding get_active_plugins_for_proxy global_plugins run_pre_proxy_plugins run_phase and_then
  dangling_fails_open config associations req ctx all =
      (rw (dangling_plugins create none not_found config associations refl all), refl)
