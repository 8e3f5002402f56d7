-- ===== src/Plugins/Pipeline.antt =====
-- src/plugins/mod.rs: the plugin interface, the choice of the active plugins and the phases.
-- Requests, responses and request contexts are the types of hyper and of the handler: parameters.
-- A hook that changes its `&mut` arguments returns them, also where it fails.
pub mod Order
pub mod Active
use ferrumgw.Common.{
  String, Bool, true, false, List, [], ◌∷◌, ◌++◌, Option, none, some, ◌==◌, string_eq, find, Result,
  ok, err, ◌>>=◌,
}
use ferrumgw.Config.{PluginAssociation, PluginConfig, Configuration}

-- A hook that may stop the request: `Ok(true)`, `Ok(false)` or an error.
abbrev pub Hook : Type 0 → Type 0 → Type 0 → Type 0
Hook Req Ctx Error = Req → Ctx → Req × Ctx × Result Error Bool

-- The trait `Plugin`.
pub record Plugin (Req Resp Ctx Error : Type 0) : Type 0 where
  pub name : String
  pub on_request_received : Hook Req Ctx Error
  pub authenticate : Hook Req Ctx Error
  pub authorize : Hook Req Ctx Error
  pub before_proxy : Hook Req Ctx Error
  pub after_proxy : Resp → Ctx → Resp × Ctx × Result Error (Unit {0})

module _ {Req Ctx Error : Type 0} where
  -- What follows a hook runs only after `Ok(true)`.
  abbrev pub continue_with :
      Hook Req Ctx Error → Req × Ctx × Result Error Bool → Req × Ctx × Result Error Bool
  continue_with next (req, ctx, ok true) = next req ctx
  continue_with next (req, ctx, ok false) = (req, ctx, ok false)
  continue_with next (req, ctx, err e) = (req, ctx, err e)

  unfoldable pub and_then : Hook Req Ctx Error → Hook Req Ctx Error → Hook Req Ctx Error
  and_then first next req ctx = continue_with next (first req ctx)

module _ {Req Resp Ctx Error : Type 0} where
  -- The loop of one phase over the active plugins. An empty loop goes on.
  unfoldable pub run_phase :
      (Plugin Req Resp Ctx Error → Hook Req Ctx Error)
      → List (Plugin Req Resp Ctx Error)
      → Hook Req Ctx Error
  run_phase hook [] req ctx = (req, ctx, ok true)
  run_phase hook (p ∷ ps) req ctx =
      let rest = run_phase hook ps in continue_with rest (hook p req ctx)

  -- `run_pre_proxy_plugins`, given the active plugins: a phase starts only where the one before it
  -- went on after its last plugin.
  unfoldable pub run_pre_proxy_plugins : List (Plugin Req Resp Ctx Error) → Hook Req Ctx Error
  run_pre_proxy_plugins active = and_then (run_phase (λ p. p.on_request_received) active) (
      and_then (run_phase (λ p. p.authenticate) active)
        (and_then (run_phase (λ p. p.authorize) active) (run_phase (λ p. p.before_proxy) active)))

  -- `run_post_proxy_plugins`, given the active plugins.
  unfoldable pub run_post_proxy_plugins :
      List (Plugin Req Resp Ctx Error) → Resp → Ctx → Ctx × Result Error Resp
  run_post_proxy_plugins [] resp ctx = (ctx, ok resp)
  run_post_proxy_plugins (p ∷ ps) resp ctx =
      let (resp', ctx', outcome) = p.after_proxy resp ctx in
      elim outcome [ ok _ ↦ run_post_proxy_plugins ps resp' ctx' | err e ↦ (ctx', err e) ]

-- The registry: `create` is `PluginRegistry::create_plugin`, which fails for an unknown name. The
-- database is `crate::db`, which the repository does not define: `database` is its lookup by id,
-- `none` where there is no connection.
module _ {P Error : Type 0} (create : String → String → Result Error P)
    (database : Option (String → Result Error (Option PluginConfig))) (not_found : Error) where
  abbrev from_row : Result Error (Option PluginConfig) → Result Error PluginConfig
  from_row (ok (some found)) = ok found
  from_row (ok none) = err not_found
  from_row (err e) = err e

  abbrev from_database :
      Option (String → Result Error (Option PluginConfig)) → String → Result Error PluginConfig
  from_database none id = err not_found
  from_database (some query) id = from_row (query id)

  -- The configuration in memory, or else the row of the database.
  unfoldable pub or_database : String → Option PluginConfig → Result Error PluginConfig
  or_database id (some found) = ok found
  or_database id none = from_database database id

  unfoldable pub get_plugin_config_by_id : Configuration → String → Result Error PluginConfig
  get_plugin_config_by_id config id =
      or_database id (find (λ pc. pc.id == id) config.plugin_configs)

  -- The plugin of one association; whatever fails is passed over.
  abbrev created : Result Error P → List P
  created (ok plugin) = plugin ∷ []
  created (err e) = []

  abbrev plugin_text : Option String → String → String
  plugin_text (some embedded) config = embedded
  plugin_text none config = config

  unfoldable pub create_from : Option String → Result Error PluginConfig → List P
  create_from embedded found =
      created (do pc ← found; create pc.plugin_name (plugin_text embedded pc.config))

  unfoldable pub associated_plugin : Configuration → PluginAssociation → List P
  associated_plugin config association =
      create_from association.embedded_config
        (get_plugin_config_by_id config association.plugin_config_id)

  unfoldable pub associated_plugins : Configuration → List PluginAssociation → List P
  associated_plugins config [] = []
  associated_plugins config (a ∷ associations) =
      associated_plugin config a ++ associated_plugins config associations

  -- A global plugin is created again with the configuration `{}`; here a failure is returned.
  unfoldable pub global_plugins : List String → Result Error (List P)
  global_plugins [] = ok []
  global_plugins (name ∷ names) = do
    plugin ← create name "{}"
    rest ← global_plugins names
    ok (plugin ∷ rest)

  -- `get_active_plugins_for_proxy`: `names` are those of the cached global plugins.
  unfoldable pub get_active_plugins_for_proxy :
      List String → Configuration → List PluginAssociation → Result Error (List P)
  get_active_plugins_for_proxy names config associations = do
    globals ← global_plugins names
    ok (globals ++ associated_plugins config associations)
