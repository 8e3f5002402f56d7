-- ===== src/Proxy/Handler/Guards.antt =====
-- src/proxy/handler.rs: when the plugins decide, and when they are not asked.
use ferrumgw.Common.{
  ◌≡◌, refl, ◌∙◌, ap, Bool, true, false, List, [], ◌∷◌, Result, ok, err, All, arith,
}
use ferrumgw.Config.{Proxy}
use ferrumgw.Plugins.Pipeline.{Plugin, run_post_proxy_plugins}
use ferrumgw.Proxy.Handler.{
  Services, forbidden, finish, handle, pre_proxy, post_proxy, after_pre_proxy, upgrades,
}

module _ {Req Resp Ctx BackendReq Uri Error : Type 0}
    (S : Services Req Resp Ctx BackendReq Uri Error) where
  -- The gateway with other plugins.
  abbrev pub with_active :
      Result Error (List (Plugin Req Resp Ctx Error)) → Services Req Resp Ctx BackendReq Uri Error
  with_active active = record S { active = active }

  -- A WebSocket upgrade for a WebSocket proxy is handled alike whatever plugins are active: no
  -- plugin, thus no authentication and no access control, is run for it.
  pub upgrade_ignores_plugins :
      (active : Result Error (List (Plugin Req Resp Ctx Error))) (req : Req) (proxy : Proxy)
      (ctx : Ctx)
      → upgrades S req proxy ≡ true
      → handle (with_active active) req proxy ctx ≡ handle S req proxy ctx
  unfolding handle
  upgrade_ignores_plugins active req proxy ctx h = rw h refl

  -- A plugin that leaves every response as it is.
  abbrev pub IsTransparent : Plugin Req Resp Ctx Error → Type 0
  IsTransparent p =
      (resp : Resp) (ctx : Ctx)
      → (after : Ctx) × (u : Unit) × (p.after_proxy resp ctx ≡ (resp, after, ok u))

  abbrev next_response :
      List (Plugin Req Resp Ctx Error)
      → Resp × Ctx × Result Error (Unit {0})
      → Ctx × Result Error Resp
  next_response ps (resp, ctx, ok u) = run_post_proxy_plugins ps resp ctx
  next_response ps (resp, ctx, err e) = (ctx, err e)

  run_post_proxy_plugins-transparent :
      (ps : List (Plugin Req Resp Ctx Error)) (resp : Resp) (ctx : Ctx)
      → All IsTransparent ps
      → (run_post_proxy_plugins ps resp ctx).1 ≡ ok resp
  unfolding run_post_proxy_plugins
  run_post_proxy_plugins-transparent [] resp ctx t = refl
  run_post_proxy_plugins-transparent (p ∷ ps) resp ctx (t, ts) =
      let (after, u, eq) = t resp ctx in
      ap (λ r. (next_response ps r).1) eq ∙ run_post_proxy_plugins-transparent ps resp after ts

  post_proxy-transparent :
      (active : List (Plugin Req Resp Ctx Error)) (resp : Resp) (ctx : Ctx)
      → S.active ≡ ok active
      → All IsTransparent active
      → post_proxy S resp ctx ≡ ok resp
  unfolding post_proxy
  post_proxy-transparent active resp ctx eq t =
      rw eq (run_post_proxy_plugins-transparent active resp ctx t)

  after_pre_proxy-rejected :
      (active : List (Plugin Req Resp Ctx Error)) (proxy : Proxy)
      (r : Req × Ctx × Result Error Bool)
      → S.active ≡ ok active
      → All IsTransparent active
      → r.2 ≡ ok false
      → after_pre_proxy S proxy r ≡ finish S [] (S.respond forbidden "Request rejected by plugin")
  unfolding after_pre_proxy
  after_pre_proxy-rejected active proxy (req, ctx, ok true) eq t rejected = ground arith
  after_pre_proxy-rejected active proxy (req, ctx, ok false) eq t rejected =
      rw (post_proxy-transparent active (S.respond forbidden "Request rejected by plugin") ctx eq t)
        refl
  after_pre_proxy-rejected active proxy (req, ctx, err e) eq t rejected = ground arith

  -- Where a plugin stops the request and no active plugin rewrites responses, the client is answered
  -- 403, whatever status the plugin that stopped it wants.
  rejected_is_forbidden :
      (active : List (Plugin Req Resp Ctx Error)) (req : Req) (proxy : Proxy) (ctx : Ctx)
      → upgrades S req proxy ≡ false
      → S.active ≡ ok active
      → All IsTransparent active
      → (pre_proxy S req ctx).2 ≡ ok false
      → handle S req proxy ctx ≡ finish S [] (S.respond forbidden "Request rejected by plugin")
  unfolding handle
  rejected_is_forbidden active req proxy ctx h eq t rejected =
      rw h (after_pre_proxy-rejected active proxy (pre_proxy S req ctx) eq t rejected)
