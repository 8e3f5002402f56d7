-- ===== src/Proxy/Handler/Answers.antt =====
-- src/proxy/handler.rs: what a request is answered and what is logged.
use ferrumgw.Common.{
  ◌≡◌, refl, String, Bytes, Bool, true, false, ◌⊎◌, inl, inr, [], ◌∷◌, Option, none, some, Result,
  ok, err, arith,
}
use ferrumgw.Config.{Proxy}
use ferrumgw.Proxy.Router.{construct_backend_path}
use ferrumgw.Proxy.Handler.{
  Services, Handled, handle, pre_proxy, after_pre_proxy, after_resolve, after_path, after_uri,
  after_prepare, after_send, resolve_backend_host, build_backend_uri, upgrades,
  overridden_or_looked_up, ttl_or,
}

module _ {Req Resp Ctx BackendReq Uri Error : Type 0}
    (S : Services Req Resp Ctx BackendReq Uri Error) where
  -- One response, logged once.
  abbrev pub IsAnswered : Handled Req Resp BackendReq Error → Type 0
  IsAnswered h = (r : Resp) × (h.response ≡ some (ok r)) × (h.logged ≡ r ∷ [])

  after_send-IsAnswered :
      (b : BackendReq) (ctx : Ctx) (o : Result Error Resp) → IsAnswered (after_send S b ctx o)
  unfolding after_send
  after_send-IsAnswered b ctx (ok resp) = (_, refl, refl)
  after_send-IsAnswered b ctx (err e) = (_, refl, refl)

  after_prepare-IsAnswered :
      (ctx : Ctx) (o : Result Error BackendReq) → IsAnswered (after_prepare S ctx o)
  unfolding after_prepare
  after_prepare-IsAnswered ctx (ok b) = after_send-IsAnswered b ctx (S.send b)
  after_prepare-IsAnswered ctx (err e) = (_, refl, refl)

  after_uri-IsAnswered :
      (req : Req) (proxy : Proxy) (ctx : Ctx) (o : Result Error Uri)
      → IsAnswered (after_uri S req proxy ctx o)
  unfolding after_uri
  after_uri-IsAnswered req proxy ctx (ok uri) =
      after_prepare-IsAnswered ctx (S.prepare_backend_request req proxy uri)
  after_uri-IsAnswered req proxy ctx (err e) = (_, refl, refl)

  -- A request that leaves with a panic has a path that cannot be sliced.
  abbrev pub IsPanicked : Req → Proxy → Handled Req Resp BackendReq Error → Type 0
  IsPanicked req proxy h =
      (construct_backend_path (S.path_of req) proxy ≡ none) × (h.response ≡ none)

  after_path-IsAnswered :
      (req : Req) (proxy : Proxy) (ctx : Ctx) (ip : String) (o : Option Bytes)
      → construct_backend_path (S.path_of req) proxy ≡ o
      → IsPanicked req proxy (after_path S req proxy ctx ip o)
        ⊎ IsAnswered (after_path S req proxy ctx ip o)
  unfolding after_path
  after_path-IsAnswered req proxy ctx ip none eq = inl (eq, refl)
  after_path-IsAnswered req proxy ctx ip (some path) eq =
      inr (after_uri-IsAnswered req proxy ctx (build_backend_uri S proxy ip path req))

  -- A request that waits for ever is for a proxy whose host is looked up by a lookup that never returns.
  abbrev pub IsStuck : Proxy → Handled Req Resp BackendReq Error → Type 0
  IsStuck proxy h =
      (proxy.dns_override ≡ none)
      × (S.lookup_with_ttl proxy.backend_host (ttl_or S.default_ttl proxy.dns_cache_ttl_seconds)
          ≡ none)
      × (h.response ≡ none)
      × (h.sent ≡ [])

  abbrev pub IsSettled : Req → Proxy → Handled Req Resp BackendReq Error → Type 0
  IsSettled req proxy h = IsStuck proxy h ⊎ (IsPanicked req proxy h ⊎ IsAnswered h)

  lookup-stuck :
      (proxy : Proxy) (o : Option String)
      → proxy.dns_override ≡ o
      → overridden_or_looked_up S proxy o ≡ none
      → (proxy.dns_override ≡ none)
        × (S.lookup_with_ttl proxy.backend_host (ttl_or S.default_ttl proxy.dns_cache_ttl_seconds)
            ≡ none)
  unfolding overridden_or_looked_up
  lookup-stuck proxy none e h = (e, h)
  lookup-stuck proxy (some ip) e h = absurd (ground arith)

  after_resolve-IsSettled :
      (req : Req) (proxy : Proxy) (ctx : Ctx) (o : Option (Result Error String))
      → resolve_backend_host S proxy ≡ o
      → IsSettled req proxy (after_resolve S req proxy ctx o)
  unfolding after_resolve resolve_backend_host
  after_resolve-IsSettled req proxy ctx (some (ok ip)) e =
      inr
        (after_path-IsAnswered req proxy ctx ip (construct_backend_path (S.path_of req) proxy) refl)
  after_resolve-IsSettled req proxy ctx (some (err e)) h = inr (inr (_, refl, refl))
  after_resolve-IsSettled req proxy ctx none h =
      let (unset, stuck) = lookup-stuck proxy proxy.dns_override refl h in
      inl (unset, stuck, refl, refl)

  after_pre_proxy-IsSettled :
      (proxy : Proxy) (r : Req × Ctx × Result Error Bool)
      → IsSettled r.0 proxy (after_pre_proxy S proxy r)
  unfolding after_pre_proxy
  after_pre_proxy-IsSettled proxy (req, ctx, ok true) =
      after_resolve-IsSettled req proxy ctx (resolve_backend_host S proxy) refl
  after_pre_proxy-IsSettled proxy (req, ctx, ok false) = inr (inr (_, refl, refl))
  after_pre_proxy-IsSettled proxy (req, ctx, err e) = inr (inr (_, refl, refl))

  -- Where the plugins and the backend return, every request that is no WebSocket upgrade is answered with
  -- one response, which the logging plugins are given exactly once; or its path cannot be sliced and the
  -- task panics; or the proxy has no override and the lookup of its host never returns, in which case
  -- nothing is sent and nobody is answered.
  pub handle-IsSettled :
      (req : Req) (proxy : Proxy) (ctx : Ctx)
      → upgrades S req proxy ≡ false
      → IsSettled (pre_proxy S req ctx).0 proxy (handle S req proxy ctx)
  unfolding handle
  handle-IsSettled req proxy ctx h = rw h (after_pre_proxy-IsSettled proxy (pre_proxy S req ctx))
