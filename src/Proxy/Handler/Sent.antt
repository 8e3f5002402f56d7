-- ===== src/Proxy/Handler/Sent.antt =====
-- src/proxy/handler.rs: what is passed on to the backend.
use ferrumgw.Common.{
  ◌≡◌, refl, String, Bytes, Bool, true, false, Bool-cases, inl, inr, List, [], ◌∷◌, Option, none,
  some, Result, ok, err, arith,
}
use ferrumgw.Config.{Proxy}
use ferrumgw.Proxy.Router.{construct_backend_path}
use ferrumgw.Proxy.Handler.{
  Services, Forwarded, upgraded, requested, Handled, handle, pre_proxy, after_pre_proxy,
  after_resolve, after_path, after_uri, after_prepare, after_send, resolve_backend_host,
  build_backend_uri, upgrades,
}

module _ {Req Resp Ctx BackendReq Uri Error : Type 0}
    (S : Services Req Resp Ctx BackendReq Uri Error) where
  -- A request to the backend, of which `P` holds.
  abbrev pub OfRequest : (BackendReq → Type 0) → Forwarded Req BackendReq → Type 0
  OfRequest P (requested b) = P b
  OfRequest P (upgraded r) = ⊥

  -- What a request that reaches the backend has behind it.
  abbrev pub IsSentFor : (BackendReq → Type 0) → Handled Req Resp BackendReq Error → Type 0
  IsSentFor P h =
      (f : Forwarded Req BackendReq) (fs : List (Forwarded Req BackendReq))
      → h.sent ≡ f ∷ fs
      → (fs ≡ []) × OfRequest P f

  nothing_sent :
      (P : BackendReq → Type 0) (f : Forwarded Req BackendReq)
      (fs : List (Forwarded Req BackendReq))
      → ◌≡◌ {A = List (Forwarded Req BackendReq)} [] (f ∷ fs)
      → (fs ≡ []) × OfRequest P f
  nothing_sent P b bs eq = ground arith

  sent_once :
      (P : BackendReq → Type 0) (b : BackendReq) (f : Forwarded Req BackendReq)
      (fs : List (Forwarded Req BackendReq))
      → P b
      → requested b ∷ [] ≡ f ∷ fs
      → (fs ≡ []) × OfRequest P f
  sent_once P b (requested c) fs p eq = ground arith
  sent_once P b (upgraded r) fs p eq = absurd (ground arith)

  after_send-IsSentFor :
      (P : BackendReq → Type 0) (b : BackendReq) (ctx : Ctx) (o : Result Error Resp)
      → P b
      → IsSentFor P (after_send S b ctx o)
  unfolding after_send
  after_send-IsSentFor P b ctx (ok resp) p c bs eq = sent_once P b c bs p eq
  after_send-IsSentFor P b ctx (err e) p c bs eq = sent_once P b c bs p eq

  after_prepare-IsSentFor :
      (P : BackendReq → Type 0) (ctx : Ctx) (o : Result Error BackendReq)
      → ((b : BackendReq) → o ≡ ok b → P b)
      → IsSentFor P (after_prepare S ctx o)
  unfolding after_prepare
  after_prepare-IsSentFor P ctx (ok b) p = after_send-IsSentFor P b ctx (S.send b) (p b refl)
  after_prepare-IsSentFor P ctx (err e) p = nothing_sent P

  -- The request was prepared from what the plugins left, for a URI that was built for this proxy.
  abbrev pub IsPreparedFrom : Req → Proxy → BackendReq → Type 0
  IsPreparedFrom req proxy b =
      (ip : String) × (path : Bytes) × (uri : Uri) × (resolve_backend_host S proxy ≡ some (ok ip))
      × (construct_backend_path (S.path_of req) proxy ≡ some path)
      × (build_backend_uri S proxy ip path req ≡ ok uri)
      × (S.prepare_backend_request req proxy uri ≡ ok b)

  after_uri-IsSentFor :
      (P : BackendReq → Type 0) (req : Req) (proxy : Proxy) (ctx : Ctx) (o : Result Error Uri)
      → ((uri : Uri) (b : BackendReq)
          → o ≡ ok uri
          → S.prepare_backend_request req proxy uri ≡ ok b
          → P b)
      → IsSentFor P (after_uri S req proxy ctx o)
  unfolding after_uri
  after_uri-IsSentFor P req proxy ctx (ok uri) p =
      after_prepare-IsSentFor P ctx (S.prepare_backend_request req proxy uri)
        (λ b eq. p uri b refl eq)
  after_uri-IsSentFor P req proxy ctx (err e) p = nothing_sent P

  after_path-IsSentFor :
      (req : Req) (proxy : Proxy) (ctx : Ctx) (ip : String) (o : Option Bytes)
      → resolve_backend_host S proxy ≡ some (ok ip)
      → construct_backend_path (S.path_of req) proxy ≡ o
      → IsSentFor (IsPreparedFrom req proxy) (after_path S req proxy ctx ip o)
  unfolding after_path
  after_path-IsSentFor req proxy ctx ip none eq eq' = nothing_sent (IsPreparedFrom req proxy)
  after_path-IsSentFor req proxy ctx ip (some path) eq eq' =
      after_uri-IsSentFor (IsPreparedFrom req proxy) req proxy ctx
        (build_backend_uri S proxy ip path req)
        (λ uri b built prepared. (ip, path, uri, eq, eq', built, prepared))

  after_resolve-IsSentFor :
      (req : Req) (proxy : Proxy) (ctx : Ctx) (o : Option (Result Error String))
      → resolve_backend_host S proxy ≡ o
      → IsSentFor (IsPreparedFrom req proxy) (after_resolve S req proxy ctx o)
  unfolding after_resolve
  after_resolve-IsSentFor req proxy ctx none eq = nothing_sent (IsPreparedFrom req proxy)
  after_resolve-IsSentFor req proxy ctx (some (ok ip)) eq =
      after_path-IsSentFor req proxy ctx ip (construct_backend_path (S.path_of req) proxy) eq refl
  after_resolve-IsSentFor req proxy ctx (some (err e)) eq = nothing_sent (IsPreparedFrom req proxy)

  -- The plugins let the request pass, and it was prepared from what they left.
  abbrev pub IsPassedOn : Proxy → Req × Ctx × Result Error Bool → BackendReq → Type 0
  IsPassedOn proxy r b = (r.2 ≡ ok true) × IsPreparedFrom r.0 proxy b

  passed :
      (proxy : Proxy) (req : Req) (ctx : Ctx) (f : Forwarded Req BackendReq)
      → OfRequest (IsPreparedFrom req proxy) f
      → OfRequest (IsPassedOn proxy (req, ctx, ok true)) f
  passed proxy req ctx (requested b) prepared = (refl, prepared)
  passed proxy req ctx (upgraded r) prepared = prepared

  after_pre_proxy-IsSentFor :
      (proxy : Proxy) (r : Req × Ctx × Result Error Bool)
      → IsSentFor (IsPassedOn proxy r) (after_pre_proxy S proxy r)
  unfolding after_pre_proxy
  after_pre_proxy-IsSentFor proxy (req, ctx, ok true) f fs eq =
      let (alone, prepared) =
        after_resolve-IsSentFor req proxy ctx (resolve_backend_host S proxy) refl f fs eq in
      (alone, passed proxy req ctx f prepared)
  after_pre_proxy-IsSentFor proxy (req, ctx, ok false) f fs eq = nothing_sent _ f fs eq
  after_pre_proxy-IsSentFor proxy (req, ctx, err e) f fs eq = nothing_sent _ f fs eq

  -- The client's request, where it is an upgrade for a WebSocket proxy, whatever the plugins; or else a
  -- request to the backend that the plugins let pass.
  abbrev pub IsForwarded : Req → Proxy → Ctx → Forwarded Req BackendReq → Type 0
  IsForwarded req proxy ctx (upgraded r) = (r ≡ req) × (upgrades S req proxy ≡ true)
  IsForwarded req proxy ctx (requested b) =
      (upgrades S req proxy ≡ false) × IsPassedOn proxy (pre_proxy S req ctx) b

  upgraded_once :
      (req : Req) (proxy : Proxy) (ctx : Ctx) (f : Forwarded Req BackendReq)
      (fs : List (Forwarded Req BackendReq))
      → upgrades S req proxy ≡ true
      → upgraded req ∷ [] ≡ f ∷ fs
      → (fs ≡ []) × IsForwarded req proxy ctx f
  upgraded_once req proxy ctx (upgraded r) fs h eq = ground arith
  upgraded_once req proxy ctx (requested b) fs h eq = absurd (ground arith)

  not_upgraded :
      (req : Req) (proxy : Proxy) (ctx : Ctx) (f : Forwarded Req BackendReq)
      → upgrades S req proxy ≡ false
      → OfRequest (IsPassedOn proxy (pre_proxy S req ctx)) f
      → IsForwarded req proxy ctx f
  not_upgraded req proxy ctx (requested b) h passed_on = (h, passed_on)
  not_upgraded req proxy ctx (upgraded r) h passed_on = absurd passed_on

  -- `handle` passes at most one thing on: an upgrade for a WebSocket proxy, for which no plugin runs; or,
  -- for any other request, one request to the backend, only where all pre-proxy plugins let it pass, and
  -- prepared from the request as the plugins left it, with the path and the URI built for the proxy.
  pub handle-IsForwarded :
      (req : Req) (proxy : Proxy) (ctx : Ctx) (f : Forwarded Req BackendReq)
      (fs : List (Forwarded Req BackendReq))
      → (handle S req proxy ctx).sent ≡ f ∷ fs
      → (fs ≡ []) × IsForwarded req proxy ctx f
  unfolding handle
  handle-IsForwarded req proxy ctx f fs = elim (Bool-cases (upgrades S req proxy)) [
    | inl h ↦ rw h (λ eq. upgraded_once req proxy ctx f fs h eq)
    | inr h ↦ rw h (λ eq.
        let (alone, passed_on) = after_pre_proxy-IsSentFor proxy (pre_proxy S req ctx) f fs eq in
        (alone, not_upgraded req proxy ctx f h passed_on))
  ]
