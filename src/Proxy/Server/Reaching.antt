-- ===== src/Proxy/Server/Reaching.antt =====
-- src/proxy/mod.rs with router.rs and handler.rs: which backend a request reaches, and that it is answered.
use ferrumgw.Common.{
  ℕ, ◌≡◌, refl, ◌⊎◌, inl, inr, String, true, false, List, [], ◌∷◌, Option, none, some, Result, ok,
  err, Bool-cases, Option-cases, find, ◌==◌, string_eq, arith,
}
use ferrumgw.Config.{Proxy, Configuration}
use ferrumgw.Proxy.Router.{RouteTree, route}
use ferrumgw.Proxy.Handler.{Services, Forwarded, Handled, handle, internal_server_error}
use ferrumgw.Proxy.Handler.Sent.{IsForwarded, handle-IsForwarded}
use ferrumgw.Proxy.Server.{
  ContentLength, is_too_large, answer, or_error, after_route, handle_request, payload_too_large,
  not_found,
}

module _ {Req Resp Ctx BackendReq Uri Error : Type 0} (M : RouteTree)
    (S : Services Req Resp Ctx BackendReq Uri Error) (content_length : Req → ContentLength)
    (context_of : Proxy → Ctx) where
  -- The tree holds the id of a proxy of the configuration for the path, the body is not too large, and the
  -- handler passes this on for that proxy.
  abbrev pub HasReached : M.Tree → Configuration → ℕ → Req → Forwarded Req BackendReq → Type 0
  HasReached tree config max_body_size req f =
      (id : String) × (proxy : Proxy) × (M.at tree (S.path_of req) ≡ some id)
      × (find (λ p. p.id == id) config.proxies ≡ some proxy)
      × (is_too_large max_body_size (content_length req) ≡ false)
      × IsForwarded S req proxy (context_of proxy) f

  after_route-sent :
      (req : Req) (o : Option Proxy) (f : Forwarded Req BackendReq)
      (fs : List (Forwarded Req BackendReq))
      → (after_route M S content_length context_of req o).sent ≡ f ∷ fs
      → (fs ≡ [])
        × (proxy : Proxy) × (o ≡ some proxy)
        × IsForwarded S req proxy (context_of proxy) f
  unfolding after_route
  after_route-sent req none f fs h = absurd (ground arith)
  after_route-sent req (some proxy) f fs h =
      let (alone, passed) = handle-IsForwarded S req proxy (context_of proxy) f fs h in
      (alone, proxy, refl, passed)

  route-at :
      (tree : M.Tree) (config : Configuration) (path : List ℕ) (proxy : Proxy)
      → route M tree config path ≡ some proxy
      → (id : String) × (M.at tree path ≡ some id)
        × (find (λ p. p.id == id) config.proxies ≡ some proxy)
  unfolding route
  route-at tree config path proxy h = elim (Option-cases (M.at tree path)) [
    | inl nothing ↦ absurd (ground arith)
    | inr (id, held) ↦ (id, held, rw held at h)
  ]

  -- A server passes a request on at most once, and only for the proxy that the tree names for its path and
  -- the configuration has, if its body is not too large. It is an upgrade for a WebSocket proxy, which no
  -- plugin has seen; or it is no upgrade, all pre-proxy plugins of that proxy let it pass, and what is
  -- sent was prepared from the request as they left it.
  pub handle_request-HasReached :
      (tree : M.Tree) (config : Configuration) (max_body_size : ℕ) (req : Req)
      (f : Forwarded Req BackendReq) (fs : List (Forwarded Req BackendReq))
      → (handle_request M S content_length context_of tree config max_body_size req).sent ≡ f ∷ fs
      → (fs ≡ []) × HasReached tree config max_body_size req f
  unfolding handle_request
  handle_request-HasReached tree config max_body_size req f fs h =
      elim (Bool-cases (is_too_large max_body_size (content_length req))) [
        | inl large ↦ absurd (ground arith)
        | inr small ↦
            let (alone, proxy, routed, passed) =
              after_route-sent req (route M tree config (S.path_of req)) f fs (rw small at h) in
            let (id, held, found) = route-at tree config (S.path_of req) proxy routed in
            (alone, (id, proxy, held, found, small, passed))
      ]

  -- The answer of a server where there is one: the status of the guard that stops the request, the answer
  -- of the handler, or 500 for its error.
  abbrev pub IsResponse : Handled Req Resp BackendReq Error → Type 0
  IsResponse h = (h.response ≡ none) ⊎ ((r : Resp) × (h.response ≡ some (ok r)))

  or_error-cases :
      (o : Option (Result Error Resp))
      → (or_error M S content_length context_of o ≡ none)
        ⊎ ((r : Resp) × (or_error M S content_length context_of o ≡ some (ok r)))
  or_error-cases none = inl refl
  or_error-cases (some (ok r)) = inr (r, refl)
  or_error-cases (some (err e)) =
      inr (S.respond internal_server_error "Internal Server Error", refl)

  after_route-IsResponse :
      (req : Req) (o : Option Proxy) → IsResponse (after_route M S content_length context_of req o)
  unfolding after_route
  after_route-IsResponse req none = inr (S.respond not_found "Not Found", refl)
  after_route-IsResponse req (some proxy) =
      or_error-cases (handle S req proxy (context_of proxy)).response

  -- A server never passes an error on: every request is answered, with the status 413 if its body is too
  -- large, or its task panics.
  pub handle_request-IsResponse :
      (tree : M.Tree) (config : Configuration) (max_body_size : ℕ) (req : Req)
      → IsResponse (handle_request M S content_length context_of tree config max_body_size req)
        × (is_too_large max_body_size (content_length req) ≡ true
            → handle_request M S content_length context_of tree config max_body_size req
              ≡ answer M S content_length context_of payload_too_large "Request body too large")
  unfolding handle_request
  handle_request-IsResponse tree config max_body_size req =
      elim (Bool-cases (is_too_large max_body_size (content_length req))) [
        | inl large ↦
            rw large (inr (S.respond payload_too_large "Request body too large", refl), λ _. refl)
        | inr small ↦ rw small (
          after_route-IsResponse req (route M tree config (S.path_of req)),
          λ h. absurd (ground arith),
        )
      ]
