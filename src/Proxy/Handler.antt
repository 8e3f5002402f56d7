-- ===== src/Proxy/Handler.antt =====
-- src/proxy/handler.rs, `ProxyHandler::handle`: one request through the gateway.
-- The calls out of the handler are the fields of `Services`; `handle_websocket`, which answers the upgrade
-- and starts the task that connects to the backend, is one of them. The plugin runs are those of
-- Plugins/Pipeline, the path is that of Proxy/Router; the hooks and the backend are taken to return. The
-- result lists what was passed on and the responses that were given to the logging plugins.
pub mod Answers
pub mod Sent
pub mod Guards
use ferrumgw.Common.{
  ℕ, String, Bytes, Bool, true, false, ◌&&◌, Option, none, some, List, [], ◌∷◌, Result, ok, err,
  if◌then◌else◌,
}
use ferrumgw.Config.{Proxy, BackendProtocol, http, https, ws, wss, grpc}
use ferrumgw.Plugins.Pipeline.{Plugin, Hook, run_pre_proxy_plugins, run_post_proxy_plugins}
use ferrumgw.Proxy.Router.{construct_backend_path}

-- The parts that `build_backend_uri` writes one after the other, as `scheme://ip:port path ?query`.
pub record UriParts : Type 0 where
  pub scheme : String
  pub ip : String
  pub port : ℕ
  pub path : Bytes
  pub query : Option String

-- What is passed on: the client's request, with its connection, or a request to the backend.
pub data Forwarded (Req BackendReq : Type 0) : Type 0 where
  upgraded : Req → Forwarded Req BackendReq
  requested : BackendReq → Forwarded Req BackendReq

-- What `handle` calls. `active` is `get_active_plugins_for_proxy`, which each of the runs calls anew;
-- `parse_uri` is hyper's parser on the text of the parts. A lookup that never returns is `none`: that
-- of a host whose entry in the DNS cache has expired.
pub record Services (Req Resp Ctx BackendReq Uri Error : Type 0) : Type 0 where
  pub respond : ℕ → String → Resp
  pub active : Result Error (List (Plugin Req Resp Ctx Error))
  pub is_websocket_request : Req → Bool
  pub handle_websocket : Req → Ctx → Result Error Resp
  pub default_ttl : ℕ
  pub lookup_with_ttl : String → ℕ → Option (Result Error String)
  pub path_of : Req → Bytes
  pub query_of : Req → Option String
  pub parse_uri : UriParts → Result Error Uri
  pub prepare_backend_request : Req → Proxy → Uri → Result Error BackendReq
  pub send : BackendReq → Result Error Resp
  pub error_text : Error → String

-- `none` is a request whose task panicked or waits for ever.
pub record Handled (Req Resp BackendReq Error : Type 0) : Type 0 where
  pub response : Option (Result Error Resp)
  pub sent : List (Forwarded Req BackendReq)
  pub logged : List Resp

abbrev pub scheme_of : BackendProtocol → String
scheme_of http = "http"
scheme_of https = "https"
scheme_of ws = "http"
scheme_of wss = "https"
scheme_of grpc = "http"

abbrev pub ttl_or : ℕ → Option ℕ → ℕ
ttl_or default_ttl none = default_ttl
ttl_or default_ttl (some ttl) = ttl

abbrev pub is_ws : BackendProtocol → Bool
is_ws ws = true
is_ws wss = true
is_ws _ = false

abbrev pub forbidden : ℕ
forbidden = 403

abbrev pub internal_server_error : ℕ
internal_server_error = 500

abbrev pub bad_gateway : ℕ
bad_gateway = 502

module _ {Req Resp Ctx BackendReq Uri Error : Type 0}
    (S : Services Req Resp Ctx BackendReq Uri Error) where
  -- `run_pre_proxy_plugins` and `run_post_proxy_plugins`, which fail where the active plugins cannot
  -- be created.
  unfoldable pub pre_proxy : Hook Req Ctx Error
  pre_proxy req ctx = elim S.active [
    | ok active ↦ run_pre_proxy_plugins active req ctx
    | err e ↦ (req, ctx, err e)
  ]

  unfoldable pub post_proxy : Resp → Ctx → Result Error Resp
  post_proxy resp ctx = elim S.active [
    | ok active ↦ (run_post_proxy_plugins active resp ctx).1
    | err e ↦ err e
  ]

  -- A response that is logged and returned.
  abbrev pub finish : List (Forwarded Req BackendReq) → Resp → Handled Req Resp BackendReq Error
  finish sent response = record {
    response = some (ok response);
    sent = sent;
    logged = response ∷ [];
  }

  abbrev or_response : Resp → Result Error Resp → Resp
  or_response fallback (ok response) = response
  or_response fallback (err e) = fallback

  -- The answer of the backend.
  unfoldable pub after_send :
      BackendReq → Ctx → Result Error Resp → Handled Req Resp BackendReq Error
  after_send backend_req ctx (ok resp) = finish (requested backend_req ∷ []) (
      or_response (S.respond internal_server_error "Error processing backend response")
        (post_proxy resp ctx))
  after_send backend_req ctx (err e) =
      finish (requested backend_req ∷ []) (S.respond bad_gateway (S.error_text e))

  unfoldable pub after_prepare : Ctx → Result Error BackendReq → Handled Req Resp BackendReq Error
  after_prepare ctx (ok backend_req) = after_send backend_req ctx (S.send backend_req)
  after_prepare ctx (err e) =
      finish [] (S.respond internal_server_error "Failed to prepare backend request")

  -- `resolve_backend_host`
  unfoldable pub overridden_or_looked_up : Proxy → Option String → Option (Result Error String)
  overridden_or_looked_up proxy (some ip) = some (ok ip)
  overridden_or_looked_up proxy none =
      S.lookup_with_ttl proxy.backend_host (ttl_or S.default_ttl proxy.dns_cache_ttl_seconds)

  unfoldable pub resolve_backend_host : Proxy → Option (Result Error String)
  resolve_backend_host proxy = overridden_or_looked_up proxy proxy.dns_override

  unfoldable pub build_backend_uri : Proxy → String → Bytes → Req → Result Error Uri
  build_backend_uri proxy backend_ip backend_path original_req = S.parse_uri record {
    scheme = scheme_of proxy.backend_protocol;
    ip = backend_ip;
    port = proxy.backend_port;
    path = backend_path;
    query = S.query_of original_req;
  }

  unfoldable pub after_uri :
      Req → Proxy → Ctx → Result Error Uri → Handled Req Resp BackendReq Error
  after_uri req proxy ctx (ok uri) = after_prepare ctx (S.prepare_backend_request req proxy uri)
  after_uri req proxy ctx (err e) =
      finish [] (S.respond internal_server_error "Failed to build backend URI")

  unfoldable pub after_path :
      Req → Proxy → Ctx → String → Option Bytes → Handled Req Resp BackendReq Error
  after_path req proxy ctx backend_ip (some path) =
      after_uri req proxy ctx (build_backend_uri proxy backend_ip path req)
  after_path req proxy ctx backend_ip none = record { response = none; sent = []; logged = [] }

  unfoldable pub after_resolve :
      Req → Proxy → Ctx → Option (Result Error String) → Handled Req Resp BackendReq Error
  after_resolve req proxy ctx (some (ok backend_ip)) =
      after_path req proxy ctx backend_ip (construct_backend_path (S.path_of req) proxy)
  after_resolve req proxy ctx (some (err e)) =
      finish [] (S.respond bad_gateway "Failed to resolve backend host")
  after_resolve req proxy ctx none = record { response = none; sent = []; logged = [] }

  -- The three outcomes of the pre-proxy plugins.
  unfoldable pub after_pre_proxy :
      Proxy → Req × Ctx × Result Error Bool → Handled Req Resp BackendReq Error
  after_pre_proxy proxy (req, ctx, ok true) =
      after_resolve req proxy ctx (resolve_backend_host proxy)
  after_pre_proxy proxy (req, ctx, ok false) = finish [] (
      or_response (S.respond forbidden "Request rejected by plugin")
        (post_proxy (S.respond forbidden "Request rejected by plugin") ctx))
  after_pre_proxy proxy (req, ctx, err e) =
      finish [] (S.respond internal_server_error "Internal server error in request processing")

  abbrev pub upgrades : Req → Proxy → Bool
  upgrades req proxy = S.is_websocket_request req && is_ws proxy.backend_protocol

  -- A WebSocket upgrade for a WebSocket backend leaves the function before any plugin runs.
  unfoldable pub handle : Req → Proxy → Ctx → Handled Req Resp BackendReq Error
  handle req proxy ctx =
      if upgrades req proxy
      then record {
        response = some (S.handle_websocket req ctx);
        sent = upgraded req ∷ [];
        logged = [];
      }
      else after_pre_proxy proxy (pre_proxy req ctx)
