-- ===== src/Tests/Handler.antt =====
-- The theorems about the request handler, at concrete values.
use ferrumgw.Common.{ℕ, ◌≡◌, refl, String, ascii, true, List, [], ◌∷◌, none, some, ok, leb}
use ferrumgw.Config.{Proxy}
use ferrumgw.Plugins.Pipeline.{Plugin, run_pre_proxy_plugins, run_phase, and_then}
use ferrumgw.Proxy.Router.{construct_backend_path, remaining_path, join_paths}
use ferrumgw.Proxy.Handler.{
  Services, Forwarded, requested, handle, pre_proxy, after_pre_proxy, after_resolve, after_path,
  after_uri, after_prepare, after_send, resolve_backend_host, overridden_or_looked_up,
  build_backend_uri,
}
use ferrumgw.Proxy.Handler.Answers.{IsSettled, handle-IsSettled}
use ferrumgw.Proxy.Router.{RouteTree, route}
use ferrumgw.Proxy.Server.{
  ContentLength, as_text, is_too_large, parse_usize, after_route, handle_request,
}
use ferrumgw.Proxy.Server.Reaching.{HasReached, handle_request-HasReached}
use ferrumgw.Tests.Samples.{users, served}

-- Requests and contexts are numbers, responses are their status.
abbrev gate : Plugin ℕ ℕ ℕ String
gate = record {
  name = "gate";
  on_request_received = λ req ctx. (req, ctx, ok true);
  authenticate = λ req ctx. (req, ctx, ok (leb req 9));
  authorize = λ req ctx. (req, ctx, ok true);
  before_proxy = λ req ctx. (req, ctx, ok true);
  after_proxy = λ resp ctx. (resp, ctx, ok tt);
}

abbrev gateway : Services ℕ ℕ ℕ ℕ String String
gateway = record {
  respond = λ status text. status;
  active = ok (gate ∷ []);
  is_websocket_request = λ req. leb 100 req;
  handle_websocket = λ req ctx. ok 101;
  default_ttl = 300000;
  lookup_with_ttl = λ host ttl. some (ok "10.0.0.7");
  path_of = λ req. ascii "/users/7";
  query_of = λ req. none;
  parse_uri = λ parts. ok "uri";
  prepare_backend_request = λ req proxy uri. ok req;
  send = λ req. ok 200;
  error_text = λ e. e;
}

handle-IsSettled_example :
    IsSettled gateway (pre_proxy gateway 3 0).0 users (handle gateway 3 users 0)
handle-IsSettled_example = handle-IsSettled gateway 3 users 0 refl

-- A tree with one route, for every path.
abbrev one_route : RouteTree
one_route = record {
  Tree = String;
  empty = "";
  insert = λ tree path id. some id;
  at = λ tree path. some tree;
}

abbrev length_of : ℕ → ContentLength
length_of req = as_text "12"

abbrev new_context : Proxy → ℕ
new_context proxy = 0

handle_request-HasReached_example :
    (◌≡◌ {A = List (Forwarded ℕ ℕ)} [] [])
    × HasReached one_route gateway length_of new_context users.id served 100 3 (requested 3)
unfolding handle_request is_too_large parse_usize route after_route handle pre_proxy
    run_pre_proxy_plugins run_phase and_then after_pre_proxy after_resolve after_path after_uri
    after_prepare after_send resolve_backend_host overridden_or_looked_up build_backend_uri
    construct_backend_path remaining_path join_paths
handle_request-HasReached_example =
    handle_request-HasReached one_route gateway length_of new_context users.id served 100 3
      (requested 3) [] refl
