-- ===== src/Tests/Planes.antt =====
-- The theorems about the data plane and the routing of the interface, at concrete values.
use ferrumgw.Common.{◌≡◌, refl, Option, some, String, List, [], ◌∷◌, Result, ok, err, ℕ, suc}
use ferrumgw.Config.{Proxy}
use ferrumgw.Grpc.Messages.{Entities}
use ferrumgw.Grpc.Conversions.{entities_of}
use ferrumgw.Modes.DataPlane.{connect_to_control_plane, converted}
use ferrumgw.Modes.DataPlane.Retrying.{IsRetried, reconnect-IsRetried}
use ferrumgw.Modes.DataPlane.Receiving.{served_of, connect_serves_last}
use ferrumgw.Admin.PluginConfigs.{PluginConfigTable}
use ferrumgw.Admin.Routing.{
  put, delete, route_request, update_proxy, delete_proxy, update_plugin_config,
  delete_plugin_config, invalid_path,
}
use ferrumgw.Admin.Routing.Misrouted.{join, credentials_path, route_request_ids}
use ferrumgw.Tests.Samples.{served, users}
use ferrumgw.Tests.Codec.{codec}

abbrev two_failures : List (Result String (Unit {0}) × ℕ)
two_failures = (err "refused", 250) ∷ (ok tt, 0) ∷ (err "refused", 100) ∷ (ok tt, 0) ∷ []

reconnect-IsRetried_example : IsRetried two_failures
reconnect-IsRetried_example = reconnect-IsRetried two_failures

-- A snapshot, an update, and the end of the stream by an error.
abbrev stream : List (Result String Entities)
stream = ok (entities_of codec (record served { proxies = users ∷ [] })) ∷ err "reset" ∷ []

-- The cache is the number of warm-ups.
abbrev count_warm_up : ℕ → List Proxy → Option ℕ
count_warm_up n proxies = some (suc n)

connect_serves_last_example :
    (connect_to_control_plane codec 9 count_warm_up
      (ok (entities_of codec served))
      (ok stream)
      served
      0).0
    ≡ served_of codec 9 count_warm_up
        (converted codec 9 count_warm_up (ok (entities_of codec served)))
        (ok stream)
        served
connect_serves_last_example =
    connect_serves_last codec 9 count_warm_up (λ n proxies. (suc n, refl))
      (ok (entities_of codec served)) (ok stream) served 0

route_request_ids_example :
    (route_request put (join "/proxies/" "users") ≡ update_proxy "users")
    × (route_request delete (join "/proxies/" "users") ≡ delete_proxy "users")
    × (route_request put (join "/plugins/config/" "users") ≡ update_plugin_config "/users")
    × (route_request delete (join "/plugins/config/" "users") ≡ delete_plugin_config "/users")
    × (route_request put (credentials_path "users" "jwt") ≡ invalid_path)
    × (route_request delete (credentials_path "users" "jwt") ≡ invalid_path)
route_request_ids_example = route_request_ids "users" "jwt"

-- A database that counts its writes.
abbrev counting : PluginConfigTable ℕ String
counting = record {
  create_plugin_config = λ db pc. (suc db, ok pc.id);
  update_plugin_config = λ db pc. (suc db, ok tt);
  delete_plugin_config = λ db id. (suc db, ok tt);
  to_json = λ pc. ok pc.id;
}
