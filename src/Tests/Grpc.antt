-- ===== src/Tests/Grpc.antt =====
-- The theorems about the control plane and its messages, at concrete values.
use ferrumgw.Common.{
  ◌≡◌, refl, String, true, false, List, [], ◌∷◌, Option, none, some, Result, ok, err, ◌==◌,
  string_eq, arith, All, IfOk, Bytes, ascii, ◌⊎◌, if◌then◌else◌,
}
use ferrumgw.Config.{PluginAssociation, Configuration}
use ferrumgw.Grpc.Conversions.{entities_of}
use ferrumgw.Grpc.Conversions.Reading.{snapshot_to_configuration, into_configuration}
use ferrumgw.Grpc.Conversions.Fields.{IsSent, IsExpressible}
use ferrumgw.Grpc.Conversions.RoundTrip.{snapshot_to_configuration-entities_of}
use ferrumgw.Grpc.Conversions.Unprotected.{RunsGlobalsOnly, into_configuration-RunsGlobalsOnly}
use ferrumgw.Grpc.ControlPlane.{
  Claims, Watcher, SharedState, new_state, watch, unauthenticated, subscribe_config_updates,
  get_config_snapshot, create_config_update, create_config_snapshot, insert_client,
  broadcast_update, send_broadcast, check_header, validate_jwt, validate_jwt_token, register_client,
}
use ferrumgw.Grpc.ControlPlane.Watching.{
  Steps, here, then_step, subscribe, change, replace_config, subscribe_to,
}
use ferrumgw.Grpc.ControlPlane.Serving.{Serves, data_planes_follow}
use ferrumgw.Grpc.ControlPlane.Access.{IsAuthorized, served_needs_token}
use ferrumgw.Grpc.ControlPlane.Racing.{find_client, raced, resubscription_is_lost}
use ferrumgw.Tests.Codec.{codec, codec-CodecLaws}
use ferrumgw.Tests.Samples.{served, users, orders, limiter, association, proxy_at}

-- `orders` with the plugin `limiter`, which has no configuration of its own there.
abbrev limited : Configuration
limited = record served {
  proxies = users ∷ record orders { plugins = association "pc1" ∷ [] } ∷ [];
}

sample-IsExpressible :
    (id : String) (path : Bytes) (plugins : List PluginAssociation)
    → IsExpressible (record (proxy_at id path) { plugins = plugins })
sample-IsExpressible id path plugins = record {
  name = tt;
  backend_port = omega arith;
  backend_path = refl;
  client_cert = tt;
  client_key = tt;
  server_ca_cert = tt;
  dns_override = tt;
  dns_cache_ttl = tt;
}

limited-IsSent : IsSent codec limited
limited-IsSent = (
  (
    (sample-IsExpressible "users" (ascii "/users") [], tt),
    (
      (
        sample-IsExpressible "orders" (ascii "/orders") (association "pc1" ∷ []),
        ((refl, limiter, refl), tt),
      ),
      tt,
    ),
  ),
  ((tt, ("{\"key-auth\":\"old\",\"jwt\":\"kept\"}", refl, refl, refl)), tt),
  ((tt, ("{}", refl, refl, refl)), tt),
)

snapshot_to_configuration-entities_of_example :
    snapshot_to_configuration codec 9 (codec.to_rfc3339 7) (entities_of codec limited)
    ≡ ok (record limited { last_updated_at = 7 })
snapshot_to_configuration-entities_of_example =
    snapshot_to_configuration-entities_of codec codec-CodecLaws 9 limited 7 limited-IsSent

-- A plugin is its name.
abbrev create : String → String → Result String String
create name config = ok name

into_configuration-RunsGlobalsOnly_example :
    IfOk
      (λ config. All (RunsGlobalsOnly create none "not found" ("cors" ∷ []) config) config.proxies)
      (into_configuration codec 9 (entities_of codec limited))
into_configuration-RunsGlobalsOnly_example =
    into_configuration-RunsGlobalsOnly create none "not found" codec 9 ("cors" ∷ [])
      (entities_of codec limited)

abbrev decode : String → Option Claims
decode token = if token == "good" then some (record { sub = "node"; role = "data_plane" }) else none

abbrev good_header : Option (Option String)
good_header = some (some "Bearer good")

abbrev started : Watcher
started = record { state = new_state served; last_updated_at = 6 }

-- A data plane subscribes, then the configuration changes.
abbrev changed : Watcher
changed =
    replace_config (record limited { last_updated_at = 8 })
      (subscribe_to codec decode 7 "node" good_header started)

changed-Steps : Steps codec decode started changed
unfolding subscribe_config_updates check_header validate_jwt validate_jwt_token register_client
changed-Steps =
    then_step (then_step here (subscribe 7 "node" good_header))
      (change (record limited { last_updated_at = 8 }) (omega arith) (omega arith))

changed-IsSent : IsSent codec changed.state.shared_config
changed-IsSent = limited-IsSent

data_planes_follow_example :
    All (Serves codec decode 10 changed.state.shared_config) (watch codec 9 changed).state.clients
data_planes_follow_example =
    data_planes_follow codec decode served 6 changed 9 10 codec-CodecLaws changed-Steps
      changed-IsSent

served_needs_token_example :
    (IsAuthorized decode good_header
      × (subscribe_config_updates codec decode 7 "node" good_header (new_state served) ≡ (
        ok tt,
        record (new_state served) {
          clients =
              insert_client "node"
                (record { is_open = true; sent = create_config_update codec 7 served 1 ∷ [] })
                [];
        },
      ))
      × (get_config_snapshot codec decode 7 good_header (new_state served)
          ≡ ok (create_config_snapshot codec 7 (new_state served))))
    ⊎ ((¬ IsAuthorized decode good_header)
        × (subscribe_config_updates codec decode 7 "node" good_header (new_state served)
            ≡ (err unauthenticated, new_state served))
        × (get_config_snapshot codec decode 7 good_header (new_state served) ≡ err unauthenticated))
served_needs_token_example = served_needs_token decode codec 7 "node" good_header (new_state served)

-- The data plane has lost its connection.
abbrev lost : SharedState
lost = record (new_state served) { clients = ("node", record { is_open = false; sent = [] }) ∷ [] }

good-passes : check_header decode good_header ≡ ok tt
unfolding check_header validate_jwt validate_jwt_token
good-passes = refl

resubscription_is_lost_example :
    ((subscribe_config_updates codec decode 8 "node" good_header (send_broadcast codec 7 lost)).0
      ≡ ok tt)
    × (find_client "node" (raced codec decode 7 8 "node" good_header lost).clients ≡ none)
    × (find_client "node"
          (broadcast_update codec 9 (raced codec decode 7 8 "node" good_header lost)).clients
        ≡ none)
resubscription_is_lost_example =
    resubscription_is_lost codec decode lost 7 8 9 "node" good_header refl good-passes
