-- ===== src/Grpc/ControlPlane.antt =====
-- src/modes/control_plane.rs, its module `grpc`: the service to which data planes subscribe.
-- A channel of tokio is whether its receiver is there and what was sent, the newest first; a receiver
-- is taken to read, so that no send waits for room. The map of clients is a list, in the order in
-- which a loop meets them. The check of a token by jsonwebtoken is the parameter `decode`.
pub mod Access
pub mod Watching
pub mod Serving
pub mod Racing
use ferrumgw.Common.{
  ℕ, ◌+◌, ◌%◌, ◌^◌, String, Bool, true, not, ◌&&◌, List, [], ◌∷◌, map, Option, none, some, Result,
  ok, err, ◌>>=◌, ◌==◌, ltb, string_eq, contains, retain, strip_prefix, if◌then◌else◌,
}
use ferrumgw.Config.{Configuration}
use ferrumgw.Grpc.Messages.{Entities}
use ferrumgw.Grpc.Conversions.{Codec, entities_of}

pub record ConfigUpdate : Type 0 where
  pub version : ℕ
  pub entities : Entities
  pub timestamp : String
  pub update_type : ℕ
  pub deleted_ids : List String

pub record ConfigSnapshot : Type 0 where
  pub version : ℕ
  pub entities : Entities
  pub timestamp : String

pub record Channel : Type 0 where
  pub is_open : Bool
  pub sent : List ConfigUpdate

abbrev pub new_channel : Channel
new_channel = record { is_open = true; sent = [] }

abbrev pub Clients : Type 0
Clients = List (String × Channel)

-- `insert` of the map
abbrev pub insert_client : String → Channel → Clients → Clients
insert_client id channel clients = (id, channel) ∷ retain (λ c. not (c.0 == id)) clients

-- A call of `remove` for each of the ids.
abbrev pub remove_clients : List String → Clients → Clients
remove_clients ids = retain (λ c. not (contains ids c.0))

pub data Status : Type 0 where
  unauthenticated internal : Status

pub record Claims : Type 0 where
  pub sub : String
  pub role : String

pub record SharedState : Type 0 where
  pub version : ℕ
  pub shared_config : Configuration
  pub clients : Clients

-- The start of the server.
abbrev pub new_state : Configuration → SharedState
new_state config = record { version = 1; shared_config = config; clients = [] }

-- `register_client`
unfoldable pub register_client : String → Channel → SharedState → SharedState
register_client id channel s = record s { clients = insert_client id channel s.clients }

module _ (decode : String → Option Claims) where
  abbrev check_role : Option Claims → Result Status (Unit {0})
  check_role none = err unauthenticated
  check_role (some claims) =
      if not (claims.role == "") && not (claims.role == "data_plane")
      then err unauthenticated
      else ok tt

  -- `validate_jwt_token`
  unfoldable pub validate_jwt_token : String → Result Status (Unit {0})
  validate_jwt_token token = check_role (decode token)

  abbrev check_stripped : Option String → Result Status (Unit {0})
  check_stripped none = err unauthenticated
  check_stripped (some token) = validate_jwt_token token

  -- `SharedState::validate_jwt`
  unfoldable pub validate_jwt : String → Result Status (Unit {0})
  validate_jwt auth_token = check_stripped (strip_prefix auth_token "Bearer ")

  -- The header `authorization`: absent, not a text, or a text.
  unfoldable pub check_header : Option (Option String) → Result Status (Unit {0})
  check_header none = err unauthenticated
  check_header (some none) = err unauthenticated
  check_header (some (some auth_token)) = validate_jwt auth_token

-- `sender.send`, and what it leaves in the channel.
abbrev pub send : ConfigUpdate → Channel → Channel
send update channel =
    if channel.is_open then record channel { sent = update ∷ channel.sent } else channel

-- The ids for which `send` fails.
abbrev pub disconnected_clients : Clients → List String
disconnected_clients [] = []
disconnected_clients ((id, channel) ∷ clients) =
    if channel.is_open then disconnected_clients clients else id ∷ disconnected_clients clients

abbrev pub send_all : ConfigUpdate → Clients → Clients
send_all update = map (λ c. (c.0, send update c.1))

-- The removal after the loop.
unfoldable pub remove_disconnected : List String → SharedState → SharedState
remove_disconnected ids s = record s { clients = remove_clients ids s.clients }

module _ {Error : Type 0} (codec : Codec Error) where
  -- `create_config_update`
  unfoldable pub create_config_update : ℕ → Configuration → ℕ → ConfigUpdate
  create_config_update now config version = record {
    version = version;
    entities = entities_of codec config;
    timestamp = codec.to_rfc3339 now;
    update_type = 0;
    deleted_ids = [];
  }

  -- `create_config_snapshot`
  unfoldable pub create_config_snapshot : ℕ → SharedState → ConfigSnapshot
  create_config_snapshot now s = record {
    version = s.version;
    entities = entities_of codec s.shared_config;
    timestamp = codec.to_rfc3339 now;
  }

  -- The loop of `broadcast_update` over a copy of the map, with the new version.
  unfoldable pub send_broadcast : ℕ → SharedState → SharedState
  send_broadcast now s =
      let version = (s.version + 1) % 2 ^ 64 in
      record s {
        version = version;
        clients = send_all (create_config_update now s.shared_config version) s.clients;
      }

  -- `broadcast_update`
  unfoldable pub broadcast_update : ℕ → SharedState → SharedState
  broadcast_update now s =
      remove_disconnected (disconnected_clients s.clients) (send_broadcast now s)

  module _ (decode : String → Option Claims) where
    abbrev subscribed : ℕ → String → SharedState → Result Status (Unit {0}) → SharedState
    subscribed now node_id s (err e) = s
    subscribed now node_id s (ok _) =
        register_client node_id
          (send (create_config_update now s.shared_config s.version) new_channel) s

    -- `subscribe_config_updates`: the answer, and the state after it.
    unfoldable pub subscribe_config_updates :
        ℕ → String → Option (Option String) → SharedState → Result Status (Unit {0}) × SharedState
    subscribe_config_updates now node_id header s =
        let answer = check_header decode header in (answer, subscribed now node_id s answer)

    -- `get_config_snapshot`
    unfoldable pub get_config_snapshot :
        ℕ → Option (Option String) → SharedState → Result Status ConfigSnapshot
    get_config_snapshot now header s = do
      _ ← check_header decode header
      ok (create_config_snapshot now s)

-- The task that watches the configuration, with the state that it shares.
pub record Watcher : Type 0 where
  pub state : SharedState
  pub last_updated_at : ℕ

-- One tick of `interval`.
unfoldable pub watch : {Error : Type 0} → Codec Error → ℕ → Watcher → Watcher
watch codec now w =
    if ltb w.last_updated_at w.state.shared_config.last_updated_at
    then record {
      state = broadcast_update codec now w.state;
      last_updated_at = w.state.shared_config.last_updated_at;
    }
    else w
