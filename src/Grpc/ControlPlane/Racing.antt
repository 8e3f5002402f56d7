-- ===== src/Grpc/ControlPlane/Racing.antt =====
-- src/modes/control_plane.rs, module `grpc`: a data plane that comes back while a broadcast runs. The
-- map is not locked between the copy that the loop of `broadcast_update` reads and the removal after it.
use ferrumgw.Common.{
  ℕ, String, ◌≡◌, refl, true, List, [], ◌∷◌, Option, none, ok, ◌==◌, string_eq, find, contains,
  arith, ==_iff,
}
use ferrumgw.Grpc.Conversions.{Codec}
use ferrumgw.Grpc.ControlPlane.{
  Channel, Clients, SharedState, Claims, check_header, subscribe_config_updates, send_broadcast,
  remove_disconnected, broadcast_update, disconnected_clients, remove_clients, send_all,
  ConfigUpdate,
}

-- The first client with the id.
abbrev pub find_client : String → Clients → Option (String × Channel)
find_client id = find (λ c. c.0 == id)

removed_lem :
    (ids : List String) (id : String) (clients : Clients)
    → contains ids id ≡ true
    → find_client id (remove_clients ids clients) ≡ none
removed_lem ids id [] h = refl
removed_lem ids id ((other, channel) ∷ clients) h =
    ground (arith, ==_iff other id, removed_lem ids id clients h)

-- Where the id is not found, it is not found after a send and a removal either.
sent_lem :
    (update : ConfigUpdate) (id : String) (clients : Clients)
    → find_client id clients ≡ none
    → find_client id (send_all update clients) ≡ none
sent_lem update id [] h = refl
sent_lem update id ((other, channel) ∷ clients) h = ground (arith, sent_lem update id clients)

kept_lem :
    (ids : List String) (id : String) (clients : Clients)
    → find_client id clients ≡ none
    → find_client id (remove_clients ids clients) ≡ none
kept_lem ids id [] h = refl
kept_lem ids id ((other, channel) ∷ clients) h = ground (arith, kept_lem ids id clients)

module _ {Error : Type 0} (codec : Codec Error) (decode : String → Option Claims) where
  -- What the control plane is left with where the subscription comes between the loop of a broadcast
  -- and its removal of the disconnected clients.
  abbrev pub raced : ℕ → ℕ → String → Option (Option String) → SharedState → SharedState
  raced now later node_id header s =
      remove_disconnected (disconnected_clients s.clients)
        (subscribe_config_updates codec decode later node_id header (send_broadcast codec now s)).1

  -- If the channel of a data plane is closed when a broadcast starts, and the data plane subscribes
  -- again with a header that passes the check before the broadcast ends, then it is told that it is
  -- subscribed, but the broadcast removes its new channel, and the next broadcast does not reach it.
  pub resubscription_is_lost :
      (s : SharedState) (now later next : ℕ) (node_id : String) (header : Option (Option String))
      → contains (disconnected_clients s.clients) node_id ≡ true
      → check_header decode header ≡ ok tt
      → ((subscribe_config_updates codec decode later node_id header (send_broadcast codec now s)).0
          ≡ ok tt)
        × (find_client node_id (raced now later node_id header s).clients ≡ none)
        × (find_client node_id
              (broadcast_update codec next (raced now later node_id header s)).clients
            ≡ none)
  unfolding subscribe_config_updates remove_disconnected broadcast_update send_broadcast
  resubscription_is_lost s now later next node_id header closed passed =
      let lost =
        removed_lem (disconnected_clients s.clients) node_id
          (subscribe_config_updates codec decode later node_id header
            (send_broadcast codec now s)).1.clients
          closed in
      (passed, lost, kept_lem _ node_id _ (sent_lem _ node_id _ lost))
