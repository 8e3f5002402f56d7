-- ===== src/Grpc/ControlPlane/Serving.antt =====
-- src/modes/control_plane.rs with src/grpc/config_client.rs: what the data planes come to serve.
use ferrumgw.Common.{
  ℕ, String, ◌≡◌, inl, inr, Option, none, some, Result, ok, err, List, [], ◌∷◌, All, All-imp,
  All-map, All-retain, refl, arith, Bool-cases, string_eq, ◌==◌,
}
use ferrumgw.Config.{Configuration}
use ferrumgw.Grpc.Conversions.{Codec}
use ferrumgw.Grpc.Conversions.Reading.{into_configuration}
use ferrumgw.Grpc.Conversions.Fields.{CodecLaws, IsSent}
use ferrumgw.Grpc.Conversions.RoundTrip.{stripped, into_configuration-entities_of}
use ferrumgw.Grpc.ControlPlane.{
  Channel, Watcher, Status, Claims, check_header, subscribed, subscribe_config_updates,
  create_config_update, register_client, new_state, watch, ConfigUpdate, broadcast_update,
  send_broadcast, remove_disconnected,
}
use ferrumgw.Grpc.ControlPlane.Watching.{
  Step, tick, subscribe, leave, change, Steps, here, then_step, HasNewest, IsServed,
  watch-HasNewest, close,
}

module _ {Error : Type 0} (codec : Codec Error) (decode : String → Option Claims) where
  -- All clients are served.
  abbrev pub AllServed : Watcher → Type 0
  AllServed w = All (IsServed codec decode w) w.state.clients

  close-IsServed :
      (w : Watcher) (node_id : String) (client : String × Channel)
      → IsServed codec decode w client
      → IsServed codec decode w (close node_id client)
  close-IsServed w node_id client h = elim (Bool-cases (client.0 == node_id)) [
    | inl same ↦ rw same h
    | inr other ↦ rw other h
  ]

  subscribed-AllServed :
      (now : ℕ) (node_id : String) (w : Watcher) (answer : Result Status (Unit {0}))
      → AllServed w
      → AllServed (record w { state = subscribed codec decode now node_id w.state answer })
  unfolding register_client create_config_update
  subscribed-AllServed now node_id w (err e) h = h
  subscribed-AllServed now node_id w (ok _) h =
      (inl (_, [], refl, refl), All-retain _ _ _ (λ client kept served. served) w.state.clients h)

  event-AllServed : (w x : Watcher) → Step codec decode w x → AllServed w → AllServed x
  unfolding subscribe_config_updates
  event-AllServed w _ (tick now) h =
      All-imp _ _ (λ client newest. inl newest) _ (watch-HasNewest codec decode w now h)
  event-AllServed w _ (subscribe now node_id header) h =
      subscribed-AllServed now node_id w (check_header decode header) h
  event-AllServed w _ (leave node_id) h =
      All-map _ _ (close node_id) (close-IsServed w node_id) w.state.clients h
  event-AllServed w _ (change config newer unseen) h =
      All-imp _ _ (λ client served. inr unseen) w.state.clients h

  -- Along every run of the events, all clients are served, if they are at the start.
  pub steps-AllServed : (w x : Watcher) → Steps codec decode w x → AllServed w → AllServed x
  steps-AllServed w _ here h = h
  steps-AllServed w _ (then_step {x = x} run step) h =
      event-AllServed x _ step (steps-AllServed w x run h)

  -- What a data plane makes of the newest message, at the time `now`.
  abbrev pub received : ℕ → List ConfigUpdate → Option (Result Error Configuration)
  received now [] = none
  received now (update ∷ older) = some (into_configuration codec now update.entities)

  abbrev pub Serves : ℕ → Configuration → String × Channel → Type 0
  Serves now config client = received now client.1.sent ≡ some (ok (stripped now config))

  newest-Serves :
      (now : ℕ) (config : Configuration) (client : String × Channel)
      → CodecLaws codec
      → IsSent codec config
      → HasNewest codec decode config client
      → Serves now config client
  newest-Serves now config client laws sent (update, older, newest, same) =
      rw (newest, same, into_configuration-entities_of codec laws now config sent) refl

  watch-config :
      (w : Watcher) (now : ℕ) → (watch codec now w).state.shared_config ≡ w.state.shared_config
  unfolding watch broadcast_update send_broadcast remove_disconnected
  watch-config w now = ground arith

  -- After any run of subscriptions, disconnections, changes of the configuration and ticks from a
  -- control plane without clients, a tick leaves every client with the configuration of the control
  -- plane, but with no plugin in any proxy, once the client has read its newest message, if each
  -- change is dated later than the configuration before it and than what the watcher last saw, and
  -- the configuration can be expressed in messages that are read as they were written.
  pub data_planes_follow :
      (config : Configuration) (started : ℕ) (w : Watcher) (now later : ℕ)
      → CodecLaws codec
      → Steps codec decode (record { state = new_state config; last_updated_at = started }) w
      → IsSent codec w.state.shared_config
      → All (Serves later w.state.shared_config) (watch codec now w).state.clients
  data_planes_follow config started w now later laws run sent =
      All-imp _ _
        (λ client newest.
          newest-Serves later w.state.shared_config client laws sent
            (rw (watch-config w now) at newest))
        _ (watch-HasNewest codec decode w now (steps-AllServed _ w run tt))
