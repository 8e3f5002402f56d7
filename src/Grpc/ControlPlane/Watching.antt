-- ===== src/Grpc/ControlPlane/Watching.antt =====
-- src/modes/control_plane.rs, module `grpc`: the events of a control plane as a step relation. A change
-- of the configuration comes from the polling task; a receiver may go away at any time.
use ferrumgw.Common.{
  ℕ, String, ◌<◌, ◌≡◌, ◌⊎◌, inl, inr, true, false, Bool-cases, List, [], ◌∷◌, map, Option, ◌==◌,
  ltb, string_eq, contains, not, All, All-imp, All-retain, ==_refl, if◌then◌else◌, arith, refl,
}
use ferrumgw.Config.{Configuration}
use ferrumgw.Grpc.Conversions.{Codec, entities_of}
use ferrumgw.Grpc.ControlPlane.{
  ConfigUpdate, Channel, Clients, SharedState, Watcher, Claims, subscribe_config_updates, watch,
  send_all, disconnected_clients, create_config_update, send_broadcast, remove_disconnected,
  broadcast_update,
}

-- The receiver of the channels of `node_id` goes away.
abbrev pub close : String → String × Channel → String × Channel
close node_id (id, channel) =
    if id == node_id then (id, record channel { is_open = false }) else (id, channel)

abbrev pub disconnect : String → Watcher → Watcher
disconnect node_id w = record w {
  state = record w.state { clients = map (close node_id) w.state.clients };
}

abbrev pub replace_config : Configuration → Watcher → Watcher
replace_config config w = record w { state = record w.state { shared_config = config } }

module _ {Error : Type 0} (codec : Codec Error) (decode : String → Option Claims) where
  abbrev pub subscribe_to : ℕ → String → Option (Option String) → Watcher → Watcher
  subscribe_to now node_id header w = record w {
    state = (subscribe_config_updates codec decode now node_id header w.state).1;
  }

  pub data Step : Watcher → Watcher → Type 0 where
    tick : {w : Watcher} (now : ℕ) → Step w (watch codec now w)
    subscribe :
        {w : Watcher} (now : ℕ) (node_id : String) (header : Option (Option String))
        → Step w (subscribe_to now node_id header w)
    leave : {w : Watcher} (node_id : String) → Step w (disconnect node_id w)
    change :
        {w : Watcher} (config : Configuration)
        → w.state.shared_config.last_updated_at < config.last_updated_at
        → w.last_updated_at < config.last_updated_at
        → Step w (replace_config config w)

  pub data Steps : Watcher → Watcher → Type 0 where
    here : {w : Watcher} → Steps w w
    then_step : {w x y : Watcher} → Steps w x → Step x y → Steps w y

  -- The newest message of the channel is a full update of this configuration.
  abbrev pub HasNewest : Configuration → String × Channel → Type 0
  HasNewest config client =
      (update : ConfigUpdate) × (older : List ConfigUpdate) × (client.1.sent ≡ update ∷ older)
      × (update.entities ≡ entities_of codec config)

  -- A client has the configuration, or the watcher will find it to be newer.
  abbrev pub IsServed : Watcher → String × Channel → Type 0
  IsServed w client =
      HasNewest w.state.shared_config client
      ⊎ (w.last_updated_at < w.state.shared_config.last_updated_at)

  -- After the loop a client has the update, or its id is among the disconnected ones.
  abbrev IsReached : List String → Configuration → String × Channel → Type 0
  IsReached gone config client = HasNewest config client ⊎ (contains gone client.0 ≡ true)

  -- Every client is reached by the loop, if all those that it cannot reach are among the ids.
  send_all-IsReached :
      (update : ConfigUpdate) (config : Configuration) (gone : List String)
      → update.entities ≡ entities_of codec config
      → (clients : Clients)
      → ((id : String)
          → contains (disconnected_clients clients) id ≡ true
          → contains gone id ≡ true)
      → All (IsReached gone config) (send_all update clients)
  send_all-IsReached update config gone same [] h = tt
  send_all-IsReached update config gone same ((id, channel) ∷ clients) h =
      elim (Bool-cases channel.is_open) [
        | inl open_one ↦ (
          rw open_one (inl (update, channel.sent, refl, same)),
          send_all-IsReached update config gone same clients λ k found. h k (rw open_one found),
        )
        | inr closed ↦ (
          inr (h id (rw (closed, ==_refl id) refl)),
          send_all-IsReached update config gone same clients
              λ k found. h k (ground (arith, closed, found)),
        )
      ]

  kept-HasNewest :
      (gone : List String) (config : Configuration) (client : String × Channel)
      → not (contains gone client.0) ≡ true
      → IsReached gone config client
      → HasNewest config client
  kept-HasNewest gone config client kept (inl newest) = newest
  kept-HasNewest gone config client kept (inr found) = cc

  broadcast-HasNewest :
      (now : ℕ) (s : SharedState)
      → All (HasNewest s.shared_config) (broadcast_update codec now s).clients
  unfolding broadcast_update send_broadcast remove_disconnected create_config_update
  broadcast-HasNewest now s =
      All-retain _ _ _
        (λ client. kept-HasNewest (disconnected_clients s.clients) s.shared_config client) _
        (send_all-IsReached _ s.shared_config (disconnected_clients s.clients) refl s.clients
          λ id found. found)

  still_served :
      (w : Watcher) (client : String × Channel)
      → ltb w.last_updated_at w.state.shared_config.last_updated_at ≡ false
      → IsServed w client
      → HasNewest w.state.shared_config client
  still_served w client old (inl newest) = newest
  still_served w client old (inr newer) = absurd (ground arith)

  pub watch-HasNewest :
      (w : Watcher) (now : ℕ)
      → All (IsServed w) w.state.clients
      → All (HasNewest (watch codec now w).state.shared_config) (watch codec now w).state.clients
  unfolding watch broadcast_update send_broadcast remove_disconnected
  watch-HasNewest w now h =
      elim (Bool-cases (ltb w.last_updated_at w.state.shared_config.last_updated_at)) [
        | inl newer ↦ rw newer (broadcast-HasNewest now w.state)
        | inr old ↦ rw old (All-imp _ _ (λ client. still_served w client old) w.state.clients h)
      ]
