-- ===== src/Modes/ControlPlane.antt =====
-- src/modes/control_plane.rs, the polling task of `run`: that of Modes/Polling, with an update for the data
-- planes after each change. `push_config_update` is a call that leaves its argument in `pushed`, the last
-- first; its failures are only logged. The lookups of new hosts change nothing here.
pub mod Mirrored
use ferrumgw.Common.{ℕ, ◌+◌, ◌≤◌, String, List, [], ◌∷◌, map, Result, ok, err, ltb, if◌then◌else◌}
use ferrumgw.Config.{Configuration}
use ferrumgw.Config.Delta.{ConfigurationDelta, apply_to, is_empty_delta}
use ferrumgw.Config.Paths.{PathError, validate_listen_path_uniqueness}
use ferrumgw.Grpc.Messages.{ProtoProxy, ProtoConsumer, ProtoPluginConfig, Entities}
use ferrumgw.Grpc.Conversions.{
  Codec, proxy_to_proto, consumer_to_proto, plugin_config_to_proto, entities_of,
}
use ferrumgw.Modes.Polling.{Database, Settings}

pub record ConfigDelta : Type 0 where
  pub upsert_proxies : List ProtoProxy
  pub remove_proxy_ids : List String
  pub upsert_consumers : List ProtoConsumer
  pub remove_consumer_ids : List String
  pub upsert_plugin_configs : List ProtoPluginConfig
  pub remove_plugin_config_ids : List String

-- The contents of an update, with its type.
pub data Update : Type 0 where
  delta_update : ConfigDelta → Update
  full_snapshot : Entities → Update

pub record ConfigUpdate : Type 0 where
  pub version : ℕ
  pub updated_at : String
  pub update : Update

pub record Poller : Type 0 where
  pub served : Configuration
  pub last_update_timestamp : ℕ
  pub check_at : ℕ
  pub poll_at : ℕ
  pub pushed : List ConfigUpdate

abbrev pub new_poller : Configuration → ℕ → Poller
new_poller config now = record {
  served = config;
  last_update_timestamp = config.last_updated_at;
  check_at = now;
  poll_at = now;
  pushed = [];
}

module _ {Error : Type 0} (codec : Codec Error) where
  unfoldable pub delta_to_proto : ConfigurationDelta → ConfigDelta
  delta_to_proto delta = record {
    upsert_proxies = map (proxy_to_proto codec) delta.updated_proxies;
    remove_proxy_ids = delta.deleted_proxy_ids;
    upsert_consumers = map (consumer_to_proto codec) delta.updated_consumers;
    remove_consumer_ids = delta.deleted_consumer_ids;
    upsert_plugin_configs = map (plugin_config_to_proto codec) delta.updated_plugin_configs;
    remove_plugin_config_ids = delta.deleted_plugin_config_ids;
  }

  module _ (settings : Settings) (db : Database Error) where
    abbrev pub reset_poll : ℕ → Poller → Poller
    reset_poll now s = record s { poll_at = now + settings.poll_interval }

    -- A delta is sent with the time of the state before it as its version.
    abbrev pub delta_pushed : ConfigurationDelta → Poller → Poller
    delta_pushed delta s = record s {
      served = apply_to delta s.served;
      last_update_timestamp = delta.last_updated_at;
      pushed =
          record {
            version = s.last_update_timestamp;
            updated_at = codec.to_rfc3339 delta.last_updated_at;
            update = delta_update (delta_to_proto delta);
          }
          ∷ s.pushed;
    }

    unfoldable pub apply_changes : ℕ → Result Error ConfigurationDelta → Poller → Poller
    apply_changes now (ok delta) s = if is_empty_delta delta then s else delta_pushed delta s
    apply_changes now (err e) s = reset_poll now s

    -- The body of the branch of `check_timer`.
    unfoldable pub check_changes : ℕ → Result Error ℕ → Poller → Poller
    check_changes now (ok latest) s =
        if ltb s.last_update_timestamp latest
        then if settings.use_incremental_polling
          then apply_changes now (db.load_configuration_delta now s.last_update_timestamp) s
          else reset_poll now s
        else s
    check_changes now (err e) s = s

    abbrev pub full_pushed : Configuration → Poller → Poller
    full_pushed new_config s = record s {
      served = new_config;
      last_update_timestamp = new_config.last_updated_at;
      pushed =
          record {
            version = new_config.last_updated_at;
            updated_at = codec.to_rfc3339 new_config.last_updated_at;
            update = full_snapshot (entities_of codec new_config);
          }
          ∷ s.pushed;
    }

    -- The body of the branch of `poll_timer`.
    unfoldable pub take_over : Configuration → Result PathError (Unit {0}) → Poller → Poller
    take_over new_config (ok _) s =
        if ltb s.served.last_updated_at new_config.last_updated_at
        then full_pushed new_config s
        else s
    take_over new_config (err e) s = s

    unfoldable pub reload : Result Error Configuration → Poller → Poller
    reload (ok new_config) s = take_over new_config (validate_listen_path_uniqueness new_config) s
    reload (err e) s = s

    abbrev pub checked : Poller → Poller
    checked s =
        check_changes s.check_at (db.get_latest_update_timestamp s.check_at)
          (record s { check_at = s.check_at + settings.check_interval })

    abbrev pub polled : Poller → Poller
    polled s =
        reload (db.load_full_configuration s.poll_at)
          (record s { poll_at = s.poll_at + settings.poll_interval })

    -- One iteration of the loop: `select!` takes a timer that is due first.
    pub data Step : Poller → Poller → Type 0 where
      check : {s : Poller} → s.check_at ≤ s.poll_at → Step s (checked s)
      poll : {s : Poller} → s.poll_at ≤ s.check_at → Step s (polled s)

    pub data Steps : Poller → Poller → Type 0 where
      here : {s : Poller} → Steps s s
      then_step : {s t u : Poller} → Steps s t → Step t u → Steps s u
