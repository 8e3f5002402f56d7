-- ===== src/Modes/Polling.antt =====
-- src/modes/database.rs, the polling task of `run`: a loop over two timers, of which one looks for
-- changes and the other reloads the configuration.
-- The database client is the record `Database`, whose answers depend on the time at which it is asked.
-- A tick is handled at its deadline, and moves the deadline by one period; `reset` moves it to one
-- period from now (tokio's `Interval`). Where both timers are due, either may be taken. The warm-up of
-- the DNS cache after an update changes nothing here.
pub mod Laws
use ferrumgw.Common.{ℕ, ◌+◌, ◌≤◌, Bool, Result, ok, err, ltb, if◌then◌else◌}
use ferrumgw.Config.{Configuration}
use ferrumgw.Config.Delta.{ConfigurationDelta, apply_to, is_empty_delta}
use ferrumgw.Config.Paths.{PathError, validate_listen_path_uniqueness}

pub record Database (Error : Type 0) : Type 0 where
  pub get_latest_update_timestamp : ℕ → Result Error ℕ
  pub load_configuration_delta : ℕ → ℕ → Result Error ConfigurationDelta
  pub load_full_configuration : ℕ → Result Error Configuration

-- The intervals of the two timers, and `use_incremental_polling`.
pub record Settings : Type 0 where
  pub poll_interval : ℕ
  pub check_interval : ℕ
  pub use_incremental_polling : Bool

pub record Poller : Type 0 where
  pub served : Configuration
  pub last_update_timestamp : ℕ
  pub check_at : ℕ
  pub poll_at : ℕ

-- The start of the task, whose timers are due at once.
abbrev pub new_poller : Configuration → ℕ → Poller
new_poller config now = record {
  served = config;
  last_update_timestamp = config.last_updated_at;
  check_at = now;
  poll_at = now;
}

module _ {Error : Type 0} (settings : Settings) (db : Database Error) where
  -- `poll_timer.reset()`
  abbrev pub reset_poll : ℕ → Poller → Poller
  reset_poll now s = record s { poll_at = now + settings.poll_interval }

  unfoldable pub apply_changes : ℕ → Result Error ConfigurationDelta → Poller → Poller
  apply_changes now (ok delta) s = if is_empty_delta delta then s else record s {
    served = apply_to delta s.served;
    last_update_timestamp = delta.last_updated_at;
  }
  apply_changes now (err e) s = reset_poll now s

  -- The body of the branch of `check_timer`.
  unfoldable pub check_changes : ℕ → Result Error ℕ → Poller → Poller
  check_changes now (ok latest) s =
      if ltb s.last_update_timestamp latest
      then if settings.use_incremental_polling
        then apply_changes now (db.load_configuration_delta now s.last_update_timestamp) s
        else reset_poll now s
      else s
  check_changes now (err e) s = s

  -- The body of the branch of `poll_timer`, for a configuration that was validated.
  unfoldable pub take_over : Configuration → Result PathError (Unit {0}) → Poller → Poller
  take_over new_config (ok _) s =
      if ltb s.last_update_timestamp new_config.last_updated_at
      then record s { served = new_config; last_update_timestamp = new_config.last_updated_at }
      else s
  take_over new_config (err e) s = s

  unfoldable pub reload : Result Error Configuration → Poller → Poller
  reload (ok new_config) s = take_over new_config (validate_listen_path_uniqueness new_config) s
  reload (err e) s = s

  -- A tick of each timer.
  abbrev pub checked : Poller → Poller
  checked s =
      check_changes s.check_at (db.get_latest_update_timestamp s.check_at)
        (record s { check_at = s.check_at + settings.check_interval })

  abbrev pub polled : Poller → Poller
  polled s =
      reload (db.load_full_configuration s.poll_at)
        (record s { poll_at = s.poll_at + settings.poll_interval })

  -- One iteration of the loop: `select!` takes a timer that is due first.
  pub data Step : Poller → Poller → Type 0 where
    check : {s : Poller} → s.check_at ≤ s.poll_at → Step s (checked s)
    poll : {s : Poller} → s.poll_at ≤ s.check_at → Step s (polled s)

  pub data Steps : Poller → Poller → Type 0 where
    here : {s : Poller} → Steps s s
    then_step : {s t u : Poller} → Steps s t → Step t u → Steps s u
