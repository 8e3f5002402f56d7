-- ===== src/Tests/Polling.antt =====
-- The theorems about the polling task, at concrete values.
use ferrumgw.Common.{refl, String, ok, err, arith, true, false, [], ◌∷◌}
use ferrumgw.Modes.Polling.{
  Database, Settings, Poller, new_poller, polled, poll, Steps, here, then_step,
}
use ferrumgw.Modes.Polling.Laws.{IsValid, steps-IsValid}
use ferrumgw.Grpc.Conversions.{entities_of}
use ferrumgw.Modes.ControlPlane
use ferrumgw.Modes.ControlPlane.Mirrored.{IsMirrored, steps-IsMirrored}
use ferrumgw.Tests.Codec.{codec}
use ferrumgw.Tests.Samples.{served}

abbrev full_only : Settings
full_only = record { poll_interval = 300; check_interval = 30; use_incremental_polling = false }

-- A database that was changed at 10.
abbrev changed : Database String
changed = record {
  get_latest_update_timestamp = λ now. ok 10;
  load_configuration_delta = λ now since. err "no delta";
  load_full_configuration = λ now. ok record served { last_updated_at = 10 };
}

abbrev started : Poller
started = new_poller served 100

abbrev reload_first : Steps full_only changed started (polled full_only changed started)
reload_first = then_step here (poll (omega arith))

steps-IsValid_example : IsValid full_only changed (polled full_only changed started)
steps-IsValid_example =
    steps-IsValid full_only changed started (polled full_only changed started) refl reload_first
      (refl, (refl, tt))

abbrev between : Poller
between = record started { poll_at = 400 }

-- The control plane, with a database that reports one deleted proxy.
abbrev incremental : Settings
incremental = record full_only { use_incremental_polling = true }

abbrev deleted : Database String
deleted = record changed {
  load_configuration_delta = λ now since. ok record {
    updated_proxies = [];
    deleted_proxy_ids = "p1" ∷ [];
    updated_consumers = [];
    deleted_consumer_ids = [];
    updated_plugin_configs = [];
    deleted_plugin_config_ids = [];
    last_updated_at = 10;
  };
}

abbrev cp_started : ControlPlane.Poller
cp_started = ControlPlane.new_poller served 100

abbrev cp_checked : ControlPlane.Poller
cp_checked = ControlPlane.checked codec incremental deleted cp_started

steps-IsMirrored_example :
    IsMirrored codec incremental deleted (entities_of codec served) cp_checked
steps-IsMirrored_example =
    steps-IsMirrored codec incremental deleted (entities_of codec served) cp_started cp_checked
      (ControlPlane.then_step ControlPlane.here (ControlPlane.check (omega arith))) refl
