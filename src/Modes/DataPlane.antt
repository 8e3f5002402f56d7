-- ===== src/Modes/DataPlane.antt =====
-- src/modes/data_plane.rs: how a data plane keeps its connection to the control plane, and what it does
-- with what arrives. An error is notified on a channel for one message, whose receiver `run` holds and
-- never reads; a send to it waits where a message is there. The random jitter is an argument. The task
-- that prefetches host names is left out; it changes nothing but the DNS cache.
pub mod Retrying
pub mod Receiving
use ferrumgw.Common.{
  ℕ, ◌+◌, ◌*◌, min, Bool, true, false, not, ◌&&◌, ltb, length, is_empty, List, [], ◌∷◌, Option,
  none, some, Result, ok, err, if◌then◌else◌,
}
use ferrumgw.Config.{Proxy, Configuration}
use ferrumgw.Grpc.Messages.{Entities}
use ferrumgw.Grpc.Conversions.{Codec}
use ferrumgw.Grpc.Conversions.Reading.{into_configuration}

-- The loop of reconnections: the delay before the next try, in milliseconds, whether a notification
-- stands in the channel, and the sleeps so far, the last first.
pub record Reconnecting : Type 0 where
  pub connection_retry_delay : ℕ
  pub is_notified : Bool
  pub sleeps : List ℕ

abbrev pub new_reconnecting : Reconnecting
new_reconnecting = record { connection_retry_delay = 1000; is_notified = false; sleeps = [] }

-- What follows a connection that ended, with the jitter; `none` is a send that never returns.
unfoldable pub after_connection :
    {Error : Type 0} → Result Error (Unit {0}) → ℕ → Reconnecting → Option Reconnecting
after_connection (ok _) jitter s = some (record s { connection_retry_delay = 1000 })
after_connection (err e) jitter s =
    if s.is_notified
    then none
    else some (record s {
      connection_retry_delay = min (s.connection_retry_delay * 2) 30000;
      is_notified = true;
      sleeps = (s.connection_retry_delay + jitter) ∷ s.sleeps;
    })

-- The loop, over the outcomes of the connections and the jitters.
unfoldable pub reconnect :
    {Error : Type 0} → List (Result Error (Unit {0}) × ℕ) → Reconnecting → Option Reconnecting
reconnect [] s = some s
reconnect ((outcome, jitter) ∷ rest) s = elim (after_connection outcome jitter s) [
  | none ↦ none
  | some s' ↦ reconnect rest s'
]

-- `warm_up` is `warm_up_dns_cache` on the state of the DNS cache, which Dns/WarmUp models; `none` is a
-- warm-up that never returns. A connection leaves the configuration that is served and how it ends; it
-- never ends where the outcome is `none`.
module _ {Error Dns : Type 0} (codec : Codec Error) (now : ℕ)
    (warm_up : Dns → List Proxy → Option Dns) where
  abbrev pub Served : Type 0
  Served = Configuration × Option (Result Error (Unit {0}))

  -- There are proxies, and more than before.
  abbrev pub has_grown : Configuration → Configuration → Bool
  has_grown config updated_config =
      not (is_empty updated_config.proxies)
      && ltb (length config.proxies) (length updated_config.proxies)

  abbrev pub warmed : Configuration → Configuration → Dns → Option Dns
  warmed config updated_config dns =
      if has_grown config updated_config then warm_up dns updated_config.proxies else some dns

  abbrev pub after_warm_up : (Configuration → Dns → Served) → Configuration → Option Dns → Served
  after_warm_up rest config (some dns) = rest config dns
  after_warm_up rest config none = (config, none)

  -- An update that cannot be converted is passed over, one that can is served before the warm-up.
  abbrev pub after_update :
      (Configuration → Dns → Served) → Configuration → Dns → Result Error Configuration → Served
  after_update rest config dns (ok updated_config) =
      after_warm_up rest updated_config (warmed config updated_config dns)
  after_update rest config dns (err e) = rest config dns

  -- The loop over the stream of updates: an error of the stream ends the connection with an error, and the
  -- end of the stream without one.
  unfoldable pub process_updates : List (Result Error Entities) → Configuration → Dns → Served
  process_updates [] config dns = (config, some (ok tt))
  process_updates (ok update ∷ stream) config dns =
      after_update (process_updates stream) config dns (into_configuration codec now update)
  process_updates (err e ∷ stream) config dns = (config, some (err e))

  abbrev pub subscribed_with :
      Result Error (List (Result Error Entities)) → Configuration → Option Dns → Served
  subscribed_with stream config none = (config, none)
  subscribed_with (err e) config (some dns) = (config, some (err e))
  subscribed_with (ok stream) config (some dns) = process_updates stream config dns

  -- The snapshot is served before the warm-up, which comes before the subscription.
  abbrev pub initial_with :
      Result Error Configuration
      → Result Error (List (Result Error Entities))
      → Configuration
      → Dns
      → Served
  initial_with (err e) stream config dns = (config, some (err e))
  initial_with (ok snapshot) stream config dns =
      subscribed_with stream snapshot (warm_up dns snapshot.proxies)

  abbrev pub converted : Result Error Entities → Result Error Configuration
  converted (ok snapshot) = into_configuration codec now snapshot
  converted (err e) = err e

  -- `connect_to_control_plane`, after the connection is there: the answer to the request for a snapshot
  -- and, if it comes to that, the stream of updates.
  unfoldable pub connect_to_control_plane :
      Result Error Entities
      → Result Error (List (Result Error Entities))
      → Configuration
      → Dns
      → Served
  connect_to_control_plane snapshot stream config dns =
      initial_with (converted snapshot) stream config dns
