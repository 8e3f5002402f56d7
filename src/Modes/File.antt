-- ===== src/Modes/File.antt =====
-- src/modes/file.rs: the configuration of the file mode and its reload on SIGHUP. The warm-up of the DNS
-- cache is part of the task that reloads. `iter` and `times` are those of Dns/WarmUp.
pub mod Hanging
use ferrumgw.Common.{
  ℕ, String, Bool, true, false, List, [], ◌∷◌, Result, ok, err, is_empty, if◌then◌else◌,
}
use ferrumgw.Common.DashMap.{DashMap}
use ferrumgw.Config.{Proxy, Configuration}
use ferrumgw.Config.Paths.{PathError, validate_listen_path_uniqueness}
use ferrumgw.Config.File.{FileParsers, PathContent, load_configuration_from_file}
use ferrumgw.Dns.Cache.{CacheEntry, DnsCache, Outcome, returns, blocks, with_cache}
use ferrumgw.Dns.WarmUp.{Counts, warm_up_dns_cache}

-- A signal: what stands at the path, the time, and the times of the lookups that follow.
pub record Signal (Error : Type 0) : Type 0 where
  pub at_path : PathContent Error
  pub now : ℕ
  pub times : String → ℕ × ℕ

module _ (D : DashMap CacheEntry) where
  -- `is_stuck` once a lookup of the task never returns.
  pub record FileMode : Type 0 where
    pub served : Configuration
    pub dns_cache : DnsCache D
    pub is_stuck : Bool

module _ (D : DashMap CacheEntry) {Error : Type 0} (P : FileParsers Error) (unsupported : Error)
    (lookup_host : String → Result Error (List String)) (no_address : Error)
    (iter : List String → List String) where
  abbrev pub after_warm_up : FileMode D → Outcome D.Map Counts → FileMode D
  after_warm_up s (returns counts m) = record s { dns_cache = with_cache D s.dns_cache m }
  after_warm_up s blocks = record s { is_stuck = true }

  abbrev pub warm_up : (String → ℕ × ℕ) → FileMode D → FileMode D
  warm_up times s =
      if is_empty s.served.proxies
      then s
      else after_warm_up s
          (warm_up_dns_cache D lookup_host no_address iter times s.dns_cache s.served.proxies)

  unfoldable pub take_over :
      (String → ℕ × ℕ) → Configuration → Result PathError (Unit {0}) → FileMode D → FileMode D
  take_over times new_config (ok _) s = warm_up times (record s { served = new_config })
  take_over times new_config (err e) s = s

  unfoldable pub after_load :
      (String → ℕ × ℕ) → Result Error Configuration → FileMode D → FileMode D
  after_load times (ok new_config) s =
      take_over times new_config (validate_listen_path_uniqueness new_config) s
  after_load times (err e) s = s

  -- The body of the loop.
  unfoldable pub reload : Signal Error → FileMode D → FileMode D
  reload signal s =
      if s.is_stuck
      then s
      else after_load signal.times
          (load_configuration_from_file P unsupported signal.now signal.at_path) s

  unfoldable pub reload_all : List (Signal Error) → FileMode D → FileMode D
  reload_all [] s = s
  reload_all (signal ∷ signals) s = reload_all signals (reload signal s)
