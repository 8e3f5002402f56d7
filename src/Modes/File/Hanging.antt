-- ===== src/Modes/File/Hanging.antt =====
-- src/modes/file.rs: what the file mode serves over a sequence of signals, and when it stops reloading.
use ferrumgw.Common.{
  ℕ, ◌≡◌, refl, String, true, false, Bool-cases, inl, inr, none, some, List, [], ◌∷◌, Result, ok,
  err, ap, ◌∙◌, contains, is_empty, string_eq, if◌then◌else◌,
}
use ferrumgw.Common.DashMap.{DashMap}
use ferrumgw.Config.{Configuration}
use ferrumgw.Config.Paths.{PathError, validate_listen_path_uniqueness, HasUniquePaths, validate_iff}
use ferrumgw.Config.File.{FileParsers, load_configuration_from_file}
use ferrumgw.Dns.Cache.{CacheEntry, is_expired, Outcome, returns, blocks, override_of}
use ferrumgw.Dns.WarmUp.{Counts, unique_hosts, warm_up_dns_cache}
use ferrumgw.Dns.WarmUp.Expired.{lookup_all-blocks}
use ferrumgw.Modes.File.{
  Signal, FileMode, after_warm_up, warm_up, take_over, after_load, reload, reload_all,
}

module _ (D : DashMap CacheEntry) {Error : Type 0} (P : FileParsers Error) (unsupported : Error)
    (lookup_host : String → Result Error (List String)) (no_address : Error)
    (iter : List String → List String) where
  abbrev step : Signal Error → FileMode D → FileMode D
  step = reload D P unsupported lookup_host no_address iter

  abbrev pub run : List (Signal Error) → FileMode D → FileMode D
  run = reload_all D P unsupported lookup_host no_address iter

  after_warm_up-served :
      (s : FileMode D) (o : Outcome D.Map Counts)
      → (after_warm_up D P unsupported lookup_host no_address iter s o).served ≡ s.served
  after_warm_up-served s (returns counts m) = refl
  after_warm_up-served s blocks = refl

  warm_up-served :
      (times : String → ℕ × ℕ) (s : FileMode D)
      → (warm_up D P unsupported lookup_host no_address iter times s).served ≡ s.served
  warm_up-served times s = elim (Bool-cases (is_empty s.served.proxies)) [
    | inl empty ↦ rw empty refl
    | inr filled ↦ rw filled (after_warm_up-served s _)
  ]

  abbrev IsValid : FileMode D → Type 0
  IsValid s = HasUniquePaths s.served.proxies

  take_over-IsValid :
      (times : String → ℕ × ℕ) (config : Configuration) (o : Result PathError (Unit {0}))
      (s : FileMode D)
      → validate_listen_path_uniqueness config ≡ o
      → IsValid s
      → IsValid (take_over D P unsupported lookup_host no_address iter times config o s)
  unfolding take_over
  take_over-IsValid times config (err e) s eq h = h
  take_over-IsValid times config (ok tt) s eq h =
      rw (warm_up-served times (record s { served = config })) ((validate_iff config).0 eq)

  after_load-IsValid :
      (times : String → ℕ × ℕ) (o : Result Error Configuration) (s : FileMode D)
      → IsValid s
      → IsValid (after_load D P unsupported lookup_host no_address iter times o s)
  unfolding after_load
  after_load-IsValid times (err e) s h = h
  after_load-IsValid times (ok config) s h =
      take_over-IsValid times config (validate_listen_path_uniqueness config) s refl h

  abbrev loaded_by : Signal Error → Result Error Configuration
  loaded_by signal = load_configuration_from_file P unsupported signal.now signal.at_path

  abbrev load_step : Signal Error → FileMode D → FileMode D
  load_step signal =
      after_load D P unsupported lookup_host no_address iter signal.times (loaded_by signal)

  step-stuck : (signal : Signal Error) (s : FileMode D) → s.is_stuck ≡ true → step signal s ≡ s
  unfolding reload
  step-stuck signal s stuck = ap (λ b. if b then s else load_step signal s) stuck

  step-free :
      (signal : Signal Error) (s : FileMode D)
      → s.is_stuck ≡ false
      → step signal s ≡ load_step signal s
  unfolding reload
  step-free signal s free = ap (λ b. if b then s else load_step signal s) free

  reload-IsValid : (signal : Signal Error) (s : FileMode D) → IsValid s → IsValid (step signal s)
  reload-IsValid signal s h = elim (Bool-cases s.is_stuck) [
    | inl stuck ↦ rw (step-stuck signal s stuck) h
    | inr free ↦ rw (step-free signal s free) (after_load-IsValid signal.times _ s h)
  ]

  -- Over every sequence of signals, whatever stands at the path, the file mode serves proxies with different
  -- listen paths, if it does so at the start.
  reload_all-IsValid :
      (signals : List (Signal Error)) (s : FileMode D) → IsValid s → IsValid (run signals s)
  unfolding reload_all
  reload_all-IsValid [] s h = h
  reload_all-IsValid (signal ∷ signals) s h =
      reload_all-IsValid signals (step signal s) (reload-IsValid signal s h)

  stuck_stays :
      (signals : List (Signal Error)) (s : FileMode D) → s.is_stuck ≡ true → run signals s ≡ s
  unfolding reload_all
  stuck_stays [] s h = refl
  stuck_stays (signal ∷ signals) s h =
      ap (run signals) (step-stuck signal s h) ∙ stuck_stays signals s h

  -- A backend host of the configuration, without an override, has an entry in the cache that is expired when
  -- the warm-up comes to it.
  abbrev pub HasExpired : Signal Error → Configuration → FileMode D → String → CacheEntry → Type 0
  HasExpired signal config s host entry =
      (contains (iter (unique_hosts config.proxies)) host ≡ true)
      × (override_of s.dns_cache.overrides host ≡ none)
      × (D.get s.dns_cache.cache host ≡ some entry)
      × (is_expired (signal.times host).0 entry ≡ true)

  -- The state with the new configuration and the task that waits.
  abbrev stuck_with : Configuration → FileMode D → FileMode D
  stuck_with config s = record s { served = config; is_stuck = true }

  load_step-stuck :
      (signal : Signal Error) (s : FileMode D) (config : Configuration) (host : String)
      (entry : CacheEntry)
      → loaded_by signal ≡ ok config
      → validate_listen_path_uniqueness config ≡ ok tt
      → is_empty config.proxies ≡ false
      → HasExpired signal config s host entry
      → load_step signal s ≡ stuck_with config s
  unfolding after_load take_over warm_up_dns_cache
  load_step-stuck signal s config host entry loaded valid filled (among, plain, held, late) =
      let t = record s { served = config } in
      ap (λ o. after_load D P unsupported lookup_host no_address iter signal.times o s) loaded
      ∙ ap (λ o. take_over D P unsupported lookup_host no_address iter signal.times config o s)
          valid
      ∙ ap
          (λ b.
            if b
            then t
            else after_warm_up D P unsupported lookup_host no_address iter t (
                warm_up_dns_cache D lookup_host no_address iter signal.times s.dns_cache
                  config.proxies))
          filled
      ∙ ap (after_warm_up D P unsupported lookup_host no_address iter t) (
          lookup_all-blocks D lookup_host no_address iter signal.times host entry late
            (iter (unique_hosts config.proxies)) s.dns_cache _ among plain held)

  -- A reload that takes over a valid configuration with proxies and meets an expired host is the last one:
  -- whatever signals follow, that configuration is served for ever.
  pub expired_host_hangs :
      (signal : Signal Error) (signals : List (Signal Error)) (s : FileMode D)
      (config : Configuration) (host : String) (entry : CacheEntry)
      → s.is_stuck ≡ false
      → load_configuration_from_file P unsupported signal.now signal.at_path ≡ ok config
      → validate_listen_path_uniqueness config ≡ ok tt
      → is_empty config.proxies ≡ false
      → HasExpired signal config s host entry
      → (run (signal ∷ signals) s).served ≡ config
  unfolding reload_all
  expired_host_hangs signal signals s config host entry free loaded valid filled expired =
      ap (λ t. (run signals t).served)
        (step-free signal s free
          ∙ load_step-stuck signal s config host entry loaded valid filled expired)
      ∙ ap (λ t. t.served) (stuck_stays signals (stuck_with config s) refl)
