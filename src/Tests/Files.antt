-- ===== src/Tests/Files.antt =====
-- The theorems about the file mode, at concrete values.
use ferrumgw.Common.{ℕ, ◌≡◌, refl, String, false, List, [], ◌∷◌, some, Result, ok, err}
use ferrumgw.Common.DashMap.{write_log}
use ferrumgw.Config.{Configuration}
use ferrumgw.Config.Paths.{validate_listen_path_uniqueness}
use ferrumgw.Config.File.{FileParsers, file, load_configuration_from_file}
use ferrumgw.Dns.Cache.{CacheEntry, new_entry, new_cache, is_expired}
use ferrumgw.Modes.File.{Signal, FileMode, reload_all}
use ferrumgw.Modes.File.Hanging.{expired_host_hangs}
use ferrumgw.Tests.Samples.{served, users}

abbrev changed : Configuration
changed = record served { proxies = users ∷ [] }

-- Every text is the changed configuration, in JSON.
abbrev parsers : FileParsers String
parsers = record {
  parse_json_config = λ text. ok changed;
  parse_yaml_config = λ text. err "no YAML";
}

abbrev network : String → Result String (List String)
network host = ok ("10.0.0.7" ∷ [])

abbrev same_order : List String → List String
same_order hosts = hosts

-- A second after the start.
abbrev at_a_second : String → ℕ × ℕ
at_a_second host = (1000, 1010)

abbrev hangup : Signal String
hangup = record { at_path = file (some "json") (ok "text"); now = 1000; times = at_a_second }

-- The host of `users` was looked up at the start, for half a second.
abbrev looked_up : CacheEntry
looked_up = new_entry 10 "10.0.0.7" 500

abbrev running : FileMode (write_log CacheEntry)
running = record {
  served = served;
  dns_cache = record (new_cache (write_log CacheEntry) 300 []) {
    cache = (users.backend_host, some looked_up) ∷ [];
  };
  is_stuck = false;
}

expired_host_hangs_example :
    (reload_all
      (write_log CacheEntry)
      parsers
      "unsupported"
      network
      "no address"
      same_order
      (hangup ∷ hangup ∷ [])
      running).served
    ≡ changed
unfolding load_configuration_from_file is_expired new_cache validate_listen_path_uniqueness
expired_host_hangs_example =
    expired_host_hangs (write_log CacheEntry) parsers "unsupported" network "no address" same_order
      hangup (hangup ∷ []) running changed users.backend_host looked_up refl refl refl refl
      (refl, refl, refl, refl)
