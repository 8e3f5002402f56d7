-- ===== src/Tests/Database.antt =====
-- The theorems about the SQLite client, at concrete values.
use ferrumgw.Common.{arith, ◌≡◌, refl, String, List, [], ◌∷◌, some, Result, ok, string_eq, true}
use ferrumgw.Config.{Proxy, grpc}
use ferrumgw.Config.Delta.Lookup.{find_id}
use ferrumgw.Config.Paths.{validate_listen_path_uniqueness}
use ferrumgw.Modes.Polling.{Settings, Poller}
use ferrumgw.Database.Sqlite.{Tables, ensure_tables}
use ferrumgw.Database.Sqlite.Proxies.{create_proxy, new_row}
use ferrumgw.Database.Sqlite.Consumers.{new_consumer_row}
use ferrumgw.Database.Sqlite.Loading.{load_configuration}
use ferrumgw.Database.Sqlite.Writes.{Write, writes, creates_proxy, updates_proxy, creates_consumer}
use ferrumgw.Database.Sqlite.Sound.{IsSound}
use ferrumgw.Database.Sqlite.Sound.Runs.{writes_stay_valid}
use ferrumgw.Database.Sqlite.Stored.{create_proxy-load}
use ferrumgw.Tests.Samples.{users, orders, alice, association, served}

-- Two proxies are created, one of which takes the path of the other and a plugin.
abbrev some_writes : List Write
some_writes =
    creates_proxy users
    ∷ creates_proxy orders
    ∷ creates_consumer "c1" 7000 alice
    ∷ updates_proxy 8000 (record orders { listen_path = users.listen_path })
    ∷ updates_proxy 8000 (record orders { plugins = association "pc1" ∷ [] })
    ∷ []

writes_stay_valid_example :
    IsSound (writes some_writes ensure_tables)
    × (validate_listen_path_uniqueness (load_configuration 9000 (writes some_writes ensure_tables))
        ≡ ok tt)
writes_stay_valid_example = writes_stay_valid some_writes 9000

abbrev create_named : String → String → Result String String
create_named name config = ok name

abbrev stored : Tables
stored = record ensure_tables {
  proxies = new_row users ∷ [];
  consumers = new_consumer_row "c1" 7000 alice ∷ [];
}

abbrev grpc_orders : Proxy
grpc_orders = record orders { backend_protocol = grpc }

create_proxy-load_example :
    (u : Tables) × (create_proxy grpc_orders stored ≡ ok u)
    × (find_id (λ p. p.id) "orders" (load_configuration 9000 u).proxies ≡ some orders)
    × (find_id (λ p. p.id) "users" (load_configuration 9000 u).proxies
        ≡ find_id (λ p. p.id) "users" (load_configuration 9000 stored).proxies)
create_proxy-load_example =
    create_proxy-load grpc_orders "users" stored 9000
      (record { connect = omega arith; read = omega arith; write = omega arith; ttl = tt }) refl
      refl refl

abbrev incremental : Settings
incremental = record { poll_interval = 300; check_interval = 30; use_incremental_polling = true }

abbrev behind : Poller
behind = record { served = served; last_update_timestamp = 0; check_at = 9000; poll_at = 9300 }
