-- ===== src/Database/Sqlite/Stored.antt =====
-- src/database/sqlite.rs: what is loaded of a proxy that was created.
use ferrumgw.Common.{
  ℕ, ◌<◌, ◌^◌, Option, none, ap, String, ◌≡◌, refl, false, List, [], ◌∷◌, ◌++◌, map, some, ok,
  arith, ◌==◌, string_eq, ==_refl, any,
}
use ferrumgw.Config.{
  Proxy, BackendProtocol, AuthMode, PluginConfig, http, https, ws, wss, grpc, single, multi,
}
use ferrumgw.Config.Delta.Lookup.{find_id}
use ferrumgw.Database.Sqlite.{
  ProxyRow, AssociationRow, Tables, refuse_if, protocol_text, auth_mode_text,
}
use ferrumgw.Database.Sqlite.Stamps.{to_rfc3339, time_of}
use ferrumgw.Database.Sqlite.Proxies.{
  create_proxy, has_path, has_proxy, new_row, as_i64, ttl_as_i64,
}
use ferrumgw.Database.Sqlite.Loading.{
  load_configuration, read_proxy, read_plugin_config, parse_protocol, parse_auth_mode, plugins_of,
}

-- The protocol that a full load finds: gRPC becomes HTTP.
abbrev pub loaded_protocol : BackendProtocol → BackendProtocol
loaded_protocol grpc = http
loaded_protocol p = p

protocol_lem : (p : BackendProtocol) → parse_protocol (protocol_text p) ≡ loaded_protocol p
protocol_lem http = refl
protocol_lem https = refl
protocol_lem ws = refl
protocol_lem wss = refl
protocol_lem grpc = refl

pub auth_mode_lem : (m : AuthMode) → parse_auth_mode (auth_mode_text m) ≡ m
auth_mode_lem single = refl
auth_mode_lem multi = refl

time_lem : (t : ℕ) → time_of (to_rfc3339 t) ≡ t
time_lem t = omega arith

-- The id is not among the rows, so that the row that is appended is found.
find-appended :
    (known : List PluginConfig) (associations : List AssociationRow) (row : ProxyRow)
    (rows : List ProxyRow)
    → any (λ r. r.columns.id == row.columns.id) rows ≡ false
    → find_id (λ p. p.id) row.columns.id (map (read_proxy known associations) (rows ++ (row ∷ [])))
      ≡ some (read_proxy known associations row)
find-appended known associations row [] h = rw (==_refl row.columns.id) refl
find-appended known associations row (r ∷ rows) h =
    ground (arith, find-appended known associations row rows)

-- The other proxies are found as before.
find-others :
    (known : List PluginConfig) (associations : List AssociationRow) (row : ProxyRow) (id : String)
    (rows : List ProxyRow)
    → (row.columns.id == id) ≡ false
    → find_id (λ p. p.id) id (map (read_proxy known associations) (rows ++ (row ∷ [])))
      ≡ find_id (λ p. p.id) id (map (read_proxy known associations) rows)
find-others known associations row id [] h = rw h refl
find-others known associations row id (r ∷ rows) h =
    ground (arith, find-others known associations row id rows)

abbrev TtlFits : Option ℕ → Type 0
TtlFits none = Unit
TtlFits (some ttl) = ttl < 2 ^ 63

-- The numbers that are bound as an `i64` are no negative ones.
pub record FitsI64 (proxy : Proxy) : Type 0 where
  pub connect : proxy.backend_connect_timeout_ms < 2 ^ 63
  pub read : proxy.backend_read_timeout_ms < 2 ^ 63
  pub write : proxy.backend_write_timeout_ms < 2 ^ 63
  pub ttl : TtlFits proxy.dns_cache_ttl_seconds

as_i64_lem : (n : ℕ) → n < 2 ^ 63 → as_i64 n ≡ n
as_i64_lem n h = omega arith

ttl_as_i64_lem : (ttl : Option ℕ) → TtlFits ttl → ttl_as_i64 ttl ≡ ttl
ttl_as_i64_lem none h = refl
ttl_as_i64_lem (some ttl) h = ap some (as_i64_lem ttl h)

-- A proxy whose timeouts and time to live are below 2^63, with an id and a listen path that no row has, is
-- stored, and a full load finds it under its id with all its fields, but with HTTP for gRPC and, for its plugins, what the table of associations has
-- for its id; under any other id it finds what it found before.
pub create_proxy-load :
    (proxy : Proxy) (other : String) (t : Tables) (now : ℕ)
    → FitsI64 proxy
    → has_path proxy.listen_path t ≡ false
    → has_proxy proxy.id t ≡ false
    → (proxy.id == other) ≡ false
    → (u : Tables) × (create_proxy proxy t ≡ ok u)
      × (find_id (λ p. p.id) proxy.id (load_configuration now u).proxies
          ≡ some (record proxy {
            backend_protocol = loaded_protocol proxy.backend_protocol;
            plugins = plugins_of (map read_plugin_config t.plugin_configs) proxy.id t.associations;
          }))
      × (find_id (λ p. p.id) other (load_configuration now u).proxies
          ≡ find_id (λ p. p.id) other (load_configuration now t).proxies)
unfolding create_proxy refuse_if load_configuration
create_proxy-load proxy other t now fits free new differs = (
  record t { proxies = t.proxies ++ (new_row proxy ∷ []) },
  rw (free, new) refl,
  rw
      (
        find-appended (map read_plugin_config t.plugin_configs) t.associations (new_row proxy)
            t.proxies new,
        protocol_lem proxy.backend_protocol,
        auth_mode_lem proxy.auth_mode,
        time_lem proxy.created_at,
        time_lem proxy.updated_at,
        as_i64_lem proxy.backend_connect_timeout_ms fits.connect,
        as_i64_lem proxy.backend_read_timeout_ms fits.read,
        as_i64_lem proxy.backend_write_timeout_ms fits.write,
        ttl_as_i64_lem proxy.dns_cache_ttl_seconds fits.ttl,
      )
      refl,
  find-others (map read_plugin_config t.plugin_configs) t.associations (new_row proxy) other
      t.proxies differs,
)
