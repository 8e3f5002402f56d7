-- ===== src/Database/Postgres/Rows.antt =====
-- src/database/postgres.rs: what a full load reads and finds, where the associations have the columns that
-- the statements name.
use mathlib.Core.Option
use ferrumgw.Common.{
  ℕ, String, ◌≡◌, refl, ap, true, false, List, [], ◌∷◌, map, none, some, ok, arith, ◌==◌, nat_eq,
  string_eq, ==_refl, ==_iff, any, find, Bool-cases, inl, inr,
}
use ferrumgw.Config.{Proxy, Configuration, BackendProtocol, http, https, ws, wss, grpc}
use ferrumgw.Config.Delta.Lookup.{find_id}
use ferrumgw.Database.Sqlite.{protocol_text}
use ferrumgw.Database.Sqlite.Loading.{parse_delta_protocol}
use ferrumgw.Database.Sqlite.Stored.{auth_mode_lem}
use ferrumgw.Database.Postgres.{Schema, ProxyRow, AssociationRow, Tables, refuse_if}
use ferrumgw.Database.Postgres.Proxies.{update_row, row_of}
use ferrumgw.Database.Postgres.Loading.{
  load_full_configuration, read_proxies, read_proxy, order_by, plugins_of, time_or, max_or,
  update_times,
}

abbrev pub id_of_row : ProxyRow → String
id_of_row r = r.columns.id

protocol_lem : (p : BackendProtocol) → parse_delta_protocol (protocol_text p) ≡ p
protocol_lem http = refl
protocol_lem https = refl
protocol_lem ws = refl
protocol_lem wss = refl
protocol_lem grpc = refl

read_proxy-row_of :
    (associations : List AssociationRow) (proxy : Proxy)
    → read_proxy associations (row_of proxy)
      ≡ record proxy { plugins = plugins_of proxy.id associations }
read_proxy-row_of associations proxy =
    rw (protocol_lem proxy.backend_protocol, auth_mode_lem proxy.auth_mode) refl

read_proxies_lem :
    (schema : Schema) (associations : List AssociationRow) (rows : List ProxyRow)
    → schema.keeps_embedded ≡ true
    → read_proxies schema associations rows ≡ ok (map (read_proxy associations) rows)
unfolding refuse_if
read_proxies_lem schema associations [] keeps = refl
read_proxies_lem schema associations (row ∷ rows) keeps = rw keeps refl

-- What is loaded, where nothing fails.
abbrev pub configuration_of : ℕ → Tables → Configuration
configuration_of now t = record {
  proxies = map (read_proxy t.associations) (order_by (λ row. row.columns.created_at) t.proxies);
  consumers = order_by (λ c. c.created_at) t.consumers;
  plugin_configs = order_by (λ pc. pc.created_at) t.plugin_configs;
  last_updated_at = time_or now (max_or none (update_times t));
}

pub load_lem :
    (schema : Schema) (now : ℕ) (t : Tables)
    → schema.keeps_embedded ≡ true
    → load_full_configuration schema now t ≡ ok (configuration_of now t)
unfolding load_full_configuration
load_lem schema now t keeps =
    rw
      (read_proxies_lem schema t.associations (order_by (λ row. row.columns.created_at) t.proxies)
        keeps)
      refl

pub update_row-id :
    (now : ℕ) (proxy : Proxy) (r : ProxyRow) → id_of_row (update_row now proxy r) ≡ id_of_row r
update_row-id now proxy r = ground (arith, ==_iff r.columns.id proxy.id)

pub has_proxy-found :
    (id : String) (rows : List ProxyRow) (row : ProxyRow)
    → find (λ r. r.columns.id == id) rows ≡ some row
    → any (λ r. r.columns.id == id) rows ≡ true
has_proxy-found id [] row h = ground (arith, h)
has_proxy-found id (r ∷ rows) row h = ground (arith, has_proxy-found id rows row)

found-head :
    (id : String) (r : ProxyRow) (rows : List ProxyRow) (row : ProxyRow)
    → find (λ r. r.columns.id == id) (r ∷ rows) ≡ some row
    → (r.columns.id == id) ≡ true
    → some r ≡ some row
found-head id r rows row h same = ground arith

pub other_row :
    (now : ℕ) (proxy : Proxy) (r : ProxyRow)
    → (r.columns.id == proxy.id) ≡ false
    → update_row now proxy r ≡ r
other_row now proxy r other = rw other refl

pub own_row :
    (now : ℕ) (proxy : Proxy) (r : ProxyRow)
    → (r.columns.id == proxy.id) ≡ true
    → update_row now proxy r
      ≡ row_of (record proxy { created_at = r.columns.created_at; updated_at = now })
own_row now proxy r same = rw same refl

read_proxy-same :
    (associations before : List AssociationRow) (r : ProxyRow)
    → plugins_of r.columns.id associations ≡ plugins_of r.columns.id before
    → read_proxy associations r ≡ read_proxy before r
read_proxy-same associations before r same = rw same refl

module _ (now : ℕ) (proxy : Proxy) (associations : List AssociationRow) where
  abbrev overwritten : ProxyRow → Proxy
  overwritten row = record proxy {
    created_at = row.columns.created_at;
    updated_at = now;
    plugins = plugins_of proxy.id associations;
  }

  pub find-updated :
      (rows : List ProxyRow) (row : ProxyRow)
      → find (λ r. r.columns.id == proxy.id) rows ≡ some row
      → find_id
          (λ p. p.id)
          proxy.id
          (map (read_proxy associations) (map (update_row now proxy) rows))
        ≡ some (overwritten row)
  find-updated [] row h = ground (arith, h)
  find-updated (r ∷ rows) row h = elim (Bool-cases (r.columns.id == proxy.id)) [
    | inl same ↦
        rw
          (
            own_row now proxy r same,
            read_proxy-row_of associations
                (record proxy { created_at = r.columns.created_at; updated_at = now }),
            ==_refl proxy.id,
          )
          (ap (Option.map overwritten) (found-head proxy.id r rows row h same))
    | inr other ↦ rw (other_row now proxy r other, other) (find-updated rows row (ground arith))
  ]

  pub find-kept :
      (other : String) (before : List AssociationRow) (rows : List ProxyRow)
      → (proxy.id == other) ≡ false
      → plugins_of other associations ≡ plugins_of other before
      → find_id (λ p. p.id) other (map (read_proxy associations) (map (update_row now proxy) rows))
        ≡ find_id (λ p. p.id) other (map (read_proxy before) rows)
  find-kept other before [] differs same = refl
  find-kept other before (r ∷ rows) differs same = elim (Bool-cases (r.columns.id == other)) [
    | inl found ↦
        rw
          (
            other_row now proxy r (
                ground (
                  arith,
                  ==_iff r.columns.id other,
                  ==_iff r.columns.id proxy.id,
                  ==_iff proxy.id other,
                )),
            found,
          )
          (ap some
            (read_proxy-same associations before r (rw ((==_iff r.columns.id other).0 found) same)))
    | inr missed ↦ rw (update_row-id now proxy r, missed) (find-kept other before rows differs same)
  ]
