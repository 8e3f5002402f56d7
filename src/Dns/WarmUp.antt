-- ===== src/Dns/WarmUp.antt =====
-- src/dns/mod.rs: the lookups of all backend hosts before requests are served. The order in which a
-- `HashSet` is read is a parameter, `iter`; `times` gives for a host when its lookup starts and when the
-- network answers it.
pub mod Ending
pub mod Expired
use ferrumgw.Common.{
  ℕ, suc, String, Bool, true, false, List, [], ◌∷◌, Result, ok, err, contains, string_eq,
  if◌then◌else◌,
}
use ferrumgw.Common.DashMap.{DashMap}
use ferrumgw.Config.{Proxy}
use ferrumgw.Dns.Cache.{CacheEntry, DnsCache, Outcome, returns, blocks, with_cache, lookup}

-- `unique_hosts.insert`
abbrev pub insert_host : String → List String → List String
insert_host host hosts = if contains hosts host then hosts else host ∷ hosts

abbrev pub insert_hosts : List Proxy → List String → List String
insert_hosts [] hosts = hosts
insert_hosts (proxy ∷ proxies) hosts = insert_hosts proxies (insert_host proxy.backend_host hosts)

abbrev pub unique_hosts : List Proxy → List String
unique_hosts proxies = insert_hosts proxies []

-- The lookups that succeeded and those that failed.
pub record Counts : Type 0 where
  pub success_count : ℕ
  pub error_count : ℕ

abbrev pub count_success : Counts → Counts
count_success n = record n { success_count = suc n.success_count }

abbrev pub count_error : Counts → Counts
count_error n = record n { error_count = suc n.error_count }

module _ (D : DashMap CacheEntry) {Error : Type 0}
    (lookup_host : String → Result Error (List String)) (no_address : Error)
    (iter : List String → List String) (times : String → ℕ × ℕ) where
  -- The loop over the hosts.
  unfoldable pub lookup_all : List String → DnsCache D → Counts → Outcome D.Map Counts
  lookup_all [] c n = returns n c.cache
  lookup_all (host ∷ hosts) c n =
      elim (lookup D lookup_host no_address c host (times host).0 (times host).1) [
        | returns (ok ip) m ↦ lookup_all hosts (with_cache D c m) (count_success n)
        | returns (err e) m ↦ lookup_all hosts (with_cache D c m) (count_error n)
        | blocks ↦ blocks
      ]

  unfoldable pub warm_up_dns_cache : DnsCache D → List Proxy → Outcome D.Map Counts
  warm_up_dns_cache c proxies =
      lookup_all (iter (unique_hosts proxies)) c (record { success_count = 0; error_count = 0 })
