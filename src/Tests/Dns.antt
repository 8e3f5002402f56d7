-- ===== src/Tests/Dns.antt =====
-- The theorems about the DNS cache, at concrete values.
use ferrumgw.Common.DashMap.{write_log}
use ferrumgw.Common.{
  ℕ, length, ◌+◌, ◌≡◌, refl, String, List, [], ◌∷◌, ◌++◌, some, Result, ok, ltb, if◌then◌else◌,
  arith,
}
use ferrumgw.Dns.Cache.{
  CacheEntry, new_entry, DnsCache, new_cache, with_cache, returns, blocks, lookup_with_ttl,
  or_override, from_cache, perform_lookup,
}
use ferrumgw.Dns.Cache.Laws.{lookup_then_lookup}
use ferrumgw.Dns.WarmUp.{Counts, unique_hosts, warm_up_dns_cache}
use ferrumgw.Dns.WarmUp.Ending.{warm_up-ends}
use ferrumgw.Tests.Samples.{served}

abbrev network : String → Result String (List String)
network hostname = ok ("10.0.0.7" ∷ [])

abbrev empty_cache : DnsCache (write_log CacheEntry)
empty_cache = record { cache = []; default_ttl = 300000; overrides = ("pinned", "10.0.0.9") ∷ [] }

abbrev filled : (write_log CacheEntry).Map
filled = ("backend", some (new_entry 20 "10.0.0.7" 1000)) ∷ []

lookup_then_lookup_example :
    lookup_with_ttl
      (write_log CacheEntry)
      network
      "no address"
      (with_cache (write_log CacheEntry) empty_cache filled)
      "backend"
      1000
      500
      510
    ≡ (if ltb 500 (20 + 1000) then returns (ok "10.0.0.7") filled else blocks)
unfolding lookup_with_ttl or_override from_cache perform_lookup
lookup_then_lookup_example =
    lookup_then_lookup (write_log CacheEntry) network "no address" empty_cache "backend" 1000 10 20
      "10.0.0.7" filled 1000 500 510 refl refl refl (omega arith)

abbrev two_entries : List (String × CacheEntry)
two_entries = ("a", new_entry 0 "10.0.0.1" 100) ∷ ("b", new_entry 0 "10.0.0.2" 900) ∷ []

-- Each host is looked up at the time 10 and answered at the time 20.
abbrev at_ten : String → ℕ × ℕ
at_ten host = (10, 20)

warm_up-ends_example :
    (n : Counts) × (m : (write_log CacheEntry).Map) × (warm_up_dns_cache
        (write_log CacheEntry)
        network
        "no address"
        (λ hosts. hosts)
        at_ten
        (new_cache (write_log CacheEntry) 300 [])
        (served.proxies ++ served.proxies)
      ≡ returns n m)
    × (n.success_count + n.error_count ≡ length (unique_hosts (served.proxies ++ served.proxies)))
warm_up-ends_example =
    warm_up-ends (write_log CacheEntry) network "no address" (λ hosts. hosts) at_ten 300 []
      (served.proxies ++ served.proxies) (λ hosts d. d)
