-- ===== src/Dns/WarmUp/Ending.antt =====
-- src/dns/mod.rs: the warm-up ends.
use ferrumgw.Common.{
  ℕ, suc, ◌+◌, String, ◌≡◌, refl, ◌∙◌, false, Bool-cases, inl, inr, Option, none, some, List, [],
  ◌∷◌, Result, ok, err, contains, length, All, ◌==◌, ==_iff, string_eq, arith,
}
use ferrumgw.Common.Distinct.{IsDistinct, has_key}
use ferrumgw.Common.DashMap.{DashMap}
use ferrumgw.Config.{Proxy}
use ferrumgw.Dns.Cache.{
  CacheEntry, DnsCache, Outcome, returns, with_cache, new_cache, lookup, lookup_with_ttl,
  or_override, from_cache, store_result, override_of, perform_lookup,
}
use ferrumgw.Dns.Cache.Laws.{lookup_other_host}
use ferrumgw.Dns.WarmUp.{
  unique_hosts, insert_hosts, Counts, count_success, count_error, lookup_all, warm_up_dns_cache,
}

abbrev pub AreUnique : List String → Type 0
AreUnique = IsDistinct (λ host. host)

contains-key :
    (hosts : List String) (k : String) → has_key (λ host. host) k hosts ≡ contains hosts k
contains-key [] k = refl
contains-key (host ∷ hosts) k = ground (arith, contains-key hosts k)

insert_hosts-AreUnique :
    (proxies : List Proxy) (hosts : List String)
    → AreUnique hosts
    → AreUnique (insert_hosts proxies hosts)
insert_hosts-AreUnique [] hosts d = d
insert_hosts-AreUnique (proxy ∷ proxies) hosts d =
    elim (Bool-cases (contains hosts proxy.backend_host)) [
      | inl h ↦ rw h (insert_hosts-AreUnique proxies hosts d)
      | inr h ↦ rw h (
          insert_hosts-AreUnique proxies (proxy.backend_host ∷ hosts)
            (contains-key hosts proxy.backend_host ∙ h, d))
    ]

eq-sym : (x y : String) → (x == y) ≡ false → (y == x) ≡ false
eq-sym x y h = ground (arith, ==_iff x y, ==_iff y x)

abbrev lookups : Counts → ℕ
lookups n = n.success_count + n.error_count

abbrev count_result : {Error : Type 0} → Result Error String → Counts → Counts
count_result (ok ip) n = count_success n
count_result (err e) n = count_error n

lookups-count :
    {Error : Type 0} (r : Result Error String) (n : Counts)
    → lookups (count_result r n) ≡ suc (lookups n)
lookups-count (ok ip) n = omega arith
lookups-count (err e) n = omega arith

module _ (D : DashMap CacheEntry) {Error : Type 0}
    (lookup_host : String → Result Error (List String)) (no_address : Error) where
  open D use {Map}

  abbrev Returns : Outcome Map (Result Error String) → Type 0
  Returns o = (r : Result Error String) × (m : Map) × (o ≡ returns r m)

  store_result-Returns :
      (m : Map) (hostname : String) (ttl later : ℕ) (o : Result Error String)
      → Returns (store_result D lookup_host no_address m hostname ttl later o)
  store_result-Returns m hostname ttl later (ok ip) = (ok ip, _, refl)
  store_result-Returns m hostname ttl later (err e) = (err e, m, refl)

  or_override-Returns :
      (m : Map) (hostname : String) (ttl now later : ℕ) (o : Option String)
      → D.get m hostname ≡ none
      → Returns (or_override D lookup_host no_address m hostname ttl now later o)
  unfolding or_override from_cache
  or_override-Returns m hostname ttl now later (some ip) h = (ok ip, m, refl)
  or_override-Returns m hostname ttl now later none h =
      rw h
        (store_result-Returns m hostname ttl later (perform_lookup lookup_host no_address hostname))

  -- The lookup of a host without an entry does not wait for ever.
  lookup-Returns :
      (c : DnsCache D) (hostname : String) (now later : ℕ)
      → D.get c.cache hostname ≡ none
      → Returns (lookup D lookup_host no_address c hostname now later)
  unfolding lookup lookup_with_ttl
  lookup-Returns c hostname now later h =
      or_override-Returns c.cache hostname c.default_ttl now later
        (override_of c.overrides hostname) h

  abbrev AreMissing : Map → List String → Type 0
  AreMissing m hosts = All (λ host. D.get m host ≡ none) hosts

  lookup-AreMissing :
      (c : DnsCache D) (hostname : String) (now later : ℕ) (r : Result Error String) (m : Map)
      → lookup D lookup_host no_address c hostname now later ≡ returns r m
      → (hosts : List String) → has_key (λ host. host) hostname hosts ≡ false
      → AreMissing c.cache hosts
      → AreMissing m hosts
  unfolding lookup
  lookup-AreMissing c hostname now later r m eq [] h missing = tt
  lookup-AreMissing c hostname now later r m eq (host ∷ hosts) h missing = (
    lookup_other_host D lookup_host no_address c hostname c.default_ttl now later r m host eq
          (eq-sym host hostname (ground arith))
        ∙ missing.0,
    lookup-AreMissing c hostname now later r m eq hosts (ground arith) missing.1,
  )

  empty-AreMissing : (hosts : List String) → AreMissing D.empty hosts
  empty-AreMissing [] = tt
  empty-AreMissing (host ∷ hosts) = (D.get-empty host, empty-AreMissing hosts)

  module _ (iter : List String → List String) (times : String → ℕ × ℕ) where
    lookup_all_next :
        (host : String) (hosts : List String) (c : DnsCache D) (n : Counts)
        (r : Result Error String) (m : Map)
        → lookup D lookup_host no_address c host (times host).0 (times host).1 ≡ returns r m
        → lookup_all D lookup_host no_address iter times (host ∷ hosts) c n
          ≡ lookup_all D lookup_host no_address iter times hosts
              (with_cache D c m)
              (count_result r n)
    unfolding lookup_all
    lookup_all_next host hosts c n (ok ip) m eq = rw (eq, lookup_all) refl
    lookup_all_next host hosts c n (err e) m eq = rw (eq, lookup_all) refl

    lookup_all-ends :
        (hosts : List String) (c : DnsCache D) (n : Counts)
        → AreUnique hosts
        → AreMissing c.cache hosts
        → (n' : Counts) × (m : Map) × (lookup_all D lookup_host no_address iter times hosts c n
            ≡ returns n' m)
          × (lookups n' ≡ lookups n + length hosts)
    unfolding lookup_all
    lookup_all-ends [] c n d missing = (n, c.cache, refl, omega arith)
    lookup_all-ends (host ∷ hosts) c n d missing =
        let (r, m, eq) = lookup-Returns c host (times host).0 (times host).1 missing.0 in
        let (n', m', ends, counted) =
          lookup_all-ends hosts (with_cache D c m) (count_result r n) d.1
            (lookup-AreMissing c host (times host).0 (times host).1 r m eq hosts d.0 missing.1) in
        (
          n',
          m',
          lookup_all_next host hosts c n r m eq ∙ ends,
          omega (arith, counted, lookups-count r n),
        )

    -- With a new cache, and a set that is read in some order, each host once, the warm-up returns: no
    -- lookup waits for ever, and every host is counted as a success or as an error.
    pub warm_up-ends :
        (default_ttl : ℕ) (overrides : List (String × String)) (proxies : List Proxy)
        → ((hosts : List String) → AreUnique hosts → AreUnique (iter hosts))
        → (n : Counts) × (m : Map) × (warm_up_dns_cache D lookup_host no_address iter times
              (new_cache D default_ttl overrides)
              proxies
            ≡ returns n m)
          × (n.success_count + n.error_count ≡ length (iter (unique_hosts proxies)))
    unfolding warm_up_dns_cache new_cache
    warm_up-ends default_ttl overrides proxies keeps =
        let hosts = iter (unique_hosts proxies) in
        let (n, m, ends, counted) =
          lookup_all-ends hosts (new_cache D default_ttl overrides)
            (record { success_count = 0; error_count = 0 })
            (keeps (unique_hosts proxies) (insert_hosts-AreUnique proxies [] tt))
            (empty-AreMissing hosts) in
        (n, m, ends, omega (arith, counted))
