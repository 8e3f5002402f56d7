-- ===== src/Dns/WarmUp/Expired.antt =====
-- src/dns/mod.rs: a warm-up that meets an expired entry.
use ferrumgw.Common.{
  ℕ, ◌≡◌, refl, ◌∙◌, String, true, Bool-cases, inl, inr, none, some, List, [], ◌∷◌, Result, ok, err,
  contains, ◌==◌, ==_iff, string_eq, arith,
}
use ferrumgw.Common.DashMap.{DashMap}
use ferrumgw.Dns.Cache.{
  CacheEntry, is_expired, DnsCache, Outcome, returns, blocks, with_cache, lookup, lookup_with_ttl,
  or_override, from_cache, override_of,
}
use ferrumgw.Dns.Cache.Laws.{lookup_other_host}
use ferrumgw.Dns.WarmUp.{Counts, count_success, count_error, lookup_all}

module _ (D : DashMap CacheEntry) {Error : Type 0}
    (lookup_host : String → Result Error (List String)) (no_address : Error)
    (iter : List String → List String) (times : String → ℕ × ℕ) (expired : String)
    (entry : CacheEntry) (late : is_expired (times expired).0 entry ≡ true) where
  lookup-blocks :
      (c : DnsCache D) (later : ℕ)
      → override_of c.overrides expired ≡ none
      → D.get c.cache expired ≡ some entry
      → lookup D lookup_host no_address c expired (times expired).0 later ≡ blocks
  unfolding lookup lookup_with_ttl or_override from_cache
  lookup-blocks c later free held = rw (free, held, late) refl

  next-blocks :
      (host : String) (hosts : List String) (c : DnsCache D) (n : Counts)
      (o : Outcome D.Map (Result Error String))
      → lookup D lookup_host no_address c host (times host).0 (times host).1 ≡ o
      → ((r : Result Error String) (m : D.Map) (n' : Counts)
          → o ≡ returns r m
          → lookup_all D lookup_host no_address iter times hosts (with_cache D c m) n' ≡ blocks)
      → lookup_all D lookup_host no_address iter times (host ∷ hosts) c n ≡ blocks
  unfolding lookup_all
  next-blocks host hosts c n blocks eq rest = rw (eq, lookup_all) refl
  next-blocks host hosts c n (returns (ok ip) m) eq rest =
      rw (eq, lookup_all) (rest (ok ip) m (count_success n) refl)
  next-blocks host hosts c n (returns (err e) m) eq rest =
      rw (eq, lookup_all) (rest (err e) m (count_error n) refl)

  -- Lookups of hosts among which one without an override has an entry that is expired when its turn comes
  -- do not return.
  pub lookup_all-blocks :
      (hosts : List String) (c : DnsCache D) (n : Counts)
      → contains hosts expired ≡ true
      → override_of c.overrides expired ≡ none
      → D.get c.cache expired ≡ some entry
      → lookup_all D lookup_host no_address iter times hosts c n ≡ blocks
  unfolding lookup
  lookup_all-blocks [] c n h free held = absurd (ground arith)
  lookup_all-blocks (host ∷ hosts) c n h free held = elim (Bool-cases (host == expired)) [
    | inl same ↦
        next-blocks host hosts c n blocks
          (rw ((==_iff host expired).0 same) (lookup-blocks c (times expired).1 free held))
          (λ r m n' eq. absurd (ground arith))
    | inr other ↦ next-blocks host hosts c n _ refl (λ r m n' eq.
        lookup_all-blocks hosts (with_cache D c m) n' (ground arith) free (
          lookup_other_host D lookup_host no_address c host c.default_ttl (times host).0
            (times host).1 r m expired eq other
          ∙ held))
  ]
