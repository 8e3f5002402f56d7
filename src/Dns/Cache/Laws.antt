-- ===== src/Dns/Cache/Laws.antt =====
-- src/dns/cache.rs: what a lookup leaves for the lookups after it.
use ferrumgw.Common.{
  ℕ, ◌+◌, ◌≤◌, String, ◌≡◌, refl, sym, ap, ◌∙◌, true, false, Bool-cases, inl, inr, Option, none,
  some, List, [], ◌∷◌, Result, ok, err, ltb, any, ◌==◌, ==_refl, string_eq, if◌then◌else◌, arith,
}
use ferrumgw.Common.DashMap.{DashMap}
use ferrumgw.Dns.Cache.{
  CacheEntry, new_entry, is_expired, override_of, returns, blocks, perform_lookup, DnsCache,
  store_result, from_cache, or_override, lookup_with_ttl, lookup, with_cache, refresh, prefetch,
  unless_overridden, soon_expired, purge_expired,
}

pub is_expired_new :
    (t later : ℕ) (ip : String) (ttl : ℕ)
    → later ≤ t
    → is_expired t (new_entry later ip ttl) ≡ (if ltb t (later + ttl) then false else true)
unfolding is_expired
is_expired_new t later ip ttl h = ground arith

module _ (D : DashMap CacheEntry) {Error : Type 0}
    (lookup_host : String → Result Error (List String)) (no_address : Error) where
  open D use {Map}

  store_result-insert :
      (m₀ m : Map) (hostname : String) (ttl later : ℕ) (ip : String) (o : Result Error String)
      → store_result D lookup_host no_address m₀ hostname ttl later o ≡ returns (ok ip) m
      → m ≡ D.insert m₀ hostname (new_entry later ip ttl)
  store_result-insert m₀ m hostname ttl later ip (ok ip') eq = ground arith
  store_result-insert m₀ m hostname ttl later ip (err e) eq = ground arith

  get-insert_same :
      (m : Map) (hostname : String) (entry : CacheEntry)
      → D.get (D.insert m hostname entry) hostname ≡ some entry
  get-insert_same m hostname entry =
      D.get-insert m hostname hostname entry
      ∙ ap (λ b. if b then some entry else D.get m hostname) (==_refl hostname)

  from_cache_entry :
      (m : Map) (hostname : String) (ttl' t t' later ttl : ℕ) (ip : String)
      → later ≤ t
      → from_cache D lookup_host no_address m hostname ttl' t t' (some (new_entry later ip ttl))
        ≡ (if ltb t (later + ttl) then returns (ok ip) m else blocks)
  unfolding from_cache
  from_cache_entry m hostname ttl' t t' later ttl ip le =
      rw (is_expired_new t later ip ttl le)
        (elim (Bool-cases (ltb t (later + ttl))) [ inl h ↦ rw h refl | inr h ↦ rw h refl ])

  store_result_other :
      (m₀ m : Map) (hostname j : String) (ttl later : ℕ) (r o : Result Error String)
      → store_result D lookup_host no_address m₀ hostname ttl later o ≡ returns r m
      → (hostname == j) ≡ false
      → D.get m j ≡ D.get m₀ j
  store_result_other m₀ m hostname j ttl later r (ok ip) eq other =
      ground (arith, D.get-insert m₀ hostname j (new_entry later ip ttl))
  store_result_other m₀ m hostname j ttl later r (err e) eq other = ground arith

  from_cache_other :
      (m₀ m : Map) (hostname j : String) (ttl now later : ℕ) (r : Result Error String)
      (entry : Option CacheEntry)
      → from_cache D lookup_host no_address m₀ hostname ttl now later entry ≡ returns r m
      → (hostname == j) ≡ false
      → D.get m j ≡ D.get m₀ j
  unfolding from_cache
  from_cache_other m₀ m hostname j ttl now later r none eq other =
      store_result_other m₀ m hostname j ttl later r
        (perform_lookup lookup_host no_address hostname) eq other
  from_cache_other m₀ m hostname j ttl now later r (some entry) eq other = ground arith

  or_override_other :
      (m₀ m : Map) (hostname j : String) (ttl now later : ℕ) (r : Result Error String)
      (ip : Option String)
      → or_override D lookup_host no_address m₀ hostname ttl now later ip ≡ returns r m
      → (hostname == j) ≡ false
      → D.get m j ≡ D.get m₀ j
  unfolding or_override
  or_override_other m₀ m hostname j ttl now later r none eq other =
      from_cache_other m₀ m hostname j ttl now later r (D.get m₀ hostname) eq other
  or_override_other m₀ m hostname j ttl now later r (some ip) eq other = ground arith

  store_result_returns :
      (m₀ : Map) (hostname : String) (ttl later : ℕ) (o : Result Error String)
      → (m : Map) × (store_result D lookup_host no_address m₀ hostname ttl later o ≡ returns o m)
  store_result_returns m₀ hostname ttl later (ok ip) = (_, refl)
  store_result_returns m₀ hostname ttl later (err e) = (_, refl)

  get-remove_same : (m : Map) (hostname : String) → D.get (D.remove m hostname) hostname ≡ none
  get-remove_same m hostname =
      D.get-remove m hostname hostname
      ∙ ap (λ b. if b then none else D.get m hostname) (==_refl hostname)

  soon_expired-fresh :
      (now : ℕ) (m : Map) (hostname : String) (ttl later : ℕ) (ip : String)
      (entry : Option CacheEntry)
      → soon_expired D now entry ≡ some ip
      → from_cache D lookup_host no_address m hostname ttl now later entry ≡ returns (ok ip) m
  unfolding from_cache
  soon_expired-fresh now m hostname ttl later ip none h = ground arith
  soon_expired-fresh now m hostname ttl later ip (some entry) h = ground arith

  unless_overridden-agrees :
      (now : ℕ) (m : Map) (hostname : String) (ttl later : ℕ) (ip : String) (o : Option String)
      → unless_overridden D now (D.get m hostname) o ≡ some ip
      → or_override D lookup_host no_address m hostname ttl now later o ≡ returns (ok ip) m
  unfolding or_override
  unless_overridden-agrees now m hostname ttl later ip none h =
      soon_expired-fresh now m hostname ttl later ip (D.get m hostname) h
  unless_overridden-agrees now m hostname ttl later ip (some ip') h = ground arith

  lookup_miss :
      (c : DnsCache D) (hostname : String) (ttl now later : ℕ)
      → override_of c.overrides hostname ≡ none
      → D.get c.cache hostname ≡ none
      → lookup_with_ttl D lookup_host no_address c hostname ttl now later
        ≡ store_result D lookup_host no_address c.cache hostname ttl later
            (perform_lookup lookup_host no_address hostname)
  unfolding lookup_with_ttl or_override from_cache
  lookup_miss c hostname ttl now later o g = rw (o, g) refl

  -- A host that has no override and no entry: what the lookup stores answers every lookup before the
  -- end of its time to live, with the same address and without a change of the map. From then on a
  -- lookup of the host waits for ever, since it removes the entry under a reference to it.
  pub lookup_then_lookup :
      (c : DnsCache D) (hostname : String) (ttl now later : ℕ) (ip : String) (m : Map)
      (ttl' t t' : ℕ)
      → override_of c.overrides hostname ≡ none
      → D.get c.cache hostname ≡ none
      → lookup_with_ttl D lookup_host no_address c hostname ttl now later ≡ returns (ok ip) m
      → later ≤ t
      → lookup_with_ttl D lookup_host no_address (with_cache D c m) hostname ttl' t t'
        ≡ (if ltb t (later + ttl) then returns (ok ip) m else blocks)
  unfolding lookup_with_ttl or_override
  lookup_then_lookup c hostname ttl now later ip m ttl' t t' o g served le =
      let stored =
        store_result-insert c.cache m hostname ttl later ip
          (perform_lookup lookup_host no_address hostname)
          (sym (lookup_miss c hostname ttl now later o g) ∙ served) in
      rw (o, stored, get-insert_same c.cache hostname (new_entry later ip ttl))
        (from_cache_entry (D.insert c.cache hostname (new_entry later ip ttl)) hostname ttl' t t'
          later ttl ip le)

  -- A lookup leaves the entries of the other hosts as they are.
  pub lookup_other_host :
      (c : DnsCache D) (hostname : String) (ttl now later : ℕ) (r : Result Error String) (m : Map)
      (j : String)
      → lookup_with_ttl D lookup_host no_address c hostname ttl now later ≡ returns r m
      → (hostname == j) ≡ false
      → D.get m j ≡ D.get c.cache j
  unfolding lookup_with_ttl
  lookup_other_host c hostname ttl now later r m j served other =
      or_override_other c.cache m hostname j ttl now later r (override_of c.overrides hostname)
        served other

  -- A refresh of a host without an override never waits: it returns what the network says at that
  -- time, whatever entry the cache had.
  pub refresh_asks :
      (c : DnsCache D) (hostname : String) (now later : ℕ)
      → override_of c.overrides hostname ≡ none
      → (m : Map) × (refresh D lookup_host no_address c hostname now later
          ≡ returns (perform_lookup lookup_host no_address hostname) m)
  unfolding refresh lookup lookup_with_ttl or_override from_cache
  refresh_asks c hostname now later o =
      rw (o, get-remove_same c.cache hostname)
        (store_result_returns (D.remove c.cache hostname) hostname c.default_ttl later
          (perform_lookup lookup_host no_address hostname))

  -- An address that `prefetch` returns is the one that a lookup at that time returns.
  pub prefetch_agrees :
      (c : DnsCache D) (hostname : String) (now ttl later : ℕ) (ip : String)
      → prefetch D c hostname now ≡ some ip
      → lookup_with_ttl D lookup_host no_address c hostname ttl now later ≡ returns (ok ip) c.cache
  unfolding prefetch lookup_with_ttl
  prefetch_agrees c hostname now ttl later ip h =
      unless_overridden-agrees now c.cache hostname ttl later ip (override_of c.overrides hostname)
        h

-- `purge_expired` purges nothing: it returns 0 where no entry is expired and waits for ever where
-- one is.
pub purge_expired_lem :
    (now : ℕ) (entries : List (String × CacheEntry))
    → purge_expired now entries ≡ (if any (λ kv. is_expired now kv.1) entries then none else some 0)
unfolding purge_expired
purge_expired_lem now [] = refl
purge_expired_lem now ((name, entry) ∷ rest) = ground (arith, purge_expired_lem now rest)
